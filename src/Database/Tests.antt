-- ===== src/Database/Tests.antt =====
-- The database's theorems at inputs that meet their hypotheses.
use yapyap.Prelude.{refl, ℕ, String, ◌≡◌, true, [], ◌∷◌, none, some, string_keys, arith}
use yapyap.Prelude.Int.{pos, negsuc}
use yapyap.Message.{Message, message, MessageType, text}
use yapyap.Map.{get, put, delete}
use yapyap.Database.Contacts.{
  ContactEnv, Contact, PeerTables, get_contact, save_contact_lww, upsert_contact_search_index,
  save_peer_metadata, delete_expired_peer_metadata,
}
use yapyap.Database.{
  Db, empty_db, PendingRow, PendingStatus, ReplicatedRow, ReplicaRow, ReplicaStatus,
}
use yapyap.Database.Routes.{
  RoutingCacheEntry, save_routing_entry_lww, save_routing_entry_lww_commutes, get_cached_peer_count,
}
use yapyap.Database.Replicas.{assign_message_replica, assign_message_replica-target}
use yapyap.Database.Processed.{persist_incoming_message}

abbrev stored_message : Message
stored_message =
    message
      (record {
        id = "m1";
        type = MessageType.data_message;
        from = "a";
        to = "b";
        timestamp = 990;
        sequence_number = some 3;
        ttl = none;
        vector_clock = some (("a", pos 5) ∷ ("c", negsuc 0) ∷ []);
        original_message_id = "";
        reason = none;
        relay_envelope = none;
      })
      (text "hello")

abbrev after_one : Db
after_one = (persist_incoming_message 1000 stored_message empty_db).1

abbrev kept_row : PendingStatus → ℕ → PendingRow
kept_row status deadline = record {
  target_peer_id = "a";
  message_data = stored_message;
  status = status;
  attempts = 0;
  next_retry_at = 0;
  created_at = 0;
  updated_at = 0;
  deadline_at = deadline;
  last_error = none;
}

abbrev replicated_of : ℕ → ReplicatedRow
replicated_of deadline = record {
  original_target_peer_id = "a";
  source_peer_id = "b";
  status = PendingStatus.pending;
  created_at = 0;
  updated_at = 0;
  deadline_at = deadline;
}

abbrev replica_row : ReplicaRow
replica_row = record {
  status = ReplicaStatus.stored;
  assigned_at = 0;
  updated_at = 0;
  ack_expected = true;
  ack_received_at = none;
  last_error = none;
}

-- A live, an expired and a delivered row in the queue; a live and an expired replicated message.
abbrev crowded : Db
crowded = record after_one {
  pending_messages =
      ("p1", kept_row PendingStatus.pending 5000)
      ∷ ("p2", kept_row PendingStatus.pending 1500)
      ∷ ("p3", kept_row PendingStatus.delivered 5000)
      ∷ [];
  replicated_messages = ("r1", replicated_of 5000) ∷ ("r2", replicated_of 1500) ∷ [];
  message_replicas = (("r1", "c"), replica_row) ∷ (("r2", "c"), replica_row) ∷ [];
}

assign_message_replica-target_example :
    (row : ReplicatedRow) × (get
        (assign_message_replica 2000 "r1" "c" crowded).replicated_messages
        "r1"
      ≡ some row)
    × (row.original_target_peer_id ≡ "c")
    × (row.source_peer_id ≡ "c")
    × (row.deadline_at ≡ 3602000)
assign_message_replica-target_example = assign_message_replica-target 2000 "r1" "c" crowded

abbrev heard_at : ℕ → RoutingCacheEntry
heard_at time = record {
  peer_id = "alice";
  multiaddrs = "/ip4/10.0.0.1" ∷ [];
  last_seen = time;
  is_available = true;
  ttl = 100;
}

save_routing_entry_lww_commutes_example :
    get
      (save_routing_entry_lww
        (heard_at 5)
        (save_routing_entry_lww (heard_at 7) empty_db)).routing_cache
      "alice"
    ≡ get
        (save_routing_entry_lww
          (heard_at 7)
          (save_routing_entry_lww (heard_at 5) empty_db)).routing_cache
        "alice"
save_routing_entry_lww_commutes_example =
    save_routing_entry_lww_commutes (heard_at 7) (heard_at 5) empty_db "alice"
      (λ e. omega (arith, e))

the_newer_stays :
    get_cached_peer_count 106
      (save_routing_entry_lww (heard_at 5) (save_routing_entry_lww (heard_at 7) empty_db))
    ≡ 1
unfolding get_cached_peer_count save_routing_entry_lww get put
the_newer_stays = refl

abbrev plain_text : ContactEnv
plain_text = record { now = 50; normalize_metadata = λ t. t; format_metadata = λ t. t }

abbrev contact_at : ℕ → String → Contact
contact_at time alias = record {
  peer_id = "alice";
  alias = alias;
  last_seen = time;
  metadata = "";
  is_trusted = true;
}

abbrev after_both : PeerTables ℕ
after_both = save_contact_lww plain_text (contact_at 5 "old") (
    save_contact_lww plain_text (contact_at 7 "new")
      (record { contacts = []; search_index = []; peer_metadata = [] }))

-- The table keeps the newer contact, the search index the one that came last.
index_and_table :
    (get_contact plain_text after_both "alice" ≡ some (contact_at 7 "new"))
    × (after_both.search_index ≡ ("alice", record { alias = "old"; metadata = "" }) ∷ [])
unfolding get_contact save_contact_lww upsert_contact_search_index get put delete
index_and_table = (refl, refl)

-- Without a time to live of its own, an entry is gone after 86.4 seconds.
metadata_expires :
    (delete_expired_peer_metadata 86451 (save_peer_metadata 50 "alice" "color" 7 none after_both)).0
    ≡ 1
unfolding delete_expired_peer_metadata save_peer_metadata put save_contact_lww
    upsert_contact_search_index
metadata_expires = refl
