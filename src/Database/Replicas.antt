-- ===== src/Database/Replicas.antt =====
-- replicated_messages and message_replicas (src/database/index.ts).
use yapyap.Prelude.{
  ◌≡◌, refl, ◌∙◌, ==_refl, ℕ, ◌+◌, String, List, Option, none, some, Bool, true, false, ◌&&◌, ◌==◌,
  string_keys, keep, ltb, is_some, not, if◌then◌else◌,
}
use mathlib.Core.List.{[], ◌∷◌}
use yapyap.Map.{get, put, modify, get-put}
use yapyap.Database.{
  Db, PendingStatus, ReplicatedRow, ReplicaRow, ReplicaStatus, replica_keys, order_by,
}

replicated_row : ℕ → String → String → ℕ → Option ReplicatedRow → ReplicatedRow
replicated_row now target source deadline none = record {
  original_target_peer_id = target;
  source_peer_id = source;
  status = PendingStatus.pending;
  created_at = now;
  updated_at = now;
  deadline_at = deadline;
}
replicated_row now target source deadline (some old) = record old {
  original_target_peer_id = target;
  source_peer_id = source;
  updated_at = now;
  deadline_at = deadline;
}

unfoldable pub upsert_replicated_message : ℕ → String → String → String → ℕ → Db → Db
unfolding replicated_row
upsert_replicated_message now id target source deadline db =
    let row = replicated_row now target source deadline (get db.replicated_messages id) in
    record db { replicated_messages = put db.replicated_messages id row }

-- ensureReplicatedMessageRow
unfoldable pub ensure_replicated_message_row : ℕ → String → String → Db → Db
ensure_replicated_message_row now id replica =
    upsert_replicated_message now id replica replica (now + 3600000)

assigned_row : ℕ → Option ReplicaRow → ReplicaRow
assigned_row now none = record {
  status = ReplicaStatus.assigned;
  assigned_at = now;
  updated_at = now;
  ack_expected = true;
  ack_received_at = none;
  last_error = none;
}
assigned_row now (some old) = record old {
  status = ReplicaStatus.assigned;
  updated_at = now;
  ack_expected = true;
  last_error = none;
}

unfoldable pub assign_message_replica : ℕ → String → String → Db → Db
unfolding ensure_replicated_message_row assigned_row
assign_message_replica now id replica db =
    let db' = ensure_replicated_message_row now id replica db in
    let row = assigned_row now (get db'.message_replicas (id, replica)) in
    record db' { message_replicas = put db'.message_replicas (id, replica) row }

unfoldable pub update_replica : String → String → (ReplicaRow → ReplicaRow) → Db → Db
update_replica id replica f db = record db {
  message_replicas = modify db.message_replicas (id, replica) f;
}

unfoldable pub mark_replica_stored : ℕ → String → String → Db → Db
mark_replica_stored now id replica =
    update_replica id replica
      (λ r. record r { status = ReplicaStatus.stored; updated_at = now; last_error = none })

unfoldable pub mark_replica_failed : ℕ → String → String → Option String → Db → Db
mark_replica_failed now id replica reason =
    update_replica id replica
      (λ r. record r { status = ReplicaStatus.failed; updated_at = now; last_error = reason })

unfoldable pub update_replica_ack_expected : ℕ → String → String → Bool → Db → Db
update_replica_ack_expected now id replica expected =
    update_replica id replica (λ r. record r { ack_expected = expected; updated_at = now })

unfoldable pub mark_replica_ack_received : ℕ → String → String → Db → Db
mark_replica_ack_received now id replica =
    update_replica id replica (λ r. record r { ack_received_at = some now; updated_at = now })

abbrev pub is_replica_of : String → (String × String) × ReplicaRow → Bool
is_replica_of id e = e.0.0 == id

unfoldable pub get_message_replicas : String → Db → List ((String × String) × ReplicaRow)
get_message_replicas id db =
    order_by (λ e. e.1.assigned_at) (keep (is_replica_of id) db.message_replicas)

unfoldable pub get_replica_ack_status : String → Db → List ((String × String) × ReplicaRow)
get_replica_ack_status id db =
    keep (λ e. is_replica_of id e && e.1.ack_expected) db.message_replicas

unfoldable pub update_replicated : ℕ → String → PendingStatus → Db → Db
update_replicated now id status db = record db {
  replicated_messages =
      modify db.replicated_messages id (λ r. record r { status = status; updated_at = now });
}

unfoldable pub mark_replicated_message_delivered : ℕ → String → Db → Db
mark_replicated_message_delivered now id = update_replicated now id PendingStatus.delivered

unfoldable pub mark_replicated_message_failed : ℕ → String → Db → Db
mark_replicated_message_failed now id = update_replicated now id PendingStatus.failed

abbrev pub is_pending : PendingStatus → Bool
is_pending PendingStatus.pending = true
is_pending PendingStatus.processing = false
is_pending PendingStatus.delivered = false
is_pending PendingStatus.failed = false

abbrev pub is_stored : ReplicaStatus → Bool
is_stored ReplicaStatus.assigned = false
is_stored ReplicaStatus.stored = true
is_stored ReplicaStatus.delivered = false
is_stored ReplicaStatus.failed = false

unfoldable pub waits_for_ack : ReplicaRow → Bool
waits_for_ack r = r.ack_expected && not (is_some r.ack_received_at) && is_stored r.status

-- the row's original_target_peer_id comes from the join
unfoldable pub waiting_rows :
    ℕ → Db → List ((String × String) × ReplicaRow) → List ((String × String) × String)
waiting_rows now db [] = []
waiting_rows now db (e ∷ es) =
    let rest = waiting_rows now db es in
    elim (get db.replicated_messages e.0.0) [
      | none ↦ rest
      | some rm ↦
          if waits_for_ack e.1 && is_pending rm.status && ltb now rm.deadline_at
          then (e.0, rm.original_target_peer_id) ∷ rest
          else rest
    ]

unfoldable pub get_messages_waiting_for_replica_ack : ℕ → Db → List ((String × String) × String)
get_messages_waiting_for_replica_ack now db = waiting_rows now db db.message_replicas

-- Whatever was kept of a message, assigning it to a replica peer records that peer as the target
-- of the message and as its source, and gives it an hour from now.
pub assign_message_replica-target :
    (now : ℕ) (id replica : String) (db : Db)
    → (row : ReplicatedRow) × (get (assign_message_replica now id replica db).replicated_messages id
        ≡ some row)
      × (row.original_target_peer_id ≡ replica)
      × (row.source_peer_id ≡ replica)
      × (row.deadline_at ≡ now + 3600000)
unfolding assign_message_replica ensure_replicated_message_row upsert_replicated_message
assign_message_replica-target now id replica db =
    let old = get db.replicated_messages id in
    let row = replicated_row now replica replica (now + 3600000) old in
    let written : get (put db.replicated_messages id row) id ≡ some row =
      get-put db.replicated_messages id id row ∙ rw (==_refl id) refl in
    let (target, source, deadline) = targets old in (row, written, target, source, deadline)
  where
    targets :
        (old : Option ReplicatedRow)
        → ((replicated_row now replica replica (now + 3600000) old).original_target_peer_id
            ≡ replica)
          × ((replicated_row now replica replica (now + 3600000) old).source_peer_id ≡ replica)
          × ((replicated_row now replica replica (now + 3600000) old).deadline_at ≡ now + 3600000)
    targets none = (refl, refl, refl)
    targets (some row) = (refl, refl, refl)
