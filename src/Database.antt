-- ===== src/Database.antt =====
-- DatabaseManager of src/database/index.ts over the schema of src/database/schema.ts: a table is
-- an association list by its primary key, in the order of insertion. A `message_data` text is
-- represented by the message that it spells. Each operation takes the clock's reading, `now`.
-- Foreign keys cascade, as better-sqlite3 has it by default. Operations and laws: the children.
pub mod Pending
pub mod Replicas
pub mod Processed
pub mod Clocks
pub mod Cleanup
pub mod Routes
pub mod Sessions
pub mod Contacts
pub mod Keys
pub mod Whole
pub mod Tests
use yapyap.Prelude.{
  ℕ, String, List, [], ◌∷◌, Option, Bool, true, false, HasKeys, ◌==◌, string_keys, ◌&&◌, ◌≡◌, refl,
  ◌↔◌, arith, ==_iff, if◌then◌else◌, leb,
}
use yapyap.Message.{Message}

pub data PendingStatus : Type 0 where
  pending processing delivered failed : PendingStatus

pub record PendingRow : Type 0 where
  pub target_peer_id : String
  pub message_data : Message
  pub status : PendingStatus
  pub attempts : ℕ
  pub next_retry_at : ℕ
  pub created_at : ℕ
  pub updated_at : ℕ
  pub deadline_at : ℕ
  pub last_error : Option String

pub record ReplicatedRow : Type 0 where
  pub original_target_peer_id : String
  pub source_peer_id : String
  pub status : PendingStatus
  pub created_at : ℕ
  pub updated_at : ℕ
  pub deadline_at : ℕ

pub data ReplicaStatus : Type 0 where
  assigned stored delivered failed : ReplicaStatus

pub record ReplicaRow : Type 0 where
  pub status : ReplicaStatus
  pub assigned_at : ℕ
  pub updated_at : ℕ
  pub ack_expected : Bool
  pub ack_received_at : Option ℕ
  pub last_error : Option String

pub record ProcessedRow : Type 0 where
  pub from_peer_id : String
  pub to_peer_id : String
  pub message_data : Message
  pub sequence_number : Option ℕ
  pub processed_at : ℕ

pub record SequenceRow : Type 0 where
  pub last_sequence : ℕ
  pub updated_at : ℕ

pub record ClockRow : Type 0 where
  pub counter : ℕ
  pub updated_at : ℕ

pub data Direction : Type 0 where
  inbound outbound : Direction

pub data HistoryStatus : Type 0 where
  received : HistoryStatus
  sending : PendingStatus → HistoryStatus

pub record HistoryRow : Type 0 where
  pub peer_id : String
  pub status : HistoryStatus
  pub message_data : Message
  pub attempts : ℕ
  pub next_retry_at : Option ℕ
  pub processed_at : Option ℕ
  pub created_at : ℕ
  pub updated_at : ℕ

pub record RoutingRow : Type 0 where
  pub multiaddrs : List String
  pub last_seen : ℕ
  pub is_available : Bool
  pub ttl : ℕ

-- Two primary keys have two columns.
abbrev pub replica_key_eq : String × String → String × String → Bool
replica_key_eq (a, b) (c, d) = (a == c) && (b == d)

pub replica_key_eq_iff : (p q : String × String) → (replica_key_eq p q ≡ true) ↔ (p ≡ q)
replica_key_eq_iff (a, b) (c, d) = ground (arith, ==_iff a c, ==_iff b d)

instance abbrev pub replica_keys : HasKeys (String × String)
replica_keys = record { same = replica_key_eq; same_iff = replica_key_eq_iff }

abbrev pub history_key_eq : String × Direction → String × Direction → Bool
history_key_eq (a, Direction.inbound) (c, Direction.inbound) = a == c
history_key_eq (a, Direction.outbound) (c, Direction.outbound) = a == c
history_key_eq (a, Direction.inbound) (c, Direction.outbound) = false
history_key_eq (a, Direction.outbound) (c, Direction.inbound) = false

pub history_key_eq_iff : (p q : String × Direction) → (history_key_eq p q ≡ true) ↔ (p ≡ q)
history_key_eq_iff (a, Direction.inbound) (c, Direction.inbound) = ground (arith, ==_iff a c)
history_key_eq_iff (a, Direction.outbound) (c, Direction.outbound) = ground (arith, ==_iff a c)
history_key_eq_iff (a, Direction.inbound) (c, Direction.outbound) = ground arith
history_key_eq_iff (a, Direction.outbound) (c, Direction.inbound) = ground arith

instance abbrev pub history_keys : HasKeys (String × Direction)
history_keys = record { same = history_key_eq; same_iff = history_key_eq_iff }

pub record Db : Type 0 where
  pub routing_cache : List (String × RoutingRow)
  pub pending_messages : List (String × PendingRow)
  pub replicated_messages : List (String × ReplicatedRow)
  pub message_replicas : List ((String × String) × ReplicaRow)
  pub processed_messages : List (String × ProcessedRow)
  pub peer_sequences : List (String × SequenceRow)
  pub peer_vector_clocks : List (String × ClockRow)
  pub message_history : List ((String × Direction) × HistoryRow)

abbrev pub empty_db : Db
empty_db = record {
  routing_cache = [];
  pending_messages = [];
  replicated_messages = [];
  message_replicas = [];
  processed_messages = [];
  peer_sequences = [];
  peer_vector_clocks = [];
  message_history = [];
}

-- `ORDER BY key ASC`: a stable insertion sort
insert_by {ℓ} : {A : Type ℓ} → (A → ℕ) → A → List A → List A
insert_by key a [] = a ∷ []
insert_by key a (b ∷ bs) = if leb (key a) (key b) then a ∷ b ∷ bs else b ∷ insert_by key a bs

unfoldable pub order_by {ℓ} : {A : Type ℓ} → (A → ℕ) → List A → List A
unfolding insert_by
order_by key [] = []
order_by key (a ∷ rows) = insert_by key a (order_by key rows)
