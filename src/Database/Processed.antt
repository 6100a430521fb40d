-- ===== src/Database/Processed.antt =====
-- processed_messages, and the atomic write of an accepted message (src/database/index.ts).
use yapyap.Prelude.{
  ℕ, String, ◌≡◌, List, [], ◌∷◌, Option, none, some, Bool, true, false, ◌==◌, string_keys, arith,
  if◌then◌else◌, ltb, is_some, keep, take, map, not, ◌||◌, refl, ◌∙◌, ==_iff, Bool-cases, inl, inr,
  or_else,
}
use yapyap.Prelude.Int.{ℤ, pos, negsuc}
use yapyap.Map.{get, put, get-put}
use yapyap.Message.{Message, header, id_of}
use yapyap.Database.{Db, ProcessedRow, HistoryRow, received, inbound, order_by}
use yapyap.Database.Pending.{upsert_message_history}
use yapyap.Database.Clocks.{
  merge_vector_clock, raise_peer_sequence, update_vector_clock, processed-merge_vector_clock,
  processed-raise_peer_sequence, processed-update_vector_clock,
}

unfoldable pub is_message_processed : Db → String → Bool
is_message_processed db id = is_some (get db.processed_messages id)

abbrev pub get_processed_message_ids_since : ℕ → ℕ → Db → List String
get_processed_message_ids_since since limit db =
    map (λ e. e.0)
      (take limit (
        order_by (λ e. e.1.processed_at)
          (keep (λ e. ltb since e.1.processed_at) db.processed_messages)))

-- updatedVectorPeers.has(peer)
abbrev pub clock_names : String → List (String × ℤ) → Bool
clock_names peer [] = false
clock_names peer ((j, pos n) ∷ clock) = elim (j == peer) [
  | true ↦ true
  | false ↦ clock_names peer clock
]
clock_names peer ((j, negsuc n) ∷ clock) = clock_names peer clock

insert_processed : ℕ → Message → Db → Db
insert_processed now m db =
    let row : ProcessedRow = record {
      from_peer_id = (header m).from;
      to_peer_id = (header m).to;
      message_data = m;
      sequence_number = (header m).sequence_number;
      processed_at = now;
    } in
    record db { processed_messages = put db.processed_messages (header m).id row }

received_history : ℕ → Message → HistoryRow
received_history now m = record {
  peer_id = (header m).from;
  status = received;
  message_data = m;
  attempts = 0;
  next_retry_at = none;
  processed_at = some now;
  created_at = 0;
  updated_at = 0;
}

-- the sequence number of the message, then its vector clock, then the sequence number as the
-- sender's clock where the vector clock does not name the sender
raise_sequence : ℕ → String → Option ℕ → Db → Db
raise_sequence now peer none db = db
raise_sequence now peer (some n) db = raise_peer_sequence now peer n db

-- where the vector clock does not name the sender, the sequence number is the sender's clock
sequence_as_clock : ℕ → String → List (String × ℤ) → Option ℕ → Db → Db
sequence_as_clock now peer clock none db = db
sequence_as_clock now peer clock (some n) db =
    if clock_names peer clock then db else update_vector_clock now peer n db

-- the sequence number of the message, then its vector clock
advance_peer : ℕ → Message → Db → Db
unfolding raise_sequence sequence_as_clock
advance_peer now m db =
    let h = header m in
    let clock = or_else h.vector_clock [] in
    sequence_as_clock now h.from clock h.sequence_number
      (merge_vector_clock now clock (raise_sequence now h.from h.sequence_number db))

raise_sequence-processed :
    (now : ℕ) (peer : String) (n : Option ℕ) (db : Db)
    → (raise_sequence now peer n db).processed_messages ≡ db.processed_messages
unfolding raise_sequence
raise_sequence-processed now peer none db = refl
raise_sequence-processed now peer (some n) db = processed-raise_peer_sequence now peer n db

sequence_as_clock-processed :
    (now : ℕ) (peer : String) (clock : List (String × ℤ)) (n : Option ℕ) (db : Db)
    → (sequence_as_clock now peer clock n db).processed_messages ≡ db.processed_messages
unfolding sequence_as_clock
sequence_as_clock-processed now peer clock none db = refl
sequence_as_clock-processed now peer clock (some n) db =
    ground (arith, processed-update_vector_clock now peer n db)

advance_peer-processed :
    (now : ℕ) (m : Message) (db : Db)
    → (advance_peer now m db).processed_messages ≡ db.processed_messages
unfolding advance_peer
advance_peer-processed now m db =
    let h = header m in
    let clock = or_else h.vector_clock [] in
    let raised = raise_sequence now h.from h.sequence_number db in
    sequence_as_clock-processed now h.from clock h.sequence_number
      (merge_vector_clock now clock raised)
    ∙ processed-merge_vector_clock now clock raised
    ∙ raise_sequence-processed now h.from h.sequence_number db

-- persistIncomingMessageAtomically: the database after the transaction, and `applied`
unfoldable pub persist_incoming_message : ℕ → Message → Db → Bool × Db
unfolding insert_processed received_history advance_peer
persist_incoming_message now m db = if is_message_processed db (header m).id then (false, db) else (
  true,
  advance_peer now m (
      upsert_message_history now (header m).id inbound (received_history now m)
        (insert_processed now m db)),
)

marked : ℕ → Message → Db → Db
unfolding insert_processed received_history
marked now m db =
    upsert_message_history now (header m).id inbound (received_history now m)
      (insert_processed now m db)

is_message_processed-marked :
    (now : ℕ) (m : Message) (db : Db) (id : String)
    → is_message_processed (advance_peer now m (marked now m db)) id
      ≡ ((id_of m == id) || is_message_processed db id)
unfolding is_message_processed marked upsert_message_history
is_message_processed-marked now m db id =
    rw (advance_peer-processed now m (marked now m db))
      (rw (get-put db.processed_messages (id_of m) id _) (ground arith))

-- A write marks exactly the message's id as processed, and says whether it was new.
pub persist_incoming_message_lem :
    (now : ℕ) (m : Message) (db : Db) (id : String)
    → ((persist_incoming_message now m db).0 ≡ not (is_message_processed db (id_of m)))
      × (is_message_processed (persist_incoming_message now m db).1 id
          ≡ ((id_of m == id) || is_message_processed db id))
unfolding persist_incoming_message marked
persist_incoming_message_lem now m db id = elim (Bool-cases (is_message_processed db (id_of m))) [
  | inl old ↦ rw (old, persist_incoming_message) (refl, ground (arith, old, ==_iff (id_of m) id))
  | inr new ↦ rw (new, persist_incoming_message) (refl, is_message_processed-marked now m db id)
]

persist_incoming_message-known :
    (now : ℕ) (m : Message) (db : Db)
    → is_message_processed db (id_of m) ≡ true
    → persist_incoming_message now m db ≡ (false, db)
unfolding persist_incoming_message
persist_incoming_message-known now m db e = rw (e, persist_incoming_message) refl

-- A message that is written a second time, at whatever time, changes nothing in the whole
-- database, and the write says so.
pub persist_incoming_message-twice :
    (now later : ℕ) (m : Message) (db : Db)
    → persist_incoming_message later m (persist_incoming_message now m db).1
      ≡ (false, (persist_incoming_message now m db).1)
persist_incoming_message-twice now later m db =
    persist_incoming_message-known later m (persist_incoming_message now m db).1 (
      (persist_incoming_message_lem now m db (id_of m)).1
      ∙ ground (arith, ==_iff (id_of m) (id_of m)))
