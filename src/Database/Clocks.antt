-- ===== src/Database/Clocks.antt =====
-- peer_sequences and peer_vector_clocks (src/database/index.ts).
use yapyap.Prelude.{
  ℕ, ◌≤◌, max, String, ◌≡◌, List, [], ◌∷◌, Option, none, some, ◌==◌, string_keys, ==_iff, arith,
  if◌then◌else◌, ltb, map, or_else, refl, ◌∙◌,
}
use yapyap.Prelude.Int.{ℤ, pos, negsuc}
use yapyap.Map.{get, put, get-put}
use yapyap.Database.{Db, SequenceRow, ClockRow}

abbrev pub sequence_of : Option SequenceRow → Option ℕ
sequence_of none = none
sequence_of (some row) = some row.last_sequence

abbrev pub counter_of : Option ClockRow → ℕ
counter_of none = 0
counter_of (some row) = row.counter

unfoldable pub get_last_peer_sequence : Db → String → Option ℕ
get_last_peer_sequence db peer = sequence_of (get db.peer_sequences peer)

unfoldable pub get_vector_clock : Db → String → ℕ
get_vector_clock db peer = counter_of (get db.peer_vector_clocks peer)

-- CASE WHEN excluded.n > old.n THEN excluded.n ELSE old.n END
abbrev pub larger : ℕ → ℕ → ℕ
larger excluded old = if ltb old excluded then excluded else old

abbrev raised_counter : ℕ → Option ClockRow → ℕ
raised_counter counter none = counter
raised_counter counter (some row) = larger counter row.counter

abbrev raised_sequence : ℕ → Option SequenceRow → ℕ
raised_sequence sequence none = sequence
raised_sequence sequence (some row) = larger sequence row.last_sequence

unfoldable pub update_vector_clock : ℕ → String → ℕ → Db → Db
update_vector_clock now peer counter db =
    let value = raised_counter counter (get db.peer_vector_clocks peer) in
    record db {
      peer_vector_clocks =
          put db.peer_vector_clocks peer (record { counter = value; updated_at = now });
    }

-- the statement of persistIncomingMessageAtomically, which keeps the larger number
unfoldable pub raise_peer_sequence : ℕ → String → ℕ → Db → Db
raise_peer_sequence now peer sequence db =
    let value = raised_sequence sequence (get db.peer_sequences peer) in
    record db {
      peer_sequences =
          put db.peer_sequences peer (record { last_sequence = value; updated_at = now });
    }

-- updatePeerSequence writes the number whatever was there
unfoldable pub update_peer_sequence : ℕ → String → ℕ → Db → Db
update_peer_sequence now peer sequence db = record db {
  peer_sequences =
      put db.peer_sequences peer (record { last_sequence = sequence; updated_at = now });
}

unfoldable pub get_all_vector_clocks : Db → List (String × ℤ)
get_all_vector_clocks db = map (λ e. (e.0, pos e.1.counter)) db.peer_vector_clocks

-- for (const [peerId, counter] of Object.entries(clock)), negative counters skipped
unfoldable pub merge_vector_clock : ℕ → List (String × ℤ) → Db → Db
merge_vector_clock now [] db = db
merge_vector_clock now ((peer, pos counter) ∷ clock) db =
    merge_vector_clock now clock (update_vector_clock now peer counter db)
merge_vector_clock now ((peer, negsuc n) ∷ clock) db = merge_vector_clock now clock db

-- A clock is only ever raised: reading back gives the larger of the two counters, and no other
-- peer's clock changes.
pub get_vector_clock-update_vector_clock :
    (now : ℕ) (peer other : String) (counter : ℕ) (db : Db)
    → get_vector_clock (update_vector_clock now peer counter db) other ≡ (
        if peer == other then max counter (get_vector_clock db peer) else get_vector_clock db other)
unfolding get_vector_clock update_vector_clock
get_vector_clock-update_vector_clock now peer other counter db =
    let value = raised_counter counter (get db.peer_vector_clocks peer) in
    rw (get-put db.peer_vector_clocks peer other (record { counter = value; updated_at = now }))
      (ground arith)

-- The last sequence number of a peer is only ever raised, and no other peer's number changes.
pub get_last_peer_sequence-raise_peer_sequence :
    (now : ℕ) (peer other : String) (n : ℕ) (db : Db)
    → get_last_peer_sequence (raise_peer_sequence now peer n db) other ≡ (
        if peer == other
        then some (max n (or_else (get_last_peer_sequence db peer) 0))
        else get_last_peer_sequence db other)
unfolding get_last_peer_sequence raise_peer_sequence
get_last_peer_sequence-raise_peer_sequence now peer other n db =
    let value = raised_sequence n (get db.peer_sequences peer) in
    rw (get-put db.peer_sequences peer other (record { last_sequence = value; updated_at = now }))
      (ground arith)

module _ (now : ℕ) (peer : String) (n : ℕ) (db : Db) where
  pub get_last_peer_sequence-update_vector_clock :
      (other : String)
      → get_last_peer_sequence (update_vector_clock now peer n db) other
        ≡ get_last_peer_sequence db other
  unfolding get_last_peer_sequence update_vector_clock
  get_last_peer_sequence-update_vector_clock other = refl

  pub processed-update_vector_clock :
      (update_vector_clock now peer n db).processed_messages ≡ db.processed_messages
  unfolding update_vector_clock
  processed-update_vector_clock = refl

  pub processed-raise_peer_sequence :
      (raise_peer_sequence now peer n db).processed_messages ≡ db.processed_messages
  unfolding raise_peer_sequence
  processed-raise_peer_sequence = refl

pub get_last_peer_sequence-merge_vector_clock :
    (now : ℕ) (clock : List (String × ℤ)) (db : Db) (other : String)
    → get_last_peer_sequence (merge_vector_clock now clock db) other
      ≡ get_last_peer_sequence db other
unfolding merge_vector_clock
get_last_peer_sequence-merge_vector_clock now [] db other = refl
get_last_peer_sequence-merge_vector_clock now ((peer, pos n) ∷ clock) db other =
    get_last_peer_sequence-merge_vector_clock now clock (update_vector_clock now peer n db) other
    ∙ get_last_peer_sequence-update_vector_clock now peer n db other
get_last_peer_sequence-merge_vector_clock now ((peer, negsuc n) ∷ clock) db other =
    get_last_peer_sequence-merge_vector_clock now clock db other

pub processed-merge_vector_clock :
    (now : ℕ) (clock : List (String × ℤ)) (db : Db)
    → (merge_vector_clock now clock db).processed_messages ≡ db.processed_messages
unfolding merge_vector_clock
processed-merge_vector_clock now [] db = refl
processed-merge_vector_clock now ((peer, pos n) ∷ clock) db =
    processed-merge_vector_clock now clock (update_vector_clock now peer n db)
    ∙ processed-update_vector_clock now peer n db
processed-merge_vector_clock now ((peer, negsuc n) ∷ clock) db =
    processed-merge_vector_clock now clock db

-- Merging never lowers a peer's counter: no message can take a clock back.
pub get_vector_clock-le-merge_vector_clock :
    (now : ℕ) (clock : List (String × ℤ)) (db : Db) (peer : String)
    → get_vector_clock db peer ≤ get_vector_clock (merge_vector_clock now clock db) peer
unfolding merge_vector_clock
get_vector_clock-le-merge_vector_clock now [] db peer = omega arith
get_vector_clock-le-merge_vector_clock now ((j, pos n) ∷ clock) db peer = ground (
  arith,
  ==_iff j peer,
  get_vector_clock-update_vector_clock now j peer n db,
  get_vector_clock-le-merge_vector_clock now clock (update_vector_clock now j n db) peer,
)
get_vector_clock-le-merge_vector_clock now ((j, negsuc n) ∷ clock) db peer =
    get_vector_clock-le-merge_vector_clock now clock db peer
