-- ===== src/Router/Ordering.antt =====
-- Deduplication, sequence numbers, the out-of-order buffer and vector clocks on the way in, in
-- src/message/message-router.ts.
use yapyap.Prelude.{
  ℕ, ◌+◌, ◌-◌, ◌*◌, String, List, [], ◌∷◌, Option, none, some, Bool, true, false, ◌&&◌,
  if◌then◌else◌, or_else, ◌==◌, string_keys, nat_keys, leb, ltb, length,
}
use yapyap.Prelude.Int.{pos, negsuc}
use yapyap.Map.{get, put, delete}
use yapyap.Message.{Message, Header, header}
use yapyap.Database.{Db}
use yapyap.Database.Clocks.{get_vector_clock, get_last_peer_sequence}
use yapyap.Router.{Router, Env, Exec, ok, change}

abbrev pub default_max_clock_skew_ms : ℕ
default_max_clock_skew_ms = 5 * 60 * 1000

abbrev pub dedup_cache_limit : ℕ
dedup_cache_limit = 10000

abbrev pub max_buffered_out_of_order : ℕ
max_buffered_out_of_order = 512

-- Math.abs(now - timestamp) <= skew
unfoldable pub is_timestamp_valid : ℕ → ℕ → Bool
is_timestamp_valid now timestamp =
    leb (now - timestamp) default_max_clock_skew_ms
    && leb (timestamp - now) default_max_clock_skew_ms

-- delete(keys().next().value): an empty id is not deleted
drop_oldest : List (String × ℕ) → List (String × ℕ)
drop_oldest [] = []
drop_oldest ((oldest, at) ∷ cache) = if oldest == "" then (oldest, at) ∷ cache else cache

-- rememberProcessedMessage's write to the cache
unfoldable pub remember : ℕ → String → List (String × ℕ) → List (String × ℕ)
unfolding drop_oldest
remember now id cache =
    let cache' = put cache id now in
    if leb (length cache') dedup_cache_limit then cache' else drop_oldest cache'

unfoldable pub remember_processed_message : Env → String → Exec (Unit {0})
unfolding change
remember_processed_message env id =
    change (λ s. record s { processed_ids_cache = remember env.now id s.processed_ids_cache })

-- last === null || sequenceNumber > last
unfoldable pub is_sequence_valid : Db → String → Option ℕ → Bool
is_sequence_valid db peer none = true
is_sequence_valid db peer (some n) = elim (get_last_peer_sequence db peer) [
  | none ↦ true
  | some last ↦ ltb last n
]

unfoldable pub expected_sequence : Db → String → ℕ
expected_sequence db peer = or_else (get_last_peer_sequence db peer) 0 + 1

unfoldable pub should_buffer_out_of_order : Db → Header → Bool
should_buffer_out_of_order db h = elim h.sequence_number [
  | none ↦ false
  | some n ↦ ltb (expected_sequence db h.from) n
]

-- [...peerBuffer.keys()].sort((a, b) => a - b)[0]
unfoldable pub smallest_key : List (ℕ × Message) → Option ℕ
smallest_key [] = none
smallest_key ((k, m) ∷ buffer) =
    let rest = smallest_key buffer in
    elim rest [ none ↦ some k | some j ↦ if leb k j then some k else some j ]

-- the write of bufferOutOfOrderMessage to one peer's buffer
unfoldable pub buffer_put : ℕ → Message → List (ℕ × Message) → List (ℕ × Message)
unfolding smallest_key
buffer_put n m buffer =
    let buffer' = put buffer n m in
    if leb (length buffer') max_buffered_out_of_order
    then buffer'
    else elim (smallest_key buffer') [ none ↦ buffer' | some oldest ↦ delete buffer' oldest ]

unfoldable pub peer_buffer : Router → String → List (ℕ × Message)
peer_buffer s peer = or_else (get s.out_of_order_buffer peer) []

unfoldable pub buffer_out_of_order_message : Message → Exec (Unit {0})
buffer_out_of_order_message m s = elim (header m).sequence_number [
  | none ↦ (ok tt, s)
  | some n ↦ (
    ok tt,
    record s {
      out_of_order_buffer =
          put s.out_of_order_buffer (header m).from
            (buffer_put n m (peer_buffer s (header m).from));
    },
  )
]

-- isVectorClockValid: a clock that does not name the sender is no objection
unfoldable pub is_vector_clock_valid : Db → Header → Bool
is_vector_clock_valid db h = elim (get (or_else h.vector_clock []) h.from) [
  | none ↦ true
  | some (pos remote) ↦ leb (get_vector_clock db h.from) remote
  | some (negsuc n) ↦ false
]
