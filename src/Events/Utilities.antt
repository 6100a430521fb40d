-- ===== src/Events/Utilities.antt =====
-- createBatchedEmitter of src/events/event-bus-utilities.ts. The timer is set or not; that it fires
-- is a step of its own. A flush runs to its end before the next step.
use yapyap.Prelude.{
  ℕ, String, List, [], ◌∷◌, ◌++◌, Option, none, some, Bool, true, false, not, if◌then◌else◌, ◌==◌,
  string_keys, leb, length, any,
}
use yapyap.Events.{Event, EventBus, EventEnv}
use yapyap.Events.Bus.{emit}

pub record BatchOptions : Type 0 where
  pub max_batch_size : ℕ
  pub event_types : Option (List String)

pub record BatchedEmitter (E : Type 0) : Type 0 where
  pub batch : List (Event E)
  pub timer_set : Bool
  pub bus : EventBus E

abbrev pub is_batched : BatchOptions → String → Bool
is_batched options type = elim options.event_types [
  | none ↦ true
  | some types ↦ any (λ t. t == type) types
]

module _ {E : Type 0} where
  unfoldable pub emit_all : EventEnv E → List (Event E) → EventBus E → EventBus E
  emit_all env [] bus = bus
  emit_all env (event ∷ events) bus = emit_all env events (emit env event bus)

  unfoldable pub flush_batch : EventEnv E → BatchedEmitter E → BatchedEmitter E
  unfolding emit_all
  flush_batch env b = record b { batch = []; bus = emit_all env b.batch b.bus }

  unfoldable pub emit_batched :
      EventEnv E → BatchOptions → Event E → BatchedEmitter E → BatchedEmitter E
  emit_batched env options event b =
      if not (is_batched options event.type)
      then record b { bus = emit env event b.bus }
      else let added = record b { batch = b.batch ++ event ∷ [] } in
        if leb options.max_batch_size (length added.batch)
        then flush_batch env added
        else record added { timer_set = true }

  -- the timer's function
  unfoldable pub on_batch_timer : EventEnv E → BatchedEmitter E → BatchedEmitter E
  on_batch_timer env b = record (flush_batch env b) { timer_set = false }

  unfoldable pub stop_batched : EventEnv E → BatchedEmitter E → BatchedEmitter E
  stop_batched env b = flush_batch env (record b { timer_set = false })

  unfoldable pub get_batch_size : BatchedEmitter E → ℕ
  get_batch_size b = length b.batch

  unfoldable pub clear_batch : BatchedEmitter E → BatchedEmitter E
  clear_batch b = record b { batch = [] }
