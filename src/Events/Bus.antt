-- ===== src/Events/Bus.antt =====
-- The methods of EventBus in src/events/event-bus.ts.
use yapyap.Prelude.{
  ℕ, ◌+◌, ◌-◌, String, List, [], ◌∷◌, ◌++◌, Option, none, some, Bool, true, false, not,
  if◌then◌else◌, ◌==◌, string_keys, nat_eq, ltb, length, map, drop, or_else,
}
use yapyap.Map.{get, put, delete}
use yapyap.Events.{
  Listener, registered, once_of, listener_keys, Listeners, Event, EventBus, EventEnv, Change, adds,
  adds_once, removes, removes_all, shuts_down,
}

abbrev without : String → Listeners → List (String × Listeners) → List (String × Listeners)
without type handlers registry =
    if nat_eq (length handlers) 0 then delete registry type else put registry type handlers

-- the function of a listener
abbrev pub function_of : Listener → ℕ
function_of (registered f) = f
function_of (once_of n f) = f

-- while (eventHistory.length > this.maxHistorySize) eventHistory.shift()
abbrev pub shift_while {ℓ} : {A : Type ℓ} → ℕ → List A → List A
shift_while max [] = []
shift_while max (x ∷ xs) =
    let rest = shift_while max xs in if ltb max (length (x ∷ xs)) then rest else x ∷ xs

module _ {E : Type 0} where
  -- addListener; `none` is the throw after the shutdown
  unfoldable pub add_listener : String → Listener → EventBus E → Option (EventBus E)
  add_listener type l bus =
      if bus.is_shutting_down
      then none
      else some (record bus {
        registry = put bus.registry type (put (or_else (get bus.registry type) []) l tt);
      })

  abbrev pub removed : String → Listener → Option Listeners → EventBus E → EventBus E
  removed type l none bus = bus
  removed type l (some handlers) bus = record bus {
    registry = without type (delete handlers l) bus.registry;
  }

  unfoldable pub remove_listener : String → Listener → EventBus E → EventBus E
  remove_listener type l bus = removed type l (get bus.registry type) bus

  unfoldable pub remove_all_listeners : String → EventBus E → EventBus E
  remove_all_listeners type bus = record bus { registry = delete bus.registry type }

  -- once: every call makes a new wrapper
  unfoldable pub once : String → ℕ → EventBus E → Option (EventBus E)
  once type f bus =
      add_listener type (once_of bus.wrappers f) (record bus { wrappers = bus.wrappers + 1 })

  unfoldable pub shutdown : EventBus E → EventBus E
  shutdown bus =
      if bus.is_shutting_down
      then bus
      else record bus { is_shutting_down = true; registry = []; history = [] }

  -- A call that throws ends the listener; otherwise it goes on.
  abbrev pub if_added :
      Option (EventBus E) → (EventBus E → Bool × EventBus E) → EventBus E → Bool × EventBus E
  if_added none rest bus = (false, bus)
  if_added (some next) rest bus = rest next

  -- What a listener does to the bus.
  unfoldable pub run_changes : List Change → Bool → EventBus E → Bool × EventBus E
  unfolding add_listener remove_listener remove_all_listeners once shutdown
  run_changes [] ends_well bus = (ends_well, bus)
  run_changes (adds type l ∷ rest) ends_well bus =
      if_added (add_listener type l bus) (run_changes rest ends_well) bus
  run_changes (adds_once type f ∷ rest) ends_well bus =
      if_added (once type f bus) (run_changes rest ends_well) bus
  run_changes (removes type l ∷ rest) ends_well bus =
      run_changes rest ends_well (remove_listener type l bus)
  run_changes (removes_all type ∷ rest) ends_well bus =
      run_changes rest ends_well (remove_all_listeners type bus)
  run_changes (shuts_down ∷ rest) ends_well bus = run_changes rest ends_well (shutdown bus)

  abbrev pub note_call : Listener → Event E → EventBus E → EventBus E
  note_call l event bus = record bus { calls = bus.calls ++ (l, event) ∷ [] }

  -- the end of the wrapper of `once`: it goes if its function ended well
  abbrev pub after_call : String → Listener → Bool × EventBus E → EventBus E
  after_call type (registered f) (ended, bus) = bus
  after_call type (once_of n f) (ended, bus) =
      if ended then remove_listener type (once_of n f) bus else bus

  -- `handler(event)` inside the try block
  unfoldable pub call_listener : EventEnv E → Event E → Listener → EventBus E → EventBus E
  call_listener env event l bus =
      let (changes, ends_well) = env.handle (function_of l) event in
      after_call event.type l (run_changes changes ends_well (note_call l event bus))

  -- Array.from(handlers).map(...): the listeners that were there when the event came
  unfoldable pub call_all : EventEnv E → Event E → List Listener → EventBus E → EventBus E
  call_all env event [] bus = bus
  call_all env event (l ∷ rest) bus = call_all env event rest (call_listener env event l bus)

  unfoldable pub update_history : ℕ → Event E → EventBus E → EventBus E
  update_history now event bus = record bus {
    history = put bus.history event.type (
        shift_while bus.max_history_size
          (or_else (get bus.history event.type) [] ++ (event, now) ∷ []));
  }

  unfoldable pub get_listeners : EventBus E → String → List Listener
  get_listeners bus type = map (λ l. l.0) (or_else (get bus.registry type) [])

  unfoldable pub get_listener_count : EventBus E → String → ℕ
  get_listener_count bus type = length (or_else (get bus.registry type) [])

  unfoldable pub has_listeners : EventBus E → String → Bool
  has_listeners bus type = not (nat_eq (get_listener_count bus type) 0)

  unfoldable pub get_registered_event_types : EventBus E → List String
  get_registered_event_types bus = map (λ e. e.0) bus.registry

  unfoldable pub emit : EventEnv E → Event E → EventBus E → EventBus E
  emit env event bus =
      if bus.is_shutting_down
      then bus
      else update_history env.now event (call_all env event (get_listeners bus event.type) bus)

  -- getHistory: a limit of 0 is none
  unfoldable pub get_history : EventBus E → String → Option ℕ → List (Event E × ℕ)
  get_history bus type limit =
      let events = or_else (get bus.history type) [] in
      let n = or_else limit 0 in if nat_eq n 0 then events else drop (length events - n) events

  -- clearHistory: an empty type is none
  unfoldable pub clear_history : Option String → EventBus E → EventBus E
  clear_history type bus =
      let name = or_else type "" in
      record bus { history = if name == "" then [] else delete bus.history name }
