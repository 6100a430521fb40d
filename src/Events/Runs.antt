-- ===== src/Events/Runs.antt =====
-- Runs of the methods of EventBus in src/events/event-bus.ts.
use yapyap.Prelude.{
  ℕ, ◌≤◌, ◌≡◌, refl, ap, String, List, [], ◌∷◌, Option, none, some, true, arith, string_keys, map,
  or_else, length,
}
use yapyap.Map.{get}
use yapyap.Events.{Listener, listener_keys, Event, EventBus, EventEnv, new_event_bus}
use yapyap.Events.Bus.{
  add_listener, remove_listener, remove_all_listeners, once, shutdown, get_listeners, emit,
  get_history, clear_history,
}
use yapyap.Events.Bounded.{IsBounded, kept, clear-IsBounded, emit-IsBounded}

-- The methods that change a bus, as calls.
pub data Op (E : Type 0) : Type 0 where
  add remove : String → Listener → Op E
  add_once : String → ℕ → Op E
  remove_all : String → Op E
  emits : EventEnv E → Event E → Op E
  clear : Option String → Op E
  shut : Op E

unfoldable pub step : {E : Type 0} → Op E → EventBus E → EventBus E
step (add type l) bus = or_else (add_listener type l bus) bus
step (remove type l) bus = remove_listener type l bus
step (add_once type f) bus = or_else (once type f bus) bus
step (remove_all type) bus = remove_all_listeners type bus
step (emits env event) bus = emit env event bus
step (clear type) bus = clear_history type bus
step shut bus = shutdown bus

unfoldable pub run : {E : Type 0} → List (Op E) → EventBus E → EventBus E
run [] bus = bus
run (o ∷ ops) bus = run ops (step o bus)

module _ {E : Type 0} (size : ℕ) where
  run_from-IsBounded :
      (ops : List (Op E)) (bus : EventBus E) → IsBounded size bus → IsBounded size (run ops bus)
  unfolding run step
  run_from-IsBounded [] bus h = h
  run_from-IsBounded (add type l ∷ ops) bus h =
      run_from-IsBounded ops (or_else (add_listener type l bus) bus)
        ((kept size).adding type l bus h)
  run_from-IsBounded (remove type l ∷ ops) bus h =
      run_from-IsBounded ops (remove_listener type l bus) ((kept size).removing type l bus h)
  run_from-IsBounded (add_once type f ∷ ops) bus h =
      run_from-IsBounded ops (or_else (once type f bus) bus) ((kept size).adding_once type f bus h)
  run_from-IsBounded (remove_all type ∷ ops) bus h =
      run_from-IsBounded ops (remove_all_listeners type bus) ((kept size).removing_all type bus h)
  run_from-IsBounded (emits env event ∷ ops) bus h =
      run_from-IsBounded ops (emit env event bus) (emit-IsBounded size env event bus h)
  run_from-IsBounded (clear type ∷ ops) bus h =
      run_from-IsBounded ops (clear_history type bus) (clear-IsBounded size type bus h)
  run_from-IsBounded (shut ∷ ops) bus h =
      run_from-IsBounded ops (shutdown bus) ((kept size).shutting_down bus h)

-- After any run of the methods on a new bus, whatever the listeners do: the history of no type is
-- longer than the size that the bus was made with, and a bus that is shut down has no listeners.
pub run-bounded :
    {E : Type 0} (size : ℕ) (ops : List (Op E)) (type : String)
    → (length (get_history (run ops (new_event_bus (some size))) type none) ≤ size)
      × ((run ops (new_event_bus (some size))).is_shutting_down ≡ true
          → get_listeners (run ops (new_event_bus (some size))) type ≡ [])
unfolding get_history get_listeners get
run-bounded size ops type =
    let h =
      run_from-IsBounded size ops (new_event_bus (some size))
        (record { maximum = refl; short = λ t. omega arith; silent = λ e. refl }) in
    (h.short type, λ shut. ap (λ r. map (λ l. l.0) (or_else (get r type) [])) (h.silent shut))
