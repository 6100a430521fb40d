-- ===== src/Events/Tests.antt =====
-- Runs of the event bus at small inputs, and its theorems at inputs that meet their hypotheses.
use yapyap.Prelude.{
  ℕ, ◌≤◌, ◌≡◌, refl, List, [], ◌∷◌, ◌++◌, none, some, true, false, nat_eq, if◌then◌else◌, map,
  length, string_keys,
}
use yapyap.Map.{get, put, delete}
use yapyap.Events.{
  registered, once_of, listener_keys, Event, EventBus, EventEnv, removes, shuts_down, new_event_bus,
}
use yapyap.Events.Bus.{
  add_listener, remove_listener, once, emit, get_listeners, get_history, call_all, call_listener,
  run_changes, update_history, shutdown, get_listener_count, has_listeners,
  get_registered_event_types,
}
use yapyap.Events.Emit.{emit-calls}
use yapyap.Events.Runs.{Op, add, add_once, emits, shut, run, step, run-bounded}

abbrev hello : Event ℕ
hello = record { type = "message:received"; content = 7 }

-- Function 1 throws, function 2 takes function 3 out, function 4 shuts the bus down.
abbrev listeners_of : ℕ → EventEnv ℕ
listeners_of now = record {
  now = now;
  handle = λ f event.
      if nat_eq f 1
      then ([], false)
      else if nat_eq f 2
      then (removes "message:received" (registered 3) ∷ [], true)
      else if nat_eq f 4
      then (shuts_down ∷ [], true)
      else ([], true);
}

abbrev four_listeners : List (Op ℕ)
four_listeners =
    add_once "message:received" 1
    ∷ add "message:received" (registered 2)
    ∷ add "message:received" (registered 3)
    ∷ add_once "message:received" 5
    ∷ []

abbrev fresh : EventBus ℕ
fresh = new_event_bus (some 2)

abbrev listened : EventBus ℕ
listened = record fresh {
  registry =
      (
        "message:received",
        (once_of 0 1, tt) ∷ (registered 2, tt) ∷ (registered 3, tt) ∷ (once_of 1 5, tt) ∷ [],
      )
      ∷ [];
  wrappers = 2;
}

four_added : run four_listeners fresh ≡ listened
unfolding run step add_listener once get put
four_added = refl

emit-calls_example :
    (emit (listeners_of 10) hello listened).calls
    ≡ map (λ l. (l, hello)) (get_listeners listened "message:received")
emit-calls_example = emit-calls (listeners_of 10) hello listened refl

-- A `once` listener that throws stays, and one that ends well goes.
after_one :
    get_listeners (emit (listeners_of 10) hello listened) "message:received"
    ≡ once_of 0 1 ∷ registered 2 ∷ []
unfolding get_listeners emit call_all call_listener run_changes remove_listener update_history get
    put delete
after_one = refl

run-bounded_example :
    (length (
        get_history
          (run (four_listeners ++ emits (listeners_of 10) hello ∷ shut ∷ []) fresh)
          "message:received"
          none)
      ≤ 2)
    × ((run (four_listeners ++ emits (listeners_of 10) hello ∷ shut ∷ []) fresh).is_shutting_down
          ≡ true
        → get_listeners
            (run (four_listeners ++ emits (listeners_of 10) hello ∷ shut ∷ []) fresh)
            "message:received"
          ≡ [])
run-bounded_example =
    run-bounded 2 (four_listeners ++ emits (listeners_of 10) hello ∷ shut ∷ []) "message:received"

-- A listener shuts the bus down: the event is kept all the same.
abbrev shut_within : List (Op ℕ)
shut_within = add "message:received" (registered 4) ∷ emits (listeners_of 10) hello ∷ []

kept_after_shutdown : get_history (run shut_within fresh) "message:received" none ≡ (hello, 10) ∷ []
unfolding run step add_listener emit call_all call_listener run_changes shutdown update_history
    get_listeners get_history get put
kept_after_shutdown = refl

counted :
    (has_listeners listened "message:received" ≡ true)
    × (get_listener_count listened "message:sent" ≡ 0)
    × (get_registered_event_types listened ≡ "message:received" ∷ [])
unfolding has_listeners get_listener_count get_registered_event_types get
counted = (refl, refl, refl)
