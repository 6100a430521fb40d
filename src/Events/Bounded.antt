-- ===== src/Events/Bounded.antt =====
-- How long the histories of src/events/event-bus.ts get, and what a shutdown leaves.
use mathlib.Core.Bool.{false≢true}
use yapyap.Prelude.{
  ℕ, ◌+◌, ◌≤◌, ◌≡◌, refl, sym, ap, subst, ◌∙◌, String, List, [], ◌∷◌, ◌++◌, Option, none, some,
  Bool, true, false, arith, if◌then◌else◌, ◌==◌, string_keys, or_else, length, Bool-cases, inl, inr,
}
use yapyap.Map.{get, put, delete, get-put, get-delete}
use yapyap.Events.{
  Listener, registered, once_of, listener_keys, Listeners, Event, EventBus, EventEnv,
}
use yapyap.Events.Bus.{
  add_listener, removed, remove_listener, remove_all_listeners, once, shutdown, run_changes,
  function_of, note_call, after_call, call_listener, call_all, shift_while, update_history,
  get_listeners, emit, clear_history,
}
use yapyap.Events.Emit.{IsKept, run_changes-kept}

abbrev pub kept_history :
    {E : Type 0} → List (String × List (Event E × ℕ)) → String → List (Event E × ℕ)
kept_history history type = or_else (get history type) []

pub record IsBounded {E : Type 0} (size : ℕ) (bus : EventBus E) : Type 0 where
  pub maximum : bus.max_history_size ≡ size
  pub short : (type : String) → length (kept_history bus.history type) ≤ size
  pub silent : bus.is_shutting_down ≡ true → bus.registry ≡ []

shift_while-length : {A : Type 0} (max : ℕ) (xs : List A) → length (shift_while max xs) ≤ max
shift_while-length max [] = omega arith
shift_while-length max (x ∷ xs) = ground (arith, shift_while-length max xs)

module _ {E : Type 0} (size : ℕ) where
  change_registry :
      (bus : EventBus E) (registry : List (String × Listeners))
      → IsBounded size bus
      → (bus.registry ≡ [] → registry ≡ [])
      → IsBounded size (record bus { registry = registry })
  change_registry bus registry h emptied = record {
    maximum = h.maximum;
    short = h.short;
    silent = λ e. emptied (h.silent e);
  }

  add-IsBounded :
      (type : String) (l : Listener) (bus other : EventBus E)
      → IsBounded size bus
      → IsBounded size other
      → IsBounded size (or_else (add_listener type l bus) other)
  unfolding add_listener
  add-IsBounded type l bus other h k = by_flag bus.is_shutting_down refl
    where
      by_flag :
          (b : Bool)
          → bus.is_shutting_down ≡ b
          → IsBounded size (
              or_else
                (if b
                  then none
                  else some (record bus {
                    registry =
                        put bus.registry type (put (or_else (get bus.registry type) []) l tt);
                  }))
                other)
      by_flag true e = k
      by_flag false e = record {
        maximum = h.maximum;
        short = h.short;
        silent = λ shut. absurd (false≢true (sym e ∙ shut));
      }

  remove-IsBounded :
      (type : String) (l : Listener) (bus : EventBus E)
      → IsBounded size bus
      → IsBounded size (remove_listener type l bus)
  unfolding remove_listener get
  remove-IsBounded type l bus h =
      subst (IsBounded size) (sym (by_handlers (get bus.registry type))) (
        change_registry bus (removed type l (get bus.registry type) bus).registry h
          (λ e. ap (λ r. (removed type l (get r type) bus).registry) e ∙ e))
    where
      by_handlers :
          (o : Option Listeners)
          → removed type l o bus ≡ record bus { registry = (removed type l o bus).registry }
      by_handlers none = refl
      by_handlers (some handlers) = refl

  shutdown-IsBounded : (bus : EventBus E) → IsBounded size bus → IsBounded size (shutdown bus)
  unfolding shutdown get
  shutdown-IsBounded bus h = by_flag bus.is_shutting_down
    where
      by_flag :
          (b : Bool)
          → IsBounded size (
              if b
              then bus
              else record bus { is_shutting_down = true; registry = []; history = [] })
      by_flag true = h
      by_flag false = record {
        maximum = h.maximum;
        short = λ type. omega arith;
        silent = λ e. refl;
      }

  pub kept : IsKept (IsBounded {E = E} size)
  unfolding once remove_all_listeners delete
  kept = record {
    adding = λ type l bus h. add-IsBounded type l bus bus h h;
    adding_once = λ type f bus h.
        add-IsBounded type (once_of bus.wrappers f) (record bus { wrappers = bus.wrappers + 1 }) bus
          (record { maximum = h.maximum; short = h.short; silent = h.silent }) h;
    removing = remove-IsBounded;
    removing_all = λ type bus h.
        change_registry bus (delete bus.registry type) h (λ e. ap (λ r. delete r type) e);
    shutting_down = shutdown-IsBounded;
  }

  after_call-IsBounded :
      (type : String) (l : Listener) (ended : Bool) (bus : EventBus E)
      → IsBounded size bus
      → IsBounded size (after_call type l (ended, bus))
  after_call-IsBounded type (registered f) ended bus h = h
  after_call-IsBounded type (once_of n f) true bus h = remove-IsBounded type (once_of n f) bus h
  after_call-IsBounded type (once_of n f) false bus h = h

  call_all-IsBounded :
      (env : EventEnv E) (event : Event E) (ls : List Listener) (bus : EventBus E)
      → IsBounded size bus
      → IsBounded size (call_all env event ls bus)
  unfolding call_all call_listener
  call_all-IsBounded env event [] bus h = h
  call_all-IsBounded env event (l ∷ rest) bus h =
      let (changes, ok) = env.handle (function_of l) event in
      let noted : IsBounded size (note_call l event bus) = record {
        maximum = h.maximum;
        short = h.short;
        silent = h.silent;
      } in
      let (ended, changed) = run_changes changes ok (note_call l event bus) in
      call_all-IsBounded env event rest (after_call event.type l (ended, changed)) (
        after_call-IsBounded event.type l ended changed
          (run_changes-kept (IsBounded size) kept changes ok (note_call l event bus) noted))

  update_history-IsBounded :
      (now : ℕ) (event : Event E) (bus : EventBus E)
      → IsBounded size bus
      → IsBounded size (update_history now event bus)
  unfolding update_history
  update_history-IsBounded now event bus h = record {
    maximum = h.maximum;
    short = λ type.
        let events =
          shift_while bus.max_history_size
            (or_else (get bus.history event.type) [] ++ (event, now) ∷ []) in
        elim (Bool-cases (event.type == type)) [
          | inl same ↦
              rw (get-put bus.history event.type type events, same)
                (omega (
                  arith,
                  shift_while-length bus.max_history_size
                      (or_else (get bus.history event.type) [] ++ (event, now) ∷ []),
                  h.maximum,
                ))
          | inr other ↦ rw (get-put bus.history event.type type events, other) (h.short type)
        ];
    silent = h.silent;
  }

  pub clear-IsBounded :
      (type : Option String) (bus : EventBus E)
      → IsBounded size bus
      → IsBounded size (clear_history type bus)
  unfolding clear_history get
  clear-IsBounded type bus h = by_name (or_else type "" == "")
    where
      by_name :
          (empty : Bool)
          → IsBounded size
              (record bus { history = if empty then [] else delete bus.history (or_else type "") })
      by_name true = record { maximum = h.maximum; short = λ t. omega arith; silent = h.silent }
      by_name false = record {
        maximum = h.maximum;
        short = λ t. elim (Bool-cases (or_else type "" == t)) [
          | inl same ↦ rw (get-delete bus.history (or_else type "") t, same) (omega arith)
          | inr other ↦ rw (get-delete bus.history (or_else type "") t, other) (h.short t)
        ];
        silent = h.silent;
      }

  pub emit-IsBounded :
      (env : EventEnv E) (event : Event E) (bus : EventBus E)
      → IsBounded size bus
      → IsBounded size (emit env event bus)
  unfolding emit
  emit-IsBounded env event bus h = by_flag bus.is_shutting_down
    where
      by_flag :
          (b : Bool)
          → IsBounded size (
              if b
              then bus
              else update_history env.now event
                  (call_all env event (get_listeners bus event.type) bus))
      by_flag true = h
      by_flag false =
          update_history-IsBounded env.now event
            (call_all env event (get_listeners bus event.type) bus)
            (call_all-IsBounded env event (get_listeners bus event.type) bus h)
