-- ===== src/Events/Emit.antt =====
-- Whom `emit` of src/events/event-bus.ts calls.
use yapyap.Prelude.{
  ℕ, ◌≡◌, refl, sym, ap, ◌∙◌, String, List, [], ◌∷◌, ◌++◌, append_assoc, append-nil, Option, none,
  some, Bool, true, false, arith, if◌then◌else◌, string_keys, map, or_else,
}
use yapyap.Map.{get}
use yapyap.Events.{
  Listener, registered, once_of, listener_keys, Listeners, Event, EventBus, EventEnv, Change, adds,
  adds_once, removes, removes_all, shuts_down,
}
use yapyap.Events.Bus.{
  add_listener, removed, remove_listener, remove_all_listeners, once, shutdown, if_added,
  run_changes, function_of, note_call, after_call, call_listener, call_all, update_history,
  get_listeners, emit,
}

module _ {E : Type 0} where
  remove_listener-calls :
      (type : String) (l : Listener) (bus : EventBus E)
      → (remove_listener type l bus).calls ≡ bus.calls
  unfolding remove_listener
  remove_listener-calls type l bus = by_handlers (get bus.registry type)
    where
      by_handlers : (o : Option Listeners) → (removed type l o bus).calls ≡ bus.calls
      by_handlers none = refl
      by_handlers (some handlers) = refl

  if_added-kept :
      (P : EventBus E → Type 0) (o : Option (EventBus E)) (rest : EventBus E → Bool × EventBus E)
      (bus : EventBus E)
      → P bus
      → P (or_else o bus)
      → ((next : EventBus E) → P next → P (rest next).1)
      → P (if_added o rest bus).1
  if_added-kept P none rest bus h k go = h
  if_added-kept P (some next) rest bus h k go = go next k

  -- What no change of the bus by a listener breaks.
  pub record IsKept (P : EventBus E → Type 0) : Type 0 where
    pub adding :
        (type : String) (l : Listener) (bus : EventBus E)
        → P bus
        → P (or_else (add_listener type l bus) bus)
    pub adding_once :
        (type : String) (f : ℕ) (bus : EventBus E) → P bus → P (or_else (once type f bus) bus)
    pub removing :
        (type : String) (l : Listener) (bus : EventBus E) → P bus → P (remove_listener type l bus)
    pub removing_all :
        (type : String) (bus : EventBus E) → P bus → P (remove_all_listeners type bus)
    pub shutting_down : (bus : EventBus E) → P bus → P (shutdown bus)

  pub run_changes-kept :
      (P : EventBus E → Type 0)
      → IsKept P
      → (changes : List Change) (ok : Bool) (bus : EventBus E) → P bus
      → P (run_changes changes ok bus).1
  unfolding run_changes
  run_changes-kept P kept [] ok bus h = h
  run_changes-kept P kept (adds type l ∷ rest) ok bus h =
      if_added-kept P (add_listener type l bus) (run_changes rest ok) bus h
        (kept.adding type l bus h) (λ next k. run_changes-kept P kept rest ok next k)
  run_changes-kept P kept (adds_once type f ∷ rest) ok bus h =
      if_added-kept P (once type f bus) (run_changes rest ok) bus h (kept.adding_once type f bus h)
        (λ next k. run_changes-kept P kept rest ok next k)
  run_changes-kept P kept (removes type l ∷ rest) ok bus h =
      run_changes-kept P kept rest ok (remove_listener type l bus) (kept.removing type l bus h)
  run_changes-kept P kept (removes_all type ∷ rest) ok bus h =
      run_changes-kept P kept rest ok (remove_all_listeners type bus) (kept.removing_all type bus h)
  run_changes-kept P kept (shuts_down ∷ rest) ok bus h =
      run_changes-kept P kept rest ok (shutdown bus) (kept.shutting_down bus h)

  calls_kept : (calls : List (Listener × Event E)) → IsKept (λ bus. bus.calls ≡ calls)
  unfolding add_listener once shutdown remove_all_listeners
  calls_kept calls = record {
    adding = λ type l bus h. ground (arith, h);
    adding_once = λ type f bus h. ground (arith, h);
    removing = λ type l bus h. remove_listener-calls type l bus ∙ h;
    removing_all = λ type bus h. h;
    shutting_down = λ bus h. ground (arith, h);
  }

  run_changes-calls :
      (changes : List Change) (ok : Bool) (bus : EventBus E)
      → (run_changes changes ok bus).1.calls ≡ bus.calls
  run_changes-calls changes ok bus =
      run_changes-kept (λ b. b.calls ≡ bus.calls) (calls_kept bus.calls) changes ok bus refl

  after_call-calls :
      (type : String) (l : Listener) (ended : Bool) (bus : EventBus E)
      → (after_call type l (ended, bus)).calls ≡ bus.calls
  after_call-calls type (registered f) ended bus = refl
  after_call-calls type (once_of n f) true bus = remove_listener-calls type (once_of n f) bus
  after_call-calls type (once_of n f) false bus = refl

  call_listener-calls :
      (env : EventEnv E) (event : Event E) (l : Listener) (bus : EventBus E)
      → (call_listener env event l bus).calls ≡ bus.calls ++ (l, event) ∷ []
  unfolding call_listener
  call_listener-calls env event l bus =
      let (changes, ok) = env.handle (function_of l) event in
      after_call-calls event.type l (run_changes changes ok (note_call l event bus)).0
        (run_changes changes ok (note_call l event bus)).1
      ∙ run_changes-calls changes ok (note_call l event bus)

  call_all-calls :
      (env : EventEnv E) (event : Event E) (ls : List Listener) (bus : EventBus E)
      → (call_all env event ls bus).calls ≡ bus.calls ++ map (λ l. (l, event)) ls
  unfolding call_all
  call_all-calls env event [] bus = sym (append-nil bus.calls)
  call_all-calls env event (l ∷ rest) bus =
      call_all-calls env event rest (call_listener env event l bus)
      ∙ ap (λ cs. cs ++ map (λ l. (l, event)) rest) (call_listener-calls env event l bus)
      ∙ append_assoc bus.calls ((l, event) ∷ []) (map (λ l. (l, event)) rest)

-- While the bus is not shut down, emit calls exactly the listeners that its event's type had when
-- it was called, each once and in the order in which they came, whatever they change of the bus and
-- whether they throw.
pub emit-calls :
    {E : Type 0} (env : EventEnv E) (event : Event E) (bus : EventBus E)
    → bus.is_shutting_down ≡ false
    → (emit env event bus).calls ≡ bus.calls ++ map (λ l. (l, event)) (get_listeners bus event.type)
unfolding emit update_history
emit-calls env event bus running =
    ap
      (λ b.
        (if b
          then bus
          else update_history env.now event
              (call_all env event (get_listeners bus event.type) bus)).calls)
      running
    ∙ call_all-calls env event (get_listeners bus event.type) bus
