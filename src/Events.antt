-- ===== src/Events.antt =====
-- EventBus of src/events/event-bus.ts. A listener is a function with an identity: one that the
-- program registers, or the wrapper that `once` makes. What a listener does is the surroundings':
-- the changes of the bus that it makes, and whether it ends well. Listeners that emit in turn are
-- left out, as is the log. The state has the calls of listeners in their order.
pub mod Bus
pub mod Emit
pub mod Bounded
pub mod Runs
pub mod Scope
pub mod Utilities
pub mod Tests
use yapyap.Prelude.{
  ℕ, ◌+◌, ◌≡◌, ◌↔◌, refl, ap, ◌∙◌, String, List, [], ◌∷◌, ◌++◌, Option, none, some, Bool, true,
  false, ◌&&◌, arith, if◌then◌else◌, nat_eq, nat_eq_iff, HasKeys, ltb, length, map, is_some,
}

-- `registered f`: a function with the identity f; `once_of n f`: the nth wrapper, round f
pub data Listener : Type 0 where
  registered : ℕ → Listener
  once_of : ℕ → ℕ → Listener

abbrev pub same_listener : Listener → Listener → Bool
same_listener (registered f) (registered g) = nat_eq f g
same_listener (once_of n f) (once_of m g) = nat_eq n m && nat_eq f g
same_listener (registered f) (once_of m g) = false
same_listener (once_of n f) (registered g) = false

pub same_listener_iff : (a b : Listener) → (same_listener a b ≡ true) ↔ (a ≡ b)
same_listener_iff (registered f) (registered g) = ground (arith, nat_eq_iff f g)
same_listener_iff (once_of n f) (once_of m g) = ground (arith, nat_eq_iff n m, nat_eq_iff f g)
same_listener_iff (registered f) (once_of m g) = ground arith
same_listener_iff (once_of n f) (registered g) = ground arith

instance abbrev pub listener_keys : HasKeys Listener
listener_keys = record { same = same_listener; same_iff = same_listener_iff }

pub record Event (E : Type 0) : Type 0 where
  pub type : String
  pub content : E

-- A Set of listeners, in the order in which they came.
abbrev pub Listeners : Type 0
Listeners = List (Listener × Unit {0})

pub record EventBus (E : Type 0) : Type 0 where
  pub registry : List (String × Listeners)
  pub history : List (String × List (Event E × ℕ))
  pub max_history_size : ℕ
  pub is_shutting_down : Bool
  pub wrappers : ℕ
  pub calls : List (Listener × Event E)

-- A call of the bus that a listener makes.
pub data Change : Type 0 where
  adds removes : String → Listener → Change
  adds_once : String → ℕ → Change
  removes_all : String → Change
  shuts_down : Change

pub record EventEnv (E : Type 0) : Type 0 where
  pub now : ℕ
  -- what the function of this identity does with an event, and whether it ends well
  pub handle : ℕ → Event E → List Change × Bool

-- the constructor, for options.maxHistorySize
abbrev pub new_event_bus : {E : Type 0} → Option ℕ → EventBus E
new_event_bus size = record {
  registry = [];
  history = [];
  max_history_size = elim size [ none ↦ 100 | some n ↦ n ];
  is_shutting_down = false;
  wrappers = 0;
  calls = [];
}

-- getInstance, over the static instance
abbrev pub get_instance : {E : Type 0} → Option ℕ → Option (EventBus E) → EventBus E
get_instance size none = new_event_bus size
get_instance size (some bus) = bus
