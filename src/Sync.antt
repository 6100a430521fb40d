-- ===== src/Sync.antt =====
-- The sync protocol, src/protocols/sync.ts: a node's state with its deltas and the handlers of
-- requests and responses. What the code calls `unknown` is seen as far as the code looks at it
-- (`Data`); the fields' own values are of a type `V`. Object keys keep the order of insertion.
pub mod Handler
pub mod Closest
pub mod History
pub mod Exchange
pub mod Tests
use yapyap.Prelude.{
  ℕ, zero, suc, ◌+◌, ◌-◌, ◌++◌, String, List, [], ◌∷◌, Option, none, some, Bool, true, false, ◌&&◌,
  not, if◌then◌else◌, ◌==◌, string_keys, ltb, keep, map, drop, length, is_some, or_else,
}
use yapyap.Map.{get, put}

-- An object of the state's fields, or a value that is no object.
pub data Delta (V : Type 0) : Type 0 where
  fields : List (String × V) → Delta V
  no_object : Delta V

-- A value as `&&`, `typeof` and Array.isArray see it.
pub data Data (V : Type 0) : Type 0 where
  falsy scalar : V → Data V
  array : List (Delta V) → Data V
  object : List (String × V) → Data V

pub record MetadataEntry (V : Type 0) : Type 0 where
  pub value : Data V
  pub updated_at : ℕ

pub record NodeState (V : Type 0) : Type 0 where
  pub state : List (String × V)
  pub metadata : List (String × List (String × MetadataEntry V))
  pub delta_history : List (ℕ × Delta V)

abbrev pub new_node_state : {V : Type 0} → NodeState V
new_node_state = record { state = []; metadata = []; delta_history = [] }

abbrev pub set_state : {V : Type 0} → List (String × V) → NodeState V → NodeState V
set_state new_state s = record s { state = new_state }

abbrev pub peer_data : {V : Type 0} → NodeState V → String → List (String × MetadataEntry V)
peer_data s peer = or_else (get s.metadata peer) []

abbrev value_of : {V : Type 0} → Option (MetadataEntry V) → Option (Data V)
value_of none = none
value_of (some entry) = some entry.value

unfoldable pub get_peer_metadata : {V : Type 0} → NodeState V → String → String → Option (Data V)
get_peer_metadata s peer key = value_of (get (peer_data s peer) key)

unfoldable pub set_peer_metadata :
    {V : Type 0} → ℕ → String → String → Data V → NodeState V → NodeState V
set_peer_metadata now peer key value s = record s {
  metadata =
      put s.metadata peer (put (peer_data s peer) key (record { value = value; updated_at = now }));
}

-- the loop over the keys of a delta
abbrev pub assign_fields : {V : Type 0} → List (String × V) → List (String × V) → List (String × V)
assign_fields [] state = state
assign_fields ((key, value) ∷ rest) state = assign_fields rest (put state key value)

abbrev pub assign_delta : {V : Type 0} → Delta V → List (String × V) → List (String × V)
assign_delta (fields fs) state = assign_fields fs state
assign_delta no_object state = state

abbrev pub max_history : ℕ
max_history = 100

-- if (this.deltaHistory.length > 100) this.deltaHistory.shift()
abbrev pub shift_over {ℓ} : {A : Type ℓ} → ℕ → List A → List A
shift_over max xs = if ltb max (length xs) then drop 1 xs else xs

unfoldable pub apply_delta : {V : Type 0} → ℕ → Delta V → NodeState V → NodeState V
apply_delta now delta s = record s {
  state = assign_delta delta s.state;
  delta_history = shift_over max_history (s.delta_history ++ (now, delta) ∷ []);
}

unfoldable pub get_deltas_since : {V : Type 0} → NodeState V → ℕ → List (Delta V)
get_deltas_since s time = map (λ d. d.1) (keep (λ d. ltb time d.0) s.delta_history)

abbrev pub last_of {ℓ} : {A : Type ℓ} → ℕ → List A → List A
last_of n xs = drop (length xs - n) xs

-- slice(-limit): a limit of 0 is the whole list
abbrev pub slice_last {ℓ} : {A : Type ℓ} → ℕ → List A → List A
slice_last zero xs = xs
slice_last (suc n) xs = last_of (suc n) xs

unfoldable pub get_recent_deltas : {V : Type 0} → NodeState V → ℕ → List (Delta V)
get_recent_deltas s limit = map (λ d. d.1) (slice_last limit s.delta_history)
