-- ===== src/Events/Scope.antt =====
-- ListenerScope of src/events/event-listener-types.ts, which keeps listeners of its own.
use yapyap.Prelude.{
  ℕ, ◌+◌, String, List, [], ◌∷◌, Option, none, some, Bool, false, true, if◌then◌else◌, string_keys,
  ◌==◌, map, nat_eq, length, or_else,
}
use yapyap.Map.{get, put, delete}
use yapyap.Events.{Listener, listener_keys, Listeners}

pub record ListenerScope : Type 0 where
  pub listener_map : List (String × Listeners)
  pub destroyed : Bool

abbrev pub new_scope : ListenerScope
new_scope = record { listener_map = []; destroyed = false }

-- addListener; `none` is the throw of a scope that is destroyed
unfoldable pub add_to_scope : String → Listener → ListenerScope → Option ListenerScope
add_to_scope type l s =
    if s.destroyed
    then none
    else some (record s {
      listener_map = put s.listener_map type (put (or_else (get s.listener_map type) []) l tt);
    })

abbrev pub taken_out : String → Listener → Option Listeners → ListenerScope → ListenerScope
taken_out type l none s = s
taken_out type l (some handlers) s =
    let rest = delete handlers l in
    record s {
      listener_map =
          if nat_eq (length rest) 0
          then delete s.listener_map type
          else put s.listener_map type rest;
    }

unfoldable pub remove_from_scope : String → Listener → ListenerScope → ListenerScope
remove_from_scope type l s = taken_out type l (get s.listener_map type) s

unfoldable pub clear_scope : ListenerScope → ListenerScope
clear_scope s = if s.destroyed then s else record s { listener_map = [] }

unfoldable pub destroy_scope : ListenerScope → ListenerScope
destroy_scope s = record s { destroyed = true; listener_map = [] }

unfoldable pub total_listeners : List (String × Listeners) → ℕ
total_listeners [] = 0
total_listeners ((type, handlers) ∷ rest) = length handlers + total_listeners rest

-- getListenerCount: of all types, if none is given
unfoldable pub scope_listener_count : Option String → ListenerScope → ℕ
unfolding total_listeners
scope_listener_count type s =
    let name = or_else type "" in
    if name == ""
    then total_listeners s.listener_map
    else length (or_else (get s.listener_map name) [])

unfoldable pub scope_event_types : ListenerScope → List String
scope_event_types s = map (λ e. e.0) s.listener_map
