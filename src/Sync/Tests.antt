-- ===== src/Sync/Tests.antt =====
-- Runs of the sync protocol at small inputs, and its theorems at inputs that meet their hypotheses.
use yapyap.Prelude.{ℕ, ◌≡◌, refl, arith, String, List, [], ◌∷◌, ◌++◌, none, some, string_keys}
use yapyap.Map.{get, put}
use yapyap.Text.{codes}
use yapyap.Router.Peers.{xor_bits}
use yapyap.Protocol.{WithError}
use yapyap.Sync.{
  Delta, Data, fields, no_object, object, scalar, NodeState, new_node_state, set_state, apply_delta,
  get_deltas_since, get_peer_metadata, set_peer_metadata,
}
use yapyap.Sync.Handler.{
  SyncEnv, SyncState, SyncResponse, state, sync_request, sync_response, handle_sync_message,
  create_sync_request,
}
use yapyap.Sync.Closest.{distance_loop, text_distance}
use yapyap.Sync.History.{apply_all, assign_all, get_deltas_since-catches_up}
use yapyap.Sync.Exchange.{handle_sync_message-exchange}

abbrev early : List (ℕ × Delta ℕ)
early = (1, fields (("a", 1) ∷ [])) ∷ (2, fields (("b", 2) ∷ ("a", 3) ∷ [])) ∷ []

abbrev late : List (ℕ × Delta ℕ)
late = (5, fields (("a", 7) ∷ [])) ∷ (6, no_object) ∷ (7, fields (("c", 0) ∷ [])) ∷ []

get_deltas_since-catches_up_example :
    assign_all
      (get_deltas_since (apply_all (early ++ late) new_node_state) 4)
      (apply_all early new_node_state).state
    ≡ (apply_all (early ++ late) new_node_state).state
get_deltas_since-catches_up_example =
    get_deltas_since-catches_up 4 early late refl refl (omega arith)

caught_up : (apply_all (early ++ late) new_node_state).state ≡ ("a", 7) ∷ ("b", 2) ∷ ("c", 0) ∷ []
unfolding apply_all apply_delta put
caught_up = refl

abbrev lengths : Data ℕ → String
lengths (object []) = "empty"
lengths d = "other"

abbrev without_callbacks : ℕ → SyncEnv ℕ
without_callbacks now = record {
  now = now;
  remote_peer_id = "bob";
  hash_of = lengths;
  null_value = 0;
  read_metadata = none;
  save_metadata = none;
}

abbrev node_with : NodeState ℕ → WithError (SyncState ℕ)
node_with s = record {
  inner = record { node = s; saved = []; mismatches = [] };
  last_protocol_error = none;
}

handle_sync_message-exchange_example :
    (r : SyncResponse ℕ) × (handle_sync_message
        (without_callbacks 10)
        (sync_request (create_sync_request (without_callbacks 9) "alice" state "r1" none none))
        (node_with (apply_all late new_node_state))
      ≡ (some r, node_with (apply_all late new_node_state)))
    × (handle_sync_message
          (without_callbacks 11)
          (sync_response r)
          (node_with (apply_all early new_node_state))
        ≡ (
          none,
          node_with
              (set_state (apply_all late new_node_state).state (apply_all early new_node_state)),
        ))
handle_sync_message-exchange_example =
    handle_sync_message-exchange (without_callbacks 10) (without_callbacks 11) (without_callbacks 9)
      "alice" "r1" state none none (node_with (apply_all late new_node_state))
      (node_with (apply_all early new_node_state)) (λ d. refl)

the_distance : text_distance codes "ab" "ac" ≡ 1
unfolding text_distance distance_loop xor_bits
the_distance = refl

abbrev blank : NodeState ℕ
blank = new_node_state

kept_metadata :
    get_peer_metadata (set_peer_metadata 3 "bob" "color" (scalar 5) blank) "bob" "color"
    ≡ some (scalar 5)
unfolding get_peer_metadata set_peer_metadata get put
kept_metadata = refl
