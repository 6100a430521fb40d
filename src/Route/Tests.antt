-- ===== src/Route/Tests.antt =====
-- Runs of the route protocol at small inputs, and its theorems at inputs that meet their hypotheses.
use yapyap.Prelude.{
  ℕ, ◌≤◌, ◌≡◌, refl, arith, nat_eq, if◌then◌else◌, string_keys, List, [], ◌∷◌, ◌++◌, Option, none,
  some, Bool, true, false, ap,
}
use yapyap.Prelude.Int.{pos}
use yapyap.Map.{get, put}
use yapyap.Protocol.{WithError}
use yapyap.Route.{
  RouteEnv, RouteState, RouteMessage, route_announce, route_query, route_result, RoutingHint,
  latency, get_peer, handle_route_query, create_route_query, handle_route_announce,
  create_route_announce, create_route_result, update_peer, handle_route_message,
  handle_route_result,
}
use yapyap.Route.Table.{rank, handle_all, handle_all-rank}
use yapyap.Route.Announce.{handle_route_query-announce}

-- A signature is a copy of the text with the key in front, and the check reads it so.
abbrev same_bytes : List ℕ → List ℕ → Bool
same_bytes [] [] = true
same_bytes (a ∷ xs) (b ∷ ys) = if nat_eq a b then same_bytes xs ys else false
same_bytes xs ys = false

pub same_bytes_refl : (xs : List ℕ) → same_bytes xs xs ≡ true
same_bytes_refl [] = refl
same_bytes_refl (a ∷ xs) = ground (arith, same_bytes_refl xs)

abbrev at_time : ℕ → RouteEnv
at_time now = record {
  now = now;
  remote_peer_id = "carol";
  has_broadcast = true;
  text_of = λ d. d.timestamp ∷ d.public_key;
  verify_announce = λ text signature key. some (same_bytes signature (key ++ text));
  sign_announce = λ text key. key ++ text;
  key_pair = (7 ∷ 8 ∷ [], 7 ∷ 8 ∷ []);
}

abbrev no_routes : RouteState
no_routes = record { table = []; forwarded = [] }

abbrev some_hints : Option (List RoutingHint)
some_hints =
    some (record { peer_id = "bob"; hint_type = latency; value = pos 20; timestamp = 5 } ∷ [])

handle_route_query-announce_example :
    handle_route_query (at_time 30) (create_route_query (at_time 30) "alice" "q1" "carol") (
      handle_route_announce
        (at_time 20)
        (create_route_announce (at_time 10) "alice" (some ("bob" ∷ [])) some_hints)
        no_routes)
    ≡ record {
      query_id = "q1";
      origin_peer_id = "carol";
      timestamp = 30;
      peer_ids = "alice" ∷ [];
      routing_hints = some_hints;
    }
handle_route_query-announce_example =
    handle_route_query-announce (at_time 10) (at_time 20) (at_time 30) "alice" "q1"
      (some ("bob" ∷ [])) some_hints no_routes (λ d. refl)
      (λ text. ap some (same_bytes_refl (7 ∷ 8 ∷ text)))

abbrev some_messages : List (RouteEnv × RouteMessage)
some_messages =
    (at_time 20, route_announce (create_route_announce (at_time 10) "alice" none none))
    ∷ (at_time 5, route_result (create_route_result (at_time 4) "q1" "alice" ("bob" ∷ []) none))
    ∷ (at_time 6, route_query (create_route_query (at_time 6) "bob" "q2" "carol"))
    ∷ []

abbrev fresh : WithError RouteState
fresh = record { inner = no_routes; last_protocol_error = some "[route] an old error" }

handle_all-rank_example :
    rank (get_peer fresh.inner.table "alice")
    ≤ rank (get_peer (handle_all some_messages fresh).inner.table "alice")
handle_all-rank_example = handle_all-rank some_messages fresh "alice"

-- The clock went back between two messages of alice.
seen_twice : rank (get_peer (handle_all some_messages fresh).inner.table "alice") ≡ 22
unfolding get_peer get handle_all handle_route_message handle_route_result update_peer put
    handle_route_announce create_route_announce create_route_result
seen_twice = refl
