-- ===== src/Route/Announce.antt =====
-- What an announcement of src/protocols/route.ts comes to: who is believed and who is found.
use yapyap.Prelude.{
  ℕ, ◌≡◌, ap, ◌∙◌, String, List, [], ◌∷◌, Option, some, true, arith, string_keys, ==_refl,
}
use yapyap.Map.{get, get-put}
use yapyap.Route.{
  AnnounceData, RouteAnnounce, RoutingHint, RoutingEntry, RouteState, RouteEnv, seen_after,
  update_peer, get_peer, is_accepted, broadcast, known_peers, known_hints, handle_route_announce,
  handle_route_query, create_route_announce, create_route_query,
}

broadcast-table :
    (env : RouteEnv) (m : RouteAnnounce) (s : RouteState) → (broadcast env m s).table ≡ s.table
unfolding broadcast
broadcast-table env m s = ground arith

get_peer-update_peer :
    (now : ℕ) (peer : String) (reachable : Option (List String)) (hints : Option (List RoutingHint))
    (table : List (String × RoutingEntry))
    → get_peer (update_peer now peer reachable hints table) peer
      ≡ some (record {
        last_seen = seen_after now (get table peer);
        reachable_peers = reachable;
        hints = hints;
      })
unfolding get_peer update_peer
get_peer-update_peer now peer reachable hints table = ground (
  arith,
  get-put table peer peer (record {
    last_seen = seen_after now (get table peer);
    reachable_peers = reachable;
    hints = hints;
  }),
  ==_refl peer,
)

-- An accepted announcement, to the table.
announce-table :
    (env : RouteEnv) (m : RouteAnnounce) (s : RouteState)
    → is_accepted (env.verify_announce (env.text_of m.announced) m.signature m.announced.public_key)
      ≡ true
    → (handle_route_announce env m s).table
      ≡ update_peer env.now m.announced.origin_peer_id m.announced.reachable_peers
          m.announced.routing_hints s.table
unfolding handle_route_announce broadcast
announce-table env m s h = ground (arith, h)

-- A node that created an announcement and a second node that handles it, with the same text of its
-- data: if the second one's check accepts what the first one signs with the key pair that it
-- generates, a query for the first node right after it, before any
-- other message, is answered with its id and with the hints that it announced.
pub handle_route_query-announce :
    (creator : RouteEnv) (env asker : RouteEnv) (origin query : String)
    (reachable : Option (List String)) (hints : Option (List RoutingHint)) (s : RouteState)
    → ((d : AnnounceData) → env.text_of d ≡ creator.text_of d)
    → ((text : List ℕ)
        → env.verify_announce text
            (creator.sign_announce text creator.key_pair.1)
            creator.key_pair.0
          ≡ some true)
    → handle_route_query asker
        (create_route_query asker origin query asker.remote_peer_id)
        (handle_route_announce env (create_route_announce creator origin reachable hints) s)
      ≡ record {
        query_id = query;
        origin_peer_id = asker.remote_peer_id;
        timestamp = asker.now;
        peer_ids = origin ∷ [];
        routing_hints = hints;
      }
unfolding handle_route_query create_route_announce create_route_query
handle_route_query-announce creator env asker origin query reachable hints s same works =
    let m = create_route_announce creator origin reachable hints in
    let accepted : is_accepted
          (env.verify_announce (env.text_of m.announced) m.signature m.announced.public_key)
        ≡ true =
      ap (λ text. is_accepted (env.verify_announce text m.signature m.announced.public_key))
        (same m.announced)
      ∙ ap is_accepted (works (creator.text_of m.announced)) in
    let found =
      ap (λ t. get_peer t origin) (announce-table env m s accepted)
      ∙ get_peer-update_peer env.now origin reachable hints s.table in
    ap
      (λ e. record {
        query_id = query;
        origin_peer_id = asker.remote_peer_id;
        timestamp = asker.now;
        peer_ids = known_peers asker origin e;
        routing_hints = known_hints e;
      })
      found
