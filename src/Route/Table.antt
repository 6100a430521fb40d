-- ===== src/Route/Table.antt =====
-- How the times of the table of src/protocols/route.ts move.
use yapyap.Prelude.{
  ℕ, ◌+◌, ◌≤◌, ◌≡◌, sym, subst, ap, String, List, [], ◌∷◌, Option, none, some, Bool, true, false,
  arith, if◌then◌else◌, ◌==◌, string_keys, ==_iff, Bool-cases, inl, inr,
}
use yapyap.Map.{get, get-put}
use yapyap.Protocol.{WithError}
use yapyap.Route.{
  RouteMessage, RouteAnnounce, AnnounceData, route_announce, route_query, route_result,
  RoutingEntry, RoutingTable, RouteState, RouteEnv, RoutingHint, seen_after, update_peer, get_peer,
  is_accepted, broadcast, handle_route_announce, handle_route_result, handle_route_message,
}

-- 1 more than the time at which a peer was seen, or 0 for a peer that is not known.
abbrev pub rank : Option RoutingEntry → ℕ
rank none = 0
rank (some e) = e.last_seen + 1

seen_after-rises : (now : ℕ) (e : Option RoutingEntry) → rank e ≤ seen_after now e
seen_after-rises now none = omega arith
seen_after-rises now (some e) = ground arith

pub update_peer-rank :
    (now : ℕ) (peer q : String) (reachable : Option (List String))
    (hints : Option (List RoutingHint)) (table : RoutingTable)
    → rank (get_peer table q) ≤ rank (get_peer (update_peer now peer reachable hints table) q)
unfolding update_peer get_peer
update_peer-rank now peer q reachable hints table =
    let entry : RoutingEntry = record {
      last_seen = seen_after now (get table peer);
      reachable_peers = reachable;
      hints = hints;
    } in
    elim (Bool-cases (peer == q)) [
      | inl same ↦
          rw (get-put table peer q entry, same, ap (get table) (sym ((==_iff peer q).0 same)))
            (omega (arith, seen_after-rises now (get table peer)))
      | inr other ↦ rw (get-put table peer q entry, other) (omega arith)
    ]

broadcast-table :
    (env : RouteEnv) (m : RouteAnnounce) (s : RouteState) → (broadcast env m s).table ≡ s.table
unfolding broadcast
broadcast-table env m s = ground arith

announce-rank :
    (env : RouteEnv) (m : RouteAnnounce) (s : RouteState) (q : String)
    → rank (get_peer s.table q) ≤ rank (get_peer (handle_route_announce env m s).table q)
unfolding handle_route_announce
announce-rank env m s q =
    by_signature (
      is_accepted
        (env.verify_announce (env.text_of m.announced) m.signature m.announced.public_key))
  where
    data_of : AnnounceData
    data_of = m.announced

    changed : RouteState
    changed = record s {
      table =
          update_peer env.now data_of.origin_peer_id data_of.reachable_peers data_of.routing_hints
            s.table;
    }

    by_signature :
        (ok : Bool)
        → rank (get_peer s.table q)
          ≤ rank (get_peer (if ok then broadcast env m changed else s).table q)
    by_signature false = omega arith
    by_signature true =
        subst (λ t. rank (get_peer s.table q) ≤ rank (get_peer t q))
          (sym (broadcast-table env m changed))
          (update_peer-rank env.now data_of.origin_peer_id q data_of.reachable_peers
            data_of.routing_hints s.table)

handle_message-rank :
    (env : RouteEnv) (message : RouteMessage) (s : WithError RouteState) (q : String)
    → rank (get_peer s.inner.table q)
      ≤ rank (get_peer (handle_route_message env message s).1.inner.table q)
unfolding handle_route_message handle_route_announce handle_route_result
handle_message-rank env (route_announce m) s q = announce-rank env m s.inner q
handle_message-rank env (route_query m) s q = omega arith
handle_message-rank env (route_result m) s q =
    update_peer-rank env.now m.origin_peer_id q (some m.peer_ids) m.routing_hints s.inner.table

-- The messages that come in, each with its surroundings.
unfoldable pub handle_all :
    List (RouteEnv × RouteMessage) → WithError RouteState → WithError RouteState
handle_all [] s = s
handle_all ((env, m) ∷ rest) s = handle_all rest (handle_route_message env m s).1

-- Over any run of messages, whatever the clock does between them, no peer leaves the table, and
-- the time at which a peer was seen last never goes back.
pub handle_all-rank :
    (messages : List (RouteEnv × RouteMessage)) (s : WithError RouteState) (q : String)
    → rank (get_peer s.inner.table q) ≤ rank (get_peer (handle_all messages s).inner.table q)
unfolding handle_all
handle_all-rank [] s q = omega arith
handle_all-rank ((env, m) ∷ rest) s q =
    omega (
      arith,
      handle_message-rank env m s q,
      handle_all-rank rest (handle_route_message env m s).1 q,
    )
