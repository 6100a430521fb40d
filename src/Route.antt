-- ===== src/Route.antt =====
-- The route protocol, src/protocols/route.ts: the routing table that announcements and results
-- fill, and the handlers. The primitives of src/crypto over node:crypto are functions of the
-- surroundings, as is JSON text; a handler reads the clock once.
pub mod Table
pub mod Announce
pub mod Tests
use yapyap.Prelude.{
  ℕ, ◌+◌, ◌++◌, String, List, [], ◌∷◌, Option, none, some, Bool, true, false, ◌&&◌, not,
  if◌then◌else◌, ◌==◌, string_keys, leb, ltb, keep, map,
}
use yapyap.Prelude.Int.{ℤ}
use yapyap.Map.{get, put}
use yapyap.Protocol.{Outcome, done, WithError, handle_protocol_error}

pub data HintType : Type 0 where
  reachability latency bandwidth capacity : HintType

pub record RoutingHint : Type 0 where
  pub peer_id : String
  pub hint_type : HintType
  pub value : ℤ
  pub timestamp : ℕ

-- What an announcement signs: the object of its fields, with the key as numbers. An optional
-- field that is missing is not in the text.
pub record AnnounceData : Type 0 where
  pub origin_peer_id : String
  pub timestamp : ℕ
  pub reachable_peers : Option (List String)
  pub routing_hints : Option (List RoutingHint)
  pub public_key : List ℕ

pub record RouteAnnounce : Type 0 where
  pub announced : AnnounceData
  pub signature : List ℕ

pub record RouteQuery : Type 0 where
  pub target_peer_id : String
  pub query_id : String
  pub timestamp : ℕ
  pub origin_peer_id : String

pub record RouteResult : Type 0 where
  pub query_id : String
  pub origin_peer_id : String
  pub timestamp : ℕ
  pub peer_ids : List String
  pub routing_hints : Option (List RoutingHint)

pub data RouteMessage : Type 0 where
  route_announce : RouteAnnounce → RouteMessage
  route_query : RouteQuery → RouteMessage
  route_result : RouteResult → RouteMessage

pub record RoutingEntry : Type 0 where
  pub last_seen : ℕ
  pub reachable_peers : Option (List String)
  pub hints : Option (List RoutingHint)

abbrev pub RoutingTable : Type 0
RoutingTable = List (String × RoutingEntry)

-- The table, and the announcements that broadcastFn was called with, each with the peer it leaves
-- out: whether such a call fails makes no difference to the handler.
pub record RouteState : Type 0 where
  pub table : RoutingTable
  pub forwarded : List (RouteAnnounce × String)

pub record RouteEnv : Type 0 where
  pub now : ℕ
  pub remote_peer_id : String
  pub has_broadcast : Bool
  -- new TextEncoder().encode(JSON.stringify(...))
  pub text_of : AnnounceData → List ℕ
  -- verifySignature of data, signature and public key; `none` is a throw
  pub verify_announce : List ℕ → List ℕ → List ℕ → Option Bool
  -- signMessage of data and private key
  pub sign_announce : List ℕ → List ℕ → List ℕ
  -- generateIdentityKeyPair: the public key and the private key
  pub key_pair : List ℕ × List ℕ

-- the time that updatePeer writes
abbrev pub seen_after : ℕ → Option RoutingEntry → ℕ
seen_after now none = now
seen_after now (some previous) = if leb now previous.last_seen then previous.last_seen + 1 else now

unfoldable pub update_peer :
    ℕ → String → Option (List String) → Option (List RoutingHint) → RoutingTable → RoutingTable
update_peer now peer reachable hints table = put table peer (record {
  last_seen = seen_after now (get table peer);
  reachable_peers = reachable;
  hints = hints;
})

unfoldable pub get_peer : RoutingTable → String → Option RoutingEntry
get_peer table peer = get table peer

unfoldable pub get_all_peers : RoutingTable → List String
get_all_peers table = map (λ e. e.0) table

-- cleanupStaleEntries
unfoldable pub cleanup_stale_routes : ℕ → ℕ → RoutingTable → RoutingTable
cleanup_stale_routes now max_age table = keep (λ e. not (ltb (e.1.last_seen + max_age) now)) table

-- the first try block: is the signature right?
abbrev pub is_accepted : Option Bool → Bool
is_accepted none = false
is_accepted (some valid) = valid

unfoldable pub broadcast : RouteEnv → RouteAnnounce → RouteState → RouteState
broadcast env message s =
    if env.has_broadcast
    then record s { forwarded = s.forwarded ++ (message, env.remote_peer_id) ∷ [] }
    else s

-- handleRouteAnnounce; the reputation goes to a routing module that is dropped at once
unfoldable pub handle_route_announce : RouteEnv → RouteAnnounce → RouteState → RouteState
unfolding broadcast
handle_route_announce env message s =
    let data_of = message.announced in
    if is_accepted (env.verify_announce (env.text_of data_of) message.signature data_of.public_key)
    then broadcast env message (record s {
      table =
          update_peer env.now data_of.origin_peer_id data_of.reachable_peers data_of.routing_hints
            s.table;
    })
    else s

abbrev pub known_peers : RouteEnv → String → Option RoutingEntry → List String
known_peers env target none = env.remote_peer_id ∷ []
known_peers env target (some entry) = target ∷ []

abbrev pub known_hints : Option RoutingEntry → Option (List RoutingHint)
known_hints none = none
known_hints (some entry) = entry.hints

unfoldable pub handle_route_query : RouteEnv → RouteQuery → RouteState → RouteResult
handle_route_query env message s = record {
  query_id = message.query_id;
  origin_peer_id = env.remote_peer_id;
  timestamp = env.now;
  peer_ids = known_peers env message.target_peer_id (get_peer s.table message.target_peer_id);
  routing_hints = known_hints (get_peer s.table message.target_peer_id);
}

-- handleRouteResult; the reputation goes to a routing module that is dropped at once
unfoldable pub handle_route_result : RouteEnv → RouteResult → RouteState → RouteState
handle_route_result env message s = record s {
  table =
      update_peer env.now message.origin_peer_id (some message.peer_ids) message.routing_hints
        s.table;
}

-- the switch of handleRouteMessage
abbrev pub route_handler : RouteEnv → RouteMessage → RouteState → Outcome RouteResult × RouteState
route_handler env (route_announce m) s = (done none, handle_route_announce env m s)
route_handler env (route_query m) s = (done (some (handle_route_query env m s)), s)
route_handler env (route_result m) s = (done none, handle_route_result env m s)

unfoldable pub handle_route_message :
    RouteEnv → RouteMessage → WithError RouteState → Option RouteResult × WithError RouteState
handle_route_message env message s = handle_protocol_error "route" (route_handler env message) s

unfoldable pub create_route_announce :
    RouteEnv → String → Option (List String) → Option (List RoutingHint) → RouteAnnounce
create_route_announce env origin reachable hints =
    let (public_key, private_key) = env.key_pair in
    let payload : AnnounceData = record {
      origin_peer_id = origin;
      timestamp = env.now;
      reachable_peers = reachable;
      routing_hints = hints;
      public_key = public_key;
    } in
    record { announced = payload; signature = env.sign_announce (env.text_of payload) private_key }

unfoldable pub create_route_query : RouteEnv → String → String → String → RouteQuery
create_route_query env target query origin = record {
  target_peer_id = target;
  query_id = query;
  timestamp = env.now;
  origin_peer_id = origin;
}

unfoldable pub create_route_result :
    RouteEnv → String → String → List String → Option (List RoutingHint) → RouteResult
create_route_result env query origin peers hints = record {
  query_id = query;
  origin_peer_id = origin;
  timestamp = env.now;
  peer_ids = peers;
  routing_hints = hints;
}
