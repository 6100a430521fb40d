-- ===== src/Network/Cache.antt =====
-- The cache of peers' addresses in src/network/NetworkModule.ts, over the routing table of
-- src/protocols/route.ts and the database's cache. libp2p is there, and the cache is enabled; a
-- throw of the database is not modelled. What is dialled is listed in order.
use yapyap.Prelude.{
  ℕ, ◌≡◌, refl, String, List, [], ◌∷◌, ◌++◌, Option, none, some, Bool, true, map, if◌then◌else◌,
  string_keys, ==_refl,
}
use yapyap.Map.{get, get-put, get-modify}
use yapyap.Database.{Db, RoutingRow}
use yapyap.Database.Routes.{
  save_peer_multiaddrs, peer_ttl_ms, get_all_cached_peers, mark_peer_available,
}
use yapyap.Route.{RoutingTable, update_peer, get_all_peers}

pub record PeerCache : Type 0 where
  pub routing_table : RoutingTable
  pub database : Option Db

abbrev pub cache_in_database : ℕ → String → List String → Db → Db
cache_in_database now peer [] db = mark_peer_available now peer db
cache_in_database now peer (a ∷ addresses) db =
    mark_peer_available now peer (save_peer_multiaddrs now peer (a ∷ addresses) peer_ttl_ms db)

abbrev pub cache_in_table : ℕ → String → List String → RoutingTable → RoutingTable
cache_in_table now peer [] table = table
cache_in_table now peer (a ∷ addresses) table = update_peer now peer none none table

abbrev pub on_database : (Db → Db) → Option Db → Option Db
on_database f none = none
on_database f (some db) = some (f db)

-- cachePeerMultiaddrs, for the addresses of the peer's connections
unfoldable pub cache_peer_multiaddrs : ℕ → String → List String → PeerCache → PeerCache
cache_peer_multiaddrs now peer addresses cache = record {
  routing_table = cache_in_table now peer addresses cache.routing_table;
  database = on_database (cache_in_database now peer addresses) cache.database;
}

pub data Dialled : Type 0 where
  by_address by_peer_id : String → Dialled

-- the peers to dial, each with the addresses that are cached
abbrev pub peers_to_dial : ℕ → PeerCache → List (String × List String)
peers_to_dial now cache = elim cache.database [
  | none ↦ map (λ peer. (peer, [])) (get_all_peers cache.routing_table)
  | some db ↦ map (λ e. (e.peer_id, e.multiaddrs)) (get_all_cached_peers now db)
]

-- how one peer is dialled: its first address, and its id if there is none or dialling it throws
abbrev pub dial_peer : (Dialled → Bool) → String → List String → List Dialled
dial_peer dial peer [] = by_peer_id peer ∷ []
dial_peer dial peer (a ∷ addresses) =
    if dial (by_address a) then by_address a ∷ [] else by_address a ∷ by_peer_id peer ∷ []

abbrev pub dial_all : (Dialled → Bool) → List (String × List String) → List Dialled
dial_all dial [] = []
dial_all dial ((peer, addresses) ∷ peers) = dial_peer dial peer addresses ++ dial_all dial peers

-- dialCachedPeers: what is dialled
unfoldable pub dial_cached_peers : ℕ → (Dialled → Bool) → PeerCache → List Dialled
dial_cached_peers now dial cache = dial_all dial (peers_to_dial now cache)

abbrev pub cached_row : String → Option Db → Option RoutingRow
cached_row peer none = none
cached_row peer (some db) = get db.routing_cache peer

-- With a database, the row of a peer whose connections have addresses has all of them, is available and
-- was seen at that time, whatever the row was before.
cache_peer_multiaddrs-row :
    (now : ℕ) (peer a : String) (addresses : List String) (table : RoutingTable) (db : Db)
    → cached_row peer
        (cache_peer_multiaddrs now peer
          (a ∷ addresses)
          (record { routing_table = table; database = some db })).database
      ≡ some (record {
        multiaddrs = a ∷ addresses;
        last_seen = now;
        is_available = true;
        ttl = peer_ttl_ms;
      })
unfolding cache_peer_multiaddrs save_peer_multiaddrs mark_peer_available
cache_peer_multiaddrs-row now peer a addresses table db =
    rw (get-modify _ peer peer _, get-put db.routing_cache peer peer _, ==_refl peer) refl
