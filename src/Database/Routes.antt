-- ===== src/Database/Routes.antt =====
-- The routing cache of src/database/index.ts: the addresses of peers, and which can be reached.
use yapyap.Prelude.{
  ℕ, ◌+◌, ◌*◌, ◌≡◌, ◌≢◌, sym, ap, ◌∙◌, String, List, Option, none, some, Bool, true, false, ◌&&◌,
  arith, if◌then◌else◌, ◌==◌, string_keys, ==_iff, leb, ltb, keep, map, length,
}
use yapyap.Map.{get, put, modify, get-put}
use yapyap.Sort.{sort_with}
use yapyap.Database.{Db, RoutingRow}

pub record RoutingCacheEntry : Type 0 where
  pub peer_id : String
  pub multiaddrs : List String
  pub last_seen : ℕ
  pub is_available : Bool
  pub ttl : ℕ

abbrev row_of : RoutingCacheEntry → RoutingRow
row_of e = record {
  multiaddrs = e.multiaddrs;
  last_seen = e.last_seen;
  is_available = e.is_available;
  ttl = e.ttl;
}

abbrev entry_of : String × RoutingRow → RoutingCacheEntry
entry_of (peer, row) = record {
  peer_id = peer;
  multiaddrs = row.multiaddrs;
  last_seen = row.last_seen;
  is_available = row.is_available;
  ttl = row.ttl;
}

-- saveRoutingCacheEntry: the time may be missing
unfoldable pub save_routing_entry : ℕ → String → List String → Option ℕ → Bool → ℕ → Db → Db
save_routing_entry now peer multiaddrs last_seen is_available ttl db = record db {
  routing_cache = put db.routing_cache peer (record {
    multiaddrs = multiaddrs;
    last_seen = elim last_seen [ none ↦ now | some time ↦ time ];
    is_available = is_available;
    ttl = ttl;
  });
}

-- ON CONFLICT ... WHERE excluded.last_seen >= routing_cache.last_seen
abbrev pub is_newer : Option RoutingRow → RoutingCacheEntry → Bool
is_newer none e = true
is_newer (some row) e = leb row.last_seen e.last_seen

unfoldable pub save_routing_entry_lww : RoutingCacheEntry → Db → Db
save_routing_entry_lww e db = record db {
  routing_cache =
      if is_newer (get db.routing_cache e.peer_id) e
      then put db.routing_cache e.peer_id (row_of e)
      else db.routing_cache;
}

unfoldable pub get_routing_entry : Db → String → Option RoutingCacheEntry
get_routing_entry db peer = elim (get db.routing_cache peer) [
  | none ↦ none
  | some row ↦ some (entry_of (peer, row))
]

unfoldable pub get_all_routing_entries : Db → List RoutingCacheEntry
get_all_routing_entries db = map entry_of db.routing_cache

abbrev pub peer_ttl_ms : ℕ
peer_ttl_ms = 24 * 60 * 60 * 1000

unfoldable pub save_peer_multiaddrs : ℕ → String → List String → ℕ → Db → Db
save_peer_multiaddrs now peer multiaddrs ttl db = record db {
  routing_cache =
      put db.routing_cache peer
        (record { multiaddrs = multiaddrs; last_seen = now; is_available = true; ttl = ttl });
}

-- WHERE is_available = 1 AND last_seen + ttl > ?
abbrev is_cached : ℕ → String × RoutingRow → Bool
is_cached now e = e.1.is_available && ltb now (e.1.last_seen + e.1.ttl)

-- the newest first
unfoldable pub get_all_cached_peers : ℕ → Db → List RoutingCacheEntry
get_all_cached_peers now db =
    map entry_of
      (sort_with (λ a b. leb b.1.last_seen a.1.last_seen) (keep (is_cached now) db.routing_cache))

unfoldable pub get_cached_peer_count : ℕ → Db → ℕ
get_cached_peer_count now db = length (keep (is_cached now) db.routing_cache)

unfoldable pub mark_peer_unavailable : String → Db → Db
mark_peer_unavailable peer db = record db {
  routing_cache = modify db.routing_cache peer (λ row. record row { is_available = false });
}

unfoldable pub mark_peer_available : ℕ → String → Db → Db
mark_peer_available now peer db = record db {
  routing_cache =
      modify db.routing_cache peer (λ row. record row { last_seen = now; is_available = true });
}

-- What saveRoutingCacheEntryLww makes of the row of a peer.
abbrev lww_row : RoutingCacheEntry → String → Option RoutingRow → Option RoutingRow
lww_row e peer row = if (e.peer_id == peer) && is_newer row e then some (row_of e) else row

save_lww-row :
    (e : RoutingCacheEntry) (db : Db) (peer : String)
    → get (save_routing_entry_lww e db).routing_cache peer
      ≡ lww_row e peer (get db.routing_cache peer)
unfolding save_routing_entry_lww
save_lww-row e db peer =
    by_time (is_newer (get db.routing_cache e.peer_id) e) (is_newer (get db.routing_cache peer) e)
      (λ same. ap (λ k. is_newer (get db.routing_cache k) e) ((==_iff e.peer_id peer).0 same))
  where
    by_time :
        (newer at_peer : Bool)
        → ((e.peer_id == peer) ≡ true → newer ≡ at_peer)
        → get (if newer then put db.routing_cache e.peer_id (row_of e) else db.routing_cache) peer
          ≡ (if (e.peer_id == peer) && at_peer then some (row_of e) else get db.routing_cache peer)
    by_time true at_peer agree =
        ground (arith, agree, get-put db.routing_cache e.peer_id peer (row_of e))
    by_time false at_peer agree = ground (arith, agree)

lww_row_commutes :
    (a b : RoutingCacheEntry) (peer : String) (row : Option RoutingRow)
    → a.last_seen ≢ b.last_seen
    → lww_row b peer (lww_row a peer row) ≡ lww_row a peer (lww_row b peer row)
lww_row_commutes a b peer none apart = ground (arith, apart)
lww_row_commutes a b peer (some row) apart = ground (arith, apart)

-- Two entries of different times can come in either order: for every peer, the row is the same
-- after both.
pub save_routing_entry_lww_commutes :
    (a b : RoutingCacheEntry) (db : Db) (peer : String)
    → a.last_seen ≢ b.last_seen
    → get (save_routing_entry_lww b (save_routing_entry_lww a db)).routing_cache peer
      ≡ get (save_routing_entry_lww a (save_routing_entry_lww b db)).routing_cache peer
save_routing_entry_lww_commutes a b db peer apart =
    save_lww-row b (save_routing_entry_lww a db) peer
    ∙ ap (lww_row b peer) (save_lww-row a db peer)
    ∙ lww_row_commutes a b peer (get db.routing_cache peer) apart
    ∙ ap (lww_row a peer) (sym (save_lww-row b db peer))
    ∙ sym (save_lww-row a (save_routing_entry_lww b db) peer)
