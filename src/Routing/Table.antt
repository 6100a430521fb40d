-- ===== src/Routing/Table.antt =====
-- The routing table and its buckets in src/routing/index.ts: how peers come in, are refreshed and
-- go out.
use yapyap.Prelude.{
  ℕ, ◌+◌, ◌*◌, ◌++◌, String, List, [], ◌∷◌, Option, none, some, Bool, true, if◌then◌else◌, is_some,
  ◌==◌, string_keys, leb, ltb, length, keep, map,
}
use yapyap.Map.{get, put, delete}
use yapyap.Routing.{
  PeerEntry, Bucket, RoutingModule, Surroundings, bucket_count, get_bucket_id_for_peer,
  change_bucket, get_bucket,
}

-- ping
abbrev pub ping : Bool
ping = true

-- the loop that looks for the entry that was seen first
unfoldable pub oldest_loop : Option (String × ℕ) → Bucket → Option (String × ℕ)
oldest_loop found [] = found
oldest_loop none ((p, e) ∷ b) = oldest_loop (some (p, e.last_seen)) b
oldest_loop (some (q, t)) ((p, e) ∷ b) =
    oldest_loop (if ltb e.last_seen t then some (p, e.last_seen) else some (q, t)) b

-- the end of evictFromBucket, for the oldest peer; an empty id is no peer
unfoldable pub evict_oldest : ℕ → Option (String × ℕ) → RoutingModule → RoutingModule
evict_oldest id none r = r
evict_oldest id (some (p, t)) r = if p == "" then r else if ping then r else record r {
  buckets = change_bucket id (λ b. delete b p) r.buckets;
  routing_table = delete r.routing_table p;
}

abbrev pub bucket_size : ℕ
bucket_size = 20

unfoldable pub evict_from_bucket : ℕ → RoutingModule → RoutingModule
unfolding oldest_loop evict_oldest
evict_from_bucket id r =
    if leb (length (get_bucket id r.buckets)) bucket_size
    then r
    else evict_oldest id (oldest_loop none (get_bucket id r.buckets)) r

unfoldable pub count_update : RoutingModule → RoutingModule
count_update r = record r {
  metrics = record (r.metrics) { routing_table_updates = r.metrics.routing_table_updates + 1 };
}

-- if (!bucket.peers.has(peerId)) bucket.peers.set(...)
abbrev pub put_new : String → PeerEntry → Bucket → Bucket
put_new peer entry b = if is_some (get b peer) then b else put b peer entry

-- if (bucket.peers.has(peerId)) bucket.peers.set(...)
abbrev pub put_known : String → PeerEntry → Bucket → Bucket
put_known peer entry b = if is_some (get b peer) then put b peer entry else b

unfoldable pub add_peer_to_routing_table :
    Surroundings → String → Bool → RoutingModule → RoutingModule
add_peer_to_routing_table env peer is_available r =
    let entry : PeerEntry = record { last_seen = env.now; is_available = is_available } in
    let id = get_bucket_id_for_peer env r.self_id peer in
    let placed = record r { routing_table = put r.routing_table peer entry } in
    let bucketed = record placed { buckets = change_bucket id (put_new peer entry) r.buckets } in
    if ltb id bucket_count
    then count_update (evict_from_bucket id bucketed)
    else count_update placed

unfoldable pub remove_peer_from_routing_table : String → RoutingModule → RoutingModule
remove_peer_from_routing_table peer r = record r {
  routing_table = delete r.routing_table peer;
  buckets = map (λ b. delete b peer) r.buckets;
}

unfoldable pub update_routing_table_entry :
    Surroundings → String → Bool → RoutingModule → RoutingModule
update_routing_table_entry env peer is_available r =
    let entry : PeerEntry = record { last_seen = env.now; is_available = is_available } in
    let id = get_bucket_id_for_peer env r.self_id peer in
    let placed = record r { routing_table = put r.routing_table peer entry } in
    if is_some (get r.routing_table peer)
    then if ltb id bucket_count
      then record placed { buckets = change_bucket id (put_known peer entry) r.buckets }
      else placed
    else add_peer_to_routing_table env peer is_available r

abbrev pub stale_after_ms : ℕ
stale_after_ms = 5 * 60 * 1000

-- now - entry.lastSeen > threshold
abbrev pub is_stale : ℕ → ℕ → PeerEntry → Bool
is_stale now threshold e = ltb (e.last_seen + threshold) now

-- the loop of cleanupStaleEntries over the entries that the table had, with the count so far
unfoldable pub cleanup_loop : ℕ → ℕ → Bucket → ℕ → RoutingModule → ℕ × RoutingModule
unfolding remove_peer_from_routing_table
cleanup_loop now threshold [] removed r = (removed, r)
cleanup_loop now threshold ((p, e) ∷ rest) removed r =
    let stale = is_stale now threshold e in
    cleanup_loop now threshold rest (if stale then removed + 1 else removed)
      (if stale then remove_peer_from_routing_table p r else r)

unfoldable pub cleanup_stale_entries : Surroundings → ℕ → RoutingModule → ℕ × RoutingModule
unfolding cleanup_loop
cleanup_stale_entries env threshold r =
    let (removed, cleaned) = cleanup_loop env.now threshold r.routing_table 0 r in
    (removed, if ltb 0 removed then count_update cleaned else cleaned)

-- peersToRemove
abbrev pub stale_peers : ℕ → Bucket → List String
stale_peers now b = map (λ e. e.0) (keep (λ e. is_stale now stale_after_ms e.1) b)

abbrev pub delete_all : List String → List (String × PeerEntry) → List (String × PeerEntry)
delete_all [] m = m
delete_all (p ∷ ps) m = delete_all ps (delete m p)

unfoldable pub all_stale : ℕ → List Bucket → List String
all_stale now [] = []
all_stale now (b ∷ bs) = stale_peers now b ++ all_stale now bs

-- optimizeBuckets: a peer goes out of the bucket in which it is stale, and out of the table
unfoldable pub optimize_buckets : Surroundings → RoutingModule → RoutingModule
unfolding all_stale
optimize_buckets env r =
    let removed = all_stale env.now r.buckets in
    let cleaned = record r {
      buckets = map (λ b. delete_all (stale_peers env.now b) b) r.buckets;
      routing_table = delete_all removed r.routing_table;
    } in
    if ltb 0 (length removed) then count_update cleaned else cleaned
