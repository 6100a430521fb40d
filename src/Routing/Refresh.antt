-- ===== src/Routing/Refresh.antt =====
-- A peer that addPeerToRoutingTable of src/routing/index.ts meets again.
use yapyap.Prelude.{
  ℕ, zero, suc, ◌+◌, ◌<◌, ◌≡◌, refl, ap, ◌∙◌, String, List, [], ◌∷◌, some, Bool, true, false, ◌&&◌,
  ◌||◌, not, arith, if◌then◌else◌, ◌==◌, string_keys, ltb, lt→ltb, Bool-cases, inl, inr,
}
use yapyap.Map.{get, put}
use yapyap.Routing.{
  PeerEntry, Bucket, RoutingModule, Surroundings, bucket_count, get_bucket_id_for_peer,
  change_bucket, get_bucket,
}
use yapyap.Routing.Table.{
  put_new, evict_from_bucket, count_update, add_peer_to_routing_table, is_stale, stale_peers,
  stale_after_ms, delete_all, all_stale, optimize_buckets,
}
use yapyap.Routing.Valid.{has, among, among-append, has-delete_all}
use yapyap.Routing.Keeps.{evict_from_bucket-keeps}

-- The entry that a bucket has of a peer stays as it is.
get_bucket-put_new :
    (i : ℕ) (p : String) (old new : PeerEntry) (bs : List Bucket)
    → get (get_bucket i bs) p ≡ some old
    → get_bucket i (change_bucket i (put_new p new) bs) ≡ get_bucket i bs
unfolding get_bucket change_bucket
get_bucket-put_new i p old new [] h = refl
get_bucket-put_new zero p old new (b ∷ bs) h = rw h refl
get_bucket-put_new (suc i) p old new (b ∷ bs) h = get_bucket-put_new i p old new bs h

stale_peers-among :
    (now : ℕ) (p : String) (e : PeerEntry) (b : Bucket)
    → get b p ≡ some e
    → is_stale now stale_after_ms e ≡ true
    → among (stale_peers now b) p ≡ true
unfolding get
stale_peers-among now p e [] h k = ground (arith, h)
stale_peers-among now p e ((q, f) ∷ b) h k = elim (Bool-cases (q == p)) [
  | inl same ↦ ground (arith, h, k, same)
  | inr other ↦ ground (arith, h, k, other, stale_peers-among now p e b)
]

all_stale-among :
    (now : ℕ) (p : String) (i : ℕ) (bs : List Bucket)
    → among (stale_peers now (get_bucket i bs)) p ≡ true
    → among (all_stale now bs) p ≡ true
unfolding all_stale get_bucket
all_stale-among now p i [] h = h
all_stale-among now p zero (b ∷ bs) h =
    among-append (stale_peers now b) (all_stale now bs) p
    ∙ ap (λ x. x || among (all_stale now bs) p) h
all_stale-among now p (suc i) (b ∷ bs) h =
    among-append (stale_peers now b) (all_stale now bs) p
    ∙ or_true (among (stale_peers now b) p) (all_stale-among now p i bs h)
  where
    or_true : (a : Bool) {b : Bool} → b ≡ true → (a || b) ≡ true
    or_true a e = ground (arith, e)

optimize_buckets-table :
    (env : Surroundings) (r : RoutingModule)
    → (optimize_buckets env r).routing_table
      ≡ delete_all (all_stale env.now r.buckets) r.routing_table
unfolding optimize_buckets count_update
optimize_buckets-table env r = ground arith

abbrev placed : Surroundings → String → Bool → RoutingModule → RoutingModule
placed env peer available r = record r {
  routing_table =
      put r.routing_table peer (record { last_seen = env.now; is_available = available });
}

abbrev grown : Surroundings → String → Bool → RoutingModule → RoutingModule
grown env peer available r = record r {
  routing_table =
      put r.routing_table peer (record { last_seen = env.now; is_available = available });
  buckets =
      change_bucket (get_bucket_id_for_peer env r.self_id peer)
        (put_new peer (record { last_seen = env.now; is_available = available })) r.buckets;
}

add_peer-buckets :
    (env : Surroundings) (peer : String) (available : Bool) (r : RoutingModule) (e : PeerEntry)
    → get (get_bucket (get_bucket_id_for_peer env r.self_id peer) r.buckets) peer ≡ some e
    → get
        (get_bucket
          (get_bucket_id_for_peer env r.self_id peer)
          (add_peer_to_routing_table env peer available r).buckets)
        peer
      ≡ some e
unfolding add_peer_to_routing_table count_update
add_peer-buckets env peer available r e h =
    by_range (ltb (get_bucket_id_for_peer env r.self_id peer) bucket_count)
  where
    by_range :
        (small : Bool)
        → get
            (get_bucket
              (get_bucket_id_for_peer env r.self_id peer)
              (if small
                then count_update (
                    evict_from_bucket
                      (get_bucket_id_for_peer env r.self_id peer)
                      (grown env peer available r))
                else count_update (placed env peer available r)).buckets)
            peer
          ≡ some e
    by_range true =
        let id = get_bucket_id_for_peer env r.self_id peer in
        ap (λ s. get (get_bucket id s.buckets) peer)
          (evict_from_bucket-keeps id (grown env peer available r))
        ∙ ap (λ b. get b peer)
            (get_bucket-put_new id peer e (record { last_seen = env.now; is_available = available })
              r.buckets h)
        ∙ h
    by_range false = h

-- A peer that a bucket last saw more than five minutes ago, and that is added again now: the next
-- optimizeBuckets, at the same time, takes it out of the table.
pub optimize_buckets-forgets :
    (env : Surroundings) (peer : String) (available : Bool) (r : RoutingModule) (e : PeerEntry)
    → get (get_bucket (get_bucket_id_for_peer env r.self_id peer) r.buckets) peer ≡ some e
    → e.last_seen + stale_after_ms < env.now
    → has (optimize_buckets env (add_peer_to_routing_table env peer available r)).routing_table peer
      ≡ false
optimize_buckets-forgets env peer available r e h old =
    let added = add_peer_to_routing_table env peer available r in
    let id = get_bucket_id_for_peer env r.self_id peer in
    let stale : among (all_stale env.now added.buckets) peer ≡ true =
      all_stale-among env.now peer id added.buckets (
        stale_peers-among env.now peer e (get_bucket id added.buckets)
          (add_peer-buckets env peer available r e h)
          (lt→ltb (e.last_seen + stale_after_ms) env.now old)) in
    ap (λ m. has m peer) (optimize_buckets-table env added)
    ∙ has-delete_all (all_stale env.now added.buckets) added.routing_table peer
    ∙ ap (λ b. not b && has added.routing_table peer) stale
