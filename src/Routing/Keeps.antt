-- ===== src/Routing/Keeps.antt =====
-- The operations of src/routing/index.ts on the table and the buckets, one by one.
use mathlib.Core.Bool.{false≢true}
use yapyap.Prelude.{
  ℕ, zero, suc, ◌≡◌, refl, sym, ap, ◌∙◌, subst, String, List, [], ◌∷◌, Option, none, some, Bool,
  true, false, ◌&&◌, ◌||◌, not, arith, is_some, if◌then◌else◌, ◌==◌, string_keys, ==_iff, map,
  length, ltb, nat_eq, Bool-cases, inl, inr,
}
use yapyap.Map.{get, put, delete, get-put, get-delete}
use yapyap.Routing.{
  PeerEntry, Bucket, RoutingModule, Surroundings, bucket_count, empty_buckets, new_routing_module,
  get_bucket_id_for_peer, change_bucket, get_bucket,
}
use yapyap.Routing.Table.{
  put_new, put_known, oldest_loop, evict_oldest, evict_from_bucket, count_update,
  add_peer_to_routing_table, remove_peer_from_routing_table, update_routing_table_entry, is_stale,
  cleanup_loop, cleanup_stale_entries, stale_peers, delete_all, all_stale, optimize_buckets,
}
use yapyap.Routing.Valid.{
  IsValid, AtMost, has, get_bucket-change_bucket, put_new-AtMost, put_known-AtMost, get_bucket-map,
  among, stale_peers-has, all_stale-somewhere, delete-nil, has-delete_all, kept-delete_all,
}

evict_oldest-keeps :
    (id : ℕ) (o : Option (String × ℕ)) (r : RoutingModule) → evict_oldest id o r ≡ r
unfolding evict_oldest
evict_oldest-keeps id none r = refl
evict_oldest-keeps id (some (p, t)) r = ground arith

pub evict_from_bucket-keeps : (id : ℕ) (r : RoutingModule) → evict_from_bucket id r ≡ r
unfolding evict_from_bucket
evict_from_bucket-keeps id r =
    ground (arith, evict_oldest-keeps id (oldest_loop none (get_bucket id r.buckets)) r)

module _ (xor : List ℕ → List ℕ → Option (List ℕ)) where
  abbrev pub at_time : ℕ → Surroundings
  at_time now = record { now = now; xor = xor }

  id_at :
      (now : ℕ) (self p : String)
      → get_bucket_id_for_peer (at_time now) self p ≡ get_bucket_id_for_peer (at_time 0) self p
  unfolding get_bucket_id_for_peer
  id_at now self p = refl

  empty_buckets-has : (n i : ℕ) (p : String) → has (get_bucket i (empty_buckets n)) p ≡ false
  unfolding get_bucket get
  empty_buckets-has zero i p = refl
  empty_buckets-has (suc n) zero p = refl
  empty_buckets-has (suc n) (suc i) p = empty_buckets-has n i p

  pub new_routing_module-IsValid : (self : String) → IsValid xor (new_routing_module self)
  unfolding new_routing_module
  new_routing_module-IsValid self = record {
    in_table = λ i p h. ground (arith, h, empty_buckets-has bucket_count i p);
    placed = λ i p h. ground (arith, h, empty_buckets-has bucket_count i p);
  }

  -- A new entry for a peer in the table, and a change of its bucket that brings in nobody else.
  placed-IsValid :
      (r : RoutingModule) (now : ℕ) (peer : String) (entry : PeerEntry) (f : Bucket → Bucket)
      → AtMost peer f
      → IsValid xor r
      → IsValid xor (record r {
        routing_table = put r.routing_table peer entry;
        buckets = change_bucket (get_bucket_id_for_peer (at_time now) r.self_id peer) f r.buckets;
      })
  placed-IsValid r now peer entry f only v =
      let id = get_bucket_id_for_peer (at_time now) r.self_id peer in
      record {
        in_table = λ i p h. ground (
          arith,
          get_bucket-change_bucket id i peer p f r.buckets only h,
          v.in_table i p,
          get-put r.routing_table peer p entry,
        );
        placed = λ i p h. own_or_old i p (get_bucket-change_bucket id i peer p f r.buckets only h);
      }
    where
      own_or_old :
          (i : ℕ) (p : String)
          → ((nat_eq (get_bucket_id_for_peer (at_time now) r.self_id peer) i && (peer == p))
              || has (get_bucket i r.buckets) p)
            ≡ true
          → i ≡ get_bucket_id_for_peer (at_time 0) r.self_id p
      own_or_old i p h = elim (Bool-cases (peer == p)) [
        | inl same ↦
            let own : get_bucket_id_for_peer (at_time now) r.self_id peer
                ≡ get_bucket_id_for_peer (at_time 0) r.self_id p =
              id_at now r.self_id peer
              ∙ ap (get_bucket_id_for_peer (at_time 0) r.self_id) ((==_iff peer p).0 same) in
            ground (arith, h, own, v.placed i p)
        | inr other ↦ v.placed i p (ground (arith, h, other))
      ]

  count_update-IsValid : (r : RoutingModule) → IsValid xor r → IsValid xor (count_update r)
  unfolding count_update
  count_update-IsValid r v = record { in_table = v.in_table; placed = v.placed }

  -- A new entry for a peer in the table alone.
  put-IsValid :
      (r : RoutingModule) (peer : String) (entry : PeerEntry)
      → IsValid xor r
      → IsValid xor (record r { routing_table = put r.routing_table peer entry })
  put-IsValid r peer entry v = record {
    in_table = λ i p h. ground (arith, v.in_table i p h, get-put r.routing_table peer p entry);
    placed = v.placed;
  }

  IsValid-if :
      (b : Bool) (r s : RoutingModule)
      → IsValid xor r
      → IsValid xor s
      → IsValid xor (if b then r else s)
  IsValid-if true r s v w = v
  IsValid-if false r s v w = w

  pub add-IsValid :
      (now : ℕ) (peer : String) (available : Bool) (r : RoutingModule)
      → IsValid xor r
      → IsValid xor (add_peer_to_routing_table (at_time now) peer available r)
  unfolding add_peer_to_routing_table
  add-IsValid now peer available r v =
      let entry : PeerEntry = record { last_seen = now; is_available = available } in
      let id = get_bucket_id_for_peer (at_time now) r.self_id peer in
      let bucketed : RoutingModule = record r {
        routing_table = put r.routing_table peer entry;
        buckets = change_bucket id (put_new peer entry) r.buckets;
      } in
      IsValid-if (ltb id bucket_count) _ _
        (count_update-IsValid (evict_from_bucket id bucketed) (
          subst (IsValid xor) (sym (evict_from_bucket-keeps id bucketed))
            (placed-IsValid r now peer entry (put_new peer entry) (put_new-AtMost peer entry) v)))
        (count_update-IsValid _ (put-IsValid r peer entry v))

  pub update-IsValid :
      (now : ℕ) (peer : String) (available : Bool) (r : RoutingModule)
      → IsValid xor r
      → IsValid xor (update_routing_table_entry (at_time now) peer available r)
  unfolding update_routing_table_entry
  update-IsValid now peer available r v =
      let entry : PeerEntry = record { last_seen = now; is_available = available } in
      IsValid-if (is_some (get r.routing_table peer)) _ _
        (IsValid-if (ltb (get_bucket_id_for_peer (at_time now) r.self_id peer) bucket_count) _ _
          (placed-IsValid r now peer entry (put_known peer entry) (put_known-AtMost peer entry) v)
          (put-IsValid r peer entry v))
        (add-IsValid now peer available r v)

  pub remove-IsValid :
      (peer : String) (r : RoutingModule)
      → IsValid xor r
      → IsValid xor (remove_peer_from_routing_table peer r)
  unfolding remove_peer_from_routing_table
  remove-IsValid peer r v = record {
    in_table =
        λ i p h. ground (arith, h, left i p, v.in_table i p, get-delete r.routing_table peer p);
    placed = λ i p h. v.placed i p (ground (arith, h, left i p));
  }
    where
      left :
          (i : ℕ) (p : String)
          → has (get_bucket i (map (λ b. delete b peer) r.buckets)) p
            ≡ (not (peer == p) && has (get_bucket i r.buckets) p)
      left i p =
          ap (λ b. has b p) (get_bucket-map (λ b. delete b peer) i r.buckets (delete-nil peer))
          ∙ ground (arith, get-delete (get_bucket i r.buckets) peer p)

  cleanup_loop-IsValid :
      (now threshold : ℕ) (entries : Bucket) (removed : ℕ) (r : RoutingModule)
      → IsValid xor r
      → IsValid xor (cleanup_loop now threshold entries removed r).1
  unfolding cleanup_loop
  cleanup_loop-IsValid now threshold [] removed r v = v
  cleanup_loop-IsValid now threshold ((p, e) ∷ rest) removed r v =
      cleanup_loop-IsValid now threshold rest _ _
        (IsValid-if (is_stale now threshold e) _ _ (remove-IsValid p r v) v)

  pub cleanup-IsValid :
      (now threshold : ℕ) (r : RoutingModule)
      → IsValid xor r
      → IsValid xor (cleanup_stale_entries (at_time now) threshold r).1
  unfolding cleanup_stale_entries
  cleanup-IsValid now threshold r v =
      let cleaned = cleanup_loop now threshold r.routing_table 0 r in
      let w = cleanup_loop-IsValid now threshold r.routing_table 0 r v in
      IsValid-if (ltb 0 cleaned.0) _ _ (count_update-IsValid cleaned.1 w) w

  pub optimize-IsValid :
      (now : ℕ) (r : RoutingModule) → IsValid xor r → IsValid xor (optimize_buckets (at_time now) r)
  unfolding optimize_buckets
  optimize-IsValid now r v =
      let removed = all_stale now r.buckets in
      let cleaned : RoutingModule = record r {
        buckets = map (λ b. delete_all (stale_peers now b) b) r.buckets;
        routing_table = delete_all removed r.routing_table;
      } in
      let w : IsValid xor cleaned = record {
        in_table = λ i p h. in_table i p h;
        placed = λ i p h. v.placed i p (kept i p h).1;
      } in
      IsValid-if (ltb 0 (length removed)) _ _ (count_update-IsValid cleaned w) w
    where
      -- a peer that stays in a bucket was there, and was not stale in it
      kept :
          (i : ℕ) (p : String)
          → has (get_bucket i (map (λ b. delete_all (stale_peers now b) b) r.buckets)) p ≡ true
          → (among (stale_peers now (get_bucket i r.buckets)) p ≡ false)
            × (has (get_bucket i r.buckets) p ≡ true)
      kept i p h =
          kept-delete_all (stale_peers now (get_bucket i r.buckets)) (get_bucket i r.buckets) p (
            sym (
              ap (λ b. has b p)
                (get_bucket-map (λ b. delete_all (stale_peers now b) b) i r.buckets refl))
            ∙ h)

      both : {a b : Bool} → a ≡ false → b ≡ true → (not a && b) ≡ true
      both p q = ground (arith, p, q)

      -- it is not deleted from the table, since it is in no other bucket
      in_table :
          (i : ℕ) (p : String)
          → has (get_bucket i (map (λ b. delete_all (stale_peers now b) b) r.buckets)) p ≡ true
          → has (delete_all (all_stale now r.buckets) r.routing_table) p ≡ true
      in_table i p h = elim (Bool-cases (among (all_stale now r.buckets) p)) [
        | inl stale ↦
            let (j, there) = all_stale-somewhere now r.buckets p stale in
            let same : j ≡ i =
              v.placed j p (stale_peers-has now (get_bucket j r.buckets) p there)
              ∙ sym (v.placed i p (kept i p h).1) in
            let here : among (stale_peers now (get_bucket i r.buckets)) p ≡ true =
              ap (λ k. among (stale_peers now (get_bucket k r.buckets)) p) (sym same) ∙ there in
            absurd (false≢true (sym (kept i p h).0 ∙ here))
        | inr fresh ↦
            has-delete_all (all_stale now r.buckets) r.routing_table p
            ∙ both fresh (v.in_table i p (kept i p h).1)
      ]
