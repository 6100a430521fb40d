-- ===== src/Routing/Valid.antt =====
-- What the table and the buckets of src/routing/index.ts have to do with one another.
use yapyap.Prelude.{
  ℕ, zero, suc, ◌≡◌, refl, sym, String, List, [], ◌∷◌, ◌++◌, Option, none, Bool, true, false, ◌&&◌,
  ◌||◌, not, arith, is_some, if◌then◌else◌, ◌==◌, string_keys, any, map, nat_eq, Bool-cases, inl,
  inr,
}
use yapyap.Map.{get, delete, get-put, get-delete}
use yapyap.Routing.{
  PeerEntry, Bucket, RoutingModule, get_bucket_id_for_peer, change_bucket, get_bucket,
}
use yapyap.Routing.Table.{put_new, put_known, stale_peers, delete_all, all_stale}

abbrev pub has : List (String × PeerEntry) → String → Bool
has m p = is_some (get m p)

-- A bucket holds peers of the table only, and only those whose distance belongs to it.
pub record IsValid (xor : List ℕ → List ℕ → Option (List ℕ)) (r : RoutingModule) : Type 0 where
  pub in_table :
      (i : ℕ) (p : String) → has (get_bucket i r.buckets) p ≡ true → has r.routing_table p ≡ true
  pub placed :
      (i : ℕ) (p : String)
      → has (get_bucket i r.buckets) p ≡ true
      → i ≡ get_bucket_id_for_peer (record { now = 0; xor = xor }) r.self_id p

-- A change of a bucket that brings in no other peer than `q`.
abbrev pub AtMost : String → (Bucket → Bucket) → Type 0
AtMost q f = (b : Bucket) (p : String) → has (f b) p ≡ true → ((q == p) || has b p) ≡ true

pub get_bucket-change_bucket :
    (i j : ℕ) (q p : String) (f : Bucket → Bucket) (bs : List Bucket)
    → AtMost q f
    → has (get_bucket j (change_bucket i f bs)) p ≡ true
    → ((nat_eq i j && (q == p)) || has (get_bucket j bs) p) ≡ true
unfolding change_bucket get_bucket
get_bucket-change_bucket i j q p f [] only h = ground (arith, h)
get_bucket-change_bucket zero zero q p f (b ∷ bs) only h = only b p h
get_bucket-change_bucket zero (suc j) q p f (b ∷ bs) only h = ground (arith, h)
get_bucket-change_bucket (suc i) zero q p f (b ∷ bs) only h = ground (arith, h)
get_bucket-change_bucket (suc i) (suc j) q p f (b ∷ bs) only h =
    ground (arith, get_bucket-change_bucket i j q p f bs only h)

pub put_new-AtMost : (q : String) (e : PeerEntry) → AtMost q (put_new q e)
put_new-AtMost q e b p h = ground (arith, h, get-put b q p e)

pub put_known-AtMost : (q : String) (e : PeerEntry) → AtMost q (put_known q e)
put_known-AtMost q e b p h = ground (arith, h, get-put b q p e)

pub get_bucket-map :
    (f : Bucket → Bucket) (i : ℕ) (bs : List Bucket)
    → f [] ≡ []
    → get_bucket i (map f bs) ≡ f (get_bucket i bs)
unfolding get_bucket
get_bucket-map f i [] e = sym e
get_bucket-map f zero (b ∷ bs) e = refl
get_bucket-map f (suc i) (b ∷ bs) e = get_bucket-map f i bs e

abbrev pub among : List String → String → Bool
among ps p = any (λ q. q == p) ps

pub get-delete_all :
    (ps : List String) (m : List (String × PeerEntry)) (p : String)
    → get (delete_all ps m) p ≡ (if among ps p then none else get m p)
get-delete_all [] m p = refl
get-delete_all (q ∷ ps) m p = ground (arith, get-delete_all ps (delete m q) p, get-delete m q p)

pub among-append :
    (ps qs : List String) (p : String) → among (ps ++ qs) p ≡ (among ps p || among qs p)
among-append [] qs p = refl
among-append (a ∷ ps) qs p = ground (arith, among-append ps qs p)

-- A stale peer of a bucket is a peer of it.
pub stale_peers-has :
    (now : ℕ) (b : Bucket) (p : String) → among (stale_peers now b) p ≡ true → has b p ≡ true
unfolding get
stale_peers-has now [] p h = ground (arith, h)
stale_peers-has now ((q, e) ∷ b) p h = ground (arith, h, stale_peers-has now b p)

pub all_stale-somewhere :
    (now : ℕ) (bs : List Bucket) (p : String)
    → among (all_stale now bs) p ≡ true
    → (i : ℕ) × (among (stale_peers now (get_bucket i bs)) p ≡ true)
unfolding all_stale get_bucket
all_stale-somewhere now [] p h = (0, h)
all_stale-somewhere now (b ∷ bs) p h = elim (Bool-cases (among (stale_peers now b) p)) [
  | inl here ↦ (0, here)
  | inr later ↦
      let (i, e) =
        all_stale-somewhere now bs p
          (ground (arith, h, later, among-append (stale_peers now b) (all_stale now bs) p)) in
      (suc i, e)
]

pub delete-nil : (p : String) → delete {V = PeerEntry} [] p ≡ []
unfolding delete
delete-nil p = refl

pub has-delete_all :
    (ps : List String) (m : List (String × PeerEntry)) (p : String)
    → has (delete_all ps m) p ≡ (not (among ps p) && has m p)
has-delete_all ps m p = ground (arith, get-delete_all ps m p)

-- A peer that stays where some are deleted was there, and is none of those.
pub kept-delete_all :
    (ps : List String) (m : List (String × PeerEntry)) (p : String)
    → has (delete_all ps m) p ≡ true
    → (among ps p ≡ false) × (has m p ≡ true)
kept-delete_all ps m p h = ground (arith, h, has-delete_all ps m p)
