-- ===== src/Router/Peers/Readable.antt =====
-- Where selectReplicaPeers of src/message/message-router.ts does not throw.
use mathlib.Core.Bool.{true≢false}
use yapyap.Prelude.{
  ℕ, String, List, [], ◌∷◌, Option, none, some, Bool, true, false, ◌≢◌, refl, is_some, ap,
  if◌then◌else◌,
}
use yapyap.Prelude.Int.{ℤ, pos, leℤ}
use yapyap.Router.{Router, Env}
use yapyap.Router.Peers.{
  lexicographic_compare_xor_distance, compare_peer_distance, not_behind, insert_throwing,
  sort_throwing, routing_candidates, fill_up, may_serve, select_replica_peers,
}

some≢none : {A : Type 0} (a : A) → some a ≢ none
some≢none a e = true≢false (ap is_some e)

module _ (before : String → String → Option Bool) (total : (a b : String) → before a b ≢ none) where
  insert_throwing-total : (a : String) (bs : List String) → insert_throwing before a bs ≢ none
  unfolding insert_throwing
  insert_throwing-total a [] = some≢none _
  insert_throwing-total a (b ∷ bs) =
      go (before a b) (insert_throwing before a bs) (total a b) (insert_throwing-total a bs)
    where
      go :
          (o : Option Bool) (rest : Option (List String))
          → o ≢ none
          → rest ≢ none
          → elim o [
            | none ↦ none
            | some true ↦ some (a ∷ b ∷ bs)
            | some false ↦ elim rest [ none ↦ none | some later ↦ some (b ∷ later) ]
          ]
            ≢ none
      go none rest h k = absurd (h refl)
      go (some true) rest h k = some≢none _
      go (some false) none h k = absurd (k refl)
      go (some false) (some later) h k = some≢none _

  sort_throwing-total : (xs : List String) → sort_throwing before xs ≢ none
  unfolding sort_throwing
  sort_throwing-total [] = some≢none _
  sort_throwing-total (a ∷ rest) = go (sort_throwing before rest) (sort_throwing-total rest)
    where
      go :
          (o : Option (List String))
          → o ≢ none
          → elim o [ none ↦ none | some sorted ↦ insert_throwing before a sorted ] ≢ none
      go none h = absurd (h refl)
      go (some sorted) h = insert_throwing-total a sorted

module _ (env : Env) (readable : (peer : String) → env.distance_bytes peer ≢ none) where
  compare_peer_distance-total : (target a b : String) → compare_peer_distance env target a b ≢ none
  unfolding compare_peer_distance
  compare_peer_distance-total target a b =
      go (env.distance_bytes target) (env.distance_bytes a) (env.distance_bytes b) (readable target)
        (readable a) (readable b)
    where
      go :
          (t x y : Option (List ℕ))
          → t ≢ none
          → x ≢ none
          → y ≢ none
          → elim t [
            | none ↦ none
            | some target_bytes ↦ elim x [
              | none ↦ none
              | some a_bytes ↦ elim y [
                | none ↦ none
                | some b_bytes ↦
                    some (lexicographic_compare_xor_distance target_bytes a_bytes b_bytes)
              ]
            ]
          ]
            ≢ none
      go none x y h k l = absurd (h refl)
      go (some t) none y h k l = absurd (k refl)
      go (some t) (some x) none h k l = absurd (l refl)
      go (some t) (some x) (some y) h k l = some≢none _

  not_behind-total : (s : Router) (target a b : String) → not_behind env s target a b ≢ none
  unfolding not_behind
  not_behind-total s target a b =
      go _ _ (compare_peer_distance env target a b) (compare_peer_distance-total target a b)
    where
      go :
          (same higher : Bool) (o : Option ℤ)
          → o ≢ none
          → (if same
              then elim o [ none ↦ none | some order ↦ some (leℤ order (pos 0)) ]
              else some higher)
            ≢ none
      go true higher none h = absurd (h refl)
      go true higher (some order) h = some≢none _
      go false higher o h = some≢none _

  -- Where every peer's id can be read, selectReplicaPeers returns.
  pub select_replica_peers-readable :
      (s : Router) (target : String) (count : ℕ) → select_replica_peers env s target count ≢ none
  unfolding select_replica_peers
  select_replica_peers-readable s target count =
      go (sort_throwing (not_behind env s target) (routing_candidates env s target)) (
        sort_throwing-total (not_behind env s target) (not_behind-total s target)
          (routing_candidates env s target))
    where
      go :
          (o : Option (List String))
          → o ≢ none
          → elim o [
            | none ↦ none
            | some sorted ↦
                some (fill_up (may_serve env s target) count env.bootstrap_peer_ids sorted)
          ]
            ≢ none
      go none h = absurd (h refl)
      go (some sorted) h = some≢none _
