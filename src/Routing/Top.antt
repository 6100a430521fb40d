-- ===== src/Routing/Top.antt =====
-- What findClosestPeers and selectOptimalPeers of src/routing/index.ts choose.
use yapyap.Prelude.{
  ℕ, ◌≡◌, refl, String, List, [], ◌∷◌, Option, none, some, true, arith, ◌⊎◌, inl, inr, ap, sym, ◌∙◌,
  or_else, Bool, false, ltb, nat_eq, ◌||◌, ◌&&◌, all,
}
use yapyap.Prelude.Int.{pos, leℤ}
use yapyap.Sort.{IsPreorder, IsTop, first_by, first_by-IsTop}
use yapyap.Routing.{PeerEntry, RoutingModule, Surroundings}
use yapyap.Routing.Choice.{
  compare_distances, not_farther, with_distances, find_closest_peers, get_all_peers, preferred,
  available_entries, select_optimal_peers, ids_of, closest_of, peers_of, xor_distance,
}

compare_distances-total :
    (a b : List ℕ)
    → (leℤ (compare_distances a b) (pos 0) ≡ true) ⊎ (leℤ (compare_distances b a) (pos 0) ≡ true)
unfolding compare_distances
compare_distances-total [] [] = inl refl
compare_distances-total [] (b ∷ bs) = inl (ground arith)
compare_distances-total (a ∷ xs) [] = inr (ground arith)
compare_distances-total (a ∷ xs) (b ∷ bs) = ground (arith, compare_distances-total xs bs)

compare_distances_trans :
    (a b c : List ℕ)
    → leℤ (compare_distances a b) (pos 0) ≡ true
    → leℤ (compare_distances b c) (pos 0) ≡ true
    → leℤ (compare_distances a c) (pos 0) ≡ true
unfolding compare_distances
compare_distances_trans [] [] c h k = k
compare_distances_trans [] (b ∷ bs) [] h k = refl
compare_distances_trans [] (b ∷ bs) (c ∷ cs) h k = ground arith
compare_distances_trans (a ∷ xs) [] c h k = ground (arith, h)
compare_distances_trans (a ∷ xs) (b ∷ bs) [] h k = ground (arith, k)
compare_distances_trans (a ∷ xs) (b ∷ bs) (c ∷ cs) h k =
    ground (arith, h, k, compare_distances_trans xs bs cs)

not_farther-IsPreorder : IsPreorder not_farther
not_farther-IsPreorder = record {
  total = λ a b. compare_distances-total a.1 b.1;
  trans = λ a b c. compare_distances_trans a.1 b.1 c.1;
}

-- The dictionary order of byte strings: the smaller first byte, or the same one and then the rest.
abbrev pub at_most : List ℕ → List ℕ → Bool
at_most [] ys = true
at_most (x ∷ xs) [] = false
at_most (x ∷ xs) (y ∷ ys) = let rest = at_most xs ys in ltb x y || (nat_eq x y && rest)

abbrev pub at_most_as_far : String × List ℕ → String × List ℕ → Bool
at_most_as_far a b = at_most a.1 b.1

-- The code's comparison is that order.
compare_distances-at_most : (xs ys : List ℕ) → leℤ (compare_distances xs ys) (pos 0) ≡ at_most xs ys
unfolding compare_distances
compare_distances-at_most [] [] = refl
compare_distances-at_most [] (y ∷ ys) = ground arith
compare_distances-at_most (x ∷ xs) [] = ground arith
compare_distances-at_most (x ∷ xs) (y ∷ ys) = ground (arith, compare_distances-at_most xs ys)

all_same : {A : Type 0} (p q : A → Bool) (xs : List A) → ((a : A) → p a ≡ q a) → all p xs ≡ all q xs
all_same p q [] h = refl
all_same p q (a ∷ xs) h = ground (arith, h a, all_same p q xs h)

not_farther-at_most_as_far :
    (count : ℕ) (found chosen : List (String × List ℕ))
    → IsTop not_farther count found chosen
    → IsTop at_most_as_far count found chosen
not_farther-at_most_as_far count found chosen top = record {
  left = top.left;
  shared_out = top.shared_out;
  first =
      sym (
        all_same (λ a. all (not_farther a) top.left) (λ a. all (at_most_as_far a) top.left) chosen
          (λ a.
            all_same (not_farther a) (at_most_as_far a) top.left
              (λ b. compare_distances-at_most a.1 b.1)))
      ∙ top.first;
  size = top.size;
}

preferred-IsPreorder : (r : RoutingModule) → IsPreorder (preferred r)
unfolding preferred
preferred-IsPreorder r = record {
  total = λ a b. ground arith;
  trans = λ a b c h k. ground (arith, h, k);
}

cons-ids :
    (p : String) (ps : List String) (d : Option (List ℕ)) (rest : Option (List (String × List ℕ)))
    (found : List (String × List ℕ))
    → ((others : List (String × List ℕ)) → rest ≡ some others → ids_of others ≡ ps)
    → elim d [
      | none ↦ none
      | some dist ↦ elim rest [ none ↦ none | some others ↦ some ((p, dist) ∷ others) ]
    ]
      ≡ some found
    → ids_of found ≡ p ∷ ps
cons-ids p ps none rest found of_rest h = ground (arith, h)
cons-ids p ps (some dist) none found of_rest h = ground (arith, h)
cons-ids p ps (some dist) (some others) found of_rest h =
    ap ids_of (sym (ap (λ o. or_else o []) h)) ∙ ap (λ ids. p ∷ ids) (of_rest others refl)

with_distances-ids :
    (env : Surroundings) (target : String) (ps : List String) (found : List (String × List ℕ))
    → with_distances env target ps ≡ some found
    → ids_of found ≡ ps
unfolding with_distances
with_distances-ids env target [] found h = ap ids_of (sym (ap (λ o. or_else o []) h))
with_distances-ids env target (p ∷ ps) found h =
    cons-ids p ps (xor_distance env p target) (with_distances env target ps) found
      (with_distances-ids env target ps) h

-- If no distance to the target throws, findClosestPeers returns the ids of the top of all peers of
-- the buckets, each with its distance: as many as were asked for or all, and the distance of a peer
-- that is returned is at most that of one that is left out, in the dictionary order of their bytes.
pub find_closest_peers-IsTop :
    (env : Surroundings) (r : RoutingModule) (target : String) (count : ℕ)
    (found : List (String × List ℕ))
    → with_distances env target (get_all_peers r) ≡ some found
    → (chosen : List (String × List ℕ)) × (find_closest_peers env r target count
        ≡ some (ids_of chosen))
      × (ids_of found ≡ get_all_peers r)
      × IsTop at_most_as_far count found chosen
unfolding find_closest_peers
find_closest_peers-IsTop env r target count found e = (
  first_by not_farther count found,
  ap (closest_of count) e,
  with_distances-ids env target (get_all_peers r) found e,
  not_farther-at_most_as_far count found (first_by not_farther count found)
      (first_by-IsTop not_farther not_farther-IsPreorder count found),
)

-- The peers that selectOptimalPeers returns are the top of the available peers of the table: by
-- reputation, then by when they were seen last, then by their load.
pub select_optimal_peers-IsTop :
    (r : RoutingModule) (limit : ℕ)
    → (chosen : List (String × PeerEntry)) × (select_optimal_peers r limit ≡ peers_of chosen)
      × IsTop (preferred r) limit (available_entries r) chosen
unfolding select_optimal_peers
select_optimal_peers-IsTop r limit = (
  first_by (preferred r) limit (available_entries r),
  refl,
  first_by-IsTop (preferred r) (preferred-IsPreorder r) limit (available_entries r),
)
