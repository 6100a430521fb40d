-- ===== src/Routing/Choice.antt =====
-- The queries of src/routing/index.ts that choose peers.
use yapyap.Prelude.{
  ℕ, suc, ◌++◌, String, List, [], ◌∷◌, Option, none, some, Bool, ◌&&◌, if◌then◌else◌, leb, nat_eq,
  map, keep, length,
}
use yapyap.Prelude.Int.{ℤ, pos, negsuc, leℤ, sub_ℕ}
use yapyap.Text.{codes, hex_bytes}
use yapyap.Sort.{first_by}
use yapyap.Routing.{PeerEntry, Bucket, RoutingModule, Surroundings, get_reputation, get_peer_load}

abbrev pub peers_of : List (String × PeerEntry) → List String
peers_of entries = map (λ e. e.0) entries

unfoldable pub peers_of_buckets : List Bucket → List String
peers_of_buckets [] = []
peers_of_buckets (b ∷ bs) = peers_of b ++ peers_of_buckets bs

unfoldable pub get_all_peers : RoutingModule → List String
unfolding peers_of_buckets
get_all_peers r = peers_of_buckets r.buckets

-- xorDistance; `none` is a throw
unfoldable pub xor_distance : Surroundings → String → String → Option (List ℕ)
xor_distance env peer target = env.xor (hex_bytes (codes peer)) (hex_bytes (codes target))

-- compare
unfoldable pub compare_distances : List ℕ → List ℕ → ℤ
compare_distances [] [] = pos 0
compare_distances [] (b ∷ bs) = negsuc (length bs)
compare_distances (a ∷ xs) [] = pos (suc (length xs))
compare_distances (a ∷ xs) (b ∷ bs) =
    let rest = compare_distances xs bs in if nat_eq a b then rest else sub_ℕ a b

-- the list of { id, dist }; a distance that throws, throws here
unfoldable pub with_distances :
    Surroundings → String → List String → Option (List (String × List ℕ))
with_distances env target [] = some []
with_distances env target (p ∷ ps) = elim (xor_distance env p target) [
  | none ↦ none
  | some dist ↦ elim (with_distances env target ps) [
    | none ↦ none
    | some rest ↦ some ((p, dist) ∷ rest)
  ]
]

abbrev pub not_farther : String × List ℕ → String × List ℕ → Bool
not_farther a b = leℤ (compare_distances a.1 b.1) (pos 0)

abbrev pub ids_of : List (String × List ℕ) → List String
ids_of found = map (λ e. e.0) found

abbrev pub closest_of : ℕ → Option (List (String × List ℕ)) → Option (List String)
closest_of count none = none
closest_of count (some found) = some (ids_of (first_by not_farther count found))

unfoldable pub find_closest_peers : Surroundings → RoutingModule → String → ℕ → Option (List String)
unfolding with_distances
find_closest_peers env r target count =
    closest_of count (with_distances env target (get_all_peers r))

-- the comparison of selectOptimalPeers: a is not behind b
unfoldable pub preferred : RoutingModule → String × PeerEntry → String × PeerEntry → Bool
preferred r a b =
    let rep_a = get_reputation r a.0 in
    let rep_b = get_reputation r b.0 in
    if leℤ rep_a rep_b && leℤ rep_b rep_a
    then if nat_eq a.1.last_seen b.1.last_seen
      then leb (get_peer_load r a.0) (get_peer_load r b.0)
      else leb b.1.last_seen a.1.last_seen
    else leℤ rep_b rep_a

unfoldable pub available_entries : RoutingModule → List (String × PeerEntry)
available_entries r = keep (λ e. e.1.is_available) r.routing_table

unfoldable pub select_optimal_peers : RoutingModule → ℕ → List String
unfolding available_entries
select_optimal_peers r limit = peers_of (first_by (preferred r) limit (available_entries r))

unfoldable pub find_peers_with_capability : RoutingModule → List String
find_peers_with_capability r = peers_of (available_entries r)
