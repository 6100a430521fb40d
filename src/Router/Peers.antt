-- ===== src/Router/Peers.antt =====
-- Which peers keep a replica of a message (selectReplicaPeers and comparePeerDistance of
-- src/message/message-router.ts). `sort` is a stable sort; the bytes of a peer's id are a
-- function of the context, which may throw. Which pairs a sort compares is the engine's choice; here
-- it is an insertion sort, which throws if a comparison that it makes throws.
pub mod Readable
use yapyap.Prelude.{
  ℕ, zero, suc, ◌+◌, ◌-◌, ◌*◌, ◌/◌, ◌%◌, max, String, List, [], ◌∷◌, ◌++◌, Option, none, some, Bool,
  true, false, ◌||◌, ◌&&◌, not, if◌then◌else◌, ◌==◌, string_keys, leb, ltb, nat_eq, length, take,
  keep, any, map,
}
use yapyap.Prelude.Int.{ℤ, pos, negsuc, leℤ}
use yapyap.Database.{RoutingRow}
use yapyap.Router.{Router, Env}
use yapyap.Router.Limits.{get_peer_score, is_peer_blocked}

abbrev pub default_replica_count : ℕ
default_replica_count = 3

-- a ^ b on the low `bits` bits
unfoldable pub xor_bits : ℕ → ℕ → ℕ → ℕ
xor_bits zero a b = 0
xor_bits (suc bits) a b = (a % 2 + b % 2) % 2 + 2 * xor_bits bits (a / 2) (b / 2)

-- bytes[i] ?? 0, for the first i
abbrev first_byte : List ℕ → ℕ
first_byte [] = 0
first_byte (b ∷ bs) = b

abbrev later_bytes : List ℕ → List ℕ
later_bytes [] = []
later_bytes (b ∷ bs) = bs

abbrev difference : ℕ → ℕ → ℤ
difference a b = if ltb a b then negsuc (b - a - 1) else pos (a - b)

compare_bytes : ℕ → List ℕ → List ℕ → List ℕ → ℤ
unfolding xor_bits
compare_bytes zero target a b = pos 0
compare_bytes (suc left) target a b =
    let to_a = xor_bits 8 (first_byte target) (first_byte a) in
    let to_b = xor_bits 8 (first_byte target) (first_byte b) in
    let rest = compare_bytes left (later_bytes target) (later_bytes a) (later_bytes b) in
    if nat_eq to_a to_b then rest else difference to_a to_b

-- lexicographicCompareXorDistance
pub lexicographic_compare_xor_distance : List ℕ → List ℕ → List ℕ → ℤ
unfolding compare_bytes
lexicographic_compare_xor_distance target a b =
    compare_bytes (max (length target) (max (length a) (length b))) target a b

-- `none` is a throw of getPeerDistanceBytes
unfoldable pub compare_peer_distance : Env → String → String → String → Option ℤ
unfolding lexicographic_compare_xor_distance
compare_peer_distance env target a b = elim (env.distance_bytes target) [
  | none ↦ none
  | some target_bytes ↦ elim (env.distance_bytes a) [
    | none ↦ none
    | some a_bytes ↦ elim (env.distance_bytes b) [
      | none ↦ none
      | some b_bytes ↦ some (lexicographic_compare_xor_distance target_bytes a_bytes b_bytes)
    ]
  ]
]

-- a comes before b, or they are equal: the higher score first, then the smaller distance
unfoldable pub not_behind : Env → Router → String → String → String → Option Bool
unfolding compare_peer_distance
not_behind env s target a b =
    let score_a = get_peer_score s a in
    let score_b = get_peer_score s b in
    if leℤ score_a score_b && leℤ score_b score_a
    then elim (compare_peer_distance env target a b) [
      | none ↦ none
      | some order ↦ some (leℤ order (pos 0))
    ]
    else some (leℤ score_b score_a)

-- one item into a sorted list, by a comparison that may throw
unfoldable pub insert_throwing :
    (String → String → Option Bool) → String → List String → Option (List String)
insert_throwing before a [] = some (a ∷ [])
insert_throwing before a (b ∷ bs) =
    let rest = insert_throwing before a bs in
    elim (before a b) [
      | none ↦ none
      | some true ↦ some (a ∷ b ∷ bs)
      | some false ↦ elim rest [ none ↦ none | some later ↦ some (b ∷ later) ]
    ]

-- candidates.sort(...)
unfoldable pub sort_throwing : (String → String → Option Bool) → List String → Option (List String)
unfolding insert_throwing
sort_throwing before [] = some []
sort_throwing before (a ∷ rest) = elim (sort_throwing before rest) [
  | none ↦ none
  | some sorted ↦ insert_throwing before a sorted
]

-- ps.includes(p)
abbrev pub contains : List String → String → Bool
contains ps p = any (λ q. q == p) ps

-- neither the target nor the node itself, and not blocked
unfoldable pub may_serve : Env → Router → String → String → Bool
may_serve env s target p = not (p == target) && not (p == env.self) && not (is_peer_blocked s p)

abbrev peers_of : List (String × RoutingRow) → List String
peers_of rows = map (λ e. e.0) rows

pub routing_candidates : Env → Router → String → List String
unfolding may_serve
routing_candidates env s target =
    peers_of (keep (λ e. e.1.is_available && may_serve env s target e.0) s.db.routing_cache)

-- the loop over the bootstrap peers
add_bootstrap_peers : (String → Bool) → ℕ → List String → List String → List String
add_bootstrap_peers serves count [] selected = selected
add_bootstrap_peers serves count (p ∷ ps) selected =
    let skip = add_bootstrap_peers serves count ps selected in
    let next = add_bootstrap_peers serves count ps (selected ++ p ∷ []) in
    if not (serves p) || contains selected p
    then skip
    else if leb count (length (selected ++ p ∷ []))
    then selected ++ p ∷ []
    else next

-- slice(0, replicaCount), and the bootstrap peers where that is fewer
pub fill_up : (String → Bool) → ℕ → List String → List String → List String
unfolding add_bootstrap_peers
fill_up serves count bootstrap sorted =
    let selected = take count sorted in
    let more = add_bootstrap_peers serves count bootstrap selected in
    if leb count (length selected) then selected else more

-- selectReplicaPeers; `none` is a throw
unfoldable pub select_replica_peers : Env → Router → String → ℕ → Option (List String)
unfolding routing_candidates not_behind sort_throwing may_serve fill_up
select_replica_peers env s target count =
    elim (sort_throwing (not_behind env s target) (routing_candidates env s target)) [
      | none ↦ none
      | some sorted ↦ some (fill_up (may_serve env s target) count env.bootstrap_peer_ids sorted)
    ]
