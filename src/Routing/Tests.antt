-- ===== src/Routing/Tests.antt =====
-- Runs of the routing module at small inputs, and its theorems at inputs that meet their hypotheses.
use yapyap.Prelude.{
  ℕ, ◌≡◌, refl, String, List, [], ◌∷◌, Option, none, some, true, false, arith, length, nat_eq,
  if◌then◌else◌, string_keys,
}
use yapyap.Map.{get}
use yapyap.Sort.{IsTop}
use yapyap.Text.{codes, hex_bytes}
use yapyap.Routing.{
  RoutingModule, PeerEntry, Surroundings, new_routing_module, get_bucket_id_for_peer, get_bucket,
  first_bit, leading_zeros,
}
use yapyap.Routing.Table.{add_peer_to_routing_table, optimize_buckets}
use yapyap.Routing.Choice.{find_closest_peers, with_distances, get_all_peers, ids_of, xor_distance}
use yapyap.Routing.Top.{at_most_as_far, find_closest_peers-IsTop}
use yapyap.Routing.Valid.{IsValid, has}
use yapyap.Routing.Runs.{Op, run, run-IsValid}
use yapyap.Routing.Distance.{
  XorsBytes, xor_bytes, common_prefix, bit_string, get_bucket_id_for_peer-common_prefix,
}
use yapyap.Router.Peers.{xor_bits}
use yapyap.Routing.Refresh.{optimize_buckets-forgets}

-- xor as documented: two sequences of one length byte by byte, and a throw at any other two.
abbrev xor_checked : List ℕ → List ℕ → Option (List ℕ)
xor_checked xs ys = if nat_eq (length xs) (length ys) then some (xor_bytes xs ys) else none

abbrev noon : Surroundings
noon = record { now = 1000000; xor = xor_checked }

xor_checked-works : XorsBytes xor_checked
xor_checked-works xs ys h = ground (arith, h)

get_bucket_id_for_peer-common_prefix_example :
    get_bucket_id_for_peer noon "a0f1" "a0ff"
    ≡ common_prefix (bit_string (hex_bytes (codes "a0f1"))) (bit_string (hex_bytes (codes "a0ff")))
unfolding hex_bytes xor_bits
get_bucket_id_for_peer-common_prefix_example =
    get_bucket_id_for_peer-common_prefix noon "a0f1" "a0ff" xor_checked-works refl refl refl refl

the_bucket : get_bucket_id_for_peer noon "a0f1" "a0ff" ≡ 12
unfolding get_bucket_id_for_peer hex_bytes xor_bits first_bit leading_zeros
the_bucket = refl

-- Two peers come in, one is refreshed, stale ones go.
abbrev some_calls : List Op
some_calls =
    Op.add 1000 "a0ff" true
    ∷ Op.add 2000 "b000" true
    ∷ Op.update 400000 "a0ff" false
    ∷ Op.optimize 400001
    ∷ Op.clean 900000 1000
    ∷ []

run-IsValid_example : IsValid xor_checked (run xor_checked some_calls (new_routing_module "a0f1"))
run-IsValid_example = run-IsValid xor_checked "a0f1" some_calls

abbrev entry_at : ℕ → PeerEntry
entry_at time = record { last_seen = time; is_available = true }

-- A module that saw two peers at these times.
abbrev two_peers : RoutingModule
two_peers = record (new_routing_module "a0f1") {
  routing_table = ("a0ff", entry_at 1000) ∷ ("b000", entry_at 2000) ∷ [];
  buckets = (("b000", entry_at 2000) ∷ []) ∷ (("a0ff", entry_at 1000) ∷ []) ∷ [];
}

find_closest_peers-IsTop_example :
    (chosen : List (String × List ℕ)) × (find_closest_peers noon two_peers "a0f0" 1
      ≡ some (ids_of chosen))
    × (ids_of (("b000", 16 ∷ 240 ∷ []) ∷ ("a0ff", 0 ∷ 15 ∷ []) ∷ []) ≡ get_all_peers two_peers)
    × IsTop at_most_as_far 1 (("b000", 16 ∷ 240 ∷ []) ∷ ("a0ff", 0 ∷ 15 ∷ []) ∷ []) chosen
unfolding with_distances get_all_peers xor_distance hex_bytes xor_bits
find_closest_peers-IsTop_example =
    find_closest_peers-IsTop noon two_peers "a0f0" 1
      (("b000", 16 ∷ 240 ∷ []) ∷ ("a0ff", 0 ∷ 15 ∷ []) ∷ []) refl

-- The peer was last seen at 1000, in the bucket of its distance.
abbrev long_ago : RoutingModule
long_ago = record two_peers {
  buckets =
      []
      ∷ []
      ∷ []
      ∷ []
      ∷ []
      ∷ []
      ∷ []
      ∷ []
      ∷ []
      ∷ []
      ∷ []
      ∷ []
      ∷ (("a0ff", entry_at 1000) ∷ [])
      ∷ [];
}

seen_long_ago :
    get (get_bucket (get_bucket_id_for_peer noon "a0f1" "a0ff") long_ago.buckets) "a0ff"
    ≡ some (entry_at 1000)
unfolding get get_bucket get_bucket_id_for_peer hex_bytes xor_bits first_bit leading_zeros
seen_long_ago = refl

optimize_buckets-forgets_example :
    has
      (optimize_buckets noon (add_peer_to_routing_table noon "a0ff" true long_ago)).routing_table
      "a0ff"
    ≡ false
unfolding new_routing_module
optimize_buckets-forgets_example =
    optimize_buckets-forgets noon "a0ff" true long_ago (entry_at 1000) seen_long_ago (omega arith)
