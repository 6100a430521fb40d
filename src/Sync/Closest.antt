-- ===== src/Sync/Closest.antt =====
-- selectKClosestPeers of src/protocols/sync.ts.
use yapyap.Prelude.{ℕ, ◌+◌, ◌*◌, String, List, [], ◌∷◌, Bool, arith, leb}
use yapyap.Sort.{IsTop, IsPreorder, first_by, first_by-IsTop}
use yapyap.Router.Peers.{xor_bits}

-- the loop of xorDistance: the shorter text is filled with zeros
unfoldable pub distance_loop : ℕ → List ℕ → List ℕ → ℕ
distance_loop dist [] [] = dist
distance_loop dist [] (b ∷ bs) = distance_loop (dist * 256 + xor_bits 8 0 b) [] bs
distance_loop dist (a ∷ xs) [] = distance_loop (dist * 256 + xor_bits 8 a 0) xs []
distance_loop dist (a ∷ xs) (b ∷ bs) = distance_loop (dist * 256 + xor_bits 8 a b) xs bs

-- The bytes of a text are given by `bytes_of`: Buffer.from(text).
module _ (bytes_of : String → List ℕ) where
  unfoldable pub text_distance : String → String → ℕ
  unfolding distance_loop
  text_distance a b = distance_loop 0 (bytes_of a) (bytes_of b)

  -- a.dist < b.dist ? -1 : 1, to a sort that asks only whether a later one is strictly before
  abbrev pub no_farther : String → String → String → Bool
  no_farther self a b = leb (text_distance self a) (text_distance self b)

  unfoldable pub select_k_closest_peers : String → List String → ℕ → List String
  select_k_closest_peers self peers k = first_by (no_farther self) k peers

  no_farther-IsPreorder : (self : String) → IsPreorder (no_farther self)
  no_farther-IsPreorder self = record {
    total = λ a b. ground arith;
    trans = λ a b c h k. ground (arith, h, k);
  }

-- selectKClosestPeers returns the top of the peers by their distance: as many as were asked for or
-- all, each as often as it was given at most, and no peer that is left out is nearer to the node
-- than one that is returned. It does so whatever bytes the ids have.
pub select_k_closest_peers-IsTop :
    (bytes_of : String → List ℕ) (self : String) (peers : List String) (k : ℕ)
    → IsTop (no_farther bytes_of self) k peers (select_k_closest_peers bytes_of self peers k)
unfolding select_k_closest_peers
select_k_closest_peers-IsTop bytes_of self peers k =
    first_by-IsTop (no_farther bytes_of self) (no_farther-IsPreorder bytes_of self) k peers
