-- ===== src/Map.antt =====
-- A JavaScript `Map`, and a table of the database by its primary key: an association list in
-- the order of insertion. A second write to a key keeps its place, as in the language.
use yapyap.Prelude.{
  ◌+◌, ◌≤◌, ◌<◌, ◌≡◌, refl, true, Option, none, some, List, [], ◌∷◌, arith, if◌then◌else◌, HasKeys,
  ◌==◌, ==_iff, is_some, length,
}

abbrev pub on_some {κ} : {V : Type κ} → (V → V) → Option V → Option V
on_some f none = none
on_some f (some v) = some (f v)

module _ {ℓ κ} {K : Type ℓ} {V : Type κ} ⦃e : HasKeys K⦄ where
  -- `m.get(k)`, `SELECT … WHERE key = k`
  unfoldable pub get : List (K × V) → K → Option V
  get [] k = none
  get ((j, v) ∷ m) k = if j == k then some v else get m k

  -- `m.set(k, v)`, `INSERT OR REPLACE`
  unfoldable pub put : List (K × V) → K → V → List (K × V)
  put [] k v = (k, v) ∷ []
  put ((j, w) ∷ m) k v = if j == k then (k, v) ∷ m else (j, w) ∷ put m k v

  -- `m.delete(k)`, `DELETE … WHERE key = k`
  unfoldable pub delete : List (K × V) → K → List (K × V)
  delete [] k = []
  delete ((j, w) ∷ m) k = let rest = delete m k in if j == k then rest else (j, w) ∷ rest

  -- `UPDATE … WHERE key = k`: a missing row is left missing
  unfoldable pub modify : List (K × V) → K → (V → V) → List (K × V)
  modify [] k f = []
  modify ((j, w) ∷ m) k f =
      let rest = modify m k f in if j == k then (j, f w) ∷ rest else (j, w) ∷ rest

  pub get-put :
      (m : List (K × V)) (k j : K) (v : V)
      → get (put m k v) j ≡ (if k == j then some v else get m j)
  unfolding get put
  get-put [] k j v = refl
  get-put ((i, w) ∷ m) k j v = ground (arith, ==_iff i k, ==_iff i j, ==_iff k j, get-put m k j v)

  pub get-delete :
      (m : List (K × V)) (k j : K) → get (delete m k) j ≡ (if k == j then none else get m j)
  unfolding get delete
  get-delete [] k j = ground arith
  get-delete ((i, w) ∷ m) k j = ground (arith, ==_iff i k, ==_iff i j, ==_iff k j, get-delete m k j)

  pub get-modify :
      (m : List (K × V)) (k j : K) (f : V → V)
      → get (modify m k f) j ≡ (if k == j then on_some f (get m j) else get m j)
  unfolding get modify
  get-modify [] k j f = ground arith
  get-modify ((i, w) ∷ m) k j f =
      ground (arith, ==_iff i k, ==_iff i j, ==_iff k j, get-modify m k j f)

  pub length-put-le : (m : List (K × V)) (k : K) (v : V) → length (put m k v) ≤ length m + 1
  unfolding put
  length-put-le [] k v = omega arith
  length-put-le ((i, w) ∷ m) k v = ground (arith, length-put-le m k v)

  pub length-delete-le : (m : List (K × V)) (k : K) → length (delete m k) ≤ length m
  unfolding delete
  length-delete-le [] k = omega arith
  length-delete-le ((i, w) ∷ m) k = ground (arith, length-delete-le m k)

  -- Deleting a key that is there makes the map smaller.
  pub length-delete-lt :
      (m : List (K × V)) (k : K) → is_some (get m k) ≡ true → length (delete m k) < length m
  unfolding get delete
  length-delete-lt [] k h = ground arith
  length-delete-lt ((i, w) ∷ m) k h = ground (arith, length-delete-lt m k, length-delete-le m k)

pub ruleset map_laws = (get-put, get-delete, get-modify)
