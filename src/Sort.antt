-- ===== src/Sort.antt =====
-- `items.sort(compare).slice(0, k)`: a stable sort by a comparison, and what its first k items are.
use yapyap.Prelude.{
  ℕ, zero, suc, ◌+◌, ◌≡◌, refl, ◌∙◌, min, Bool, true, ◌&&◌, if◌then◌else◌, List, [], ◌∷◌, arith,
  all, take, drop, length, length-take, ◌⊎◌,
}

-- `before a b`: compare(a, b) <= 0
unfoldable pub insert_with {ℓ} : {A : Type ℓ} → (A → A → Bool) → A → List A → List A
insert_with before a [] = a ∷ []
insert_with before a (b ∷ bs) =
    let rest = insert_with before a bs in if before a b then a ∷ b ∷ bs else b ∷ rest

-- items.sort(...)
unfoldable pub sort_with {ℓ} : {A : Type ℓ} → (A → A → Bool) → List A → List A
unfolding insert_with
sort_with before [] = []
sort_with before (a ∷ rest) = insert_with before a (sort_with before rest)

-- items.sort(...).slice(0, k)
unfoldable pub first_by {ℓ} : {A : Type ℓ} → (A → A → Bool) → ℕ → List A → List A
unfolding sort_with
first_by before k xs = take k (sort_with before xs)

abbrev pub count_if {ℓ} : {A : Type ℓ} → (A → Bool) → List A → ℕ
count_if p [] = 0
count_if p (a ∷ xs) = (if p a then 1 else 0) + count_if p xs

-- A comparison by which any two items can be ordered.
pub record IsPreorder {ℓ} {A : Type ℓ} (before : A → A → Bool) : Type ℓ where
  pub total : (a b : A) → (before a b ≡ true) ⊎ (before b a ≡ true)
  pub trans : (a b c : A) → before a b ≡ true → before b c ≡ true → before a c ≡ true

-- `chosen` are k of the items, or all if there are fewer; `left` are the others, xs often xs they
-- occur; and no chosen item is behind one that is left.
pub record IsTop {ℓ} {A : Type ℓ} (before : A → A → Bool) (k : ℕ) (xs chosen : List A)
    : Type ℓ where
  pub left : List A
  pub shared_out : (p : A → Bool) → count_if p chosen + count_if p left ≡ count_if p xs
  pub first : all (λ a. all (before a) left) chosen ≡ true
  pub size : length chosen ≡ min k (length xs)

module _ {ℓ} {A : Type ℓ} (before : A → A → Bool) where
  abbrev is_sorted : List A → Bool
  is_sorted [] = true
  is_sorted (a ∷ xs) = all (before a) xs && is_sorted xs

  count_if-insert_with :
      (p : A → Bool) (a : A) (xs : List A)
      → count_if p (insert_with before a xs) ≡ (if p a then 1 else 0) + count_if p xs
  unfolding insert_with
  count_if-insert_with p a [] = refl
  count_if-insert_with p a (b ∷ xs) = ground (arith, count_if-insert_with p a xs)

  pub count_if-sort_with :
      (p : A → Bool) (xs : List A) → count_if p (sort_with before xs) ≡ count_if p xs
  unfolding sort_with
  count_if-sort_with p [] = refl
  count_if-sort_with p (a ∷ xs) =
      omega (arith, count_if-insert_with p a (sort_with before xs), count_if-sort_with p xs)

  length-insert_with : (a : A) (xs : List A) → length (insert_with before a xs) ≡ suc (length xs)
  unfolding insert_with
  length-insert_with a [] = refl
  length-insert_with a (b ∷ xs) = ground (arith, length-insert_with a xs)

  pub length-sort_with : (xs : List A) → length (sort_with before xs) ≡ length xs
  unfolding sort_with
  length-sort_with [] = refl
  length-sort_with (a ∷ xs) =
      omega (arith, length-insert_with a (sort_with before xs), length-sort_with xs)

  all-insert_with :
      (p : A → Bool) (a : A) (xs : List A) → all p (insert_with before a xs) ≡ (p a && all p xs)
  unfolding insert_with
  all-insert_with p a [] = refl
  all-insert_with p a (b ∷ xs) = ground (arith, all-insert_with p a xs)

  module _ (order : IsPreorder before) where
    all-before :
        (a b : A) (xs : List A)
        → before a b ≡ true
        → all (before b) xs ≡ true
        → all (before a) xs ≡ true
    all-before a b [] h k = refl
    all-before a b (c ∷ xs) h k = ground (arith, order.trans a b c, all-before a b xs)

    insert_with-sorted :
        (a : A) (xs : List A) → is_sorted xs ≡ true → is_sorted (insert_with before a xs) ≡ true
    unfolding insert_with
    insert_with-sorted a [] h = refl
    insert_with-sorted a (b ∷ xs) h = ground (
      arith,
      h,
      order.total a b,
      all-before a b xs,
      all-insert_with (before b) a xs,
      insert_with-sorted a xs,
    )

    sort_with-sorted : (xs : List A) → is_sorted (sort_with before xs) ≡ true
    unfolding sort_with
    sort_with-sorted [] = refl
    sort_with-sorted (a ∷ xs) = insert_with-sorted a (sort_with before xs) (sort_with-sorted xs)

    all-drop : (p : A → Bool) (k : ℕ) (xs : List A) → all p xs ≡ true → all p (drop k xs) ≡ true
    all-drop p zero xs h = h
    all-drop p (suc k) [] h = refl
    all-drop p (suc k) (a ∷ xs) h = all-drop p k xs (ground (arith, h))

    take-before-drop :
        (k : ℕ) (xs : List A)
        → is_sorted xs ≡ true
        → all (λ a. all (before a) (drop k xs)) (take k xs) ≡ true
    take-before-drop zero xs h = refl
    take-before-drop (suc k) [] h = refl
    take-before-drop (suc k) (a ∷ xs) h =
        ground (arith, h, all-drop (before a) k xs, take-before-drop k xs)

    count_if-take-drop :
        (p : A → Bool) (k : ℕ) (xs : List A)
        → count_if p (take k xs) + count_if p (drop k xs) ≡ count_if p xs
    count_if-take-drop p zero xs = omega arith
    count_if-take-drop p (suc k) [] = refl
    count_if-take-drop p (suc k) (a ∷ xs) = omega (arith, count_if-take-drop p k xs)

    -- The first k items of the sorted list are the top k of the items.
    pub first_by-IsTop : (k : ℕ) (xs : List A) → IsTop before k xs (first_by before k xs)
    unfolding first_by
    first_by-IsTop k xs = record {
      left = drop k (sort_with before xs);
      shared_out = λ p. count_if-take-drop p k (sort_with before xs) ∙ count_if-sort_with p xs;
      first = take-before-drop k (sort_with before xs) (sort_with-sorted xs);
      size = omega (arith, length-take k (sort_with before xs), length-sort_with xs);
    }
