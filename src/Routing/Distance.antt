-- ===== src/Routing/Distance.antt =====
-- The bucket of a peer in src/routing/index.ts against the bits of the two ids.
use native.Mathlib.Nat.{pow-suc, div-div-eq-div-mul}
use yapyap.Prelude.{
  ℕ, zero, suc, ◌+◌, ◌*◌, ◌/◌, ◌%◌, ◌^◌, ◌<◌, ◌≡◌, ◌≢◌, refl, sym, ap, ◌∙◌, String, List, [], ◌∷◌,
  ◌++◌, Option, some, Bool, true, false, not, arith, if◌then◌else◌, nat_eq, length, Bool-cases, inl,
  inr, nat_eq_iff,
}
use yapyap.Text.{codes, is_hex_text, hex_bytes}
use yapyap.Routing.{
  Surroundings, leading_zeros, clz32, first_bit, bucket_of_distance, get_bucket_id_for_peer,
}
use yapyap.Router.Peers.{xor_bits}

-- The bits of a number, the highest first, and those of a sequence of bytes.
abbrev pub bits : ℕ → ℕ → List ℕ
bits zero n = []
bits (suc k) n = n / 2 ^ k % 2 ∷ bits k n

abbrev pub bit_string : List ℕ → List ℕ
bit_string [] = []
bit_string (b ∷ bs) = bits 8 b ++ bit_string bs

-- How far two sequences agree.
abbrev pub common_prefix : List ℕ → List ℕ → ℕ
common_prefix [] ys = 0
common_prefix (x ∷ xs) [] = 0
common_prefix (x ∷ xs) (y ∷ ys) =
    let rest = common_prefix xs ys in if nat_eq x y then suc rest else 0

abbrev pub xor_bytes : List ℕ → List ℕ → List ℕ
xor_bytes [] ys = []
xor_bytes (x ∷ xs) [] = []
xor_bytes (x ∷ xs) (y ∷ ys) = xor_bits 8 x y ∷ xor_bytes xs ys

div-pow-suc : (n k : ℕ) → n / 2 ^ suc k ≡ n / 2 / 2 ^ k
div-pow-suc n k =
    let e : 2 ^ suc k ≡ 2 * 2 ^ k = omega (arith, pow-suc 2 k) in
    ap (λ d. n / d) e ∙ sym (div-div-eq-div-mul n 2 (2 ^ k))

xor_bits-half : (n a b : ℕ) → xor_bits (suc n) a b / 2 ≡ xor_bits n (a / 2) (b / 2)
unfolding xor_bits
xor_bits-half n a b = omega arith

xor_bits-bit :
    (k n a b : ℕ) → k < n → xor_bits n a b / 2 ^ k % 2 ≡ (a / 2 ^ k % 2 + b / 2 ^ k % 2) % 2
unfolding xor_bits
xor_bits-bit k zero a b h = absurd (omega (arith, h))
xor_bits-bit zero (suc n) a b h = omega arith
xor_bits-bit (suc k) (suc n) a b h =
    rw (div-pow-suc (xor_bits (suc n) a b) k, div-pow-suc a k, div-pow-suc b k, xor_bits-half n a b)
      (xor_bits-bit k n (a / 2) (b / 2) (omega (arith, h)))

leading_zeros-common_prefix :
    (k x a b : ℕ)
    → ((j : ℕ) → j < k → x / 2 ^ j % 2 ≡ (a / 2 ^ j % 2 + b / 2 ^ j % 2) % 2)
    → leading_zeros k x ≡ common_prefix (bits k a) (bits k b)
unfolding leading_zeros
leading_zeros-common_prefix zero x a b h = refl
leading_zeros-common_prefix (suc k) x a b h =
    ground (
      arith,
      h k (omega arith),
      leading_zeros-common_prefix k x a b (λ j l. h j (omega (arith, l))),
    )

clz32_byte : (n : ℕ) → n < 256 → clz32 n ≡ leading_zeros 8 n + 24
unfolding leading_zeros
clz32_byte n h = ground (arith, h)

leading_zeros-byte : (n : ℕ) → n < 256 → n ≢ 0 → leading_zeros 8 n < 8
unfolding leading_zeros
leading_zeros-byte n h k = ground (arith, h, k)

xor_bits-lt : (a b : ℕ) → xor_bits 8 a b < 256
unfolding xor_bits
xor_bits-lt a b = omega arith

leading_zeros-xor_bits :
    (a b : ℕ) → leading_zeros 8 (xor_bits 8 a b) ≡ common_prefix (bits 8 a) (bits 8 b)
leading_zeros-xor_bits a b =
    leading_zeros-common_prefix 8 (xor_bits 8 a b) a b (λ j h. xor_bits-bit j 8 a b h)

leading_zeros-zero : leading_zeros 8 0 ≡ 8
unfolding leading_zeros
leading_zeros-zero = refl

common_prefix-append :
    (xs ys r s : List ℕ)
    → length xs ≡ length ys
    → common_prefix (xs ++ r) (ys ++ s) ≡ (
        if nat_eq (common_prefix xs ys) (length xs)
        then length xs + common_prefix r s
        else common_prefix xs ys)
common_prefix-append [] [] r s h = omega arith
common_prefix-append [] (y ∷ ys) r s h = absurd (omega (arith, h))
common_prefix-append (x ∷ xs) [] r s h = absurd (omega (arith, h))
common_prefix-append (x ∷ xs) (y ∷ ys) r s h =
    ground (arith, common_prefix-append xs ys r s (omega (arith, h)))

length-bits : (k n : ℕ) → length (bits k n) ≡ k
length-bits zero n = refl
length-bits (suc k) n = ap suc (length-bits k n)

-- The agreement of two ids whose first bytes are these.
common_prefix-bytes :
    (a b : ℕ) (xs ys : List ℕ)
    → common_prefix (bit_string (a ∷ xs)) (bit_string (b ∷ ys)) ≡ (
        if nat_eq (leading_zeros 8 (xor_bits 8 a b)) 8
        then 8 + common_prefix (bit_string xs) (bit_string ys)
        else leading_zeros 8 (xor_bits 8 a b))
common_prefix-bytes a b xs ys =
    common_prefix-append (bits 8 a) (bits 8 b) (bit_string xs) (bit_string ys) refl
    ∙ ap (λ n. if nat_eq n 8 then 8 + common_prefix (bit_string xs) (bit_string ys) else n)
        (sym (leading_zeros-xor_bits a b))

-- Some byte differs.
abbrev pub any_set : List ℕ → Bool
any_set [] = false
any_set (b ∷ bs) = if nat_eq b 0 then any_set bs else true

first_bit-common_prefix :
    (i : ℕ) (xs ys : List ℕ)
    → length xs ≡ length ys
    → any_set (xor_bytes xs ys) ≡ true
    → first_bit i (xor_bytes xs ys) ≡ i * 8 + common_prefix (bit_string xs) (bit_string ys)
unfolding first_bit
first_bit-common_prefix i [] ys h k = ground (arith, k)
first_bit-common_prefix i (x ∷ xs) [] h k = ground (arith, k)
first_bit-common_prefix i (x ∷ xs) (y ∷ ys) h k = elim (Bool-cases (nat_eq (xor_bits 8 x y) 0)) [
  | inl equal ↦ rw (common_prefix-bytes x y xs ys) (
      ground (
        arith,
        equal,
        leading_zeros-zero,
        ap (leading_zeros 8) ((nat_eq_iff (xor_bits 8 x y) 0).0 equal),
        first_bit-common_prefix (i + 1) xs ys (omega (arith, h)),
        k,
      ))
  | inr differ ↦ rw (common_prefix-bytes x y xs ys) (
      ground (
        arith,
        differ,
        clz32_byte (xor_bits 8 x y) (xor_bits-lt x y),
        leading_zeros-byte (xor_bits 8 x y) (xor_bits-lt x y),
      ))
]

-- What the package's xor does with two sequences of one length.
abbrev pub XorsBytes : (List ℕ → List ℕ → Option (List ℕ)) → Type 0
XorsBytes xor = (xs ys : List ℕ) → length xs ≡ length ys → xor xs ys ≡ some (xor_bytes xs ys)

-- For two ids that are hexadecimal texts of one length and whose bytes differ, the bucket is the
-- number of bits in which the ids agree before they first differ, if xor works byte by byte.
pub get_bucket_id_for_peer-common_prefix :
    (env : Surroundings) (self peer : String)
    → XorsBytes env.xor
    → is_hex_text (codes self) ≡ true
    → is_hex_text (codes peer) ≡ true
    → length (hex_bytes (codes self)) ≡ length (hex_bytes (codes peer))
    → any_set (xor_bytes (hex_bytes (codes self)) (hex_bytes (codes peer))) ≡ true
    → get_bucket_id_for_peer env self peer
      ≡ common_prefix (bit_string (hex_bytes (codes self))) (bit_string (hex_bytes (codes peer)))
unfolding get_bucket_id_for_peer
get_bucket_id_for_peer-common_prefix env self peer works own other same differ =
    let xs = hex_bytes (codes self) in
    let ys = hex_bytes (codes peer) in
    ap
      (λ a.
        if not a
        then 255
        else if not (is_hex_text (codes self))
        then 255
        else bucket_of_distance (env.xor xs ys))
      other
    ∙ ap (λ a. if not a then 255 else bucket_of_distance (env.xor xs ys)) own
    ∙ ap bucket_of_distance (works xs ys same)
    ∙ first_bit-common_prefix 0 xs ys same differ
    ∙ omega arith
