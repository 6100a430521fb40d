-- ===== src/Crypto/Convert.antt =====
-- What the keys that src/crypto/index.ts converts are worth: bytes and numbers, and the map from the
-- Edwards curve to the Montgomery curve.
use native.Mathlib.Nat.{div-add-mod', mod-lt, mod-eq_of_lt, pow-suc}
use yapyap.Prelude.{
  ℕ, zero, suc, ◌+◌, ◌*◌, ◌/◌, ◌%◌, ◌^◌, ◌<◌, ◌≡◌, ◌≢◌, refl, ap, ◌∙◌, ◌⊎◌, inl, inr, arith, length,
  take, ◌∷◌, nat_eq, nat_eq_iff, Bool-cases, if◌then◌else◌, subst, true,
}
use yapyap.Framing.{Bytes}
use yapyap.Prelude.Int.{ℤ, pos, negsuc}
use yapyap.Crypto.{Checked, CryptoError, ok, err, y_is_one, not_invertible, not_32_bytes}
use yapyap.Crypto.Inverse.{same_mod, mod_inverse_lem}
use yapyap.Crypto.Field.{
  p25519, is_zero, mod_inverse, montgomery_bytes, montgomery_of, convert_ed25519_public_to_x25519,
  positive_mod, numerator, denominator, edwards_byte, decode_loop, decode_edwards_y, little_endian,
  to_little_endian,
}

length-little_endian : (n v : ℕ) → length (little_endian n v) ≡ n
length-little_endian zero v = refl
length-little_endian (suc n) v = omega (arith, length-little_endian n (v / 256))

byte_in_place : (v : ℕ) → v * 256 ^ 31 < 2 ^ 255 → v % 256 % 128 ≡ v % 256
byte_in_place v h = omega (arith, h)

edwards_byte_same : (i v : ℕ) → v * 256 ^ i < 2 ^ 255 → edwards_byte i (v % 256) ≡ v % 256
edwards_byte_same i v h = elim (Bool-cases (nat_eq i 31)) [
  | inl last ↦
      ap (λ b. if b then v % 256 % 128 else v % 256) last
      ∙ byte_in_place v (subst (λ j. v * 256 ^ j < 2 ^ 255) ((nat_eq_iff i 31).0 last) h)
  | inr other ↦ ap (λ b. if b then v % 256 % 128 else v % 256) other
]

decode_loop-little_endian :
    (n i y v : ℕ)
    → i + n ≡ 32
    → v * 256 ^ i < 2 ^ 255
    → decode_loop i y (little_endian n v) ≡ y + v * 256 ^ i
decode_loop-little_endian zero i y v e h =
    let last : i ≡ 32 = omega (arith, e) in
    let below : v * 256 ^ 32 < 2 ^ 255 = subst (λ j. v * 256 ^ j < 2 ^ 255) last h in
    let none_left : v ≡ 0 = omega (arith, below) in rw none_left (omega arith)
decode_loop-little_endian (suc n) i y v e h =
    let w = 256 ^ i in
    let next : 256 ^ suc i ≡ w * 256 = pow-suc 256 i in
    let shifted = ap (◌*◌ (v / 256)) next in
    let whole = ap (λ t. t * w) (div-add-mod' v 256) in
    ap (λ b. decode_loop (suc i) (y + b * w) (little_endian n (v / 256))) (edwards_byte_same i v h)
    ∙ decode_loop-little_endian n (suc i) (y + v % 256 * w) (v / 256) (omega (arith, e))
        (omega (arith, shifted, whole, h))
    ∙ omega (arith, shifted, whole)

take-little_endian : (n v : ℕ) → take n (little_endian n v) ≡ little_endian n v
take-little_endian zero v = refl
take-little_endian (suc n) v = ap (◌∷◌ (v % 256)) (take-little_endian n (v / 256))

-- A number of at most 255 bits is read back from the 32 bytes that toLittleEndian writes.
pub decode_edwards_y-to_little_endian :
    (v : ℕ) → v < 2 ^ 255 → decode_edwards_y (to_little_endian v) ≡ v
unfolding decode_edwards_y to_little_endian
decode_edwards_y-to_little_endian v h =
    ap (decode_loop 0 0) (take-little_endian 32 v)
    ∙ decode_loop-little_endian 32 0 0 v refl (omega (arith, h))
    ∙ omega arith

pub length-to_little_endian : (v : ℕ) → length (to_little_endian v) ≡ 32
unfolding to_little_endian
length-to_little_endian v = length-little_endian 32 v

-- What one conversion of a public key comes to.
pub record IsConverted (raw : Bytes) (r : Checked Bytes) : Type 0 where
  pub key : Bytes
  pub returned : r ≡ ok key
  pub length_32 : length key ≡ 32
  pub below : decode_edwards_y key < p25519
  pub on_the_line :
      (decode_edwards_y key * positive_mod (denominator (decode_edwards_y raw)) p25519) % p25519
      ≡ numerator (decode_edwards_y raw)

montgomery_inverse :
    (n d r : ℕ) → n < p25519 → (r * d) % p25519 ≡ 1 → ((n * r) % p25519 * d) % p25519 ≡ n
montgomery_inverse n d r h e =
    same_mod p25519 ((n * r) % p25519 * d) n ((n * r) / p25519 * d) (n * ((r * d) / p25519)) (
      omega (
        arith,
        ap (λ t. t * d) (div-add-mod' (n * r) p25519),
        ap (◌*◌ n) (div-add-mod' (r * d) p25519),
        ap (◌*◌ n) e,
      ))
    ∙ mod-eq_of_lt h

-- The conversion threw, and what it would have to divide by has no inverse.
pub record IsRefused (raw : Bytes) (r : Checked Bytes) : Type 0 where
  pub error : CryptoError
  pub thrown : r ≡ err error
  pub no_quotient :
      (s : ℕ) → (s * positive_mod (denominator (decode_edwards_y raw)) p25519) % p25519 ≢ 1

zero_has_no_inverse :
    (d : ℤ) → is_zero d ≡ true → (s : ℕ) → (s * positive_mod d p25519) % p25519 ≢ 1
unfolding positive_mod
zero_has_no_inverse (pos n) h s e =
    let none : positive_mod (pos n) p25519 ≡ 0 =
      ap (λ k. positive_mod (pos k) p25519) ((nat_eq_iff n 0).0 h) in
    absurd (omega (arith, ap (λ t. (s * t) % p25519) none, e))
zero_has_no_inverse (negsuc n) h s e = cc

-- For 32 bytes, the conversion of a public key returns 32 bytes or throws. What it returns spells a number u
-- below the prime with u * (1 - y) = 1 + y in the field, for the y that the key spells without its highest bit.
-- It throws only if 1 - y has no inverse in the field.
pub convert_ed25519_public_to_x25519_lem :
    (raw : Bytes)
    → length raw ≡ 32
    → IsConverted raw (convert_ed25519_public_to_x25519 raw)
      ⊎ IsRefused raw (convert_ed25519_public_to_x25519 raw)
unfolding convert_ed25519_public_to_x25519 montgomery_of
convert_ed25519_public_to_x25519_lem raw h =
    let y = decode_edwards_y raw in
    let fits : convert_ed25519_public_to_x25519 raw ≡ montgomery_of y =
      ap (λ b. if b then montgomery_of y else err not_32_bytes)
        ((nat_eq_iff (length raw) 32).1 h) in
    elim (Bool-cases (is_zero (denominator y))) [
      | inl is_0 ↦ inr record {
        error = y_is_one;
        thrown =
            fits
            ∙ ap
                (λ b.
                  if b
                  then err y_is_one
                  else montgomery_bytes y (mod_inverse (denominator y) p25519))
                is_0;
        no_quotient = zero_has_no_inverse (denominator y) is_0;
      }
      | inr not_0 ↦
          let inverse : convert_ed25519_public_to_x25519 raw
              ≡ montgomery_bytes y (mod_inverse (denominator y) p25519) =
            fits
            ∙ ap
                (λ b.
                  if b
                  then err y_is_one
                  else montgomery_bytes y (mod_inverse (denominator y) p25519))
                not_0 in
          elim (mod_inverse_lem (denominator y) p25519 (omega arith)) [
            | inl (r, found, below, one) ↦
                let small : numerator y * r % p25519 < p25519 =
                  mod-lt (numerator y * r) (omega arith) in
                let back =
                  decode_edwards_y-to_little_endian (numerator y * r % p25519)
                    (omega (arith, small)) in
                inl record {
                  key = to_little_endian (numerator y * r % p25519);
                  returned = inverse ∙ ap (montgomery_bytes y) found;
                  length_32 = length-to_little_endian (numerator y * r % p25519);
                  below = rw back small;
                  on_the_line = rw back (
                      montgomery_inverse (numerator y) (positive_mod (denominator y) p25519) r
                        (mod-lt (1 + y) (omega arith)) one);
                }
            | inr (thrown, none) ↦ inr record {
              error = not_invertible;
              thrown = inverse ∙ ap (montgomery_bytes y) thrown;
              no_quotient = none;
            }
          ]
    ]
