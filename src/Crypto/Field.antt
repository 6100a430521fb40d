-- ===== src/Crypto/Field.antt =====
-- The field arithmetic of src/crypto/index.ts, which makes X25519 keys of Ed25519 keys: bigints are
-- integers, and natural numbers where they cannot be negative.
use yapyap.Prelude.{
  ℕ, zero, suc, ◌+◌, ◌-◌, ◌*◌, ◌/◌, ◌%◌, ◌^◌, [], ◌∷◌, ◌++◌, Bool, false, nat_eq, if◌then◌else◌,
  length, take, drop,
}
use yapyap.Prelude.Int.{ℤ, pos, negsuc, pos_part, neg_part, sub_ℕ}
use yapyap.Framing.{Bytes}
use yapyap.Crypto.{
  NodeCrypto, Checked, ok, err, not_32_bytes, y_is_one, not_invertible, out_of_fuel,
}

abbrev pub p25519 : ℕ
p25519 = 2 ^ 255 - 19

-- z % m, which has the sign of z
abbrev pub rem_ℤ : ℤ → ℕ → ℤ
rem_ℤ (pos n) m = pos (n % m)
rem_ℤ (negsuc n) m = sub_ℕ 0 (suc n % m)

-- ((z % m) + m) % m, which is not negative for a positive m
unfoldable pub positive_mod : ℤ → ℕ → ℕ
positive_mod z m = (pos_part (rem_ℤ z m) + m - neg_part (rem_ℤ z m)) % m

-- lastX - quotient * x
abbrev pub minus_times : ℤ → ℕ → ℤ → ℤ
minus_times last_x quotient x =
    sub_ℕ (pos_part last_x + quotient * neg_part x) (neg_part last_x + quotient * pos_part x)

-- the loop of modInverse, whose a and b are never negative: the last a, and lastX
unfoldable pub mod_inverse_loop : ℕ → ℕ → ℕ → ℤ → ℤ → Checked (ℕ × ℤ)
mod_inverse_loop zero a b x last_x = err out_of_fuel
mod_inverse_loop (suc fuel) a zero x last_x = ok (a, last_x)
mod_inverse_loop (suc fuel) a (suc b) x last_x =
    let quotient = a / suc b in
    mod_inverse_loop fuel (suc b) (a - quotient * suc b) (minus_times last_x quotient x) x

abbrev pub inverse_of : ℕ → Checked (ℕ × ℤ) → Checked ℕ
inverse_of modulus (err e) = err e
inverse_of modulus (ok (a, last_x)) =
    if nat_eq a 1 then ok (positive_mod last_x modulus) else err not_invertible

-- b is smaller in each round, so that the modulus is fuel enough
unfoldable pub mod_inverse : ℤ → ℕ → Checked ℕ
mod_inverse value modulus =
    inverse_of modulus
      (mod_inverse_loop (suc modulus) (positive_mod value modulus) modulus (pos 0) (pos 1))

-- the byte with the highest bit cleared in the last one
abbrev pub edwards_byte : ℕ → ℕ → ℕ
edwards_byte i byte = if nat_eq i 31 then byte % 128 else byte

-- the loop of decodeEdwardsY, from i on; the bits of the bytes do not overlap, so that | adds
abbrev pub decode_loop : ℕ → ℕ → Bytes → ℕ
decode_loop i y [] = y
decode_loop i y (byte ∷ rest) = decode_loop (suc i) (y + edwards_byte i byte * 256 ^ i) rest

unfoldable pub decode_edwards_y : Bytes → ℕ
decode_edwards_y raw = decode_loop 0 0 (take 32 raw)

-- the loop of toLittleEndian, for so many bytes
abbrev pub little_endian : ℕ → ℕ → Bytes
little_endian zero remaining = []
little_endian (suc count) remaining = (remaining % 256) ∷ little_endian count (remaining / 256)

unfoldable pub to_little_endian : ℕ → Bytes
to_little_endian value = little_endian 32 value

abbrev pub numerator : ℕ → ℕ
numerator y = (1 + y) % p25519

-- y has 255 bits, so that this can be negative
abbrev pub denominator : ℕ → ℤ
denominator y = rem_ℤ (sub_ℕ (1 + p25519) y) p25519

abbrev pub montgomery_bytes : ℕ → Checked ℕ → Checked Bytes
montgomery_bytes y (err e) = err e
montgomery_bytes y (ok inverse) = ok (to_little_endian ((numerator y * inverse) % p25519))

abbrev pub is_zero : ℤ → Bool
is_zero (pos n) = nat_eq n 0
is_zero (negsuc n) = false

-- the code behind the check of the length, for the y that was read
unfoldable pub montgomery_of : ℕ → Checked Bytes
montgomery_of y =
    if is_zero (denominator y)
    then err y_is_one
    else montgomery_bytes y (mod_inverse (denominator y) p25519)

unfoldable pub convert_ed25519_public_to_x25519 : Bytes → Checked Bytes
convert_ed25519_public_to_x25519 raw =
    if nat_eq (length raw) 32 then montgomery_of (decode_edwards_y raw) else err not_32_bytes

-- scalar[0] &= 248
abbrev pub clear_low : Bytes → Bytes
clear_low [] = []
clear_low (byte ∷ rest) = (byte - byte % 8) ∷ rest

-- scalar[31] &= 127 and scalar[31] |= 64
abbrev pub set_high : ℕ → ℕ
set_high byte = byte % 64 + 64

abbrev pub clamp_last : Bytes → Bytes
clamp_last [] = []
clamp_last (byte ∷ rest) = set_high byte ∷ rest

module _ {Text : Type 0} (node : NodeCrypto Text) where
  unfoldable pub convert_ed25519_private_to_x25519 : Bytes → Checked Bytes
  convert_ed25519_private_to_x25519 raw =
      let scalar = clear_low (take 32 (node.sha512 raw)) in
      if nat_eq (length raw) 32
      then ok (take 31 scalar ++ clamp_last (drop 31 scalar))
      else err not_32_bytes
