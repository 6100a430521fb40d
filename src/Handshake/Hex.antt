-- ===== src/Handshake/Hex.antt =====
-- The hexadecimal texts of src/protocols/handshake.ts.
use yapyap.Prelude.{
  ℕ, ◌+◌, ◌-◌, ◌/◌, ◌%◌, ◌<◌, ◌≡◌, refl, ap, List, [], ◌∷◌, true, ltb, if◌then◌else◌, arith,
}
use yapyap.Framing.{Bytes}
use yapyap.Framing.Header.{AreBytes}
use yapyap.Text.{is_hex, hex_value, hex_bytes}

abbrev pub hex_digit : ℕ → ℕ
hex_digit n = if ltb n 10 then b'0' + n else b'a' + (n - 10)

-- Buffer.from(bytes).toString("hex")
abbrev pub uint8_array_to_hex : Bytes → List ℕ
uint8_array_to_hex [] = []
uint8_array_to_hex (b ∷ bs) = hex_digit (b / 16) ∷ hex_digit (b % 16) ∷ uint8_array_to_hex bs

is_hex-hex_digit : (n : ℕ) → n < 16 → is_hex (hex_digit n) ≡ true
is_hex-hex_digit n h = ground (arith, h)

hex_value-hex_digit : (n : ℕ) → n < 16 → hex_value (hex_digit n) ≡ n
hex_value-hex_digit n h = ground (arith, h)

-- The bytes are read back from their hexadecimal text.
pub hex_bytes-uint8_array_to_hex :
    (bs : Bytes) → AreBytes bs → hex_bytes (uint8_array_to_hex bs) ≡ bs
unfolding hex_bytes
hex_bytes-uint8_array_to_hex [] h = refl
hex_bytes-uint8_array_to_hex (b ∷ bs) h =
    let high : b / 16 < 16 = omega (arith, h.0) in
    let low : b % 16 < 16 = omega arith in
    rw
      (
        is_hex-hex_digit (b / 16) high,
        is_hex-hex_digit (b % 16) low,
        hex_value-hex_digit (b / 16) high,
        hex_value-hex_digit (b % 16) low,
        hex_bytes-uint8_array_to_hex bs h.1,
      )
      (ap (λ c. c ∷ bs) (omega arith))
