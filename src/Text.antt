-- ===== src/Text.antt =====
-- Texts as lists of character codes, and hexadecimal digits.
use Prim.Native.Char.{code}
use yapyap.Prelude.{
  ℕ, ◌+◌, ◌*◌, ◌-◌, String, List, [], ◌∷◌, Bool, true, false, ◌&&◌, ◌||◌, if◌then◌else◌, leb,
}

abbrev pub codes : String → List ℕ
codes String.[] = []
codes (String.◌∷◌ c s) = code c ∷ codes s

-- [0-9a-fA-F]
abbrev pub is_hex : ℕ → Bool
is_hex c = (leb b'0' c && leb c b'9') || (leb b'a' c && leb c b'f') || (leb b'A' c && leb c b'F')

abbrev pub hex_value : ℕ → ℕ
hex_value c = if leb c b'9' then c - b'0' else if leb c b'F' then c - b'A' + 10 else c - b'a' + 10

-- /^[0-9a-fA-F]+$/
abbrev all_hex : List ℕ → Bool
all_hex [] = true
all_hex (c ∷ cs) = is_hex c && all_hex cs

abbrev pub is_hex_text : List ℕ → Bool
is_hex_text [] = false
is_hex_text (c ∷ cs) = is_hex c && all_hex cs

-- Buffer.from(text, "hex"): it stops at the first pair that is not two digits
unfoldable pub hex_bytes : List ℕ → List ℕ
hex_bytes (a ∷ b ∷ rest) =
    let bytes = hex_bytes rest in
    if is_hex a && is_hex b then (hex_value a * 16 + hex_value b) ∷ bytes else []
hex_bytes (a ∷ []) = []
hex_bytes [] = []
