-- ===== src/Framing/Header.antt =====
-- The four-byte length header, and single frames.
use yapyap.Prelude.{
  ℕ, zero, suc, ◌+◌, ◌≤◌, ◌<◌, ◌≡◌, refl, ap, sym, [], ◌∷◌, ◌++◌, Option, some, arith, length,
  length-append, length-take, take-append-drop, take-length-append, drop, drop-length-append, take,
  ◌∙◌, ◌↔◌,
}
use yapyap.Framing.{
  Bytes, ok, err, frame_too_large, max_frame_size_bytes, set_uint32, get_uint32, frame, encode,
  decode, or_decode_failed,
}

-- Reading a 32-bit length back gives the length that was written.
pub get_uint32-set_uint32 :
    (n : ℕ) (rest : Bytes) → n < 4294967296 → get_uint32 (set_uint32 n ++ rest) ≡ n
unfolding get_uint32 set_uint32
get_uint32-set_uint32 n rest h = omega arith

pub length-frame : (p : Bytes) → length (frame p) ≡ 4 + length p
unfolding frame set_uint32
length-frame p = omega arith

-- Four bytes are written and read back, high byte first, whatever the bytes.
pub set_uint32-get_uint32 :
    (a b c d : ℕ) (rest : Bytes)
    → a < 256
    → b < 256
    → c < 256
    → d < 256
    → set_uint32 (get_uint32 (a ∷ b ∷ c ∷ d ∷ rest)) ≡ a ∷ b ∷ c ∷ d ∷ []
unfolding get_uint32 set_uint32
set_uint32-get_uint32 a b c d rest ha hb hc hd = ground arith

pub drop-frame : (p rest : Bytes) → drop 4 (frame p ++ rest) ≡ p ++ rest
unfolding frame set_uint32
drop-frame p rest = refl

pub get_uint32-frame :
    (p rest : Bytes) → length p ≤ max_frame_size_bytes → get_uint32 (frame p ++ rest) ≡ length p
unfolding frame get_uint32 set_uint32
get_uint32-frame p rest h = omega arith

drop-nil : (n : ℕ) → drop {A = ℕ} n [] ≡ []
drop-nil zero = refl
drop-nil (suc n) = refl

drop_four : (n : ℕ) (xs : Bytes) → drop (suc (suc (suc (suc n)))) xs ≡ drop n (drop 4 xs)
drop_four n [] = sym (drop-nil n)
drop_four n (a ∷ []) = sym (drop-nil n)
drop_four n (a ∷ b ∷ []) = sym (drop-nil n)
drop_four n (a ∷ b ∷ c ∷ []) = sym (drop-nil n)
drop_four n (a ∷ b ∷ c ∷ d ∷ rest) = refl

-- Past the header and the payload stand the bytes that follow the frame.
pub drop-frame_whole : (p rest : Bytes) → drop (length p + 4) (frame p ++ rest) ≡ rest
drop-frame_whole p rest =
    let e : length p + 4 ≡ suc (suc (suc (suc (length p)))) = omega arith in
    rw e (
      drop_four (length p) (frame p ++ rest)
      ∙ ap (drop (length p)) (drop-frame p rest)
      ∙ drop-length-append p rest)

-- Every element is a byte.
abbrev pub AreBytes : Bytes → Type 0
AreBytes [] = Unit {0}
AreBytes (b ∷ bs) = (b < 256) × AreBytes bs

pub drop-AreBytes : (n : ℕ) (bs : Bytes) → AreBytes bs → AreBytes (drop n bs)
drop-AreBytes zero bs h = h
drop-AreBytes (suc n) [] h = h
drop-AreBytes (suc n) (b ∷ bs) h = drop-AreBytes n bs h.1

-- A whole frame is cut out of the bytes without loss.
pub frame-take-drop :
    (bs : Bytes)
    → AreBytes bs
    → get_uint32 bs + 4 ≤ length bs
    → frame (take (get_uint32 bs) (drop 4 bs)) ++ drop (get_uint32 bs + 4) bs ≡ bs
unfolding frame
frame-take-drop [] h le = absurd (omega arith)
frame-take-drop (a ∷ []) h le = absurd (omega arith)
frame-take-drop (a ∷ b ∷ []) h le = absurd (omega arith)
frame-take-drop (a ∷ b ∷ c ∷ []) h le = absurd (omega arith)
frame-take-drop (a ∷ b ∷ c ∷ d ∷ rest) h le =
    let n = get_uint32 (a ∷ b ∷ c ∷ d ∷ rest) in
    let e : n + 4 ≡ suc (suc (suc (suc n))) = omega arith in
    let l : length (take n rest) ≡ n = omega (arith, length-take n rest) in
    rw (e, l)
      (ap (λ s. (s ++ take n rest) ++ drop n rest)
          (set_uint32-get_uint32 a b c d rest h.0 h.1.0 h.1.1.0 h.1.1.1.0)
        ∙ ap (λ (r : Bytes). a ∷ b ∷ c ∷ d ∷ r) (take-append-drop n rest))

module _ {Msg : Type 0} (decode_payload : Bytes → Option Msg) where
  pub decode-frame :
      (p rest : Bytes)
      → length p ≤ max_frame_size_bytes
      → decode decode_payload (frame p ++ rest) ≡ or_decode_failed decode_payload (decode_payload p)
  unfolding decode
  decode-frame p rest h =
      rw (get_uint32-frame p rest h, drop-frame p rest, take-length-append p rest)
        (ground (arith, length-append (frame p) rest, length-frame p))

module _ {Msg : Type 0} (encode_payload : Msg → Bytes) (decode_payload : Bytes → Option Msg) where
  -- A message whose payload fits in a frame is decoded to itself from the bytes that encode
  -- wrote, whatever bytes follow; the codec is assumed to decode what it encodes.
  pub decode-encode :
      ((m : Msg) → decode_payload (encode_payload m) ≡ some m)
      → (msg : Msg) (rest bytes : Bytes) → encode encode_payload msg ≡ ok bytes
      → decode decode_payload (bytes ++ rest) ≡ ok msg
  unfolding encode
  decode-encode codec msg rest bytes h =
      ground (arith, codec msg, decode-frame decode_payload (encode_payload msg) rest)

  -- encode refuses a payload exactly when it is larger than a frame may be.
  pub encode-too_large :
      (msg : Msg)
      → (encode encode_payload msg ≡ err (frame_too_large (length (encode_payload msg))))
        ↔ (max_frame_size_bytes < length (encode_payload msg))
  unfolding encode
  encode-too_large msg = ground arith
