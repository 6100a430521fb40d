-- ===== src/Framing/Tests.antt =====
-- Runs of the framer at small inputs, and the theorems at inputs that meet their hypotheses.
use yapyap.Prelude.{◌≡◌, refl, List, [], ◌∷◌, ◌++◌, Option, some, arith, inl}
use yapyap.Framing.{
  Bytes, ok, frame, decode_frames_loop, split_messages_loop, decode_frames, split_messages, encode,
  decode, set_uint32, get_uint32,
}
use yapyap.Framing.Header.{decode-encode}
use yapyap.Framing.Frames.{frames_of, decode_frames-frames_of, decode_frames_lossless}
use yapyap.Framing.Split.{split_messages-frames_of}

abbrev two_payloads : List Bytes
two_payloads = (7 ∷ 8 ∷ []) ∷ (9 ∷ []) ∷ []

abbrev partial_header : Bytes
partial_header = 0 ∷ 0 ∷ []

-- a codec that reads a payload as its own bytes
abbrev read_bytes : Bytes → Option Bytes
read_bytes bytes = some bytes

abbrev stream : Bytes
stream = 0 ∷ 0 ∷ 0 ∷ 2 ∷ 7 ∷ 8 ∷ 0 ∷ 0 ∷ []

decodes_stream : decode_frames stream ≡ ok ((7 ∷ 8 ∷ []) ∷ [], 0 ∷ 0 ∷ [])
unfolding decode_frames decode_frames_loop get_uint32
decodes_stream = refl

splits_stream : split_messages read_bytes stream ≡ some ((7 ∷ 8 ∷ []) ∷ [], 0 ∷ 0 ∷ [])
unfolding split_messages split_messages_loop get_uint32
splits_stream = refl

encodes_payload : encode (λ (p : Bytes). p) (7 ∷ 8 ∷ []) ≡ ok (0 ∷ 0 ∷ 0 ∷ 2 ∷ 7 ∷ 8 ∷ [])
unfolding encode frame set_uint32
encodes_payload = refl

decode-encode_example : decode read_bytes ((0 ∷ 0 ∷ 0 ∷ 2 ∷ 7 ∷ 8 ∷ []) ++ 5 ∷ []) ≡ ok (7 ∷ 8 ∷ [])
decode-encode_example =
    decode-encode (λ (p : Bytes). p) read_bytes (λ m. refl) (7 ∷ 8 ∷ []) (5 ∷ [])
      (0 ∷ 0 ∷ 0 ∷ 2 ∷ 7 ∷ 8 ∷ []) encodes_payload

decode_frames-frames_of_example :
    decode_frames (frames_of two_payloads ++ partial_header) ≡ ok (two_payloads, partial_header)
decode_frames-frames_of_example =
    decode_frames-frames_of two_payloads partial_header (omega arith) (inl (omega arith))

decode_frames_lossless_example : stream ≡ frames_of ((7 ∷ 8 ∷ []) ∷ []) ++ 0 ∷ 0 ∷ []
decode_frames_lossless_example =
    decode_frames_lossless stream ((7 ∷ 8 ∷ []) ∷ []) (0 ∷ 0 ∷ []) (omega arith) decodes_stream

split_messages-frames_of_example :
    split_messages read_bytes (frames_of two_payloads ++ partial_header)
    ≡ some (two_payloads, partial_header)
split_messages-frames_of_example =
    split_messages-frames_of read_bytes two_payloads partial_header (omega arith)
      (inl (omega arith))
