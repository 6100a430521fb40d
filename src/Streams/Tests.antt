-- ===== src/Streams/Tests.antt =====
-- Runs over a small protocol, which keeps what it reads and refuses an empty payload.
use yapyap.Prelude.{◌≡◌, refl, List, [], ◌∷◌, ◌++◌, Option, some, none, true, arith, inl}
use yapyap.Framing.{Bytes, ok}
use yapyap.Framing.Frames.{frames_of}
use yapyap.Streams.{Protocol, process_frames, process_frames_found}
use yapyap.Streams.Failure.{process_frames-failing}

abbrev parse : Bytes → Option Bytes
parse [] = none
parse (b ∷ bs) = some (b ∷ bs)

abbrev keeper : Protocol (List Bytes) Bytes Bytes
keeper = record {
  decode_message = parse;
  handler = λ msg s. (some none, s ++ msg ∷ []);
  encode_answer = none;
  send_answer = λ bytes s. (true, s);
}

abbrev chunks_2 : List Bytes
chunks_2 = (0 ∷ 0 ∷ []) ∷ (0 ∷ 1 ∷ 9 ∷ 0 ∷ 0 ∷ []) ∷ (0 ∷ 2 ∷ 7 ∷ 8 ∷ 0 ∷ []) ∷ []

process_frames-failing_example :
    (process_frames keeper (frames_of ((9 ∷ []) ∷ [] ∷ (7 ∷ []) ∷ []) ++ 0 ∷ []) []
      ≡ (ok (frames_of ((7 ∷ []) ∷ []) ++ 0 ∷ []), (9 ∷ []) ∷ []))
    × (process_frames_found keeper (frames_of ((9 ∷ []) ∷ [] ∷ (7 ∷ []) ∷ []) ++ 0 ∷ []) []
        ≡ (ok (0 ∷ []), (9 ∷ []) ∷ []))
unfolding yapyap.Streams.process_frame
process_frames-failing_example =
    process_frames-failing keeper ((9 ∷ []) ∷ []) [] ((7 ∷ []) ∷ []) (0 ∷ []) []
      (omega arith, (omega arith, (omega arith, tt))) (inl (omega arith)) (refl, tt) refl
