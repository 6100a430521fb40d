-- ===== src/Streams/Chunks.antt =====
-- Reading a stream of frames in chunks, in src/core/node.ts.
use yapyap.Prelude.{
  ℕ, zero, suc, ◌+◌, ◌≤◌, ◌<◌, ◌≡◌, ap, ◌∙◌, List, [], ◌∷◌, ◌++◌, append_assoc, arith, true, length,
  length-append, take-length-append, if◌then◌else◌,
}
use yapyap.Framing.{Bytes, ok, max_frame_size_bytes, frame}
use yapyap.Framing.Header.{get_uint32-frame, length-frame, drop-frame, drop-frame_whole}
use yapyap.Framing.Frames.{frames_of, AllFit, IsPartial, length-frames_of}
use yapyap.Streams.{Protocol, process_frame, process_frames_loop, process_frames}

-- The bytes of the chunks, one behind the other.
abbrev pub joined : List Bytes → Bytes
joined [] = []
joined (c ∷ cs) = c ++ joined cs

abbrev pub AllShort : List Bytes → Type 0
AllShort [] = Unit {0}
AllShort (c ∷ cs) = (length c + 4 ≤ max_frame_size_bytes) × AllShort cs

module _ {S Msg Res : Type 0} (protocol : Protocol S Msg Res) where
  -- The payloads, handed to the protocol one after the other.
  abbrev pub process_all : List Bytes → S → S
  process_all [] s = s
  process_all (p ∷ ps) s = process_all ps (process_frame protocol p s).1

  -- None of them fails.
  abbrev pub AllProcessed : List Bytes → S → Type 0
  AllProcessed [] s = Unit {0}
  AllProcessed (p ∷ ps) s =
      ((process_frame protocol p s).0 ≡ true) × AllProcessed ps (process_frame protocol p s).1

  pub process_frames_loop-frame :
      (fuel : ℕ) (p more : Bytes) (s : S)
      → length p ≤ max_frame_size_bytes
      → process_frames_loop protocol (suc fuel) (frame p ++ more) s ≡ (
          if (process_frame protocol p s).0
          then process_frames_loop protocol fuel more (process_frame protocol p s).1
          else (ok more, (process_frame protocol p s).1))
  unfolding process_frames_loop
  process_frames_loop-frame fuel p more s h =
      rw
        (
          get_uint32-frame p more h,
          drop-frame p more,
          take-length-append p more,
          drop-frame_whole p more,
        )
        (ground (arith, length-append (frame p) more, length-frame p))

  process_frames_loop-frames :
      (fuel : ℕ) (ps : List Bytes) (rest : Bytes) (s : S)
      → AllFit ps
      → IsPartial rest
      → AllProcessed ps s
      → length ps < fuel
      → process_frames_loop protocol fuel (frames_of ps ++ rest) s ≡ (ok rest, process_all ps s)
  unfolding process_frames_loop
  process_frames_loop-frames zero ps rest s fit part fine h = elim h [ ]
  process_frames_loop-frames (suc fuel) [] rest s fit part fine h = ground arith
  process_frames_loop-frames (suc fuel) (p ∷ ps) rest s fit part fine h =
      rw (append_assoc (frame p) (frames_of ps) rest) (
        process_frames_loop-frame fuel p (frames_of ps ++ rest) s fit.0
        ∙ ap
            (λ b.
              if b
              then process_frames_loop protocol fuel (frames_of ps ++ rest)
                  (process_frame protocol p s).1
              else (ok (frames_of ps ++ rest), (process_frame protocol p s).1))
            fine.0
        ∙ process_frames_loop-frames fuel ps rest (process_frame protocol p s).1 fit.1 part fine.1
            (omega (arith, h)))

  pub process_frames-frames_of :
      (ps : List Bytes) (rest : Bytes) (s : S)
      → AllFit ps
      → IsPartial rest
      → AllProcessed ps s
      → process_frames protocol (frames_of ps ++ rest) s ≡ (ok rest, process_all ps s)
  unfolding process_frames
  process_frames-frames_of ps rest s fit part fine =
      process_frames_loop-frames _ ps rest s fit part fine
        (omega (arith, length-frames_of ps, length-append (frames_of ps) rest))
