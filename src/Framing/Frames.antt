-- ===== src/Framing/Frames.antt =====
-- decodeFrames on streams of frames and on any buffer (src/core/protocols.ts).
use yapyap.Prelude.{
  ℕ, zero, suc, ◌+◌, ◌≤◌, ◌<◌, ◌≡◌, ◌≢◌, ap, List, [], ◌∷◌, ◌++◌, arith, length, length-append,
  take-length-append, drop, take, ◌∙◌, append_assoc, append-nil, length-drop, ◌⊎◌, sym,
}
use yapyap.Framing.{
  Bytes, ok, err, out_of_fuel, max_frame_size_bytes, get_uint32, frame, decode_frames_loop,
  decode_frames,
}
use yapyap.Framing.Header.{
  get_uint32-frame, length-frame, drop-frame, drop-frame_whole, AreBytes, drop-AreBytes,
  frame-take-drop,
}

-- The frames of a list of payloads, one behind the other.
abbrev pub frames_of : List Bytes → Bytes
frames_of [] = []
frames_of (p ∷ ps) = frame p ++ frames_of ps

abbrev pub AllFit : List Bytes → Type 0
AllFit [] = Unit {0}
AllFit (p ∷ ps) = (length p ≤ max_frame_size_bytes) × AllFit ps

-- What stands at the end of a stream and is no whole frame yet.
abbrev pub IsPartial : Bytes → Type 0
IsPartial rest =
    (length rest < 4)
    ⊎ ((get_uint32 rest ≤ max_frame_size_bytes) × (length rest < get_uint32 rest + 4))

-- One whole frame in front is one round of the loop.
decode_frames_loop-frame :
    (fuel : ℕ) (p more : Bytes) (found : List Bytes)
    → length p ≤ max_frame_size_bytes
    → decode_frames_loop (suc fuel) (frame p ++ more) found
      ≡ decode_frames_loop fuel more (found ++ p ∷ [])
unfolding decode_frames_loop
decode_frames_loop-frame fuel p more found h =
    rw
      (
        get_uint32-frame p more h,
        drop-frame p more,
        take-length-append p more,
        drop-frame_whole p more,
      )
      (ground (arith, length-append (frame p) more, length-frame p))

decode_frames_loop-partial :
    (fuel : ℕ) (rest : Bytes) (found : List Bytes)
    → IsPartial rest
    → decode_frames_loop (suc fuel) rest found ≡ ok (found, rest)
unfolding decode_frames_loop
decode_frames_loop-partial fuel rest found h = ground arith

decode_frames_loop-frames :
    (fuel : ℕ) (ps : List Bytes) (rest : Bytes) (found : List Bytes)
    → AllFit ps
    → IsPartial rest
    → length ps < fuel
    → decode_frames_loop fuel (frames_of ps ++ rest) found ≡ ok (found ++ ps, rest)
decode_frames_loop-frames zero ps rest found fit part h = elim h [ ]
decode_frames_loop-frames (suc fuel) [] rest found fit part h =
    rw append-nil (decode_frames_loop-partial fuel rest found part)
decode_frames_loop-frames (suc fuel) (p ∷ ps) rest found fit part h =
    rw (append_assoc (frame p) (frames_of ps) rest) (
      decode_frames_loop-frame fuel p (frames_of ps ++ rest) found fit.0
      ∙ decode_frames_loop-frames fuel ps rest (found ++ p ∷ []) fit.1 part (omega arith)
      ∙ ap (λ fs. ok (fs, rest)) (append_assoc found (p ∷ []) ps))

pub length-frames_of : (ps : List Bytes) → length ps ≤ length (frames_of ps)
length-frames_of [] = omega arith
length-frames_of (p ∷ ps) =
    omega (arith, length-frames_of ps, length-append (frame p) (frames_of ps), length-frame p)

-- In a stream of frames whose payloads fit, followed by a part of one more frame, decodeFrames
-- finds exactly those payloads, in order, and leaves exactly that part as the remainder.
pub decode_frames-frames_of :
    (ps : List Bytes) (rest : Bytes)
    → AllFit ps
    → IsPartial rest
    → decode_frames (frames_of ps ++ rest) ≡ ok (ps, rest)
unfolding decode_frames
decode_frames-frames_of ps rest fit part =
    decode_frames_loop-frames _ ps rest [] fit part
      (omega (arith, length-frames_of ps, length-append (frames_of ps) rest))

-- The loop takes four bytes at least in each round, so that its fuel is never used up.
decode_frames_loop_total :
    (fuel : ℕ) (rest : Bytes) (found : List Bytes)
    → length rest < fuel
    → decode_frames_loop fuel rest found ≢ err out_of_fuel
unfolding decode_frames_loop
decode_frames_loop_total zero rest found h = elim h [ ]
decode_frames_loop_total (suc fuel) rest found h = ground (
  arith,
  length-drop (get_uint32 rest + 4) rest,
  decode_frames_loop_total fuel (drop (get_uint32 rest + 4) rest)
      (found ++ take (get_uint32 rest) (drop 4 rest) ∷ []),
)

-- On every buffer decodeFrames ends: it returns or throws, and never runs on.
pub decode_frames_total : (buffer : Bytes) → decode_frames buffer ≢ err out_of_fuel
unfolding decode_frames
decode_frames_total buffer = decode_frames_loop_total _ buffer [] (omega arith)

frames_of-append :
    (ps : List Bytes) (p : Bytes) → frames_of (ps ++ p ∷ []) ≡ frames_of ps ++ frame p
frames_of-append [] p = append-nil (frame p)
frames_of-append (q ∷ ps) p =
    ap (◌++◌ (frame q)) (frames_of-append ps p)
    ∙ sym (append_assoc (frame q) (frames_of ps) (frame p))

frames_of-next :
    (bs : Bytes) (found : List Bytes)
    → AreBytes bs
    → get_uint32 bs + 4 ≤ length bs
    → frames_of found ++ bs
      ≡ frames_of (found ++ take (get_uint32 bs) (drop 4 bs) ∷ []) ++ drop (get_uint32 bs + 4) bs
frames_of-next bs found h le =
    let payload = take (get_uint32 bs) (drop 4 bs) in
    let more = drop (get_uint32 bs + 4) bs in
    rw (frames_of-append found payload) (
      sym (
        append_assoc (frames_of found) (frame payload) more
        ∙ ap (◌++◌ (frames_of found)) (frame-take-drop bs h le)))

decode_frames_loop_lossless :
    (fuel : ℕ) (bs : Bytes) (found fs : List Bytes) (rest : Bytes)
    → AreBytes bs
    → decode_frames_loop fuel bs found ≡ ok (fs, rest)
    → frames_of found ++ bs ≡ frames_of fs ++ rest
unfolding decode_frames_loop
decode_frames_loop_lossless zero bs found fs rest h e = cc
decode_frames_loop_lossless (suc fuel) bs found fs rest h e = ground (
  arith,
  frames_of-next bs found h,
  decode_frames_loop_lossless fuel (drop (get_uint32 bs + 4) bs)
      (found ++ take (get_uint32 bs) (drop 4 bs) ∷ []) fs rest (drop-AreBytes _ bs h),
)

-- Whatever the bytes of a stream, if decodeFrames returns, then the frames it found and the
-- remainder together spell the stream: no byte is lost, repeated or moved.
pub decode_frames_lossless :
    (buffer : Bytes) (fs : List Bytes) (rest : Bytes)
    → AreBytes buffer
    → decode_frames buffer ≡ ok (fs, rest)
    → buffer ≡ frames_of fs ++ rest
unfolding decode_frames
decode_frames_lossless buffer fs rest h e = decode_frames_loop_lossless _ buffer [] fs rest h e
