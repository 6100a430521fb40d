-- ===== src/Streams/Failure.antt =====
-- A frame that fails in the middle of a buffer: src/core/node.ts keeps the frames behind it for the
-- next chunk, and src/network/NetworkModule.ts does not.
use yapyap.Prelude.{
  ℕ, zero, suc, ◌<◌, ◌≡◌, refl, ap, ◌∙◌, List, [], ◌∷◌, ◌++◌, append_assoc, arith, false, length,
  length-append, if◌then◌else◌,
}
use yapyap.Framing.{Bytes, ok, frame}
use yapyap.Framing.Frames.{frames_of, AllFit, IsPartial, length-frames_of, decode_frames-frames_of}
use yapyap.Streams.{
  Protocol, process_frame, process_frames_loop, process_frames, process_found, process_decoded,
  process_frames_found,
}
use yapyap.Streams.Chunks.{process_frames_loop-frame, process_all, AllProcessed}

module _ {S Msg Res : Type 0} (protocol : Protocol S Msg Res) where
  frames_left :
      (fuel : ℕ) (qs : List Bytes) (p : Bytes) (ps : List Bytes) (rest : Bytes) (s : S)
      → AllFit (qs ++ p ∷ ps)
      → AllProcessed protocol qs s
      → (process_frame protocol p (process_all protocol qs s)).0 ≡ false
      → length qs < fuel
      → process_frames_loop protocol fuel (frames_of (qs ++ p ∷ ps) ++ rest) s
        ≡ (ok (frames_of ps ++ rest), (process_frame protocol p (process_all protocol qs s)).1)
  frames_left zero qs p ps rest s fit fine fails h = elim h [ ]
  frames_left (suc fuel) [] p ps rest s fit fine fails h =
      rw (append_assoc (frame p) (frames_of ps) rest) (
        process_frames_loop-frame protocol fuel p (frames_of ps ++ rest) s fit.0
        ∙ ap
            (λ b.
              if b
              then process_frames_loop protocol fuel (frames_of ps ++ rest)
                  (process_frame protocol p s).1
              else (ok (frames_of ps ++ rest), (process_frame protocol p s).1))
            fails)
  frames_left (suc fuel) (q ∷ qs) p ps rest s fit fine fails h =
      let more = frames_of (qs ++ p ∷ ps) in
      rw (append_assoc (frame q) more rest) (
        process_frames_loop-frame protocol fuel q (more ++ rest) s fit.0
        ∙ ap
            (λ b.
              if b
              then process_frames_loop protocol fuel (more ++ rest) (process_frame protocol q s).1
              else (ok (more ++ rest), (process_frame protocol q s).1))
            fine.0
        ∙ frames_left fuel qs p ps rest (process_frame protocol q s).1 fit.1 fine.1 fails
            (omega (arith, h)))

  found_until :
      (qs : List Bytes) (p : Bytes) (ps : List Bytes) (s : S)
      → AllProcessed protocol qs s
      → (process_frame protocol p (process_all protocol qs s)).0 ≡ false
      → process_found protocol (qs ++ p ∷ ps) s
        ≡ (process_frame protocol p (process_all protocol qs s)).1
  unfolding process_found
  found_until [] p ps s fine fails = rw fails refl
  found_until (q ∷ qs) p ps s fine fails =
      rw fine.0 (found_until qs p ps (process_frame protocol q s).1 fine.1 fails)

frames_fuel :
    (qs : List Bytes) (p : Bytes) (ps : List Bytes) (rest : Bytes)
    → length qs < suc (length (frames_of (qs ++ p ∷ ps) ++ rest))
frames_fuel qs p ps rest = omega (
  arith,
  length-frames_of (qs ++ p ∷ ps),
  length-append qs (p ∷ ps),
  length-append (frames_of (qs ++ p ∷ ps)) rest,
)

-- In a buffer of whole frames and a part of one more, let some frames end well and the next one fail. Then
-- both ways of reading have handed over the same frames, the failing one being the last, and change the state alike. In
-- src/core/node.ts the buffer keeps the frames behind the failing one. In src/network/NetworkModule.ts it keeps
-- only the part at the end: those frames are gone.
pub process_frames-failing :
    {S Msg Res : Type 0} (protocol : Protocol S Msg Res) (qs : List Bytes) (p : Bytes)
    (ps : List Bytes) (rest : Bytes) (s : S)
    → AllFit (qs ++ p ∷ ps)
    → IsPartial rest
    → AllProcessed protocol qs s
    → (process_frame protocol p (process_all protocol qs s)).0 ≡ false
    → (process_frames protocol (frames_of (qs ++ p ∷ ps) ++ rest) s
        ≡ (ok (frames_of ps ++ rest), (process_frame protocol p (process_all protocol qs s)).1))
      × (process_frames_found protocol (frames_of (qs ++ p ∷ ps) ++ rest) s
          ≡ (ok rest, (process_frame protocol p (process_all protocol qs s)).1))
unfolding process_frames process_frames_found
process_frames-failing protocol qs p ps rest s fit part fine fails = (
  frames_left protocol _ qs p ps rest s fit fine fails (frames_fuel qs p ps rest),
  ap (λ d. process_decoded protocol d s) (decode_frames-frames_of (qs ++ p ∷ ps) rest fit part)
      ∙ ap (λ t. (ok rest, t)) (found_until protocol qs p ps s fine fails),
)
