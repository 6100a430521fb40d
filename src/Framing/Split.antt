-- ===== src/Framing/Split.antt =====
-- splitMessages on streams of frames and on any buffer (src/core/protocols.ts).
use yapyap.Prelude.{
  ℕ, zero, suc, ◌+◌, ◌≤◌, ◌<◌, ◌≡◌, List, [], ◌∷◌, ◌++◌, Option, none, some, arith, length,
  length-append, take-length-append, drop, ltb, nat_eq, Bool-cases, inl, inr, ltb→lt, false, ◌∙◌,
  append_assoc, length-drop,
}
use yapyap.Framing.{
  Bytes, max_frame_size_bytes, get_uint32, frame, push_decoded, split_messages_loop, split_messages,
}
use yapyap.Framing.Header.{get_uint32-frame, length-frame, drop-frame, drop-frame_whole}
use yapyap.Framing.Frames.{frames_of, AllFit, IsPartial, length-frames_of}

ltb-le : (a b : ℕ) → ltb a b ≡ false → b ≤ a
ltb-le a b h = ground arith

module _ {Msg : Type 0} (decode_payload : Bytes → Option Msg) where
  -- What a stream of payloads means to the reader: an empty payload is skipped, and so is one
  -- that the codec refuses.
  abbrev pub readable : List Bytes → List Msg → List Msg
  readable [] messages = messages
  readable (p ∷ ps) messages = readable ps (elim p [
    | [] ↦ messages
    | b ∷ bs ↦ push_decoded decode_payload messages (decode_payload (b ∷ bs))
  ])

  split_messages_loop-empty :
      (fuel : ℕ) (more : Bytes) (messages : List Msg)
      → split_messages_loop decode_payload (suc fuel) (frame [] ++ more) messages
        ≡ split_messages_loop decode_payload fuel more messages
  unfolding split_messages_loop
  split_messages_loop-empty fuel more messages =
      rw (get_uint32-frame [] more (omega arith), drop-frame [] more)
        (ground (arith, length-append (frame []) more, length-frame []))

  split_messages_loop-frame :
      (fuel b : ℕ) (bs more : Bytes) (messages : List Msg)
      → length (b ∷ bs) ≤ max_frame_size_bytes
      → split_messages_loop decode_payload (suc fuel) (frame (b ∷ bs) ++ more) messages
        ≡ split_messages_loop decode_payload fuel more
            (push_decoded decode_payload messages (decode_payload (b ∷ bs)))
  unfolding split_messages_loop
  split_messages_loop-frame fuel b bs more messages h =
      let p = b ∷ bs in
      let e : 4 + length p ≡ length p + 4 = omega arith in
      rw
        (
          get_uint32-frame p more h,
          drop-frame p more,
          take-length-append p more,
          e,
          drop-frame_whole p more,
        )
        (ground (arith, length-append (frame p) more, length-frame p))

  split_messages_loop-frames :
      (fuel : ℕ) (ps : List Bytes) (rest : Bytes) (messages : List Msg)
      → AllFit ps
      → IsPartial rest
      → length ps < fuel
      → split_messages_loop decode_payload fuel (frames_of ps ++ rest) messages
        ≡ some (readable ps messages, rest)
  unfolding split_messages_loop
  split_messages_loop-frames zero ps rest messages fit part h = elim h [ ]
  split_messages_loop-frames (suc fuel) [] rest messages fit part h = ground arith
  split_messages_loop-frames (suc fuel) ([] ∷ ps) rest messages fit part h =
      rw (append_assoc (frame []) (frames_of ps) rest) (
        split_messages_loop-empty fuel (frames_of ps ++ rest) messages
        ∙ split_messages_loop-frames fuel ps rest messages fit.1 part (omega arith))
  split_messages_loop-frames (suc fuel) ((b ∷ bs) ∷ ps) rest messages fit part h =
      rw (append_assoc (frame (b ∷ bs)) (frames_of ps) rest) (
        split_messages_loop-frame fuel b bs (frames_of ps ++ rest) messages fit.0
        ∙ split_messages_loop-frames fuel ps rest _ fit.1 part (omega arith))

  -- In a stream of frames whose payloads fit, followed by a part of one more frame,
  -- splitMessages delivers, in order, what the codec reads from the payloads that are not empty,
  -- and keeps exactly that part.
  pub split_messages-frames_of :
      (ps : List Bytes) (rest : Bytes)
      → AllFit ps
      → IsPartial rest
      → split_messages decode_payload (frames_of ps ++ rest) ≡ some (readable ps [], rest)
  unfolding split_messages
  split_messages-frames_of ps rest fit part =
      split_messages_loop-frames _ ps rest [] fit part
        (omega (arith, length-frames_of ps, length-append (frames_of ps) rest))

  -- What is left of a buffer when the loop ends has no whole frame in front.
  abbrev pub Ends : Option (List Msg × Bytes) → Type 0
  Ends none = ⊥
  Ends (some (messages, rest)) = IsPartial rest

  split_messages_loop_total :
      (fuel : ℕ) (rest : Bytes) (messages : List Msg)
      → length rest < fuel
      → Ends (split_messages_loop decode_payload fuel rest messages)
  unfolding split_messages_loop
  split_messages_loop_total zero rest messages h = elim h [ ]
  split_messages_loop_total (suc fuel) rest messages h = elim (Bool-cases (ltb (length rest) 4)) [
    | inl short ↦ rw short (inl (ltb→lt _ _ short))
    | inr whole ↦
        let skip : Ends (split_messages_loop decode_payload fuel (drop 4 rest) messages) =
          split_messages_loop_total fuel (drop 4 rest) messages
            (omega (arith, length-drop 4 rest, ltb-le _ _ whole)) in
        rw whole (elim (Bool-cases (nat_eq (get_uint32 rest) 0)) [
          | inl empty ↦ rw empty skip
          | inr filled ↦ rw filled (elim (Bool-cases (ltb max_frame_size_bytes (get_uint32 rest))) [
            | inl large ↦ rw large skip
            | inr fits ↦ rw fits (elim (Bool-cases (ltb (length rest) (4 + get_uint32 rest))) [
              | inl cut ↦ rw cut (inr (ltb-le _ _ fits, omega (arith, ltb→lt _ _ cut)))
              | inr there ↦ rw there (
                  split_messages_loop_total fuel _ _ (
                    omega (
                      arith,
                      length-drop (4 + get_uint32 rest) rest,
                      ltb-le _ _ there,
                      ltb-le _ _ whole,
                    )))
            ])
          ])
        ])
  ]

  -- On every buffer, whatever its bytes and the codec, splitMessages ends without an error, and
  -- the bytes that it keeps hold no whole frame in front.
  pub split_messages_total : (buffer : Bytes) → Ends (split_messages decode_payload buffer)
  unfolding split_messages
  split_messages_total buffer = split_messages_loop_total _ buffer [] (omega arith)
