-- ===== src/Streams.antt =====
-- How src/core/node.ts and src/network/NetworkModule.ts read frames from a stream. The stream is
-- the list of the chunks that it gives; what a handler does is a change of a state `S`. The
-- watchdog of an idle stream and the pause of 50 ms change nothing that the model can see.
pub mod Prefix
pub mod Chunks
pub mod Failure
pub mod Tests
use yapyap.Prelude.{
  ℕ, zero, suc, ◌+◌, ◌*◌, List, [], ◌∷◌, ◌++◌, Option, none, some, Bool, true, false, ltb,
  if◌then◌else◌, length, take, drop,
}
use yapyap.Framing.{
  Bytes, Framed, ok, err, FrameError, frame_too_large, out_of_fuel, max_frame_size_bytes,
  get_uint32, decode_frames,
}

-- What a protocol does with its frames. `none` is a throw, and so is `false` of `send_answer`.
pub record Protocol (S Msg Res : Type 0) : Type 0 where
  pub decode_message : Bytes → Option Msg
  pub handler : Msg → S → Option (Option Res) × S
  pub encode_answer : Option (Res → Option Bytes)
  pub send_answer : Bytes → S → Bool × S

abbrev pub max_receive_buffer_bytes : ℕ
max_receive_buffer_bytes = max_frame_size_bytes * 2

-- How a stream ends: it gave its last chunk, it was aborted, or reading it threw.
pub data StreamEnd : Type 0 where
  ended : Bytes → StreamEnd
  aborted : StreamEnd
  failed : FrameError → StreamEnd

module _ {S Msg Res : Type 0} (protocol : Protocol S Msg Res) where
  abbrev send_encoded : Option Bytes → S → Bool × S
  send_encoded none s = (false, s)
  send_encoded (some encoded) s = protocol.send_answer encoded s

  -- if (res && encode)
  abbrev answer_with : Option (Res → Option Bytes) → Option Res → S → Bool × S
  answer_with none res s = (true, s)
  answer_with (some encode) none s = (true, s)
  answer_with (some encode) (some res) s = send_encoded (encode res) s

  abbrev answer : Option (Option Res) × S → Bool × S
  answer (none, s) = (false, s)
  answer (some res, s) = answer_with protocol.encode_answer res s

  abbrev handle_decoded : Option Msg → S → Bool × S
  handle_decoded none s = (false, s)
  handle_decoded (some msg) s = answer (protocol.handler msg s)

  -- the try block for one frame: whether it ended well
  unfoldable pub process_frame : Bytes → S → Bool × S
  process_frame frame s = handle_decoded (protocol.decode_message frame) s

  -- the loop of processFrames in core/node.ts: a frame that fails ends it, with the bytes behind it
  unfoldable pub process_frames_loop : ℕ → Bytes → S → Framed Bytes × S
  process_frames_loop zero buffer s = (err out_of_fuel, s)
  process_frames_loop (suc fuel) buffer s =
      let size = get_uint32 buffer in
      let rest = drop (size + 4) buffer in
      let (fine, next) = process_frame (take size (drop 4 buffer)) s in
      let after = process_frames_loop fuel rest next in
      if ltb (length buffer) 4
      then (ok buffer, s)
      else if ltb max_frame_size_bytes size
      then (err (frame_too_large size), s)
      else if ltb (length buffer) (size + 4)
      then (ok buffer, s)
      else if fine
      then after
      else (ok rest, next)

  -- every round takes four bytes at least, so the length is fuel enough
  unfoldable pub process_frames : Bytes → S → Framed Bytes × S
  process_frames buffer s = process_frames_loop (suc (length buffer)) buffer s

  -- the loop over the frames of processFrames in network/NetworkModule.ts
  unfoldable pub process_found : List Bytes → S → S
  process_found [] s = s
  process_found (frame ∷ frames) s =
      let (fine, next) = process_frame frame s in
      let after = process_found frames next in if fine then after else next

  abbrev pub process_decoded : Framed (List Bytes × Bytes) → S → Framed Bytes × S
  process_decoded (err e) s = (err e, s)
  process_decoded (ok (frames, remainder)) s = (ok remainder, process_found frames s)

  -- processFrames of network/NetworkModule.ts
  unfoldable pub process_frames_found : Bytes → S → Framed Bytes × S
  process_frames_found buffer s = process_decoded (decode_frames buffer) s

  -- handleFramedStream, for either of the two: the chunks that are left, and the buffer
  module _ (process : Bytes → S → Framed Bytes × S) where
    abbrev pub go_on : (Bytes → S → StreamEnd × S) → Framed Bytes × S → StreamEnd × S
    go_on next (err e, s) = (failed e, s)
    go_on next (ok buffer, s) = next buffer s

    unfoldable pub handle_framed_stream : List Bytes → Bytes → S → StreamEnd × S
    handle_framed_stream [] buffer s = (ended buffer, s)
    handle_framed_stream (chunk ∷ chunks) buffer s =
        if ltb max_receive_buffer_bytes (length (buffer ++ chunk))
        then (aborted, s)
        else go_on (handle_framed_stream chunks) (process (buffer ++ chunk) s)

  -- handleFramedStream of network/NetworkModule.ts
  abbrev pub handle_framed_stream_found : List Bytes → S → StreamEnd × S
  handle_framed_stream_found chunks s = handle_framed_stream process_frames_found chunks [] s
