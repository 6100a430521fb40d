-- ===== src/Framing.antt =====
-- MessageFramer of src/core/protocols.ts: length-prefixed frames. A `Uint8Array` is the list of
-- its bytes, and `offset` of a loop is represented by the bytes from the offset on. msgpackr is
-- third-party code: its `encode` and `decode` are parameters, `none` standing for a throw.
pub mod Header
pub mod Frames
pub mod Split
pub mod Tests
use yapyap.Prelude.{
  ℕ, zero, suc, ◌+◌, ◌*◌, ◌/◌, ◌%◌, ◌^◌, List, [], ◌∷◌, ◌++◌, Option, none, some, ltb, nat_eq,
  if◌then◌else◌, length, take, drop,
}

abbrev pub Bytes : Type 0
Bytes = List ℕ

abbrev pub max_frame_size_bytes : ℕ
max_frame_size_bytes = 256 * 1024

pub data FrameError : Type 0 where
  frame_too_large : ℕ → FrameError
  insufficient_data : FrameError
  incomplete_data : FrameError
  decode_failed : FrameError
  out_of_fuel : FrameError

pub data Framed (A : Type 0) : Type 0 where
  ok : A → Framed A
  err : FrameError → Framed A

-- view.setUint32(0, n, false)
unfoldable pub set_uint32 : ℕ → Bytes
set_uint32 n = (n / 16777216 % 256) ∷ (n / 65536 % 256) ∷ (n / 256 % 256) ∷ (n % 256) ∷ []

-- view.getUint32(0, false); the callers have checked that there are four bytes
unfoldable pub get_uint32 : Bytes → ℕ
get_uint32 (a ∷ b ∷ c ∷ d ∷ rest) = a * 16777216 + b * 65536 + c * 256 + d
get_uint32 _ = 0

-- what `encode` writes for a payload: the length, then the bytes
unfoldable pub frame : Bytes → Bytes
frame payload = set_uint32 (length payload) ++ payload

-- decodeFrames: the loop, with the bytes from `offset` on and the frames found so far
unfoldable pub decode_frames_loop : ℕ → Bytes → List Bytes → Framed (List Bytes × Bytes)
decode_frames_loop zero rest frames = err out_of_fuel
decode_frames_loop (suc fuel) rest frames =
    let size = get_uint32 rest in
    let next =
      decode_frames_loop fuel (drop (size + 4) rest) (frames ++ take size (drop 4 rest) ∷ []) in
    if ltb (length rest) 4
    then ok (frames, rest)
    else if ltb max_frame_size_bytes size
    then err (frame_too_large size)
    else if ltb (length rest) (size + 4)
    then ok (frames, rest)
    else next

-- every round takes four bytes at least, so the length is fuel enough
unfoldable pub decode_frames : Bytes → Framed (List Bytes × Bytes)
decode_frames buffer = decode_frames_loop (suc (length buffer)) buffer []

module _ {Msg : Type 0} (encode_payload : Msg → Bytes) where
  -- MessageFramer.encode
  unfoldable pub encode : Msg → Framed Bytes
  encode msg =
      let payload = encode_payload msg in
      if ltb max_frame_size_bytes (length payload)
      then err (frame_too_large (length payload))
      else ok (frame payload)

module _ {Msg : Type 0} (decode_payload : Bytes → Option Msg) where
  abbrev pub or_decode_failed : Option Msg → Framed Msg
  or_decode_failed none = err decode_failed
  or_decode_failed (some msg) = ok msg

  -- MessageFramer.decode
  unfoldable pub decode : Bytes → Framed Msg
  decode buffer =
      if ltb (length buffer) 4
      then err insufficient_data
      else let message_length = get_uint32 buffer in
        if ltb max_frame_size_bytes message_length
        then err (frame_too_large message_length)
        else if ltb (length buffer) (4 + message_length)
        then err incomplete_data
        else or_decode_failed (decode_payload (take message_length (drop 4 buffer)))

  abbrev pub push_decoded : List Msg → Option Msg → List Msg
  push_decoded messages none = messages
  push_decoded messages (some msg) = messages ++ msg ∷ []

  -- splitMessages: the loop; `none` would mean that the fuel ran out
  unfoldable pub split_messages_loop : ℕ → Bytes → List Msg → Option (List Msg × Bytes)
  split_messages_loop zero rest messages = none
  split_messages_loop (suc fuel) rest messages =
      let size = get_uint32 rest in
      let skip = split_messages_loop fuel (drop 4 rest) messages in
      let next =
        split_messages_loop fuel (drop (4 + size) rest)
          (push_decoded messages (decode_payload (take size (drop 4 rest)))) in
      if ltb (length rest) 4
      then some (messages, rest)
      else if nat_eq size 0
      then skip
      else if ltb max_frame_size_bytes size
      then skip
      else if ltb (length rest) (4 + size)
      then some (messages, rest)
      else next

  -- MessageFramer.splitMessages
  unfoldable pub split_messages : Bytes → Option (List Msg × Bytes)
  split_messages buffer = split_messages_loop (suc (length buffer)) buffer []
