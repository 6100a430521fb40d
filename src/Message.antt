-- ===== src/Message.antt =====
-- The messages of src/message/message.ts, with the payloads that src/message/message-router.ts
-- tells apart. The fields that hold no message are in `Header`, those of acks and naks too; a
-- number of the source is a natural number but for vector clocks, which a peer may send negative.
use yapyap.Prelude.{ℕ, String, List, Option, none, some, Bool, true, false, not, ◌==◌, string_keys}
use yapyap.Prelude.Int.{ℤ}

pub data MessageType : Type 0 where
  data_message ack nak store_and_forward : MessageType

-- The relayEnvelope of an AckMessage.
pub record AckEnvelope : Type 0 where
  pub signature : String
  pub signer_public_key : String
  pub original_target_peer_id : String

pub record Header : Type 0 where
  pub id : String
  pub type : MessageType
  pub from : String
  pub to : String
  pub timestamp : ℕ
  pub sequence_number : Option ℕ
  pub ttl : Option ℕ
  pub vector_clock : Option (List (String × ℤ))
  pub original_message_id : String
  pub reason : Option String
  pub relay_envelope : Option AckEnvelope

-- RelayEnvelopePayload, less its originalMessage.
pub record RelayInfo : Type 0 where
  pub target_peer_id : String
  pub recovery_reason : Option String
  pub last_transport_error : Option String
  pub integrity_hash : Option String
  pub signature : Option String
  pub signer_public_key : Option String

-- DeltaSyncPayload, less its pendingMessages.
pub record DeltaInfo : Type 0 where
  pub origin_peer_id : String
  pub since_timestamp : ℕ
  pub timestamp : ℕ
  pub processed_message_ids : List String
  pub vector_clock : List (String × ℤ)

-- `text` is a payload that is no object; `object` is an object of neither of the two shapes.
mutual
  pub data Payload : Type 0 where
    text : String → Payload
    object : String → Payload
    relay : RelayInfo → Message → Payload
    delta : DeltaInfo → Messages → Payload

  pub data Message : Type 0 where
    message : Header → Payload → Message

  pub data Messages : Type 0 where
    nil : Messages
    cons : Message → Messages → Messages

abbrev pub header : Message → Header
header (message h p) = h

abbrev pub payload_of : Message → Payload
payload_of (message h p) = p

abbrev pub id_of : Message → String
id_of m = (header m).id

-- typeof payload === "object" (and not null)
abbrev pub is_object : Payload → Bool
is_object (text s) = false
is_object (object s) = true
is_object (relay info original) = true
is_object (delta info pending) = true

-- `if (text)`: a missing or empty text is false
abbrev pub truthy : Option String → Bool
truthy none = false
truthy (some s) = not (s == "")

abbrev pub is_data : MessageType → Bool
is_data MessageType.data_message = true
is_data MessageType.ack = false
is_data MessageType.nak = false
is_data MessageType.store_and_forward = false
