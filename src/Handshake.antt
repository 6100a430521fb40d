-- ===== src/Handshake.antt =====
-- src/protocols/handshake.ts. JSON.stringify with TextEncoder, HKDF and the texts of ids are functions
-- of the surroundings, and one call reads the clock once. Hexadecimal texts are lists of codes.
pub mod Hex
pub mod Noise
pub mod Keys
pub mod Answer
pub mod Complete
pub mod Tests
use yapyap.Prelude.{
  ℕ, ◌+◌, ◌*◌, ◌-◌, String, List, [], ◌∷◌, Option, none, some, Bool, true, false, ◌||◌, nat_eq, ltb,
  if◌then◌else◌, ◌==◌, string_keys,
}
use yapyap.Framing.{Bytes}
use yapyap.Text.{hex_bytes}
use yapyap.Protocol.{Outcome, done, throws_error, WithError, handle_protocol_error}
use yapyap.Crypto.{NodeCrypto, Checked, CryptoError, ok, err, ◌>>=◌}
use yapyap.Crypto.Cipher.{sign_message, verify_signature}
use yapyap.Handshake.Hex.{uint8_array_to_hex}

-- The type of a message that was parsed, which may be missing or some other text.
pub data HandshakeType : Type 0 where
  hello ack other_type no_type : HandshakeType

pub record E2eCapabilities : Type 0 where
  pub supported : Bool
  pub key_exchange : String
  pub encryption : String
  pub signature_scheme : String

pub record HandshakeMessage : Type 0 where
  pub type_ : HandshakeType
  pub version : String
  pub capabilities : List String
  pub public_key : Option Bytes
  pub signature : Option (List ℕ)
  pub timestamp : ℕ
  pub e2e_capabilities : Option E2eCapabilities

-- What is signed, with the key in hexadecimal.
pub record HandshakePayload : Type 0 where
  pub type_ : HandshakeType
  pub version : String
  pub capabilities : List String
  pub timestamp : ℕ
  pub public_key : List ℕ
  pub e2e_capabilities : Option E2eCapabilities

-- The data message that carries an answer.
pub record HandshakeReply : Type 0 where
  pub id : String
  pub from_ : String
  pub to_ : String
  pub payload : HandshakeMessage
  pub timestamp : ℕ

pub record HandshakeEnv (Text : Type 0) : Type 0 where
  pub node : NodeCrypto Text
  pub now : ℕ
  -- `handshake_ack_${randomUUID()}`
  pub ack_id : String
  -- the bytes of the JSON text
  pub payload_bytes : HandshakePayload → Bytes
  -- toString of a key, and the message of an error
  pub key_text : Bytes → String
  pub error_text : CryptoError → String

abbrev pub supported_handshake_version : String
supported_handshake_version = "1.0.0"

abbrev pub is_supported_handshake_version : String → Bool
is_supported_handshake_version version = version == supported_handshake_version

abbrev pub own_capabilities : E2eCapabilities
own_capabilities = record {
  supported = true;
  key_exchange = "X25519";
  encryption = "AES-GCM";
  signature_scheme = "Ed25519";
}

abbrev pub signed_payload : HandshakeMessage → Bytes → HandshakePayload
signed_payload message key = record {
  type_ = message.type_;
  version = message.version;
  capabilities = message.capabilities;
  timestamp = message.timestamp;
  public_key = uint8_array_to_hex key;
  e2e_capabilities = message.e2e_capabilities;
}

module _ {Text : Type 0} (env : HandshakeEnv Text) where
  abbrev pub unsigned : HandshakeType → List String → Bytes → HandshakeMessage
  unsigned type_ capabilities public_key = record {
    type_ = type_;
    version = supported_handshake_version;
    capabilities = capabilities;
    public_key = some public_key;
    signature = none;
    timestamp = env.now;
    e2e_capabilities = some own_capabilities;
  }

  unfoldable pub generate_handshake_message :
      HandshakeType → List String → Bytes → Bytes → Checked HandshakeMessage
  generate_handshake_message type_ capabilities private_key public_key = do
    let base = unsigned type_ capabilities public_key
    signature ←
        sign_message env.node (env.payload_bytes (signed_payload base public_key)) private_key
    ok (record base { signature = some (uint8_array_to_hex signature) })

  -- an empty text is no signature
  abbrev pub verify_signed : HandshakeMessage → Option (List ℕ) → Option Bytes → Checked Bool
  verify_signed message (some signature) (some public_key) =
      let verified =
        verify_signature env.node (env.payload_bytes (signed_payload message public_key))
          (hex_bytes signature) public_key in
      elim signature [ [] ↦ ok false | _ ∷ _ ↦ verified ]
  verify_signed message _ _ = ok false

  unfoldable pub verify_handshake_message : HandshakeMessage → Checked Bool
  verify_handshake_message message =
      if is_supported_handshake_version message.version
      then verify_signed message message.signature message.public_key
      else ok false

  abbrev pub is_malformed : HandshakeMessage → Bool
  is_malformed message =
      elim message.type_ [ HandshakeType.no_type ↦ true | _ ↦ false ]
      || message.version == ""
      || nat_eq message.timestamp 0

  -- Math.abs(Date.now() - timestamp) > 2 * 60 * 1000
  abbrev pub is_outside_window : HandshakeMessage → Bool
  is_outside_window message =
      ltb (2 * 60 * 1000) (env.now - message.timestamp + (message.timestamp - env.now))

  abbrev pub reply_with : String → Bytes → Checked HandshakeMessage → Outcome HandshakeReply
  reply_with remote public_key (err e) = throws_error (env.error_text e)
  reply_with remote public_key (ok message) = done (
      some (record {
        id = env.ack_id;
        from_ = env.key_text public_key;
        to_ = remote;
        payload = message;
        timestamp = env.now;
      }))

  abbrev pub answer_type :
      HandshakeMessage → HandshakeType → String → Bytes → Bytes → Outcome HandshakeReply
  answer_type message hello remote private_key public_key =
      reply_with remote public_key
        (generate_handshake_message ack message.capabilities private_key public_key)
  answer_type message _ remote private_key public_key = done none

  abbrev pub answer_verified :
      HandshakeMessage → Checked Bool → String → Bytes → Bytes → Outcome HandshakeReply
  answer_verified message (err e) remote private_key public_key = throws_error (env.error_text e)
  answer_verified message (ok false) remote private_key public_key =
      if is_supported_handshake_version message.version
      then throws_error "Invalid handshake signature"
      else throws_error "Unsupported handshake protocol version"
  answer_verified message (ok true) remote private_key public_key =
      if is_outside_window message
      then throws_error "Handshake timestamp outside allowed window"
      else answer_type message message.type_ remote private_key public_key

  -- the function that handleHandshakeMessage hands to handleProtocolError
  unfoldable pub answer_handshake :
      HandshakeMessage → String → Bytes → Bytes → Outcome HandshakeReply
  answer_handshake message remote private_key public_key =
      if is_malformed message
      then throws_error "Malformed handshake message"
      else answer_verified message (verify_handshake_message message) remote private_key public_key

  unfoldable pub handle_handshake_message {ℓ} :
      {S : Type ℓ}
      → HandshakeMessage
      → String
      → Bytes
      → Bytes
      → WithError S
      → Option HandshakeReply × WithError S
  handle_handshake_message message remote private_key public_key =
      handle_protocol_error "handshake"
        (λ s. (answer_handshake message remote private_key public_key, s))
