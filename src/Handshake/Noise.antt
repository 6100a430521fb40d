-- ===== src/Handshake/Noise.antt =====
-- The Noise messages and sessions of src/protocols/handshake.ts.
use yapyap.Prelude.{String, List, ℕ, Option, none, some, Bool, true, false}
use yapyap.Framing.{Bytes}
use yapyap.Sessions.{SessionKeys}
use yapyap.Crypto.{
  NodeCrypto, Checked, ok, ◌>>=◌, derive_shared_secret, generate_ephemeral_key_pair,
}
use yapyap.Crypto.Cipher.{sign_message}
use yapyap.Handshake.Hex.{uint8_array_to_hex}

pub data NoiseType : Type 0 where
  initiator responder : NoiseType

pub record NoiseXxMessage : Type 0 where
  pub noise_type : NoiseType
  pub ephemeral_key : Bytes
  pub static_key : Option Bytes
  pub signature : Option Bytes

pub record NoiseSession : Type 0 where
  pub session_id : String
  pub peer_id : String
  pub static_public_key : Bytes
  pub ephemeral_public_key : Option Bytes
  pub shared_secret : Option Bytes
  pub session_keys : Option SessionKeys
  pub handshake_complete : Bool

pub record NoiseEnv (Text : Type 0) : Type 0 where
  pub node : NodeCrypto Text
  -- `noise_${randomUUID()}`
  pub noise_id : String
  -- the bytes of the JSON text of a type and two keys in hexadecimal
  pub signed_bytes : NoiseType → List ℕ → List ℕ → Bytes
  -- hkdfSync with SHA-256 and the salt "yapyap-noise-salt", of a secret and the info
  pub hkdf : Bytes → String → Bytes

module _ {Text : Type 0} (env : NoiseEnv Text) where
  abbrev pub noise_message : NoiseType → Bytes → Option Bytes → NoiseXxMessage
  noise_message noise_type static_key signature = record {
    noise_type = noise_type;
    ephemeral_key = (generate_ephemeral_key_pair env.node).public_key;
    static_key = some static_key;
    signature = signature;
  }

  -- the message, and the private key that stays
  abbrev pub with_private_key : NoiseXxMessage → NoiseXxMessage × Bytes
  with_private_key message = (message, (generate_ephemeral_key_pair env.node).private_key)

  -- generateNoiseXXInitiatorMessage and generateNoiseXXResponderMessage, which differ in the type
  unfoldable pub generate_noise_xx_message :
      NoiseType → Bytes → Option Bytes → Checked (NoiseXxMessage × Bytes)
  generate_noise_xx_message noise_type static_key none =
      ok (with_private_key (noise_message noise_type static_key none))
  generate_noise_xx_message noise_type static_key (some signing_key) = do
    signature ←
        sign_message env.node
          (env.signed_bytes noise_type
            (uint8_array_to_hex (generate_ephemeral_key_pair env.node).public_key)
            (uint8_array_to_hex static_key))
          signing_key
    ok (with_private_key (noise_message noise_type static_key (some signature)))

  unfoldable pub derive_session_keys : Bytes → SessionKeys
  derive_session_keys secret = record {
    encryption_key = env.hkdf secret "encryption";
    decryption_key = env.hkdf secret "decryption";
  }

  abbrev pub session_or_new : Bytes → Option NoiseSession → NoiseSession
  session_or_new local_public_key (some session) = session
  session_or_new local_public_key none = record {
    session_id = env.noise_id;
    peer_id = "";
    static_public_key = local_public_key;
    ephemeral_public_key = none;
    shared_secret = none;
    session_keys = none;
    handshake_complete = false;
  }

  abbrev pub completed : Bytes → Bytes → NoiseSession → NoiseSession
  completed remote_key secret session = record session {
    shared_secret = some secret;
    ephemeral_public_key = some remote_key;
    session_keys = some (derive_session_keys secret);
    handshake_complete = true;
  }

  unfoldable pub process_noise_xx_handshake :
      Bytes → Bytes → NoiseXxMessage → Option NoiseSession → Checked NoiseSession
  process_noise_xx_handshake private_key local_public_key remote session = do
    secret ← derive_shared_secret env.node remote.ephemeral_key private_key
    ok (completed remote.ephemeral_key secret (session_or_new local_public_key session))
