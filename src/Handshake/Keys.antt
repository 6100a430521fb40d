-- ===== src/Handshake/Keys.antt =====
-- The keys that both ends of a Noise handshake of src/protocols/handshake.ts derive.
use yapyap.Prelude.{◌≡◌, refl, ap, sym, subst, Option, none, some, true}
use yapyap.Framing.{Bytes}
use yapyap.Crypto.{NodeCrypto, Checked, ok, ◌>>=◌, EncryptionKeyPair, generate_ephemeral_key_pair}
use yapyap.Crypto.Cipher.{sign_message}
use yapyap.Crypto.Exchange.{Agree, derive_shared_secret_x25519}
use yapyap.Crypto.Verified.{bind_ok}
use yapyap.Handshake.Hex.{uint8_array_to_hex}
use yapyap.Handshake.Noise.{
  NoiseType, initiator, responder, NoiseXxMessage, NoiseSession, NoiseEnv, noise_message,
  with_private_key, generate_noise_xx_message, derive_session_keys, session_or_new, completed,
  process_noise_xx_handshake,
}

generated :
    {Text : Type 0} (env : NoiseEnv Text) (t : NoiseType) (static_key : Bytes)
    (signing_key : Option Bytes) (m : NoiseXxMessage) (key : Bytes)
    → generate_noise_xx_message env t static_key signing_key ≡ ok (m, key)
    → (m.ephemeral_key ≡ env.node.new_x25519.public_key) × (key ≡ env.node.new_x25519.private_key)
unfolding generate_noise_xx_message
generated env t static_key none m key e =
    let same : with_private_key env (noise_message env t static_key none) ≡ (m, key) = cc in
    (ap (λ q. q.0.ephemeral_key) (sym same), ap (λ q. q.1) (sym same))
generated env t static_key (some signing_key) m key e =
    let (signature, signed, made) =
      bind_ok
        (sign_message env.node
          (env.signed_bytes t (uint8_array_to_hex (generate_ephemeral_key_pair env.node).public_key)
            (uint8_array_to_hex static_key))
          signing_key)
        (λ signature. ok (with_private_key env (noise_message env t static_key (some signature))))
        (m, key) e in
    let same : with_private_key env (noise_message env t static_key (some signature)) ≡ (m, key) =
      cc in
    (ap (λ q. q.0.ephemeral_key) (sym same), ap (λ q. q.1) (sym same))

-- The same surroundings with another pair of keys, at the other end.
abbrev pub with_pair : {Text : Type 0} → EncryptionKeyPair → NoiseEnv Text → NoiseEnv Text
with_pair pair env = record env { node = record env.node { new_x25519 = pair } }

processed :
    {Text : Type 0} (env : NoiseEnv Text) (remote : NoiseXxMessage)
    (private_key local_key remote_key : Bytes) (session : Option NoiseSession)
    → remote.ephemeral_key ≡ remote_key
    → env.node.public_type remote_key ≡ some yapyap.Crypto.x25519
    → env.node.private_type private_key ≡ some yapyap.Crypto.x25519
    → process_noise_xx_handshake env private_key local_key remote session
      ≡ ok (
          completed env remote_key
            (env.node.diffie_hellman remote_key private_key)
            (session_or_new env local_key session))
unfolding process_noise_xx_handshake
processed env remote private_key local_key remote_key session same public_ok private_ok =
    rw (same, derive_shared_secret_x25519 env.node remote_key private_key public_ok private_ok) refl

-- Two nodes each make a message, and each takes in the message of the other: both calls return a
-- session that is complete, and both sessions have one shared secret and one pair of session keys. So what one
-- end calls its encryption key is the encryption key of the other end too.
pub process_noise_xx_handshake-Agree :
    {Text : Type 0} (env : NoiseEnv Text) (pair : EncryptionKeyPair) (a_static b_static : Bytes)
    (a_signing b_signing : Option Bytes) (a_message b_message : NoiseXxMessage)
    (a_key b_key : Bytes)
    → Agree env.node env.node.new_x25519.public_key env.node.new_x25519.private_key pair.public_key
        pair.private_key
    → generate_noise_xx_message env initiator a_static a_signing ≡ ok (a_message, a_key)
    → generate_noise_xx_message (with_pair pair env) responder b_static b_signing
      ≡ ok (b_message, b_key)
    → (a : NoiseSession) × (b : NoiseSession) × (process_noise_xx_handshake env a_key a_static
          b_message none
        ≡ ok a)
      × (process_noise_xx_handshake (with_pair pair env) b_key b_static a_message none ≡ ok b)
      × (a.handshake_complete ≡ true)
      × (b.handshake_complete ≡ true)
      × (a.shared_secret ≡ b.shared_secret)
      × (a.session_keys ≡ b.session_keys)
unfolding derive_session_keys
process_noise_xx_handshake-Agree env pair a_static b_static a_signing b_signing a_message b_message
      a_key b_key agree a_made b_made =
    let a = generated env initiator a_static a_signing a_message a_key a_made in
    let b = generated (with_pair pair env) responder b_static b_signing b_message b_key b_made in
    let same : env.node.diffie_hellman pair.public_key a_key
        ≡ env.node.diffie_hellman env.node.new_x25519.public_key b_key =
      rw (a.1, b.1) agree.same_secret in
    (
      completed env pair.public_key (env.node.diffie_hellman pair.public_key a_key)
          (session_or_new env a_static none),
      completed (with_pair pair env) env.node.new_x25519.public_key
          (env.node.diffie_hellman env.node.new_x25519.public_key b_key)
          (session_or_new (with_pair pair env) b_static none),
      processed env b_message a_key a_static pair.public_key none b.0 agree.b_public_type (
          subst (λ k. env.node.private_type k ≡ some yapyap.Crypto.x25519) (sym a.1)
            agree.a_private_type),
      processed (with_pair pair env) a_message b_key b_static env.node.new_x25519.public_key none
          a.0 agree.a_public_type
          (subst (λ k. env.node.private_type k ≡ some yapyap.Crypto.x25519) (sym b.1)
            agree.b_private_type),
      refl,
      refl,
      ap some same,
      ap (λ s. some (derive_session_keys env s)) same,
    )
