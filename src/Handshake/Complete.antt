-- ===== src/Handshake/Complete.antt =====
-- A whole handshake of src/protocols/handshake.ts: the hello, the answer and what is made of it.
use yapyap.Prelude.{
  ℕ, ◌+◌, ◌≤◌, ◌<◌, ◌≡◌, ◌≢◌, refl, ap, ◌∙◌, String, List, [], ◌∷◌, none, some, true, false, arith,
  length,
}
use yapyap.Framing.{Bytes}
use yapyap.Framing.Header.{AreBytes}
use yapyap.Protocol.{WithError, settle}
use yapyap.Crypto.{NodeCrypto, ok}
use yapyap.Crypto.Cipher.{sign_message, verify_signature}
use yapyap.Handshake.Hex.{uint8_array_to_hex, hex_bytes-uint8_array_to_hex}
use yapyap.Handshake.{
  HandshakeType, hello, ack, HandshakeMessage, HandshakeReply, HandshakeEnv, signed_payload,
  unsigned, generate_handshake_message, verify_signed, verify_handshake_message, is_outside_window,
  is_malformed, answer_type, reply_with, answer_handshake, handle_handshake_message,
}

-- A pair of keys whose signatures are some bytes, and verify.
pub record IsSigner {Text : Type 0} (node : NodeCrypto Text) (private_key public_key : Bytes)
    : Type 0 where
  pub sign_with : Bytes → Bytes
  pub signs : (m : Bytes) → node.sign m private_key ≡ some (sign_with m)
  pub are_bytes : (m : Bytes) → AreBytes (sign_with m)
  pub not_empty : (m : Bytes) → 0 < length (sign_with m)
  pub verifies : (m : Bytes) → node.verify m (sign_with m) public_key ≡ some true

-- The same surroundings at another time.
abbrev pub at_clock : {Text : Type 0} → ℕ → HandshakeEnv Text → HandshakeEnv Text
at_clock now env = record env { now = now }

module _ {Text : Type 0} (env : HandshakeEnv Text) (private_key public_key : Bytes)
    (signer : IsSigner env.node private_key public_key) where
  abbrev pub signature_of : HandshakeType → List String → Bytes
  signature_of type_ capabilities =
      signer.sign_with
        (env.payload_bytes (signed_payload (unsigned env type_ capabilities public_key) public_key))

  abbrev pub signed_message : HandshakeType → List String → HandshakeMessage
  signed_message type_ capabilities = record (unsigned env type_ capabilities public_key) {
    signature = some (uint8_array_to_hex (signature_of type_ capabilities));
  }

  pub generate_handshake_message-signed :
      (type_ : HandshakeType) (capabilities : List String)
      → generate_handshake_message env type_ capabilities private_key public_key
        ≡ ok (signed_message type_ capabilities)
  unfolding generate_handshake_message sign_message
  generate_handshake_message-signed type_ capabilities =
      rw
        (signer.signs (
          env.payload_bytes
            (signed_payload (unsigned env type_ capabilities public_key) public_key)))
        refl

  verify_hex :
      (m : HandshakeMessage) (s : Bytes)
      → AreBytes s
      → 0 < length s
      → env.node.verify (env.payload_bytes (signed_payload m public_key)) s public_key ≡ some true
      → verify_signed env m (some (uint8_array_to_hex s)) (some public_key) ≡ ok true
  unfolding verify_signature
  verify_hex m [] bytes h v = absurd (omega (arith, h))
  verify_hex m (b ∷ s) bytes h v = rw (hex_bytes-uint8_array_to_hex (b ∷ s) bytes, v) (ground arith)

  pub verify_handshake_message-signed :
      (now : ℕ) (type_ : HandshakeType) (capabilities : List String)
      → verify_handshake_message (at_clock now env) (signed_message type_ capabilities) ≡ ok true
  unfolding verify_handshake_message
  verify_handshake_message-signed now type_ capabilities =
      verify_hex (signed_message type_ capabilities) (signature_of type_ capabilities)
        (signer.are_bytes _) (signer.not_empty _) (signer.verifies _)

  signed-is_formed :
      (type_ : HandshakeType) (capabilities : List String)
      → type_ ≢ HandshakeType.no_type
      → 0 < env.now
      → is_malformed env (signed_message type_ capabilities) ≡ false
  signed-is_formed hello capabilities typed started = ground (arith, started)
  signed-is_formed ack capabilities typed started = ground (arith, started)
  signed-is_formed HandshakeType.other_type capabilities typed started = ground (arith, started)
  signed-is_formed HandshakeType.no_type capabilities typed started = absurd (typed refl)

  -- What another node makes of such a message, in time.
  pub handle_handshake_message-signed :
      {S : Type 0} (now : ℕ) (type_ : HandshakeType) (capabilities : List String) (remote : String)
      (other_private other_public : Bytes) (s : WithError S)
      → type_ ≢ HandshakeType.no_type
      → 0 < env.now
      → env.now ≤ now
      → now ≤ env.now + 120000
      → handle_handshake_message
          (at_clock now env)
          (signed_message type_ capabilities)
          remote
          other_private
          other_public
          s
        ≡ settle "handshake"
            (answer_type
              (at_clock now env)
              (signed_message type_ capabilities)
              type_
              remote
              other_private
              other_public)
            s.inner
  unfolding handle_handshake_message answer_handshake
  handle_handshake_message-signed now type_ capabilities remote other_private other_public s typed
        started after before =
      let formed : is_malformed env (signed_message type_ capabilities) ≡ false =
        signed-is_formed type_ capabilities typed started in
      let inside : is_outside_window (at_clock now env) (signed_message type_ capabilities)
          ≡ false =
        ground (arith, after, before) in
      rw (formed, verify_handshake_message-signed now type_ capabilities, inside) refl

-- A hello is answered, and the answer is taken in, each within two minutes and while the clock does not go back; and both nodes have keys
-- whose signatures verify. Then the hello is made, the other node returns an answer to it, the signature
-- of the answer verifies at the first node, which answers nothing to it, and no error is left at either.
pub handshake_completes :
    {Text S : Type 0} (env : HandshakeEnv Text) (answered finished : ℕ) (capabilities : List String)
    (a_private a_public b_private b_public : Bytes) (a_name b_name : String)
    (a_state b_state : WithError S)
    → IsSigner env.node a_private a_public
    → IsSigner env.node b_private b_public
    → 0 < env.now
    → env.now ≤ answered
    → answered ≤ env.now + 120000
    → answered ≤ finished
    → finished ≤ answered + 120000
    → (m : HandshakeMessage) × (r : HandshakeReply) × (generate_handshake_message env hello
          capabilities a_private a_public
        ≡ ok m)
      × (handle_handshake_message (at_clock answered env) m a_name b_private b_public b_state
          ≡ (some r, record { inner = b_state.inner; last_protocol_error = none }))
      × (verify_handshake_message (at_clock finished env) r.payload ≡ ok true)
      × (handle_handshake_message
            (at_clock finished env)
            r.payload
            b_name
            a_private
            a_public
            a_state
          ≡ (none, record { inner = a_state.inner; last_protocol_error = none }))
handshake_completes env answered finished capabilities a_private a_public b_private b_public a_name
      b_name a_state b_state a b started after before later soon =
    let env₁ = at_clock answered env in
    let m = signed_message env a_private a_public a hello capabilities in
    let answer = signed_message env₁ b_private b_public b ack capabilities in
    (
      m,
      record {
        id = env.ack_id;
        from_ = env.key_text b_public;
        to_ = a_name;
        payload = answer;
        timestamp = answered;
      },
      generate_handshake_message-signed env a_private a_public a hello capabilities,
      handle_handshake_message-signed env a_private a_public a answered hello capabilities a_name
            b_private b_public b_state (λ e. cc) started after before
          ∙ ap (λ o. settle "handshake" (reply_with env₁ a_name b_public o) b_state.inner)
              (generate_handshake_message-signed env₁ b_private b_public b ack capabilities),
      verify_handshake_message-signed env₁ b_private b_public b finished ack capabilities,
      handle_handshake_message-signed env₁ b_private b_public b finished ack capabilities b_name
          a_private a_public a_state (λ e. cc) (omega (arith, started, after)) later soon,
    )
