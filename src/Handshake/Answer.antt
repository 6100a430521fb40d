-- ===== src/Handshake/Answer.antt =====
-- What handleHandshakeMessage of src/protocols/handshake.ts answers, and to whom.
use yapyap.Prelude.{
  ℕ, ◌+◌, ◌≤◌, ◌≡◌, refl, ap, String, List, [], ◌∷◌, Option, none, some, Bool, true, false, arith,
  if◌then◌else◌, string_keys, ==_iff,
}
use yapyap.Framing.{Bytes}
use yapyap.Text.{hex_bytes}
use yapyap.Protocol.{Outcome, done, throws_error, WithError, settle}
use yapyap.Crypto.{Checked, ok, err}
use yapyap.Crypto.Cipher.{verify_signature}
use yapyap.Handshake.{
  HandshakeType, hello, ack, HandshakeMessage, HandshakeReply, HandshakeEnv,
  supported_handshake_version, is_supported_handshake_version, signed_payload, verify_signed,
  verify_handshake_message, is_malformed, is_outside_window, answer_type, answer_verified,
  answer_handshake, handle_handshake_message,
}

-- What must hold of a message for an answer to it.
pub record IsAnswerable {Text : Type 0} (env : HandshakeEnv Text) (m : HandshakeMessage)
    : Type 0 where
  pub key : Bytes
  pub text : List ℕ
  pub has_key : m.public_key ≡ some key
  pub has_signature : m.signature ≡ some text
  pub is_hello : m.type_ ≡ hello
  pub is_supported : m.version ≡ supported_handshake_version
  pub is_signed :
      env.node.verify (env.payload_bytes (signed_payload m key)) (hex_bytes text) key ≡ some true
  pub not_early : m.timestamp ≤ env.now + 120000
  pub not_late : env.now ≤ m.timestamp + 120000

module _ {Text : Type 0} (env : HandshakeEnv Text) (m : HandshakeMessage) where
  answer_type_done :
      (t : HandshakeType) (remote : String) (private_key public_key : Bytes) (r : HandshakeReply)
      → answer_type env m t remote private_key public_key ≡ done (some r)
      → t ≡ hello
  answer_type_done hello remote private_key public_key r h = refl
  answer_type_done ack remote private_key public_key r h = cc
  answer_type_done HandshakeType.other_type remote private_key public_key r h = cc
  answer_type_done HandshakeType.no_type remote private_key public_key r h = cc

  answer_verified_done :
      (v : Checked Bool) (remote : String) (private_key public_key : Bytes) (r : HandshakeReply)
      → answer_verified env m v remote private_key public_key ≡ done (some r)
      → (v ≡ ok true) × (is_outside_window env m ≡ false) × (m.type_ ≡ hello)
  answer_verified_done (err e) remote private_key public_key r h = cc
  answer_verified_done (ok false) remote private_key public_key r h =
      by_version (is_supported_handshake_version m.version) h
    where
      by_version :
          (b : Bool)
          → (if b
              then throws_error "Invalid handshake signature"
              else throws_error "Unsupported handshake protocol version")
            ≡ done (some r)
          → (ok false ≡ ok true) × (is_outside_window env m ≡ false) × (m.type_ ≡ hello)
      by_version true e = cc
      by_version false e = cc
  answer_verified_done (ok true) remote private_key public_key r h =
      let (inside, is) = in_time (is_outside_window env m) h in (refl, inside, is)
    where
      in_time :
          (b : Bool)
          → (if b
              then throws_error "Handshake timestamp outside allowed window"
              else answer_type env m m.type_ remote private_key public_key)
            ≡ done (some r)
          → (b ≡ false) × (m.type_ ≡ hello)
      in_time true e = cc
      in_time false e = (refl, answer_type_done m.type_ remote private_key public_key r e)

  verify_signed-true :
      (signature : Option (List ℕ)) (public_key : Option Bytes)
      → verify_signed env m signature public_key ≡ ok true
      → (text : List ℕ) × (key : Bytes) × (signature ≡ some text)
        × (public_key ≡ some key)
        × (env.node.verify (env.payload_bytes (signed_payload m key)) (hex_bytes text) key
            ≡ some true)
  unfolding verify_signature
  verify_signed-true (some []) (some key) h = cc
  verify_signed-true (some (c ∷ cs)) (some key) h = (c ∷ cs, key, refl, refl, ground (arith, h))
  verify_signed-true (some text) none h = cc
  verify_signed-true none public_key h = cc

  verify_true :
      verify_handshake_message env m ≡ ok true
      → (m.version ≡ supported_handshake_version)
        × (verify_signed env m m.signature m.public_key ≡ ok true)
  unfolding verify_handshake_message
  verify_true h = by_version (is_supported_handshake_version m.version) refl h
    where
      by_version :
          (b : Bool)
          → is_supported_handshake_version m.version ≡ b
          → (if b then verify_signed env m m.signature m.public_key else ok false) ≡ ok true
          → (m.version ≡ supported_handshake_version)
            × (verify_signed env m m.signature m.public_key ≡ ok true)
      by_version true same e = ((==_iff m.version supported_handshake_version).0 same, e)
      by_version false other e = cc

  answer_handshake_done :
      (remote : String) (private_key public_key : Bytes) (r : HandshakeReply)
      → answer_handshake env m remote private_key public_key ≡ done (some r)
      → IsAnswerable env m
  unfolding answer_handshake
  answer_handshake_done remote private_key public_key r h =
      let (verified, inside, is) =
        answer_verified_done (verify_handshake_message env m) remote private_key public_key r
          (well_formed (is_malformed env m) h) in
      let (version, valid) = verify_true verified in
      let (text, key, has_text, has_key, signed) =
        verify_signed-true m.signature m.public_key valid in
      record {
        key = key;
        text = text;
        has_key = has_key;
        has_signature = has_text;
        is_hello = is;
        is_supported = version;
        is_signed = signed;
        not_early = ground (arith, inside);
        not_late = ground (arith, inside);
      }
    where
      well_formed :
          (b : Bool)
          → (if b
              then throws_error "Malformed handshake message"
              else answer_verified env m
                  (verify_handshake_message env m)
                  remote
                  private_key
                  public_key)
            ≡ done (some r)
          → answer_verified env m (verify_handshake_message env m) remote private_key public_key
            ≡ done (some r)
      well_formed true e = cc
      well_formed false e = e

settle-some :
    {A S : Type 0} (operation : String) (o : Outcome A) (s : S) (a : A)
    → (settle operation o s).0 ≡ some a
    → o ≡ done (some a)
settle-some operation (done o) s a h = ap done h
settle-some operation (throws_error e) s a h = cc
settle-some operation Outcome.throws_other s a h = cc

-- handleHandshakeMessage answers a message only if it is a hello of the supported version with a key and a
-- signature, the signature verifies under that key for the bytes of the message, and its timestamp is at
-- most two minutes away from the clock.
pub handle_handshake_message-IsAnswerable :
    {Text S : Type 0} (env : HandshakeEnv Text) (m : HandshakeMessage) (remote : String)
    (private_key public_key : Bytes) (s : WithError S) (r : HandshakeReply)
    → (handle_handshake_message env m remote private_key public_key s).0 ≡ some r
    → IsAnswerable env m
unfolding handle_handshake_message
handle_handshake_message-IsAnswerable env m remote private_key public_key s r h =
    answer_handshake_done env m remote private_key public_key r
      (settle-some "handshake" (answer_handshake env m remote private_key public_key) s.inner r h)
