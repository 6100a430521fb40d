-- ===== src/Handshake/Tests.antt =====
-- Runs of the code of src/protocols/handshake.ts.
use yapyap.Prelude.{
  ℕ, ◌+◌, ◌%◌, ◌≡◌, refl, ap, nat_eq_iff, String, [], ◌∷◌, none, some, true, arith, nat_eq, length,
}
use yapyap.Framing.{Bytes}
use yapyap.Protocol.{WithError}
use yapyap.Crypto.{NodeCrypto, x25519, EncryptionKeyPair, ok}
use yapyap.Crypto.Exchange.{Agree}
use yapyap.Handshake.{
  HandshakeType, own_capabilities, hello, ack, HandshakeMessage, HandshakeReply, HandshakeEnv,
  generate_handshake_message, verify_handshake_message, handle_handshake_message,
}
use yapyap.Handshake.Noise.{
  NoiseType, initiator, responder, NoiseXxMessage, NoiseSession, NoiseEnv,
  generate_noise_xx_message, process_noise_xx_handshake,
}
use yapyap.Handshake.Keys.{with_pair, process_noise_xx_handshake-Agree}
use yapyap.Handshake.Answer.{IsAnswerable, handle_handshake_message-IsAnswerable}
use yapyap.Handshake.Complete.{IsSigner, at_clock, handshake_completes}

abbrev first : Bytes → ℕ
first [] = 0
first (b ∷ bs) = b

-- A toy in place of node:crypto, which signs with the length.
abbrev toy : NodeCrypto String
toy = record {
  new_ed25519 = record { public_key = 7 ∷ []; private_key = 7 ∷ [] };
  new_x25519 = record { public_key = 5 ∷ []; private_key = 5 ∷ [] };
  random_nonce = [];
  public_type = λ key. some x25519;
  private_type = λ key. some x25519;
  public_x = λ key. none;
  private_d = λ key. none;
  diffie_hellman = λ p q. (first p + first q) ∷ [];
  sha256 = λ b. b;
  sha512 = λ b. b;
  seal = λ key nonce p. (p, []);
  unseal = λ key nonce c tag. some c;
  sign = λ m key. some ((length m % 256) ∷ []);
  verify = λ m s key. some (nat_eq (first s) (length m % 256));
  pbkdf2 = λ password salt iterations. [];
  encode_text = λ t. [];
  decode_text = λ b. "";
}

abbrev surroundings : HandshakeEnv String
surroundings = record {
  node = toy;
  now = 1000;
  ack_id = "handshake_ack_1";
  payload_bytes = λ p. p.timestamp ∷ p.public_key;
  key_text = λ key. "key";
  error_text = λ e. "error";
}

toy-IsSigner : (private_key public_key : Bytes) → IsSigner toy private_key public_key
toy-IsSigner private_key public_key = record {
  sign_with = λ m. (length m % 256) ∷ [];
  signs = λ m. refl;
  are_bytes = λ m. (omega arith, tt);
  not_empty = λ m. omega arith;
  verifies = λ m. ap some ((nat_eq_iff _ _).1 refl);
}

abbrev quiet : WithError (Unit {0})
quiet = record { inner = tt; last_protocol_error = none }

handshake_completes_example :
    (m : HandshakeMessage) × (r : HandshakeReply) × (generate_handshake_message surroundings hello
        ("sync" ∷ [])
        (1 ∷ [])
        (2 ∷ [])
      ≡ ok m)
    × (handle_handshake_message (at_clock 61000 surroundings) m "a" (3 ∷ []) (4 ∷ []) quiet
        ≡ (some r, quiet))
    × (verify_handshake_message (at_clock 62000 surroundings) r.payload ≡ ok true)
    × (handle_handshake_message (at_clock 62000 surroundings) r.payload "b" (1 ∷ []) (2 ∷ []) quiet
        ≡ (none, quiet))
handshake_completes_example =
    handshake_completes surroundings 61000 62000 ("sync" ∷ []) (1 ∷ []) (2 ∷ []) (3 ∷ []) (4 ∷ [])
      "a" "b" quiet quiet (toy-IsSigner (1 ∷ []) (2 ∷ [])) (toy-IsSigner (3 ∷ []) (4 ∷ []))
      (omega arith) (omega arith) (omega arith) (omega arith) (omega arith)

abbrev signed_03 : HandshakeType → Bytes → ℕ → HandshakeMessage
signed_03 type_ key time = record {
  type_ = type_;
  version = "1.0.0";
  capabilities = [];
  public_key = some key;
  signature = some (b'0' ∷ b'3' ∷ []);
  timestamp = time;
  e2e_capabilities = some own_capabilities;
}

abbrev answer_03 : HandshakeReply
answer_03 = record {
  id = "handshake_ack_1";
  from_ = "key";
  to_ = "a";
  payload = signed_03 ack (4 ∷ []) 61000;
  timestamp = 61000;
}

hello_answered :
    (handle_handshake_message
      (at_clock 61000 surroundings)
      (signed_03 hello (2 ∷ []) 1000)
      "a"
      (3 ∷ [])
      (4 ∷ [])
      quiet).0
    ≡ some answer_03
unfolding handle_handshake_message yapyap.Handshake.answer_handshake verify_handshake_message
    yapyap.Crypto.Cipher.verify_signature yapyap.Text.hex_bytes generate_handshake_message
    yapyap.Crypto.Cipher.sign_message
hello_answered = refl

handle_handshake_message-IsAnswerable_example :
    IsAnswerable (at_clock 61000 surroundings) (signed_03 hello (2 ∷ []) 1000)
handle_handshake_message-IsAnswerable_example =
    handle_handshake_message-IsAnswerable (at_clock 61000 surroundings)
      (signed_03 hello (2 ∷ []) 1000) "a" (3 ∷ []) (4 ∷ []) quiet answer_03 hello_answered

abbrev noise_surroundings : NoiseEnv String
noise_surroundings = record {
  node = toy;
  noise_id = "noise_1";
  signed_bytes = λ t ephemeral static. ephemeral;
  hkdf = λ secret info. secret;
}

abbrev other_pair : EncryptionKeyPair
other_pair = record { public_key = 6 ∷ []; private_key = 6 ∷ [] }

other-Agree : Agree toy (5 ∷ []) (5 ∷ []) (6 ∷ []) (6 ∷ [])
other-Agree = record {
  same_secret = refl;
  a_public_type = refl;
  a_private_type = refl;
  b_public_type = refl;
  b_private_type = refl;
}

abbrev plain_message : NoiseType → Bytes → NoiseXxMessage
plain_message noise_type key = record {
  noise_type = noise_type;
  ephemeral_key = key;
  static_key = some (1 ∷ []);
  signature = none;
}

generated_plain :
    (generate_noise_xx_message noise_surroundings initiator (1 ∷ []) none
      ≡ ok (plain_message initiator (5 ∷ []), 5 ∷ []))
    × (generate_noise_xx_message (with_pair other_pair noise_surroundings) responder (1 ∷ []) none
        ≡ ok (plain_message responder (6 ∷ []), 6 ∷ []))
unfolding generate_noise_xx_message
generated_plain = (refl, refl)

process_noise_xx_handshake-Agree_example :
    (a : NoiseSession) × (b : NoiseSession) × (process_noise_xx_handshake noise_surroundings
        (5 ∷ [])
        (1 ∷ [])
        (plain_message responder (6 ∷ []))
        none
      ≡ ok a)
    × (process_noise_xx_handshake
          (with_pair other_pair noise_surroundings)
          (6 ∷ [])
          (1 ∷ [])
          (plain_message initiator (5 ∷ []))
          none
        ≡ ok b)
    × (a.handshake_complete ≡ true)
    × (b.handshake_complete ≡ true)
    × (a.shared_secret ≡ b.shared_secret)
    × (a.session_keys ≡ b.session_keys)
process_noise_xx_handshake-Agree_example =
    process_noise_xx_handshake-Agree noise_surroundings other_pair (1 ∷ []) (1 ∷ []) none none
      (plain_message initiator (5 ∷ [])) (plain_message responder (6 ∷ [])) (5 ∷ []) (6 ∷ [])
      other-Agree generated_plain.0 generated_plain.1
