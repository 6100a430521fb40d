-- ===== src/Node/Tests.antt =====
-- Runs of the code of src/core/node.ts.
use yapyap.Prelude.{
  ℕ, zero, suc, ◌/◌, ◌+◌, ◌≡◌, refl, [], ◌∷◌, none, some, true, false, arith, length, nat_eq, inl,
}
use yapyap.Framing.{Bytes}
use yapyap.Framing.Header.{AreBytes}
use yapyap.Database.Keys.{get_node_key}
use yapyap.Sessions.{SessionEnv}
use yapyap.Crypto.{NodeCrypto, x25519, ok}
use yapyap.Crypto.Field.{little_endian}
use yapyap.Crypto.Exchange.{IsSound, Agree}
use yapyap.Node.{
  Node, Attempt, throws_early, answered_with, fetch_recipient_public_key, process_handshake,
  perform_handshake,
}
use yapyap.Node.Attempts.{perform_handshake-stores}
use yapyap.Node.Payload.{EncryptedPayload, encrypt_payload_for, decrypt_payload_from}
use yapyap.Node.Decrypted.{GivesBytes, decrypt_payload_from-encrypt_payload_for}

abbrev waiting : Node
waiting = record {
  node_keys = [];
  metadata_keys = ("b", b'0' ∷ b'1' ∷ []) ∷ [];
  sessions = record { sessions = []; table = [] };
  peer_key_versions = [];
  peer_key_waiters = ("a", 1 ∷ 2 ∷ []) ∷ ("b", 3 ∷ []) ∷ [];
  peer_key_refresh_pending = "a" ∷ [];
  peer_key_refresh_pending_version = ("a", 0) ∷ [];
  handshake_in_progress = [];
  resolved = [];
}

abbrev session_env : SessionEnv
session_env = record {
  now = 1000;
  random_uuid = "id";
  key_pair = (1 ∷ [], 2 ∷ []);
  derive_keys = λ private public. none;
  text_of = λ info. "";
  parse = λ text. none;
}

no_row : get_node_key waiting.node_keys "a" ≡ none
unfolding get_node_key yapyap.Map.get
no_row = refl

abbrev second_answers : ℕ → Attempt
second_answers attempt = elim (nat_eq attempt 2) [
  | true ↦ answered_with (some (9 ∷ [])) true
  | false ↦ throws_early
]

perform_handshake-stores_example :
    ((perform_handshake session_env true second_answers "a" waiting).0 ≡ true)
    × (fetch_recipient_public_key "a"
          (perform_handshake session_env true second_answers "a" waiting).1
        ≡ some (9 ∷ []))
    × ((perform_handshake session_env true second_answers "a" waiting).1.resolved ≡ 1 ∷ 2 ∷ [])
unfolding yapyap.Map.get
perform_handshake-stores_example =
    perform_handshake-stores session_env second_answers "a" (9 ∷ []) 1 waiting refl no_row
      (omega arith, tt) (omega arith) (inl refl, tt) refl

-- The answer of the code's own processHandshake has no key.
abbrev own_answers : ℕ → Attempt
own_answers attempt = answered_with none true

abbrev first : Bytes → ℕ
first [] = 0
first (b ∷ bs) = b

-- A toy in place of node:crypto, in which a text is its bytes.
abbrev toy : NodeCrypto Bytes
toy = record {
  new_ed25519 = record { public_key = 7 ∷ []; private_key = 7 ∷ [] };
  new_x25519 = record { public_key = 5 ∷ []; private_key = 5 ∷ [] };
  random_nonce = little_endian 12 99;
  public_type = λ key. some x25519;
  private_type = λ key. some x25519;
  public_x = λ key. none;
  private_d = λ key. none;
  diffie_hellman = λ p q. (first p + first q) ∷ [];
  sha256 = λ b. little_endian 32 (first b);
  sha512 = λ b. b;
  seal = λ key nonce p. (p, little_endian 16 (first key));
  unseal = λ key nonce c tag. some c;
  sign = λ m key. some (length m ∷ m);
  verify = λ m s key. some (nat_eq (first s) (length m));
  pbkdf2 = λ password salt iterations. [];
  encode_text = λ t. t;
  decode_text = λ b. b;
}

toy-IsSound : IsSound toy
toy-IsSound = record {
  sha256_length = λ b. refl;
  nonce_length = refl;
  tag_length = λ key nonce p. refl;
  unseal-seal = λ key nonce p. refl;
  sign_length = λ m key e. cc;
}

toy-Agree : Agree toy (5 ∷ []) (5 ∷ []) (6 ∷ []) (6 ∷ [])
toy-Agree = record {
  same_secret = refl;
  a_public_type = refl;
  a_private_type = refl;
  b_public_type = refl;
  b_private_type = refl;
}

public_6 : yapyap.Crypto.Cipher.ensure_x25519_public_key_der toy (6 ∷ []) ≡ ok (6 ∷ [])
unfolding yapyap.Crypto.Cipher.ensure_x25519_public_key_der
public_6 = refl

private_6 : yapyap.Crypto.Cipher.ensure_x25519_private_key_der toy (6 ∷ []) ≡ ok (6 ∷ [])
unfolding yapyap.Crypto.Cipher.ensure_x25519_private_key_der
private_6 = refl

little_endian-AreBytes : (n v : ℕ) → AreBytes (little_endian n v)
little_endian-AreBytes zero v = tt
little_endian-AreBytes (suc n) v = (omega arith, little_endian-AreBytes n (v / 256))

toy-GivesBytes : GivesBytes toy (1 ∷ 2 ∷ []) (6 ∷ []) (2 ∷ 1 ∷ 2 ∷ [])
toy-GivesBytes = record {
  ciphertext_bytes = (omega arith, (omega arith, little_endian-AreBytes 16 11));
  nonce_bytes = little_endian-AreBytes 12 99;
  key_bytes = (omega arith, tt);
  signature_bytes = (omega arith, (omega arith, (omega arith, tt)));
}

no_sender :
    yapyap.Crypto.Cipher.check_sender toy
      (1 ∷ 2 ∷ [])
      (yapyap.Node.Payload.sender_key [] "a")
      (some (2 ∷ 1 ∷ 2 ∷ []))
    ≡ ok tt
unfolding get_node_key yapyap.Map.get
no_sender = refl

decrypt_payload_from-encrypt_payload_for_example :
    (p : EncryptedPayload) × (encrypt_payload_for toy
        (λ q. q)
        some
        (some (7 ∷ []))
        (1 ∷ 2 ∷ [])
        (6 ∷ [])
      ≡ ok p)
    × (decrypt_payload_from toy (λ q. q) some [] (some (6 ∷ [])) "a" (some p)
        ≡ ok (some (1 ∷ 2 ∷ [])))
decrypt_payload_from-encrypt_payload_for_example =
    decrypt_payload_from-encrypt_payload_for toy (λ q. q) some (1 ∷ 2 ∷ []) [] "a" (6 ∷ []) (6 ∷ [])
      (6 ∷ []) (6 ∷ []) (7 ∷ []) (2 ∷ 1 ∷ 2 ∷ []) (λ p. refl) toy-IsSound refl public_6 private_6
      toy-Agree refl no_sender toy-GivesBytes
