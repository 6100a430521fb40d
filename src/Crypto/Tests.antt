-- ===== src/Crypto/Tests.antt =====
-- Runs of the code of src/crypto/index.ts.
use yapyap.Prelude.{ℕ, ◌+◌, ◌≡◌, ◌≢◌, refl, some, none, true, [], ◌∷◌, nat_eq, length, ◌⊎◌}
use yapyap.Prelude.Int.{pos}
use yapyap.Framing.{Bytes}
use yapyap.Crypto.{NodeCrypto, ok, err, not_invertible, x25519, EncryptedMessage}
use yapyap.Crypto.Field.{
  mod_inverse, positive_mod, little_endian, decode_edwards_y, to_little_endian,
  convert_ed25519_public_to_x25519,
}
use yapyap.Crypto.Convert.{IsConverted, IsRefused, convert_ed25519_public_to_x25519_lem}
use yapyap.Crypto.Cipher.{
  encrypt_message, decrypt_message, encrypt_e2e_message, decrypt_e2e_message,
}
use yapyap.Crypto.Exchange.{IsSound, Agree, decrypt_e2e_message-encrypt_e2e_message}
use yapyap.Crypto.Verified.{decrypt_e2e_message-verified}

inverse_of_3 : mod_inverse (pos 3) 7 ≡ ok 5
unfolding mod_inverse yapyap.Crypto.Field.mod_inverse_loop yapyap.Crypto.Field.positive_mod
inverse_of_3 = refl

inverse_of_4 : mod_inverse (pos 4) 6 ≡ err not_invertible
unfolding mod_inverse yapyap.Crypto.Field.mod_inverse_loop yapyap.Crypto.Field.positive_mod
inverse_of_4 = refl

-- The base point: y = 4/5, and u = 9.
abbrev base_point : Bytes
base_point =
    88
    ∷ little_endian 31 180925139433306555349329664076074856020734351040063381311652475012364265062

base_point_converted : convert_ed25519_public_to_x25519 base_point ≡ ok (little_endian 32 9)
unfolding convert_ed25519_public_to_x25519 yapyap.Crypto.Field.montgomery_of mod_inverse
    yapyap.Crypto.Field.mod_inverse_loop positive_mod to_little_endian decode_edwards_y
base_point_converted = refl

convert_ed25519_public_to_x25519_lem_example :
    IsConverted base_point (convert_ed25519_public_to_x25519 base_point)
    ⊎ IsRefused base_point (convert_ed25519_public_to_x25519 base_point)
convert_ed25519_public_to_x25519_lem_example = convert_ed25519_public_to_x25519_lem base_point refl

abbrev first : Bytes → ℕ
first [] = 0
first (b ∷ bs) = b

-- A toy in place of node:crypto, in which a text is its bytes.
abbrev toy : NodeCrypto Bytes
toy = record {
  new_ed25519 = record { public_key = 7 ∷ []; private_key = 7 ∷ [] };
  new_x25519 = record { public_key = 5 ∷ []; private_key = 5 ∷ [] };
  random_nonce = little_endian 12 99;
  public_type = λ key. some x25519;
  private_type = λ key. some x25519;
  public_x = λ key. none;
  private_d = λ key. none;
  diffie_hellman = λ p q. (first p + first q) ∷ [];
  sha256 = λ b. little_endian 32 (first b);
  sha512 = λ b. little_endian 64 (first b);
  seal = λ key nonce p. (p, little_endian 16 (first key));
  unseal = λ key nonce c tag. some c;
  sign = λ m key. some (length m ∷ m);
  verify = λ m s key. some (nat_eq (first s) (length m));
  pbkdf2 = λ password salt iterations. little_endian 32 iterations;
  encode_text = λ t. t;
  decode_text = λ b. b;
}

toy-IsSound : IsSound toy
toy-IsSound = record {
  sha256_length = λ b. refl;
  nonce_length = refl;
  tag_length = λ key nonce p. refl;
  unseal-seal = λ key nonce p. refl;
  sign_length = λ m key e. cc;
}

abbrev key_33 : Bytes
key_33 = little_endian 33 1000

abbrev sealed_3 : EncryptedMessage
sealed_3 = record {
  ciphertext = 1 ∷ 2 ∷ 3 ∷ little_endian 16 232;
  nonce = little_endian 12 99;
  ephemeral_public_key = none;
  signature = none;
}

encrypt_3 : encrypt_message toy (1 ∷ 2 ∷ 3 ∷ []) key_33 none ≡ ok sealed_3
unfolding encrypt_message yapyap.Crypto.Cipher.derive_symmetric_key
encrypt_3 = refl

agree : Agree toy (5 ∷ []) (5 ∷ []) (6 ∷ []) (6 ∷ [])
agree = record {
  same_secret = refl;
  a_public_type = refl;
  a_private_type = refl;
  b_public_type = refl;
  b_private_type = refl;
}

public_6 : yapyap.Crypto.Cipher.ensure_x25519_public_key_der toy (6 ∷ []) ≡ ok (6 ∷ [])
unfolding yapyap.Crypto.Cipher.ensure_x25519_public_key_der
public_6 = refl

private_6 : yapyap.Crypto.Cipher.ensure_x25519_private_key_der toy (6 ∷ []) ≡ ok (6 ∷ [])
unfolding yapyap.Crypto.Cipher.ensure_x25519_private_key_der
private_6 = refl

decrypt_e2e_message-encrypt_e2e_message_example :
    (m : EncryptedMessage) × (encrypt_e2e_message toy (1 ∷ 2 ∷ []) (6 ∷ []) (7 ∷ []) ≡ ok m)
    × (decrypt_e2e_message toy m (some (7 ∷ [])) (6 ∷ []) ≡ ok (1 ∷ 2 ∷ []))
decrypt_e2e_message-encrypt_e2e_message_example =
    decrypt_e2e_message-encrypt_e2e_message toy (1 ∷ 2 ∷ []) (6 ∷ []) (6 ∷ []) (6 ∷ []) (6 ∷ [])
      (7 ∷ []) (7 ∷ []) (2 ∷ 1 ∷ 2 ∷ []) toy-IsSound refl public_6 private_6 agree refl refl

abbrev received : EncryptedMessage
received = record {
  ciphertext = 1 ∷ 2 ∷ little_endian 16 11;
  nonce = little_endian 12 99;
  ephemeral_public_key = some (5 ∷ []);
  signature = some (2 ∷ 1 ∷ 2 ∷ []);
}

decrypt_received : decrypt_e2e_message toy received (some (7 ∷ [])) (6 ∷ []) ≡ ok (1 ∷ 2 ∷ [])
unfolding decrypt_e2e_message yapyap.Crypto.Cipher.decrypt_e2e_bytes
    yapyap.Crypto.Cipher.ensure_x25519_public_key_der
    yapyap.Crypto.Cipher.ensure_x25519_private_key_der yapyap.Crypto.derive_shared_secret
    decrypt_message yapyap.Crypto.Cipher.derive_symmetric_key yapyap.Crypto.Cipher.verify_signature
decrypt_received = refl

abbrev signature_2 : Bytes
signature_2 = 2 ∷ 1 ∷ 2 ∷ []

decrypt_e2e_message-verified_example :
    (plaintext : Bytes) × ((1 ∷ 2 ∷ []) ≡ toy.decode_text plaintext)
    × (length signature_2 ≢ 0)
    × (toy.verify plaintext signature_2 (7 ∷ []) ≡ some true)
decrypt_e2e_message-verified_example =
    decrypt_e2e_message-verified toy received (7 ∷ []) (6 ∷ []) signature_2 (1 ∷ 2 ∷ []) refl
      decrypt_received

-- A message without ciphertext is the empty text, whatever the key and with no signature.
abbrev empty_message : EncryptedMessage
empty_message = record received { ciphertext = []; signature = none }

empty_text : decrypt_e2e_message toy empty_message (some (7 ∷ [])) (8 ∷ []) ≡ ok []
unfolding decrypt_e2e_message yapyap.Crypto.Cipher.decrypt_e2e_bytes
    yapyap.Crypto.Cipher.ensure_x25519_public_key_der
    yapyap.Crypto.Cipher.ensure_x25519_private_key_der yapyap.Crypto.derive_shared_secret
empty_text = refl
