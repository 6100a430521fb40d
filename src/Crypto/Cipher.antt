-- ===== src/Crypto/Cipher.antt =====
-- Keys, AES-GCM, signatures and end-to-end messages of src/crypto/index.ts.
use yapyap.Prelude.{
  ℕ, ◌-◌, Option, none, some, Bool, true, false, [], ◌++◌, nat_eq, ltb, if◌then◌else◌, length, take,
  drop,
}
use yapyap.Framing.{Bytes}
use yapyap.Text.{hex_bytes, codes}
use yapyap.Crypto.{
  NodeCrypto, KeyType, x25519, ed25519, other_type, Checked, ok, err, or_throw, ◌>>=◌,
  EncryptedMessage, cannot_parse, no_key_material, unsupported_key_type, short_key, bad_nonce,
  short_ciphertext, decryption_failed, signing_failed, empty_signature, verification_failed,
  empty_password, empty_salt, no_ephemeral_key, wrong_signature, derive_shared_secret,
  generate_ephemeral_key_pair,
}
use yapyap.Crypto.Field.{convert_ed25519_public_to_x25519, convert_ed25519_private_to_x25519}

abbrev pub x25519_public_key_prefix : Bytes
x25519_public_key_prefix = hex_bytes (codes "302a300506032b656e032100")

abbrev pub x25519_private_key_prefix : Bytes
x25519_private_key_prefix = hex_bytes (codes "302e020100300506032b656e04220420")

abbrev pub with_prefix : Bytes → Checked Bytes → Checked Bytes
with_prefix prefix (err e) = err e
with_prefix prefix (ok raw) = ok (prefix ++ raw)

-- the material of the key, and its conversion; an empty text is no material
abbrev pub converted : Bytes → (Bytes → Checked Bytes) → Option Bytes → Checked Bytes
converted prefix convert none = err no_key_material
converted prefix convert (some raw) =
    if nat_eq (length raw) 0 then err no_key_material else with_prefix prefix (convert raw)

abbrev pub sealed : Bytes → Bytes × Bytes → EncryptedMessage
sealed nonce (encrypted, auth_tag) = record {
  ciphertext = encrypted ++ auth_tag;
  nonce = nonce;
  ephemeral_public_key = none;
  signature = none;
}

abbrev pub require_valid : Bool → Checked (Unit {0})
require_valid true = ok tt
require_valid false = err wrong_signature

module _ {Text : Type 0} (node : NodeCrypto Text) where
  abbrev pub public_of_type : Bytes → KeyType → Checked Bytes
  public_of_type key x25519 = ok key
  public_of_type key ed25519 =
      converted x25519_public_key_prefix convert_ed25519_public_to_x25519 (node.public_x key)
  public_of_type key other_type = err unsupported_key_type

  -- ensureX25519PublicKeyDer
  unfoldable pub ensure_x25519_public_key_der : Bytes → Checked Bytes
  ensure_x25519_public_key_der key = do
    key_type ← or_throw cannot_parse (node.public_type key)
    public_of_type key key_type

  abbrev pub private_of_type : Bytes → KeyType → Checked Bytes
  private_of_type key x25519 = ok key
  private_of_type key ed25519 =
      converted x25519_private_key_prefix (convert_ed25519_private_to_x25519 node)
        (node.private_d key)
  private_of_type key other_type = err unsupported_key_type

  -- ensureX25519PrivateKeyDer
  unfoldable pub ensure_x25519_private_key_der : Bytes → Checked Bytes
  ensure_x25519_private_key_der key = do
    key_type ← or_throw cannot_parse (node.private_type key)
    private_of_type key key_type

  unfoldable pub derive_symmetric_key : Bytes → Checked Bytes
  derive_symmetric_key key =
      if ltb (length key) 32
      then err short_key
      else if nat_eq (length key) 32
      then ok key
      else ok (take 32 (node.sha256 key))

  abbrev pub normalize_decrypt_nonce : Bytes → Checked Bytes
  normalize_decrypt_nonce nonce = if nat_eq (length nonce) 12 then ok nonce else err bad_nonce

  abbrev pub normalize_encrypt_nonce : Option Bytes → Checked Bytes
  normalize_encrypt_nonce none = ok node.random_nonce
  normalize_encrypt_nonce (some nonce) =
      if nat_eq (length nonce) 12 then ok nonce else err bad_nonce

  unfoldable pub encrypt_message : Bytes → Bytes → Option Bytes → Checked EncryptedMessage
  encrypt_message plaintext key nonce = do
    derived_key ← derive_symmetric_key key
    nonce_buffer ← normalize_encrypt_nonce nonce
    ok (sealed nonce_buffer (node.seal derived_key nonce_buffer plaintext))

  -- the last 16 bytes are the tag
  abbrev pub open_sealed : Bytes → Bytes → Bytes → Checked Bytes
  open_sealed ciphertext derived_key nonce =
      let encrypted = length ciphertext - 16 in
      if ltb (length ciphertext) 16
      then err short_ciphertext
      else or_throw decryption_failed
          (node.unseal derived_key nonce (take encrypted ciphertext) (drop encrypted ciphertext))

  unfoldable pub decrypt_message : Bytes → Bytes → Bytes → Checked Bytes
  decrypt_message ciphertext key nonce = do
    derived_key ← derive_symmetric_key key
    nonce_buffer ← normalize_decrypt_nonce nonce
    open_sealed ciphertext derived_key nonce_buffer

  unfoldable pub sign_message : Bytes → Bytes → Checked Bytes
  sign_message message private_key = or_throw signing_failed (node.sign message private_key)

  unfoldable pub verify_signature : Bytes → Bytes → Bytes → Checked Bool
  verify_signature message signature public_key =
      if nat_eq (length signature) 0
      then err empty_signature
      else or_throw verification_failed (node.verify message signature public_key)

  -- deriveKeyFromPassword, with the test whether the password is empty
  abbrev pub derive_key_from_password : Text → Bool → Bytes → ℕ → Checked Bytes
  derive_key_from_password password is_empty salt iterations =
      if is_empty
      then err empty_password
      else if nat_eq (length salt) 0
      then err empty_salt
      else ok (node.pbkdf2 password salt iterations)

  abbrev pub derive_message_key : Bytes → Bytes → Bytes
  derive_message_key message_bytes peer_identity = node.sha256 (message_bytes ++ peer_identity)

  -- encryptE2EMessage, without the text that the catch block puts before an error's
  unfoldable pub encrypt_e2e_message : Text → Bytes → Bytes → Checked EncryptedMessage
  encrypt_e2e_message plaintext recipient_public_key sender_private_key = do
    recipient_key ← ensure_x25519_public_key_der recipient_public_key
    ephemeral_key ← ensure_x25519_private_key_der (generate_ephemeral_key_pair node).private_key
    shared_secret ← derive_shared_secret node recipient_key ephemeral_key
    encrypted ←
        encrypt_message (node.encode_text plaintext) (take 32 (node.sha256 shared_secret)) none
    signature ← sign_message (node.encode_text plaintext) sender_private_key
    ok (record {
      ciphertext = encrypted.ciphertext;
      nonce = encrypted.nonce;
      ephemeral_public_key = some (generate_ephemeral_key_pair node).public_key;
      signature = some signature;
    })

  abbrev pub check_sender : Bytes → Option Bytes → Option Bytes → Checked (Unit {0})
  check_sender plaintext none signature = ok tt
  check_sender plaintext (some sender) none = ok tt
  check_sender plaintext (some sender) (some signature) = do
    is_valid ← verify_signature plaintext signature sender
    require_valid is_valid

  abbrev pub plaintext_of : Bytes → Bytes → Bytes → Checked Bytes
  plaintext_of ciphertext message_key nonce =
      if nat_eq (length ciphertext) 0 then ok [] else decrypt_message ciphertext message_key nonce

  -- decryptE2EMessage up to the signature
  unfoldable pub decrypt_e2e_bytes : EncryptedMessage → Bytes → Checked Bytes
  decrypt_e2e_bytes message recipient_private_key = do
    ephemeral ← or_throw no_ephemeral_key message.ephemeral_public_key
    ephemeral_key ← ensure_x25519_public_key_der ephemeral
    recipient_key ← ensure_x25519_private_key_der recipient_private_key
    shared_secret ← derive_shared_secret node ephemeral_key recipient_key
    plaintext_of message.ciphertext (take 32 (node.sha256 shared_secret)) message.nonce

  abbrev pub checked_text : EncryptedMessage → Option Bytes → Bytes → Checked Text
  checked_text message sender_public_key plaintext = do
    checked ← check_sender plaintext sender_public_key message.signature
    ok (node.decode_text plaintext)

  unfoldable pub decrypt_e2e_message : EncryptedMessage → Option Bytes → Bytes → Checked Text
  decrypt_e2e_message message sender_public_key recipient_private_key = do
    plaintext ← decrypt_e2e_bytes message recipient_private_key
    checked_text message sender_public_key plaintext
