-- ===== src/Crypto.antt =====
-- src/crypto/index.ts. The primitives of node:crypto are a record, `none` standing for a throw; what
-- is random is a field of it that one call reads once. A key in DER is the list of its bytes.
pub mod Field
pub mod Inverse
pub mod Convert
pub mod Cipher
pub mod Exchange
pub mod Verified
pub mod Tests
use yapyap.Prelude.{ℕ, Option, none, some, Bool}
use yapyap.Framing.{Bytes}

pub data KeyType : Type 0 where
  x25519 ed25519 other_type : KeyType

pub data CryptoError : Type 0 where
  cannot_import not_x25519 cannot_parse no_key_material unsupported_key_type : CryptoError
  not_32_bytes y_is_one not_invertible short_key bad_nonce short_ciphertext : CryptoError
  decryption_failed signing_failed empty_signature verification_failed : CryptoError
  empty_password empty_salt no_ephemeral_key wrong_signature no_identity not_json out_of_fuel :
      CryptoError

pub data Checked (A : Type 0) : Type 0 where
  ok : A → Checked A
  err : CryptoError → Checked A

module _ {A B : Type 0} where
  infixl 10 ◌>>=◌
  abbrev pub ◌>>=◌ : Checked A → (A → Checked B) → Checked B
  ok a >>= f = f a
  err e >>= f = err e

abbrev pub or_throw : {A : Type 0} → CryptoError → Option A → Checked A
or_throw e none = err e
or_throw e (some a) = ok a

pub record EncryptionKeyPair : Type 0 where
  pub public_key : Bytes
  pub private_key : Bytes

pub record EncryptedMessage : Type 0 where
  pub ciphertext : Bytes
  pub nonce : Bytes
  pub ephemeral_public_key : Option Bytes
  pub signature : Option Bytes

pub record NodeCrypto (Text : Type 0) : Type 0 where
  -- generateKeyPairSync, exported, and randomBytes(12)
  pub new_ed25519 : EncryptionKeyPair
  pub new_x25519 : EncryptionKeyPair
  pub random_nonce : Bytes
  -- createPublicKey and createPrivateKey: the type of the key that the bytes are
  pub public_type : Bytes → Option KeyType
  pub private_type : Bytes → Option KeyType
  -- x and d of the key exported as JWK
  pub public_x : Bytes → Option Bytes
  pub private_d : Bytes → Option Bytes
  -- of the public and the private key
  pub diffie_hellman : Bytes → Bytes → Bytes
  pub sha256 : Bytes → Bytes
  pub sha512 : Bytes → Bytes
  -- AES-256-GCM under a key and a nonce: the ciphertext and the tag; and back, checking the tag
  pub seal : Bytes → Bytes → Bytes → Bytes × Bytes
  pub unseal : Bytes → Bytes → Bytes → Bytes → Option Bytes
  -- of a message and a private key; of a message, a signature and a public key
  pub sign : Bytes → Bytes → Option Bytes
  pub verify : Bytes → Bytes → Bytes → Option Bool
  -- of the password, the salt and the number of rounds
  pub pbkdf2 : Text → Bytes → ℕ → Bytes
  -- TextEncoder and TextDecoder
  pub encode_text : Text → Bytes
  pub decode_text : Bytes → Text

module _ {Text : Type 0} (node : NodeCrypto Text) where
  abbrev pub generate_identity_key_pair : EncryptionKeyPair
  generate_identity_key_pair = node.new_ed25519

  abbrev pub generate_ephemeral_key_pair : EncryptionKeyPair
  generate_ephemeral_key_pair = node.new_x25519

  abbrev pub exchange : Bytes → Bytes → KeyType → KeyType → Checked Bytes
  exchange public_key private_key x25519 x25519 = ok (node.diffie_hellman public_key private_key)
  exchange public_key private_key _ _ = err not_x25519

  -- deriveSharedSecret
  unfoldable pub derive_shared_secret : Bytes → Bytes → Checked Bytes
  derive_shared_secret public_key private_key = do
    imported_public ← or_throw cannot_import (node.public_type public_key)
    imported_private ← or_throw cannot_import (node.private_type private_key)
    exchange public_key private_key imported_public imported_private
