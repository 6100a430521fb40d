-- ===== src/Crypto/Verified.antt =====
-- What the signature of an end-to-end message of src/crypto/index.ts is worth.
use yapyap.Prelude.{◌≡◌, ◌≢◌, refl, Option, none, some, Bool, true, false, length, arith}
use yapyap.Framing.{Bytes}
use yapyap.Crypto.{NodeCrypto, Checked, CryptoError, ok, err, or_throw, ◌>>=◌, EncryptedMessage}
use yapyap.Crypto.Cipher.{
  checked_text, decrypt_e2e_bytes, require_valid, verify_signature, decrypt_e2e_message,
}

pub bind_ok :
    {A B : Type 0} (m : Checked A) (f : A → Checked B) (b : B)
    → (m >>= f) ≡ ok b
    → (a : A) × (m ≡ ok a) × (f a ≡ ok b)
bind_ok (ok a) f b e = (a, refl, e)
bind_ok (err _) f b e = cc

or_throw_ok :
    {A : Type 0} (e : CryptoError) (o : Option A) (a : A) → or_throw e o ≡ ok a → o ≡ some a
or_throw_ok e none a h = cc
or_throw_ok e (some _) a h = cc

require_valid_ok : (b : Bool) (u : Unit {0}) → require_valid b ≡ ok u → b ≡ true
require_valid_ok true u h = refl
require_valid_ok false u h = cc

checked_text_ok :
    {Text : Type 0} (node : NodeCrypto Text) (m : EncryptedMessage) (sender plaintext : Bytes)
    (signature : Bytes) (text : Text)
    → m.signature ≡ some signature
    → checked_text node m (some sender) plaintext ≡ ok text
    → (text ≡ node.decode_text plaintext)
      × (length signature ≢ 0)
      × (node.verify plaintext signature sender ≡ some true)
unfolding verify_signature
checked_text_ok node m sender plaintext signature text signed e = ground (arith, signed, e)

-- With a sender's key and a signature, decryptE2EMessage returns a text only if the signature is not empty and
-- verifies for the very bytes of which the text is decoded.
pub decrypt_e2e_message-verified :
    {Text : Type 0} (node : NodeCrypto Text) (m : EncryptedMessage)
    (sender recipient_private signature : Bytes) (text : Text)
    → m.signature ≡ some signature
    → decrypt_e2e_message node m (some sender) recipient_private ≡ ok text
    → (plaintext : Bytes) × (text ≡ node.decode_text plaintext)
      × (length signature ≢ 0)
      × (node.verify plaintext signature sender ≡ some true)
unfolding decrypt_e2e_message
decrypt_e2e_message-verified node m sender recipient_private signature text signed e =
    let (plaintext, opened, checked) =
      bind_ok (decrypt_e2e_bytes node m recipient_private) (checked_text node m (some sender)) text
        e in
    let (same, more, verified) =
      checked_text_ok node m sender plaintext signature text signed checked in
    (plaintext, same, more, verified)
