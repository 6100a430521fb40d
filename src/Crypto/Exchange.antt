-- ===== src/Crypto/Exchange.antt =====
-- End-to-end messages of src/crypto/index.ts: what one side writes, the other side reads.
use yapyap.Prelude.{
  ◌-◌, ◌≡◌, ◌≢◌, refl, ap, ◌∙◌, sym, Option, none, some, true, false, [], ◌∷◌, ◌++◌, nat_eq, ltb,
  length, take, arith, length-append, take-length-append, drop-length-append, length-take, subst,
}
use yapyap.Framing.{Bytes}
use yapyap.Crypto.{
  NodeCrypto, x25519, Checked, CryptoError, ok, err, or_throw, ◌>>=◌, EncryptedMessage,
  derive_shared_secret,
}
use yapyap.Crypto.Cipher.{
  check_sender, decrypt_e2e_bytes, sealed, normalize_decrypt_nonce, normalize_encrypt_nonce,
  ensure_x25519_public_key_der, ensure_x25519_private_key_der, derive_symmetric_key,
  encrypt_message, decrypt_message, open_sealed, sign_message, verify_signature,
  encrypt_e2e_message, decrypt_e2e_message, plaintext_of,
}

-- What node:crypto documents of its primitives, for the keys of a message.
pub record IsSound {Text : Type 0} (node : NodeCrypto Text) : Type 0 where
  pub sha256_length : (b : Bytes) → length (node.sha256 b) ≡ 32
  pub nonce_length : length node.random_nonce ≡ 12
  pub tag_length : (key nonce p : Bytes) → length (node.seal key nonce p).1 ≡ 16
  pub unseal-seal :
      (key nonce p : Bytes)
      → node.unseal key nonce (node.seal key nonce p).0 (node.seal key nonce p).1 ≡ some p
  pub sign_length : (m key : Bytes) → node.sign m key ≢ some []

-- Two key pairs for X25519 agree on a secret, and both can be imported.
pub record Agree {Text : Type 0} (node : NodeCrypto Text)
    (a_public a_private b_public b_private : Bytes) : Type 0 where
  pub same_secret : node.diffie_hellman b_public a_private ≡ node.diffie_hellman a_public b_private
  pub a_public_type : node.public_type a_public ≡ some x25519
  pub a_private_type : node.private_type a_private ≡ some x25519
  pub b_public_type : node.public_type b_public ≡ some x25519
  pub b_private_type : node.private_type b_private ≡ some x25519

module _ {Text : Type 0} (node : NodeCrypto Text) where
  derive_symmetric_key_32 : (key : Bytes) → length key ≡ 32 → derive_symmetric_key node key ≡ ok key
  unfolding derive_symmetric_key
  derive_symmetric_key_32 key h = ground (arith, h)

  open_sealed-append :
      (encrypted tag key nonce : Bytes)
      → length tag ≡ 16
      → open_sealed node (encrypted ++ tag) key nonce
        ≡ or_throw CryptoError.decryption_failed (node.unseal key nonce encrypted tag)
  open_sealed-append encrypted tag key nonce h =
      let cut : length (encrypted ++ tag) - 16 ≡ length encrypted =
        omega (arith, length-append encrypted tag, h) in
      let enough : ltb (length (encrypted ++ tag)) 16 ≡ false =
        ground (arith, length-append encrypted tag, h) in
      rw (enough, cut, take-length-append encrypted tag, drop-length-append encrypted tag) refl

  decrypt_message-sealed :
      IsSound node
      → (plaintext key derived nonce : Bytes) → derive_symmetric_key node key ≡ ok derived
      → length nonce ≡ 12
      → decrypt_message node (sealed nonce (node.seal derived nonce plaintext)).ciphertext key nonce
        ≡ ok plaintext
  unfolding decrypt_message
  decrypt_message-sealed sound plaintext key derived nonce k n =
      let s = node.seal derived nonce plaintext in
      let fits : normalize_decrypt_nonce node nonce ≡ ok nonce = ground (arith, n) in
      rw (k, fits)
        (open_sealed-append s.0 s.1 derived nonce (sound.tag_length derived nonce plaintext)
          ∙ ap (or_throw CryptoError.decryption_failed) (sound.unseal-seal derived nonce plaintext))

  ensure_public_x25519 :
      (key : Bytes)
      → node.public_type key ≡ some x25519
      → ensure_x25519_public_key_der node key ≡ ok key
  unfolding ensure_x25519_public_key_der
  ensure_public_x25519 key h = rw h refl

  ensure_private_x25519 :
      (key : Bytes)
      → node.private_type key ≡ some x25519
      → ensure_x25519_private_key_der node key ≡ ok key
  unfolding ensure_x25519_private_key_der
  ensure_private_x25519 key h = rw h refl

  pub derive_shared_secret_x25519 :
      (public_key private_key : Bytes)
      → node.public_type public_key ≡ some x25519
      → node.private_type private_key ≡ some x25519
      → derive_shared_secret node public_key private_key
        ≡ ok (node.diffie_hellman public_key private_key)
  unfolding derive_shared_secret
  derive_shared_secret_x25519 public_key private_key h k = rw (h, k) refl

  plaintext_of-sealed :
      IsSound node
      → (plaintext key nonce : Bytes) → length key ≡ 32
      → length nonce ≡ 12
      → plaintext_of node (sealed nonce (node.seal key nonce plaintext)).ciphertext key nonce
        ≡ ok plaintext
  plaintext_of-sealed sound plaintext key nonce k n =
      let s = node.seal key nonce plaintext in
      let not_empty : nat_eq (length (s.0 ++ s.1)) 0 ≡ false =
        ground (arith, length-append s.0 s.1, sound.tag_length key nonce plaintext) in
      rw not_empty
        (decrypt_message-sealed sound plaintext key key nonce (derive_symmetric_key_32 key k) n)

normalize_encrypt_nonce-length :
    {Text : Type 0} (node : NodeCrypto Text)
    → IsSound node
    → (given : Option Bytes) (nonce : Bytes) → normalize_encrypt_nonce node given ≡ ok nonce
    → length nonce ≡ 12
normalize_encrypt_nonce-length node sound none nonce h =
    let same : node.random_nonce ≡ nonce = cc in ap length (sym same) ∙ sound.nonce_length
normalize_encrypt_nonce-length node sound (some given) nonce h = ground (arith, h)

sealed_back :
    {Text : Type 0} (node : NodeCrypto Text)
    → IsSound node
    → (plaintext key : Bytes) (given : Option Bytes) (m : EncryptedMessage) (k n : Checked Bytes)
    → derive_symmetric_key node key ≡ k
    → normalize_encrypt_nonce node given ≡ n
    → (k >>= λ derived. n >>= λ nonce. ok (sealed nonce (node.seal derived nonce plaintext))) ≡ ok m
    → decrypt_message node m.ciphertext key m.nonce ≡ ok plaintext
sealed_back node sound plaintext key given m (err _) n hk hn e = cc
sealed_back node sound plaintext key given m (ok _) (err _) hk hn e = cc
sealed_back node sound plaintext key given m (ok derived) (ok nonce) hk hn e =
    let same : sealed nonce (node.seal derived nonce plaintext) ≡ m = cc in
    subst (λ c. decrypt_message node c.ciphertext key c.nonce ≡ ok plaintext) same
      (decrypt_message-sealed node sound plaintext key derived nonce hk
        (normalize_encrypt_nonce-length node sound given nonce hn))

-- What encryptMessage returns for a key and a nonce, or for none, decryptMessage decrypts to the plaintext
-- under the same key, if node:crypto does what it documents.
pub decrypt_message-encrypt_message :
    {Text : Type 0} (node : NodeCrypto Text)
    → IsSound node
    → (plaintext key : Bytes) (given : Option Bytes) (m : EncryptedMessage)
    → encrypt_message node plaintext key given ≡ ok m
    → decrypt_message node m.ciphertext key m.nonce ≡ ok plaintext
unfolding encrypt_message
decrypt_message-encrypt_message node sound plaintext key given m e =
    sealed_back node sound plaintext key given m _ _ refl refl e

signature_not_empty :
    {Text : Type 0} (node : NodeCrypto Text)
    → IsSound node
    → (m key s : Bytes) → node.sign m key ≡ some s
    → nat_eq (length s) 0 ≡ false
signature_not_empty node sound m key [] e = absurd (sound.sign_length m key e)
signature_not_empty node sound m key (b ∷ s) e = ground arith

-- The secret of a message as a key, and the message that is made with it.
abbrev pub message_key : {Text : Type 0} → NodeCrypto Text → Bytes → Bytes
message_key node x_public =
    take 32 (node.sha256 (node.diffie_hellman x_public node.new_x25519.private_key))

abbrev pub made_message :
    {Text : Type 0} → NodeCrypto Text → Text → Bytes → Bytes → EncryptedMessage
made_message node text x_public signature = record {
  ciphertext =
      (sealed node.random_nonce (
        node.seal (message_key node x_public) node.random_nonce
          (node.encode_text text))).ciphertext;
  nonce = node.random_nonce;
  ephemeral_public_key = some node.new_x25519.public_key;
  signature = some signature;
}

module _ {Text : Type 0} (node : NodeCrypto Text) (text : Text)
    (x_public x_private signature : Bytes) (sound : IsSound node)
    (agree : Agree node node.new_x25519.public_key node.new_x25519.private_key x_public
      x_private) where
  message_key_32 : length (message_key node x_public) ≡ 32
  message_key_32 = omega (
    arith,
    length-take 32 (node.sha256 (node.diffie_hellman x_public node.new_x25519.private_key)),
    sound.sha256_length (node.diffie_hellman x_public node.new_x25519.private_key),
  )

  pub encrypt_e2e_message-made_message :
      (recipient_public sender_private : Bytes)
      → ensure_x25519_public_key_der node recipient_public ≡ ok x_public
      → node.sign (node.encode_text text) sender_private ≡ some signature
      → encrypt_e2e_message node text recipient_public sender_private
        ≡ ok (made_message node text x_public signature)
  unfolding encrypt_e2e_message encrypt_message sign_message
  encrypt_e2e_message-made_message recipient_public sender_private pub_ok signs =
      rw
        (
          pub_ok,
          ensure_private_x25519 node node.new_x25519.private_key agree.a_private_type,
          derive_shared_secret_x25519 node x_public node.new_x25519.private_key agree.b_public_type
              agree.a_private_type,
          derive_symmetric_key_32 node (message_key node x_public) message_key_32,
          signs,
        )
        refl

  pub decrypt_e2e_message-made_message :
      (recipient_private : Bytes) (sender : Option Bytes)
      → ensure_x25519_private_key_der node recipient_private ≡ ok x_private
      → check_sender node (node.encode_text text) sender (some signature) ≡ ok tt
      → node.decode_text (node.encode_text text) ≡ text
      → decrypt_e2e_message node
          (made_message node text x_public signature)
          sender
          recipient_private
        ≡ ok text
  unfolding decrypt_e2e_message decrypt_e2e_bytes
  decrypt_e2e_message-made_message recipient_private sender priv_ok checked back =
      rw
        (
          ensure_public_x25519 node node.new_x25519.public_key agree.a_public_type,
          priv_ok,
          derive_shared_secret_x25519 node node.new_x25519.public_key x_private agree.a_public_type
              agree.b_private_type,
          sym agree.same_secret,
          plaintext_of-sealed node sound (node.encode_text text) (message_key node x_public)
              node.random_nonce message_key_32 sound.nonce_length,
          checked,
        )
        (ap ok back)

check_sender-valid :
    {Text : Type 0} (node : NodeCrypto Text) (plaintext sender signature : Bytes)
    → nat_eq (length signature) 0 ≡ false
    → node.verify plaintext signature sender ≡ some true
    → check_sender node plaintext (some sender) (some signature) ≡ ok tt
unfolding verify_signature
check_sender-valid node plaintext sender signature more verifies = rw (more, verifies) refl

-- A message that encryptE2EMessage makes for a recipient, decryptE2EMessage gives back: both return, and
-- the text is the one that was sent. For this TextDecoder gives this text back from the bytes that TextEncoder made
-- of it, the recipient's keys are converted to two keys for X25519 that agree with the pair that is made for the
-- message, the signature is one that verifies, and node:crypto does what it documents.
pub decrypt_e2e_message-encrypt_e2e_message :
    {Text : Type 0} (node : NodeCrypto Text) (text : Text)
    (recipient_public recipient_private x_public x_private sender_public sender_private
      signature : Bytes)
    → IsSound node
    → node.decode_text (node.encode_text text) ≡ text
    → ensure_x25519_public_key_der node recipient_public ≡ ok x_public
    → ensure_x25519_private_key_der node recipient_private ≡ ok x_private
    → Agree node node.new_x25519.public_key node.new_x25519.private_key x_public x_private
    → node.sign (node.encode_text text) sender_private ≡ some signature
    → node.verify (node.encode_text text) signature sender_public ≡ some true
    → (m : EncryptedMessage) × (encrypt_e2e_message node text recipient_public sender_private
        ≡ ok m)
      × (decrypt_e2e_message node m (some sender_public) recipient_private ≡ ok text)
decrypt_e2e_message-encrypt_e2e_message node text recipient_public recipient_private x_public
      x_private sender_public sender_private signature sound back pub_ok priv_ok agree signs
      verifies =
    (
      made_message node text x_public signature,
      encrypt_e2e_message-made_message node text x_public x_private signature sound agree
          recipient_public sender_private pub_ok signs,
      decrypt_e2e_message-made_message node text x_public x_private signature sound agree
          recipient_private (some sender_public) priv_ok
          (check_sender-valid node (node.encode_text text) sender_public signature
            (signature_not_empty node sound (node.encode_text text) sender_private signature signs)
            verifies)
          back,
    )
