-- ===== src/Node/Decrypted.antt =====
-- What a node encrypts, another node decrypts: src/core/node.ts over src/crypto/index.ts.
use yapyap.Prelude.{◌≡◌, refl, ap, ◌∙◌, String, Option, some, string_keys}
use yapyap.Framing.{Bytes}
use yapyap.Framing.Header.{AreBytes}
use yapyap.Database.Keys.{NodeKeyTable}
use yapyap.Crypto.{NodeCrypto, ok, ◌>>=◌}
use yapyap.Crypto.Cipher.{
  decrypt_e2e_message, ensure_x25519_public_key_der, ensure_x25519_private_key_der, check_sender,
}
use yapyap.Crypto.Exchange.{
  IsSound, Agree, made_message, encrypt_e2e_message-made_message, decrypt_e2e_message-made_message,
}
use yapyap.Handshake.Hex.{hex_bytes-uint8_array_to_hex}
use yapyap.Node.Payload.{
  EncryptedPayload, payload_in_hex, payload_from_hex, sender_key, encrypt_payload_for, or_not_json,
  parsed, decrypt_payload_from,
}

-- All that goes into a message is bytes.
pub record GivesBytes {Text : Type 0} (node : NodeCrypto Text) (text : Text)
    (x_public signature : Bytes) : Type 0 where
  pub ciphertext_bytes : AreBytes (made_message node text x_public signature).ciphertext
  pub nonce_bytes : AreBytes node.random_nonce
  pub key_bytes : AreBytes node.new_x25519.public_key
  pub signature_bytes : AreBytes signature

-- The message comes back from its hexadecimal texts.
payload_from_hex-payload_in_hex :
    {Text : Type 0} (node : NodeCrypto Text) (text : Text) (x_public signature : Bytes)
    → GivesBytes node text x_public signature
    → payload_from_hex (payload_in_hex (made_message node text x_public signature))
      ≡ made_message node text x_public signature
payload_from_hex-payload_in_hex node text x_public signature b =
    rw
      (
        hex_bytes-uint8_array_to_hex (made_message node text x_public signature).ciphertext
            b.ciphertext_bytes,
        hex_bytes-uint8_array_to_hex node.random_nonce b.nonce_bytes,
        hex_bytes-uint8_array_to_hex node.new_x25519.public_key b.key_bytes,
        hex_bytes-uint8_array_to_hex signature b.signature_bytes,
      )
      refl

-- A payload that encryptMessage of one node makes a message of, decryptMessage of the recipient gives back: both return, and the
-- payload is the same. For this JSON text is read back, TextDecoder gives the payload's JSON text back from the bytes that
-- TextEncoder made of it, the recipient's keys are converted to keys for X25519 that agree with the pair that is made for the
-- message, the signature verifies if the recipient has a key of the sender, all is bytes, and node:crypto does what it documents.
pub decrypt_payload_from-encrypt_payload_for :
    {Text P : Type 0} (node : NodeCrypto Text) (stringify : P → Text) (parse : Text → Option P)
    (payload : P) (table : NodeKeyTable) (from_ : String)
    (recipient_public recipient_private x_public x_private sender_private signature : Bytes)
    → ((p : P) → parse (stringify p) ≡ some p)
    → IsSound node
    → node.decode_text (node.encode_text (stringify payload)) ≡ stringify payload
    → ensure_x25519_public_key_der node recipient_public ≡ ok x_public
    → ensure_x25519_private_key_der node recipient_private ≡ ok x_private
    → Agree node node.new_x25519.public_key node.new_x25519.private_key x_public x_private
    → node.sign (node.encode_text (stringify payload)) sender_private ≡ some signature
    → check_sender node
        (node.encode_text (stringify payload))
        (sender_key table from_)
        (some signature)
      ≡ ok tt
    → GivesBytes node (stringify payload) x_public signature
    → (p : EncryptedPayload) × (encrypt_payload_for node stringify parse
          (some sender_private)
          payload
          recipient_public
        ≡ ok p)
      × (decrypt_payload_from node stringify parse table (some recipient_private) from_ (some p)
          ≡ ok (some payload))
unfolding encrypt_payload_for decrypt_payload_from
decrypt_payload_from-encrypt_payload_for node stringify parse payload table from_ recipient_public
      recipient_private x_public x_private sender_private signature codec sound back pub_ok priv_ok
      agree signs checked bytes =
    let text = stringify payload in
    (
      payload_in_hex (made_message node text x_public signature),
      rw
          (encrypt_e2e_message-made_message node text x_public x_private signature sound agree
            recipient_public sender_private pub_ok signs)
          refl,
      ap
            (λ m.
              decrypt_e2e_message node m (sender_key table from_) recipient_private
              >>= parsed node stringify parse)
            (payload_from_hex-payload_in_hex node text x_public signature bytes)
          ∙ ap (λ r. r >>= parsed node stringify parse)
              (decrypt_e2e_message-made_message node text x_public x_private signature sound agree
                recipient_private (sender_key table from_) priv_ok checked back)
          ∙ ap or_not_json (codec payload),
    )
