-- ===== src/Node/Payload.antt =====
-- The encrypted payloads and the relay signatures of src/core/node.ts: bytes as hexadecimal texts.
use yapyap.Prelude.{
  ℕ, String, List, [], Option, none, some, Bool, false, if◌then◌else◌, ◌==◌, string_keys,
}
use yapyap.Framing.{Bytes}
use yapyap.Text.{codes, hex_bytes}
use yapyap.Database.Keys.{NodeKey, NodeKeyTable, get_node_key}
use yapyap.Crypto.{NodeCrypto, Checked, ok, err, ◌>>=◌, no_identity, not_json, EncryptedMessage}
use yapyap.Crypto.Cipher.{encrypt_e2e_message, decrypt_e2e_message, sign_message, verify_signature}
use yapyap.Handshake.Hex.{uint8_array_to_hex}

pub record EncryptedPayload : Type 0 where
  pub ciphertext_hex : List ℕ
  pub nonce_hex : List ℕ
  pub ephemeral_hex : List ℕ
  pub signature_hex : List ℕ

-- toHex
abbrev pub to_hex : Option Bytes → List ℕ
to_hex none = []
to_hex (some value) = uint8_array_to_hex value

abbrev pub payload_in_hex : EncryptedMessage → EncryptedPayload
payload_in_hex m = record {
  ciphertext_hex = uint8_array_to_hex m.ciphertext;
  nonce_hex = uint8_array_to_hex m.nonce;
  ephemeral_hex = to_hex m.ephemeral_public_key;
  signature_hex = to_hex m.signature;
}

abbrev pub payload_from_hex : EncryptedPayload → EncryptedMessage
payload_from_hex p = record {
  ciphertext = hex_bytes p.ciphertext_hex;
  nonce = hex_bytes p.nonce_hex;
  ephemeral_public_key = some (hex_bytes p.ephemeral_hex);
  signature = some (hex_bytes p.signature_hex);
}

-- the public key of the sender's row of node_keys, unless it is empty
abbrev pub row_key : Option NodeKey → Option Bytes
row_key none = none
row_key (some row) = if row.public_key == "" then none else some (hex_bytes (codes row.public_key))

abbrev pub sender_key : NodeKeyTable → String → Option Bytes
sender_key table from_ = row_key (get_node_key table from_)

abbrev pub or_not_json : {P : Type 0} → Option P → Checked (Option P)
or_not_json none = err not_json
or_not_json (some payload) = ok (some payload)

-- `stringify` and `parse` are JSON.stringify and JSON.parse.
module _ {Text P : Type 0} (node : NodeCrypto Text) (stringify : P → Text)
    (parse : Text → Option P) where
  -- encryptMessage, with the private key of the node's identity
  unfoldable pub encrypt_payload_for : Option Bytes → P → Bytes → Checked EncryptedPayload
  encrypt_payload_for none payload recipient = err no_identity
  encrypt_payload_for (some private_key) payload recipient = do
    encrypted ← encrypt_e2e_message node (stringify payload) recipient private_key
    ok (payload_in_hex encrypted)

  abbrev pub parsed : Text → Checked (Option P)
  parsed text = or_not_json (parse text)

  -- decryptMessage: a payload that is not encrypted is `none`
  unfoldable pub decrypt_payload_from :
      NodeKeyTable → Option Bytes → String → Option EncryptedPayload → Checked (Option P)
  decrypt_payload_from table private_key from_ none = ok none
  decrypt_payload_from table none from_ (some payload) = ok none
  decrypt_payload_from table (some private_key) from_ (some payload) = do
    text ← decrypt_e2e_message node (payload_from_hex payload) (sender_key table from_) private_key
    parsed text

module _ {Text P : Type 0} (node : NodeCrypto Text) (payload_bytes : P → Bytes) where
  -- signRelayEnvelope, with the keys of the node's identity: the signature and the public key
  unfoldable pub sign_relay_envelope : Bytes → Bytes → P → Checked (List ℕ × List ℕ)
  sign_relay_envelope private_key public_key payload = do
    signature ← sign_message node (payload_bytes payload) private_key
    ok (uint8_array_to_hex signature, uint8_array_to_hex public_key)

  abbrev pub or_false : Checked Bool → Bool
  or_false (ok b) = b
  or_false (err e) = false

  unfoldable pub verify_relay_envelope : P → List ℕ → List ℕ → Bool
  verify_relay_envelope payload signature_text key_text = or_false (
      verify_signature node (payload_bytes payload) (hex_bytes signature_text) (hex_bytes key_text))
