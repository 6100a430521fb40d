-- ===== src/Router/Acks.antt =====
-- validateAck, handleAck and handleNak of src/message/message-router.ts.
pub mod Nak
pub mod Authority
use yapyap.Prelude.{
  ◌+◌, String, List, [], ◌∷◌, Option, none, some, Bool, true, false, ◌||◌, ◌&&◌, not, if◌then◌else◌,
  is_some, or_else, ◌==◌, string_keys, any,
}
use yapyap.Map.{delete}
use yapyap.Message.{Message, Header, AckEnvelope, RelayInfo}
use yapyap.Database.{Db, PendingRow, ReplicaRow}
use yapyap.Database.Pending.{
  get_pending_message, mark_pending_message_delivered, increment_attempts, schedule_retry,
}
use yapyap.Database.Replicas.{
  get_message_replicas, get_replica_ack_status, mark_replica_ack_received,
  mark_replicated_message_delivered,
}
use yapyap.Router.{
  Env, Exec, gets, skip, on_db, emit, change, ◌>>=◌, ◌>>◌, ack_received, message_delivered,
  nak_received,
}
use yapyap.Router.Limits.{calculate_backoff_delay}
use yapyap.Router.Ordering.{is_timestamp_valid}

pub data AckVerdict : Type 0 where
  valid : AckVerdict
  invalid_timestamp unknown_message missing_relay_signature unexpected_ack_source : AckVerdict
  no_verify_function original_message_not_found invalid_relay_signature : AckVerdict
  unauthorized_ack_source : AckVerdict

-- pendingEntry?.target_peer_id ?? replicatedEntry[0]?.message_id
ack_target : Option PendingRow → List ((String × String) × ReplicaRow) → Option String
ack_target (some entry) replicas = some entry.target_peer_id
ack_target none [] = none
ack_target none (r ∷ replicas) = some r.0.0

no_rows : List ((String × String) × ReplicaRow) → Bool
no_rows [] = true
no_rows (r ∷ replicas) = false

is_target : String → Option String → Bool
is_target from none = false
is_target from (some target) = from == target

-- the payload whose signature is checked
ack_payload : Env → AckEnvelope → Message → RelayInfo
ack_payload env envelope original = record {
  target_peer_id = envelope.original_target_peer_id;
  recovery_reason = none;
  last_transport_error = none;
  integrity_hash = some (env.hash original);
  signature = none;
  signer_public_key = none;
}

-- the part of validateAck behind `if (ack.relayEnvelope)`
validate_relay_ack : Env → Db → Header → AckEnvelope → AckVerdict
unfolding ack_payload
validate_relay_ack env db ack envelope =
    if (envelope.signature == "") || (envelope.signer_public_key == "")
    then missing_relay_signature
    else if not (any (λ r. r.0.1 == ack.from) (get_replica_ack_status ack.original_message_id db))
    then unexpected_ack_source
    else elim env.verify_relay [
      | none ↦ no_verify_function
      | some verify ↦ elim (get_pending_message db ack.original_message_id) [
        | none ↦ original_message_not_found
        | some entry ↦
            if verify (ack_payload env envelope entry.message_data) entry.message_data
              envelope.signature envelope.signer_public_key
            then valid
            else invalid_relay_signature
      ]
    ]

unfoldable pub validate_ack : Env → Db → Header → AckVerdict
unfolding ack_target no_rows is_target validate_relay_ack
validate_ack env db ack =
    let pending = get_pending_message db ack.original_message_id in
    let replicas = get_message_replicas ack.original_message_id db in
    if not (is_timestamp_valid env.now ack.timestamp)
    then invalid_timestamp
    else if not (is_some pending) && no_rows replicas
    then unknown_message
    else if is_target ack.from (ack_target pending replicas)
    then valid
    else elim ack.relay_envelope [
      | none ↦ unauthorized_ack_source
      | some envelope ↦ validate_relay_ack env db ack envelope
    ]

abbrev pub is_valid : AckVerdict → Bool
is_valid valid = true
is_valid _ = false

-- clearTimeout and delete of a pending timeout; deleting a key that is not there does nothing
unfoldable pub clear_pending_ack : String → Exec (Unit {0})
unfolding change
clear_pending_ack id = change (λ s. record s { pending_acks = delete s.pending_acks id })

-- handleAck, behind the validation
unfoldable pub accept_ack : Env → Header → Exec (Unit {0})
unfolding clear_pending_ack
accept_ack env ack = do
  if is_some ack.relay_envelope
      then on_db (mark_replica_ack_received env.now ack.original_message_id ack.from)
      else skip
  emit (ack_received ack.original_message_id ack.from)
  clear_pending_ack ack.original_message_id
  on_db (mark_pending_message_delivered env.now ack.original_message_id)
  on_db (mark_replicated_message_delivered env.now ack.original_message_id)
  emit (message_delivered ack.original_message_id ack.from)

unfoldable pub handle_ack : Env → Header → Exec (Unit {0})
unfolding gets
handle_ack env ack = do
  verdict ← gets (λ s. validate_ack env s.db ack)
  if is_valid verdict then accept_ack env ack else skip

-- handleNak: the delay is that of the next attempt, and the attempts are counted up by
-- incrementAttempts and again by scheduleRetry
unfoldable pub reschedule_nak : Env → Header → PendingRow → Exec (Unit {0})
reschedule_nak env nak entry = do
  on_db (increment_attempts env.now nak.original_message_id)
  on_db (
      schedule_retry env.now nak.original_message_id
        (env.now + calculate_backoff_delay (entry.attempts + 1))
        (some (or_else nak.reason "nak-received")))

unfoldable pub handle_nak : Env → Header → Exec (Unit {0})
unfolding gets
handle_nak env nak = do
  emit (nak_received nak.original_message_id nak.from (or_else nak.reason "nak-received"))
  found ← gets (λ s. get_pending_message s.db nak.original_message_id)
  elim found [ none ↦ skip | some entry ↦ reschedule_nak env nak entry ]
