-- ===== src/Router/Incoming.antt =====
-- receive of src/message/message-router.ts and the handlers that it calls.
pub mod Buffer
pub mod Flush
use yapyap.Prelude.{
  ℕ, zero, suc, ◌+◌, String, [], ◌∷◌, ◌++◌, Option, none, some, Bool, true, false, ◌||◌, ◌&&◌, not,
  if◌then◌else◌, is_some, or_else, ◌==◌, string_keys, nat_keys, length, nat_eq,
}
use yapyap.Prelude.Int.{pos, negsuc}
use yapyap.Map.{get, put, delete}
use yapyap.Message.{
  Message, message, Messages, nil, cons, Header, header, Payload, text, object, relay, delta,
  RelayInfo, DeltaInfo, MessageType, ack, nak, store_and_forward, truthy, is_data,
}
use yapyap.Database.{Db, PendingRow}
use yapyap.Database.Pending.{
  queue_message, get_pending_messages_for_peer, mark_pending_message_delivered,
  schedule_pending_retry,
}
use yapyap.Database.Replicas.{
  upsert_replicated_message, assign_message_replica, mark_replica_stored,
  update_replica_ack_expected, mark_replicated_message_delivered,
}
use yapyap.Database.Clocks.{merge_vector_clock}
use yapyap.Database.Processed.{is_message_processed, persist_incoming_message}
use yapyap.Router.{
  Router, Env, Exec, ok, pure, throw, gets, change, skip, on_db, emit, ◌>>=◌, ◌>>◌, try_catch,
  for_each, message_received, default_message_ttl_ms,
}
use yapyap.Router.Limits.{
  allow_inbound_from_peer, allow_inbound_by_origin_key, bump_peer_score, calculate_backoff_delay,
}
use yapyap.Router.Transport.{transmit, joined}
use yapyap.Router.Outgoing.{send_ack}
use yapyap.Router.Ordering.{
  is_timestamp_valid, remember_processed_message, is_sequence_valid, should_buffer_out_of_order,
  buffer_out_of_order_message, is_vector_clock_valid, expected_sequence, peer_buffer,
}
use yapyap.Router.Acks.{handle_ack, handle_nak}

-- db.persistIncomingMessageAtomically, and whether it was applied
unfoldable pub persist : Env → Message → Exec Bool
persist env m s =
    let (applied, db) = persist_incoming_message env.now m s.db in
    (ok applied, record s { db = db })

-- if (message.type === "data") await this.sendAck(message)
unfoldable pub ack_data : Env → Message → Exec (Unit {0})
unfolding pure
ack_data env m = if is_data (header m).type then send_ack env m else skip

unfoldable pub hand_over : Message → Exec (Unit {0})
hand_over m s = (ok tt, record s { delivered = s.delivered ++ m ∷ [] })

unfoldable pub throw_some : Option String → Exec (Unit {0})
unfolding pure throw
throw_some none = skip
throw_some (some e) = throw e

-- if (this.nodeContext.onMessage) await this.nodeContext.onMessage(message)
unfoldable pub notify : Option (Message → Option String) → Message → Exec (Unit {0})
notify none m = skip
notify (some on_message) m = hand_over m >> throw_some (on_message m)

unfoldable pub call_on_message : Env → Message → Exec (Unit {0})
call_on_message env m = notify env.on_message m

unfoldable pub announce : Env → Message → Exec (Unit {0})
announce env m = do
  emit (message_received (header m).id (header m).from false)
  ack_data env m
  call_on_message env m

unfoldable pub process_accepted_incoming_message : Env → Message → Exec (Unit {0})
process_accepted_incoming_message env m = do
  applied ← persist env m
  remember_processed_message env (header m).id
  if applied then announce env m else ack_data env m

take_buffered : String → ℕ → Router → Option Message × Router
take_buffered peer n s = elim (get (peer_buffer s peer) n) [
  | none ↦ (none, s)
  | some m ↦ (
    some m,
    record s {
      out_of_order_buffer = put s.out_of_order_buffer peer (delete (peer_buffer s peer) n);
    },
  )
]

-- peerBuffer.get(expected), and its deletion from the buffer
unfoldable pub next_buffered : String → Exec (Option Message)
unfolding take_buffered
next_buffered peer s =
    let (found, s') = take_buffered peer (expected_sequence s.db peer) s in (ok found, s')

-- the loop of flushBufferedMessagesForPeer; the fuel bounds its rounds
unfoldable pub flush_loop : Env → String → ℕ → Exec (Unit {0})
flush_loop env peer zero = throw "out of fuel"
flush_loop env peer (suc fuel) = next_buffered peer >>= λ found. elim found [
  | none ↦ skip
  | some m ↦ process_accepted_incoming_message env m >> flush_loop env peer fuel
]

unfoldable pub drop_empty_buffer : String → Router → Router
drop_empty_buffer peer s = elim (peer_buffer s peer) [
  | [] ↦ record s { out_of_order_buffer = delete s.out_of_order_buffer peer }
  | e ∷ rest ↦ s
]

-- every round takes a message from the buffer, so one round more than it holds is enough
unfoldable pub flush_buffered_messages_for_peer : Env → String → Exec (Unit {0})
unfolding gets change drop_empty_buffer
flush_buffered_messages_for_peer env peer = do
  size ← gets (λ s. length (peer_buffer s peer))
  if nat_eq size 0 then skip else flush_loop env peer (suc size) >> change (drop_empty_buffer peer)

-- one round of handoverPendingMessagesToPeer
unfoldable pub hand_over_entry : Env → String × PendingRow → Exec (Unit {0})
hand_over_entry env (id, entry) =
    try_catch
      (transmit env entry.message_data
        >> on_db (mark_pending_message_delivered env.now id)
        >> on_db (mark_replicated_message_delivered env.now id))
      λ e. on_db (
        schedule_pending_retry env.now id (env.now + calculate_backoff_delay entry.attempts)
          (some (joined "handover-failed" e)))

unfoldable pub handover_pending_messages_to_peer : Env → String → Exec (Unit {0})
unfolding gets hand_over_entry
handover_pending_messages_to_peer env peer = do
  pending ← gets (λ s. get_pending_messages_for_peer env.now peer 20 s.db)
  for_each (hand_over_entry env) pending

-- an empty text is left out of the envelope
abbrev if_truthy : Option String → Option String
if_truthy o = if truthy o then o else none

abbrev signed_part : RelayInfo → RelayInfo
signed_part info = record info {
  recovery_reason = if_truthy info.recovery_reason;
  last_transport_error = if_truthy info.last_transport_error;
  signature = none;
  signer_public_key = none;
}

-- isRelayEnvelopeValid
unfoldable pub is_relay_envelope_valid : Env → RelayInfo → Message → Bool
is_relay_envelope_valid env info original =
    truthy info.integrity_hash
    && (or_else info.integrity_hash "" == env.hash original)
    && truthy info.signature
    && truthy info.signer_public_key
    && elim env.verify_relay [
      | none ↦ false
      | some verify ↦
          verify (signed_part info) original (or_else info.signature "")
            (or_else info.signer_public_key "")
    ]

unfoldable pub queue_delta : ℕ → Message → Db → Db
queue_delta now (message h p) db =
    if is_message_processed db h.id
    then db
    else queue_message now h.id (message h p) h.to (now + or_else h.ttl default_message_ttl_ms) db

-- applyDeltaSyncPayload
unfoldable pub queue_deltas : ℕ → Messages → Db → Db
queue_deltas now nil db = db
queue_deltas now (cons m ms) db = queue_deltas now ms (queue_delta now m db)

unfoldable pub apply_delta_sync_payload : ℕ → DeltaInfo → Messages → Db → Db
unfolding queue_deltas
apply_delta_sync_payload now info pending db =
    queue_deltas now pending (merge_vector_clock now info.vector_clock db)

-- a message that is relayed through this node: it is stored and queued for its target
unfoldable pub store_for_target : Env → String → RelayInfo → Header → Message → Db → Db
store_for_target env from info h original db =
    let now = env.now in
    let deadline = now + or_else h.ttl default_message_ttl_ms in
    queue_message now h.id original info.target_peer_id deadline (
      update_replica_ack_expected now h.id env.self true (
        mark_replica_stored now h.id env.self (
          assign_message_replica now h.id env.self
            (upsert_replicated_message now h.id info.target_peer_id from deadline db))))

-- handleStoreAndForwardMessage; `inner` is the call `this.receive(original)`
unfoldable pub handle_store_and_forward : Env → Header → Payload → Exec (Unit {0}) → Exec Bool
unfolding pure
handle_store_and_forward env h (text t) inner = pure false
handle_store_and_forward env h (object t) inner = pure false
handle_store_and_forward env h (delta info pending) inner = do
  on_db (apply_delta_sync_payload env.now info pending)
  pure true
handle_store_and_forward env h (relay info original) inner =
    if not (is_relay_envelope_valid env info original)
    then bump_peer_score h.from (negsuc 4) >> pure true
    else if info.target_peer_id == env.self
    then inner >> pure true
    else on_db (store_for_target env h.from info (header original) original) >> pure true

-- "1. Deduplication"
unfoldable pub is_duplicate : Router → String → Bool
is_duplicate s id = is_some (get s.processed_ids_cache id) || is_message_processed s.db id

-- receive, from the deduplication on
unfoldable pub receive_new : Env → Message → Exec (Unit {0})
unfolding gets
receive_new env m = do
  let h = header m
  duplicate ← gets (λ s. is_duplicate s h.id)
  in_sequence ← gets (λ s. is_sequence_valid s.db h.from h.sequence_number)
  early ← gets (λ s. should_buffer_out_of_order s.db h)
  clock_valid ← gets (λ s. is_vector_clock_valid s.db h)
  if duplicate
      then emit (message_received h.id h.from true)
        >> bump_peer_score h.from (negsuc 0)
        >> ack_data env m
      else if not in_sequence
      then bump_peer_score h.from (negsuc 2) >> ack_data env m
      else if early
      then buffer_out_of_order_message m >> bump_peer_score h.from (negsuc 0)
      else if not clock_valid
      then bump_peer_score h.from (negsuc 2)
      else process_accepted_incoming_message env m
        >> bump_peer_score h.from (pos 1)
        >> flush_buffered_messages_for_peer env h.from

-- if (message.type === "store-and-forward" && await this.handleStoreAndForwardMessage(message))
unfoldable pub receive_unless_handled :
    MessageType → Env → Message → Exec (Unit {0}) → Exec (Unit {0})
receive_unless_handled store_and_forward env (message h p) inner =
    handle_store_and_forward env h p inner >>= λ handled.
    if handled then bump_peer_score h.from (pos 1) else receive_new env (message h p)
receive_unless_handled _ env m inner = receive_new env m

-- receive, from the test of the timestamp on
unfoldable pub receive_timely : Env → Message → Exec (Unit {0}) → Exec (Unit {0})
receive_timely env (message h p) inner =
    if not (is_timestamp_valid env.now h.timestamp)
    then bump_peer_score h.from (negsuc 1)
    else receive_unless_handled h.type env (message h p) inner

-- the acks and naks go their own way
unfoldable pub dispatch : MessageType → Env → Message → Exec (Unit {0}) → Exec (Unit {0})
dispatch ack env (message h p) inner = handle_ack env h
dispatch nak env (message h p) inner = handle_nak env h
dispatch _ env m inner = receive_timely env m inner

-- receive, behind the rate limits
unfoldable pub receive_admitted : Env → Message → Exec (Unit {0}) → Exec (Unit {0})
receive_admitted env (message h p) inner = do
  if not (h.from == "") && not (h.from == env.self)
      then handover_pending_messages_to_peer env h.from
      else skip
  dispatch h.type env (message h p) inner

unfoldable pub limit_by_peer : Env → Message → Exec (Unit {0}) → Exec (Unit {0})
limit_by_peer env (message h p) inner = do
  by_peer ← allow_inbound_from_peer env h.from
  if by_peer then receive_admitted env (message h p) inner else bump_peer_score h.from (negsuc 1)

unfoldable pub receive_with : Env → Message → Exec (Unit {0}) → Exec (Unit {0})
receive_with env (message h p) inner = do
  by_origin ← allow_inbound_by_origin_key env (or_else (env.throttle_key h.from) h.from)
  if by_origin then limit_by_peer env (message h p) inner else bump_peer_score h.from (negsuc 1)

-- receive: a relayed message is received in its turn
unfoldable pub receive : Env → Message → Exec (Unit {0})
receive env (message h (relay info original)) =
    receive_with env (message h (relay info original)) (receive env original)
receive env (message h p) = receive_with env (message h p) skip
