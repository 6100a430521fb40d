-- ===== src/Router/Retry.antt =====
-- retry and tryFallbackRelayRoutes of src/message/message-router.ts: what the retry timer does.
pub mod Returns
pub mod Queue
pub mod Entry
use Prim.Native.String.{◌++◌ as ◌++s◌}
use yapyap.Prelude.{
  ℕ, ◌+◌, String, List, [], ◌∷◌, Option, none, some, Bool, true, false, ◌&&◌, ◌||◌, not,
  if◌then◌else◌, or_else, ◌==◌, string_keys, leb, ltb, take, keep, any, map, is_some,
}
use yapyap.Prelude.Int.{pos, negsuc}
use yapyap.Message.{Message, header, id_of, message, Header, MessageType, RelayInfo, relay}
use yapyap.Database.{Db, PendingRow, ReplicaRow, ReplicaStatus}
use yapyap.Database.Pending.{
  get_pending_message, get_retryable_pending_messages, mark_pending_message_delivered,
  mark_pending_message_failed, schedule_pending_retry,
}
use yapyap.Database.Replicas.{
  upsert_replicated_message, assign_message_replica, mark_replica_stored, mark_replica_failed,
  update_replica_ack_expected, get_message_replicas, mark_replicated_message_failed, is_stored,
  get_messages_waiting_for_replica_ack,
}
use yapyap.Database.Cleanup.{cleanup}
use yapyap.Router.{
  Router, Env, Exec, pure, gets, skip, on_db, emit, ◌>>=◌, ◌>>◌, try_catch, for_each,
  message_failed, message_delivered, default_message_ttl_ms,
}
use yapyap.Router.Limits.{bump_peer_score, calculate_backoff_delay, is_peer_blocked}
use yapyap.Router.Outgoing.{or_throw}
use yapyap.Router.Transport.{transmit, classify_transport_error, joined}
use yapyap.Router.Peers.{select_replica_peers, contains}

abbrev pub max_retry_attempts : ℕ
max_retry_attempts = 8

abbrev pub fallback_relay_threshold_attempts : ℕ
fallback_relay_threshold_attempts = 3

abbrev pub max_fallback_relays : ℕ
max_fallback_relays = 2

abbrev is_failed : ReplicaStatus → Bool
is_failed ReplicaStatus.assigned = false
is_failed ReplicaStatus.stored = false
is_failed ReplicaStatus.delivered = false
is_failed ReplicaStatus.failed = true

-- the relayMessage for a replica peer, with the signature if the node signs
abbrev relay_info : Env → Message → String → String → String → RelayInfo
relay_info env m target recovery_reason error = record {
  target_peer_id = target;
  recovery_reason = some recovery_reason;
  last_transport_error = some error;
  integrity_hash = some (env.hash m);
  signature = none;
  signer_public_key = none;
}

abbrev signed_info : RelayInfo → Option (String × String) → RelayInfo
signed_info info none = info
signed_info info (some (signature, key)) = record info {
  signature = some signature;
  signer_public_key = some key;
}

-- the signed relayMessage
abbrev envelope : Env → Message → String → RelayInfo → Option (String × String) → Message
envelope env m relay_peer info signed =
    message
      (record {
        id = "relay_" ++s id_of m ++s "_" ++s env.now_text;
        type = MessageType.store_and_forward;
        from = env.self;
        to = relay_peer;
        timestamp = env.now;
        sequence_number = none;
        ttl = none;
        vector_clock = none;
        original_message_id = "";
        reason = none;
        relay_envelope = none;
      })
      (relay (signed_info info signed) m)

-- signRelayEnvelope may throw, and no try is around it
unfoldable pub relay_message : Env → Message → String → String → String → String → Exec Message
unfolding pure
relay_message env m target recovery_reason error relay_peer =
    let info = relay_info env m target recovery_reason error in
    or_throw "Error: the relay envelope is not signed" (env.sign_relay info m) >>= λ signed.
    pure (envelope env m relay_peer info signed)

-- the peers to which the message is assigned, less those that failed or are blocked
unfoldable pub existing_assignments : String → Router → List String
existing_assignments id s =
    map (λ e. e.0.1)
      (keep (λ e. not (is_failed e.1.status) && not (is_peer_blocked s e.0.1))
        (get_message_replicas id s.db))

-- selectReplicaPeers for relays, which may throw
unfoldable pub relay_peers : Env → String → Exec (List String)
unfolding gets
relay_peers env target =
    gets (λ s. select_replica_peers env s target max_fallback_relays)
    >>= or_throw "Error: invalid peer id"

-- the body of the try, for one relay
unfoldable pub relay_to : Env → Message → String → Message → Exec Bool
unfolding pure
relay_to env m peer relayed_message = do
  transmit env relayed_message
  on_db (mark_replica_stored env.now (id_of m) peer)
  on_db (update_replica_ack_expected env.now (id_of m) peer true)
  bump_peer_score peer (pos 2)
  pure true

unfoldable pub relay_failed : Env → Message → String → String → Bool → Exec Bool
unfolding pure
relay_failed env m error peer relayed = do
  on_db (mark_replica_failed env.now (id_of m) peer (some error))
  bump_peer_score peer (negsuc 3)
  pure relayed

-- the loop over the relay candidates, with `relayed` so far
unfoldable pub relay_loop : Env → Message → String → List String → List String → Bool → Exec Bool
unfolding pure
relay_loop env m error assigned [] relayed = pure relayed
relay_loop env m error assigned (peer ∷ peers) relayed =
    (if contains assigned peer then skip else on_db (assign_message_replica env.now (id_of m) peer))
    >> relay_message env m (header m).to "stuck-ack-recovery" error peer
    >>= (λ r. try_catch (relay_to env m peer r) (λ _. relay_failed env m error peer relayed))
    >>= λ so_far. relay_loop env m error assigned peers so_far

abbrev relay_candidates : List String → List String → List String
relay_candidates [] candidates = candidates
relay_candidates (a ∷ assigned) candidates = take max_fallback_relays (a ∷ assigned)

unfoldable pub try_fallback_relay_routes : Env → Message → ℕ → String → Exec Bool
unfolding pure gets
try_fallback_relay_routes env m attempts error =
    if ltb attempts fallback_relay_threshold_attempts then pure false else do
      candidates ← relay_peers env (header m).to
      on_db (
          upsert_replicated_message env.now (id_of m) (header m).to env.self
            (env.now + or_else (header m).ttl default_message_ttl_ms))
      assigned ← gets (existing_assignments (id_of m))
      relay_loop env m error assigned (relay_candidates assigned candidates) false

abbrev pub retry_error : Bool → String → String
retry_error relayed error =
    let text = joined (classify_transport_error error) error in
    if relayed then joined "fallback-routed" text else text

unfoldable pub give_up : Env → String × PendingRow → Exec (Unit {0})
give_up env (id, entry) = do
  on_db (mark_pending_message_failed env.now id (some "max-retries-exceeded"))
  on_db (mark_replicated_message_failed env.now id)
  emit (message_failed id entry.target_peer_id "max-retries-exceeded")

unfoldable pub deliver_entry : Env → String × PendingRow → Exec (Unit {0})
deliver_entry env (id, entry) = do
  transmit env entry.message_data
  on_db (mark_pending_message_delivered env.now id)
  emit (message_delivered id entry.target_peer_id)

unfoldable pub reschedule_entry : Env → String × PendingRow → String → Exec (Unit {0})
reschedule_entry env (id, entry) error = do
  relayed ← try_fallback_relay_routes env entry.message_data entry.attempts error
  on_db (
      schedule_pending_retry env.now id (env.now + calculate_backoff_delay entry.attempts)
        (some (retry_error relayed error)))

-- one round of the loop over the retryable messages
unfoldable pub retry_entry : Env → String × PendingRow → Exec (Unit {0})
retry_entry env (id, entry) =
    if ltb env.now entry.next_retry_at
    then skip
    else if leb max_retry_attempts entry.attempts
    then give_up env (id, entry)
    else try_catch (deliver_entry env (id, entry)) (reschedule_entry env (id, entry))

unfoldable pub recover_with : Env → String → String → Message → Exec Bool
unfolding pure
recover_with env id peer relayed_message = do
  transmit env relayed_message
  on_db (mark_replica_stored env.now id peer)
  on_db (update_replica_ack_expected env.now id peer true)
  pure true

unfoldable pub recovery_failed : Env → String → String → Exec Bool
unfolding pure
recovery_failed env id peer = do
  on_db (mark_replica_failed env.now id peer (some "replica-ack-timeout-recovery"))
  pure false

-- the loop over the candidates, left at the first that takes the message
unfoldable pub recover_loop : Env → String → Message → String → List String → Exec (Unit {0})
recover_loop env id m target [] = skip
recover_loop env id m target (peer ∷ peers) =
    relay_message env m target "replica-ack-timeout-recovery" "ack-timeout" peer
    >>= (λ r. try_catch (recover_with env id peer r) (λ _. recovery_failed env id peer))
    >>= λ taken. if taken then skip else recover_loop env id m target peers

abbrev is_valid_replica : String → (String × String) × ReplicaRow → Bool
is_valid_replica waiting e =
    not (e.0.1 == waiting)
    && is_stored e.1.status
    && e.1.ack_expected
    && is_some e.1.ack_received_at

abbrev can_recover : String → (String × String) × ReplicaRow → Bool
can_recover waiting e = not (e.0.1 == waiting) && not (is_failed e.1.status)

unfoldable pub recover_message : Env → (String × String) × String → Message → Exec (Unit {0})
unfolding gets
recover_message env ((id, waiting), target) m = do
  replicas ← gets (λ s. get_message_replicas id s.db)
  if any (is_valid_replica waiting) replicas
      then skip
      else if any (can_recover waiting) replicas
      then on_db (update_replica_ack_expected env.now id waiting false)
      else if target == ""
      then skip
      else relay_peers env target >>= recover_loop env id m target

unfoldable pub recover_found :
    Env → (String × String) × String → Option PendingRow → Exec (Unit {0})
recover_found env waiting none = skip
recover_found env waiting (some entry) = recover_message env waiting entry.message_data

-- one round of the loop over the replicas that wait for an ack
unfoldable pub recover_entry : Env → (String × String) × String → Exec (Unit {0})
unfolding gets
recover_entry env ((id, waiting), target) =
    gets (λ s. get_pending_message s.db id) >>= recover_found env ((id, waiting), target)

unfoldable pub retry : Env → Exec (Unit {0})
unfolding gets
retry env = do
  pending ← gets (λ s. get_retryable_pending_messages env.now s.db)
  for_each (retry_entry env) pending
  waiting ← gets (λ s. get_messages_waiting_for_replica_ack env.now s.db)
  for_each (recover_entry env) waiting
  on_db (cleanup env.now)
