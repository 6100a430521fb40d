-- ===== src/Router/Outgoing.antt =====
-- send, sendAck and applyOutgoingVectorClock of src/message/message-router.ts.
use Prim.Native.String.{◌++◌ as ◌++s◌}
use yapyap.Prelude.{
  ◌+◌, String, List, [], ◌∷◌, Option, none, some, ◌||◌, ◌&&◌, not, if◌then◌else◌, is_some, or_else,
  string_keys,
}
use yapyap.Prelude.Int.{ℤ, pos, negsuc, maxℤ}
use yapyap.Map.{get, put}
use yapyap.Message.{Message, message, Header, header, Payload, object, is_object, MessageType}
use yapyap.Database.Pending.{queue_message}
use yapyap.Database.Clocks.{get_vector_clock, update_vector_clock, get_all_vector_clocks}
use yapyap.Router.{
  Env, Exec, ok, pure, throw, on_db, emit, ◌>>=◌, ◌>>◌, try_catch, message_queued, message_sent,
  message_failed, default_message_ttl_ms,
}
use yapyap.Router.Transport.{transmit}

-- merged[peerId] = Math.max(merged[peerId] ?? 0, counter), negative counters skipped
unfoldable pub merge_clock : List (String × ℤ) → List (String × ℤ) → List (String × ℤ)
merge_clock merged [] = merged
merge_clock merged ((peer, pos n) ∷ clock) =
    merge_clock (put merged peer (maxℤ (or_else (get merged peer) (pos 0)) (pos n))) clock
merge_clock merged ((peer, negsuc n) ∷ clock) = merge_clock merged clock

-- applyOutgoingVectorClock
unfoldable pub apply_outgoing_vector_clock : Env → Message → Exec Message
apply_outgoing_vector_clock env (message h p) s =
    let next = get_vector_clock s.db env.self + 1 in
    let db = update_vector_clock env.now env.self next s.db in
    let merged = merge_clock (get_all_vector_clocks db) (or_else h.vector_clock []) in
    let clock = put merged env.self (maxℤ (or_else (get merged env.self) (pos 0)) (pos next)) in
    let h' = record h {
      sequence_number = some (or_else h.sequence_number next);
      vector_clock = some clock;
    } in
    (ok (message h' p), record s { db = db })

-- the key that the lookups of `send` end with: what is stored, else what a handshake brings, and
-- again after a wait where there is none or it is to be refreshed
unfoldable pub recipient_key : Env → String → Option String
recipient_key env to =
    let first = env.fetch_key 0 to in
    let second = if is_some first then first else env.fetch_key 1 to in
    let pending_refresh = is_some second && env.should_refresh_key to in
    elim env.wait_for_key [
      | none ↦ second
      | some resolves ↦
          if not (is_some second) || pending_refresh
          then if resolves to then env.fetch_key 2 to else none
          else second
    ]

unfoldable pub or_throw : {A : Type 0} → String → Option A → Exec A
or_throw e none = throw e
or_throw e (some a) = pure a

unfoldable pub encrypt_object : Env → Header → Payload → Exec Message
unfolding or_throw
encrypt_object env h p = do
  key ←
      or_throw "Error: Encryption required but recipient public key or node key pair not available"
        (if env.has_key_pair then recipient_key env h.to else none)
  sealed ← or_throw "encryption failed" (env.encrypt p key)
  pure (message h sealed)

-- "2. Encrypt payload (mandatory)"
unfoldable pub encrypt_payload : Env → Message → Exec Message
unfolding encrypt_object
encrypt_payload env (message h p) =
    if is_object p then encrypt_object env h p else pure (message h p)

-- the try block at the end of send
unfoldable pub transmit_reporting : Env → Message → Exec (Unit {0})
transmit_reporting env m =
    try_catch (transmit env m >> emit (message_sent (header m).id (header m).to))
      λ e. do emit (message_failed (header m).id (header m).to e); throw e

unfoldable pub queue_outgoing : Env → Message → Exec (Unit {0})
queue_outgoing env m =
    on_db (queue_message env.now (header m).id m (header m).to (env.now + default_message_ttl_ms))

unfoldable pub send : Env → Message → Exec (Unit {0})
send env m = do
  stamped ← apply_outgoing_vector_clock env m
  queue_outgoing env stamped
  emit (message_queued (header m).id (header m).to)
  sealed ← encrypt_payload env stamped
  if env.libp2p_ready then transmit_reporting env sealed else throw "Error: libp2p not initialized"

abbrev ack_header : Env → Header → Header
ack_header env h = record {
  id = "ack_" ++s env.now_text;
  type = MessageType.ack;
  from = env.self;
  to = h.from;
  timestamp = env.now;
  sequence_number = none;
  ttl = none;
  vector_clock = none;
  original_message_id = h.id;
  reason = none;
  relay_envelope = none;
}

-- sendAck; its payload `{}` is an object, so that an ack is encrypted too
unfoldable pub send_ack : Env → Message → Exec (Unit {0})
send_ack env m = send env (message (ack_header env (header m)) (object "{}"))
