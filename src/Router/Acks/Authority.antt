-- ===== src/Router/Acks/Authority.antt =====
-- Which acks handleAck of src/message/message-router.ts lets settle a message.
use yapyap.Prelude.{
  ◌≡◌, ◌∙◌, ap, none, some, Bool, true, false, ◌&&◌, if◌then◌else◌, ◌==◌, string_keys, arith,
}
use yapyap.Message.{Header}
use yapyap.Database.{Db, PendingRow, PendingStatus}
use yapyap.Database.Pending.{
  get_pending_message, mark_pending_message_delivered, get_pending_message-update_pending,
}
use yapyap.Database.Replicas.{mark_replicated_message_delivered, update_replicated}
use yapyap.Router.{Router, Env, ok, gets, skip, pure, change, on_db, emit, ◌>>=◌}
use yapyap.Router.Ordering.{is_timestamp_valid}
use yapyap.Router.Acks.{is_valid, validate_ack, clear_pending_ack, accept_ack, handle_ack}

handle_ack-verdict :
    (env : Env) (ack : Header) (s : Router) (b : Bool)
    → is_valid (validate_ack env s.db ack) ≡ b
    → handle_ack env ack s ≡ (if b then accept_ack env ack else skip) s
unfolding handle_ack gets ◌>>=◌
handle_ack-verdict env ack s b e = ap (λ v. (if v then accept_ack env ack else skip) s) e

validate_ack-direct :
    (env : Env) (ack : Header) (db : Db) (entry : PendingRow)
    → get_pending_message db ack.original_message_id ≡ some entry
    → ack.relay_envelope ≡ none
    → is_valid (validate_ack env db ack)
      ≡ (is_timestamp_valid env.now ack.timestamp && (ack.from == entry.target_peer_id))
unfolding validate_ack
validate_ack-direct env ack db entry there plain = rw (there, plain) (ground arith)

-- An ack that is not relayed and comes from another peer than the one to which the message of the
-- queue was sent, or whose time is too far off, changes nothing at all.
pub handle_ack-forged :
    (env : Env) (ack : Header) (entry : PendingRow) (s : Router)
    → get_pending_message s.db ack.original_message_id ≡ some entry
    → ack.relay_envelope ≡ none
    → (is_timestamp_valid env.now ack.timestamp && (ack.from == entry.target_peer_id)) ≡ false
    → handle_ack env ack s ≡ (ok tt, s)
unfolding pure
handle_ack-forged env ack entry s there plain wrong =
    handle_ack-verdict env ack s false (validate_ack-direct env ack s.db entry there plain ∙ wrong)

accept_ack-row :
    (env : Env) (ack : Header) (entry : PendingRow) (s : Router)
    → get_pending_message s.db ack.original_message_id ≡ some entry
    → ack.relay_envelope ≡ none
    → get_pending_message (accept_ack env ack s).1.db ack.original_message_id
      ≡ some (record entry {
        status = PendingStatus.delivered;
        updated_at = env.now;
        last_error = none;
      })
unfolding accept_ack on_db emit clear_pending_ack change pure ◌>>=◌ mark_pending_message_delivered
    mark_replicated_message_delivered update_replicated get_pending_message
accept_ack-row env ack entry s there plain =
    rw plain (get_pending_message-update_pending env.now ack.original_message_id _ s.db entry there)

-- An ack that is not relayed, comes in time and from the peer to which the message of the queue was
-- sent marks that message as delivered.
pub handle_ack-settles :
    (env : Env) (ack : Header) (entry : PendingRow) (s : Router)
    → get_pending_message s.db ack.original_message_id ≡ some entry
    → ack.relay_envelope ≡ none
    → (is_timestamp_valid env.now ack.timestamp && (ack.from == entry.target_peer_id)) ≡ true
    → get_pending_message (handle_ack env ack s).1.db ack.original_message_id
      ≡ some (record entry {
        status = PendingStatus.delivered;
        updated_at = env.now;
        last_error = none;
      })
handle_ack-settles env ack entry s there plain right =
    ap (λ r. get_pending_message r.1.db ack.original_message_id)
      (handle_ack-verdict env ack s true
        (validate_ack-direct env ack s.db entry there plain ∙ right))
    ∙ accept_ack-row env ack entry s there plain
