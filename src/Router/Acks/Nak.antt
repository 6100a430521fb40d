-- ===== src/Router/Acks/Nak.antt =====
-- What handleNak of src/message/message-router.ts does to the queue's row.
use yapyap.Prelude.{◌+◌, ◌≡◌, some, or_else}
use yapyap.Message.{Header}
use yapyap.Database.{PendingRow}
use yapyap.Database.Pending.{
  get_pending_message, increment_attempts, schedule_retry, get_pending_message-update_pending,
}
use yapyap.Router.{Router, Env, gets, on_db, emit, nak_received, ◌>>=◌}
use yapyap.Router.Limits.{calculate_backoff_delay}
use yapyap.Router.Acks.{reschedule_nak, handle_nak}

reschedule_nak-row :
    (env : Env) (nak : Header) (entry : PendingRow) (s : Router)
    → get_pending_message s.db nak.original_message_id ≡ some entry
    → get_pending_message (reschedule_nak env nak entry s).1.db nak.original_message_id
      ≡ some (record entry {
        attempts = entry.attempts + 1 + 1;
        next_retry_at = env.now + calculate_backoff_delay (entry.attempts + 1);
        updated_at = env.now;
        last_error = some (or_else nak.reason "nak-received");
      })
unfolding reschedule_nak on_db ◌>>=◌ increment_attempts schedule_retry
reschedule_nak-row env nak entry s there =
    get_pending_message-update_pending env.now nak.original_message_id _
      (increment_attempts env.now nak.original_message_id s.db) _
      (get_pending_message-update_pending env.now nak.original_message_id _ s.db entry there)

-- A nak for a message of the queue, whoever sends it, counts two attempts: the next one is due after
-- the backoff for one attempt more than there were, and nothing else of the row changes but its time
-- and its reason.
pub handle_nak-row :
    (env : Env) (nak : Header) (entry : PendingRow) (s : Router)
    → get_pending_message s.db nak.original_message_id ≡ some entry
    → get_pending_message (handle_nak env nak s).1.db nak.original_message_id
      ≡ some (record entry {
        attempts = entry.attempts + 1 + 1;
        next_retry_at = env.now + calculate_backoff_delay (entry.attempts + 1);
        updated_at = env.now;
        last_error = some (or_else nak.reason "nak-received");
      })
unfolding handle_nak emit gets ◌>>=◌
handle_nak-row env nak entry s there =
    let noted =
      (emit (nak_received nak.original_message_id nak.from (or_else nak.reason "nak-received"))
        s).1 in
    rw there (reschedule_nak-row env nak entry noted there)
