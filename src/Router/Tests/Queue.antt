-- ===== src/Router/Tests/Queue.antt =====
-- The theorems on retries, naks and acks at inputs that meet their hypotheses.
use yapyap.Prelude.{
  ℕ, ◌&&◌, ◌==◌, string_keys, String, ◌+◌, ◌≡◌, refl, [], ◌∷◌, none, some, true, false, arith, ◌≤◌,
  ◌⊎◌,
}
use yapyap.Message.{Header, MessageType}
use yapyap.Database.{empty_db}
use yapyap.Router.{Router, empty_router, ok, err}
use yapyap.Map.{get}
use yapyap.Router.Acks.Nak.{handle_nak-row}
use yapyap.Database.{PendingRow, PendingStatus}
use yapyap.Database.Pending.{get_pending_message}
use yapyap.Router.Retry.{retry_entry}
use yapyap.Router.Retry.Returns.{CanRelay}
use yapyap.Router.Retry.Entry.{rescheduled, retry_entry_reschedules}
use yapyap.Router.Ordering.{is_timestamp_valid}
use yapyap.Router.Acks.{handle_ack, handle_nak}
use yapyap.Router.Acks.Authority.{handle_ack-forged, handle_ack-settles}
use yapyap.Router.Limits.{calculate_backoff_delay}
use yapyap.Router.Tests.{node_b, hello_header, hello, dead_node, no_attempt_works}

-- A message for "a" in the queue, after so many attempts.
abbrev waiting_entry : ℕ → PendingRow
waiting_entry attempts = record {
  target_peer_id = "a";
  message_data = hello;
  status = PendingStatus.pending;
  attempts = attempts;
  next_retry_at = 900;
  created_at = 100;
  updated_at = 100;
  deadline_at = 5000000;
  last_error = none;
}

abbrev with_waiting : ℕ → Router
with_waiting attempts =
    empty_router (record empty_db { pending_messages = ("m1", waiting_entry attempts) ∷ [] })

is_waiting : (n : ℕ) → get_pending_message (with_waiting n).db "m1" ≡ some (waiting_entry n)
unfolding get_pending_message get
is_waiting n = refl

retry_entry_reschedules_example :
    (((retry_entry dead_node ("m1", waiting_entry 5) (with_waiting 5)).0 ≡ ok tt)
      × ((reason : String) × (get_pending_message
              (retry_entry dead_node ("m1", waiting_entry 5) (with_waiting 5)).1.db
              "m1"
            ≡ some (rescheduled 1000 (waiting_entry 5) reason))))
    ⊎ (error : String) × ((retry_entry dead_node ("m1", waiting_entry 5) (with_waiting 5)).0
        ≡ err error)
      × (3 ≤ 5)
      × (¬ CanRelay dead_node)
      × (get_pending_message
            (retry_entry dead_node ("m1", waiting_entry 5) (with_waiting 5)).1.db
            "m1"
          ≡ some (waiting_entry 5))
retry_entry_reschedules_example =
    retry_entry_reschedules dead_node "m1" (waiting_entry 5) (with_waiting 5) (is_waiting 5)
      (omega arith) (omega arith) no_attempt_works

abbrev nak_of_hello : Header
nak_of_hello = record hello_header {
  id = "n1";
  type = MessageType.nak;
  original_message_id = "m1";
  reason = some "busy";
}

handle_nak-row_example :
    get_pending_message (handle_nak node_b nak_of_hello (with_waiting 2)).1.db "m1"
    ≡ some (record (waiting_entry 2) {
      attempts = 4;
      next_retry_at = 1000 + calculate_backoff_delay 3;
      updated_at = 1000;
      last_error = some "busy";
    })
handle_nak-row_example =
    handle_nak-row node_b nak_of_hello (waiting_entry 2) (with_waiting 2) (is_waiting 2)

-- Acks of "hello", which the queue has for "a", by "a" and by somebody else.
abbrev ack_by : String → Header
ack_by peer = record hello_header {
  id = "k1";
  type = MessageType.ack;
  from = peer;
  sequence_number = none;
  original_message_id = "m1";
}

by_another : (is_timestamp_valid 1000 990 && (◌==◌ {A = String} "mallory" "a")) ≡ false
unfolding is_timestamp_valid
by_another = refl

in_time : (is_timestamp_valid 1000 990 && (◌==◌ {A = String} "a" "a")) ≡ true
unfolding is_timestamp_valid
in_time = refl

handle_ack-forged_example :
    handle_ack node_b (ack_by "mallory") (with_waiting 2) ≡ (ok tt, with_waiting 2)
handle_ack-forged_example =
    handle_ack-forged node_b (ack_by "mallory") (waiting_entry 2) (with_waiting 2) (is_waiting 2)
      refl by_another

handle_ack-settles_example :
    get_pending_message (handle_ack node_b (ack_by "a") (with_waiting 2)).1.db "m1"
    ≡ some (record (waiting_entry 2) {
      status = PendingStatus.delivered;
      updated_at = 1000;
      last_error = none;
    })
handle_ack-settles_example =
    handle_ack-settles node_b (ack_by "a") (waiting_entry 2) (with_waiting 2) (is_waiting 2) refl
      in_time
