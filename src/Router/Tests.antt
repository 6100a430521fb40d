-- ===== src/Router/Tests.antt =====
-- Runs of the router at small inputs, and the theorems at inputs that meet their hypotheses.
pub mod Queue
use yapyap.Prelude.{
  if◌then◌else◌, ℕ, zero, min, ◌&&◌, ◌==◌, string_keys, length, ap, sym, is_some, ◌++◌, ◌≢◌, String,
  ◌+◌, ◌*◌, ◌≤◌, ◌≡◌, refl, List, [], ◌∷◌, none, some, true, false, arith,
}
use yapyap.Message.{Message, message, Header, MessageType, text, object}
use yapyap.Database.{empty_db}
use yapyap.Database.Processed.{is_message_processed}
use yapyap.Prelude.Int.{negsuc, ◌+ℤ◌, minℤ, maxℤ}
use yapyap.Router.{Router, Env, empty_router, ok, err}
use yapyap.Router.Transport.{transmit, times, transmit_delivers}
use mathlib.Core.Bool.{false≢true}
use yapyap.Database.{RoutingRow}
use yapyap.Map.{get}
use yapyap.Database.{PendingRow, PendingStatus}
use yapyap.Database.Pending.{get_pending_message}
use yapyap.Router.Retry.{retry, retry_entry}
use yapyap.Router.Ordering.{peer_buffer, is_timestamp_valid}
use yapyap.Router.Acks.{handle_ack}
use yapyap.Router.Acks.Authority.{handle_ack-forged, handle_ack-settles}
use yapyap.Router.Incoming.{receive, flush_loop}
use yapyap.Router.Incoming.Flush.{flush_loop-enough}
use yapyap.Router.Peers.{select_replica_peers}
use yapyap.Router.Limits.{
  default_rate_limit, default_origin_rate_limit, ScoreInRange, peer_score_min, peer_score_max,
  bump_peer_score, get_peer_score, bump_peer_score_range, is_peer_blocked, calculate_backoff_delay,
  backoff_doubles,
}
use yapyap.Router.Limits.Rate.{admitted, admitted_bound}
use yapyap.Router.Delivery.{DistinctIds, was_delivered}
use yapyap.Router.Delivery.Receive.{receive_all, receive_all_at_most_once, receive_all_recorded}

-- A node "b" at time 1000 whose network works and which knows every key.
abbrev pub node_b : Env
node_b = record {
  self = "b";
  now = 1000;
  now_text = "1000";
  libp2p_ready = true;
  attempt = λ m i. none;
  sent_before_failing = λ m i. true;
  reconnect_attempts = 3;
  fetch_key = λ i peer. some "key";
  should_refresh_key = λ peer. false;
  wait_for_key = none;
  has_key_pair = true;
  encrypt = λ p key. some (object "sealed");
  on_message = some (λ m. none);
  throttle_key = λ peer. none;
  sign_relay = λ info m. some none;
  verify_relay = none;
  hash = λ m. "hash";
  bootstrap_peer_ids = [];
  distance_bytes = λ peer. some [];
  rate_limit = default_rate_limit;
  origin_rate_limit = default_origin_rate_limit;
}

abbrev pub hello_header : Header
hello_header = record {
  id = "m1";
  type = MessageType.data_message;
  from = "a";
  to = "b";
  timestamp = 990;
  sequence_number = some 1;
  ttl = none;
  vector_clock = none;
  original_message_id = "";
  reason = none;
  relay_envelope = none;
}

abbrev pub hello : Message
hello = message hello_header (text "hello")

abbrev pub fresh_router : Router
fresh_router = empty_router empty_db

-- The same message twice.
abbrev repeated : List (Env × Message)
repeated = (node_b, hello) ∷ (node_b, hello) ∷ []

receive_all_at_most_once_example : DistinctIds (receive_all repeated fresh_router).delivered
receive_all_at_most_once_example = receive_all_at_most_once repeated fresh_router refl

hello_is_delivered : was_delivered "m1" (receive_all repeated fresh_router).delivered ≡ true
unfolding receive_all receive yapyap.Router.Incoming.receive_with yapyap.Router.◌>>=◌
    yapyap.Router.Limits.allow_inbound_by_origin_key yapyap.Router.Limits.take_token get
    yapyap.Router.Incoming.limit_by_peer yapyap.Router.Limits.allow_inbound_from_peer
    yapyap.Router.Incoming.receive_admitted yapyap.Router.Incoming.handover_pending_messages_to_peer
    yapyap.Router.for_each yapyap.Database.Pending.get_pending_messages_for_peer
    yapyap.Database.order_by yapyap.Router.Incoming.dispatch yapyap.Router.Incoming.receive_timely
    yapyap.Router.Ordering.is_timestamp_valid yapyap.Router.Incoming.receive_unless_handled
    yapyap.Router.Incoming.receive_new yapyap.Router.Incoming.is_duplicate is_message_processed
    yapyap.Router.Ordering.is_sequence_valid yapyap.Database.Clocks.get_last_peer_sequence
    yapyap.Router.Ordering.should_buffer_out_of_order yapyap.Router.Ordering.expected_sequence
    yapyap.Router.Ordering.is_vector_clock_valid
    yapyap.Router.Incoming.process_accepted_incoming_message yapyap.Router.Incoming.persist
    yapyap.Router.Ordering.remember_processed_message
    yapyap.Database.Processed.persist_incoming_message yapyap.Router.Incoming.announce
    yapyap.Router.emit yapyap.Router.Incoming.ack_data yapyap.Router.Outgoing.send_ack
    yapyap.Router.Outgoing.send yapyap.Router.Outgoing.apply_outgoing_vector_clock
    yapyap.Router.Outgoing.queue_outgoing yapyap.Router.on_db yapyap.Router.Outgoing.encrypt_payload
    yapyap.Router.Outgoing.recipient_key yapyap.Router.Outgoing.transmit_reporting
    yapyap.Router.try_catch transmit yapyap.Router.Transport.transmit_loop
    yapyap.Router.Transport.put_on_wire yapyap.Router.Incoming.call_on_message
    yapyap.Router.Incoming.notify yapyap.Router.Incoming.hand_over yapyap.Router.Incoming.throw_some
    bump_peer_score yapyap.Router.Incoming.flush_buffered_messages_for_peer
    yapyap.Router.Ordering.peer_buffer yapyap.Map.put yapyap.Database.Pending.queue_message
    yapyap.Database.Pending.upsert_message_history yapyap.Database.Clocks.update_vector_clock
    yapyap.Database.Clocks.merge_vector_clock yapyap.Database.Clocks.raise_peer_sequence
    yapyap.Router.Ordering.remember
hello_is_delivered = refl

receive_all_recorded_example :
    is_message_processed (receive_all repeated fresh_router).db "m1" ≡ true
receive_all_recorded_example =
    receive_all_recorded repeated fresh_router "m1" refl hello_is_delivered

admitted_bound_example :
    admitted default_rate_limit none (0 ∷ 0 ∷ 5 ∷ []) * 1000 ≤ 60 * 1000 + 10 * 30
admitted_bound_example = admitted_bound default_rate_limit 0 (0 ∷ 5 ∷ []) 10 (omega arith)

-- A network that takes the second attempt.
abbrev pub slow_node : Env
slow_node = record node_b { attempt = λ m i. elim i [ zero ↦ some "stream reset" | _ ↦ none ] }

transmit_delivers_example :
    (n : ℕ) × (n ≤ 1)
    × (transmit slow_node hello fresh_router ≡ (
      ok tt,
      record fresh_router { transmitted = fresh_router.transmitted ++ times (n + 1) hello },
    ))
transmit_delivers_example = transmit_delivers slow_node hello fresh_router 1 refl (omega arith) refl

abbrev pub dead_node : Env
dead_node = record node_b { attempt = λ m i. some "stream reset" }

pub no_attempt_works : (i : ℕ) → i ≤ 3 → dead_node.attempt hello i ≢ none
no_attempt_works i h e = absurd (false≢true (ap is_some (sym e)))

abbrev available : RoutingRow
available = record { multiaddrs = []; last_seen = 900; is_available = true; ttl = 3600000 }

-- Knows "c" and "d"; "e" is its bootstrap peer.
abbrev some_known_peers : Router
some_known_peers = empty_router (record empty_db {
  routing_cache = ("a", available) ∷ ("c", available) ∷ ("d", available) ∷ [];
})

abbrev node_with_bootstrap : Env
node_with_bootstrap = record node_b { bootstrap_peer_ids = "b" ∷ "e" ∷ [] }

three_are_selected :
    select_replica_peers node_with_bootstrap some_known_peers "a" 4 ≡ some ("c" ∷ "d" ∷ "e" ∷ [])
unfolding select_replica_peers is_peer_blocked get_peer_score get
three_are_selected = refl

-- An id that cannot be read.
abbrev with_bad_id : Env
with_bad_id = record node_with_bootstrap {
  distance_bytes = λ peer. if peer == "d" then none else some [];
}

selection_throws : select_replica_peers with_bad_id some_known_peers "a" 4 ≡ none
unfolding select_replica_peers is_peer_blocked get_peer_score get
selection_throws = refl

-- The first two messages of "a" wait in the buffer.
abbrev with_buffered : Router
with_buffered = record fresh_router {
  out_of_order_buffer =
      (
        "a",
        (2, message (record hello_header { id = "m2"; sequence_number = some 2 }) (text "again"))
            ∷ (1, hello)
            ∷ [],
      )
      ∷ [];
}

two_are_buffered : length (peer_buffer with_buffered "a") ≡ 2
unfolding peer_buffer get
two_are_buffered = refl

flush_loop-enough_example :
    flush_loop node_b "a" 10 with_buffered ≡ flush_loop node_b "a" 3 with_buffered
flush_loop-enough_example =
    flush_loop-enough node_b "a" 3 7 with_buffered (omega (arith, two_are_buffered))
