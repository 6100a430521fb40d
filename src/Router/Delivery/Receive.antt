-- ===== src/Router/Delivery/Receive.antt =====
-- Runs of receive of src/message/message-router.ts, and what the application is handed in them.
use mathlib.Core.Bool.{false≢true}
use yapyap.Prelude.{
  ℕ, zero, suc, String, ◌≡◌, refl, List, [], ◌∷◌, Option, none, some, true, arith, not, ◌==◌,
  string_keys,
}
use yapyap.Message.{Message, message, Header, Payload, text, object, relay, delta, MessageType}
use yapyap.Database.Processed.{is_message_processed}
use yapyap.Router.{Router, Env, Exec, skip, ◌>>◌}
use yapyap.Router.Limits.{allow_inbound_from_peer, allow_inbound_by_origin_key}
use yapyap.Router.Incoming.{
  process_accepted_incoming_message, next_buffered, flush_loop, flush_buffered_messages_for_peer,
  handle_store_and_forward, is_relay_envelope_valid, receive_new, receive_unless_handled,
  receive_timely, dispatch, limit_by_peer, receive_admitted, receive_with, receive,
}
use yapyap.Router.Quiet.{Quiet, Quiet-pure, Quiet-throw}
use yapyap.Router.Quiet.Methods.{
  ack_data-Quiet, handle_ack-Quiet, handle_nak-Quiet, handover-Quiet,
  buffer_out_of_order_message-Quiet, drop_empty_buffer-Quiet,
}
use yapyap.Router.Quiet.Tables.{keeps_rules}
use yapyap.Router.Delivery.{
  Once, was_delivered, DistinctIds, OnceKept, OnceKept-bind, OnceKept-if, OnceKept-Quiet,
  once_rules, process-OnceKept,
}

module _ (env : Env) where
  next_buffered-Quiet : (peer : String) → Quiet (next_buffered peer)
  unfolding next_buffered
  next_buffered-Quiet peer = record { at = λ s. (ground arith, ground arith) }

  flush_round-OnceKept :
      (peer : String) (fuel : ℕ) (found : Option Message)
      → OnceKept (flush_loop env peer fuel)
      → OnceKept (elim found [
        | none ↦ skip
        | some m ↦ process_accepted_incoming_message env m >> flush_loop env peer fuel
      ])
  flush_round-OnceKept peer fuel none ih = OnceKept-Quiet _ (Quiet-pure tt)
  flush_round-OnceKept peer fuel (some m) ih = OnceKept-bind _ _ (process-OnceKept env m) (λ _. ih)

  flush_loop-OnceKept : (peer : String) (fuel : ℕ) → OnceKept (flush_loop env peer fuel)
  unfolding flush_loop
  flush_loop-OnceKept peer zero = OnceKept-Quiet _ (Quiet-throw _)
  flush_loop-OnceKept peer (suc fuel) =
      OnceKept-bind _ _ (OnceKept-Quiet _ (next_buffered-Quiet peer))
        (λ found. flush_round-OnceKept peer fuel found (flush_loop-OnceKept peer fuel))

  flush-OnceKept : (peer : String) → OnceKept (flush_buffered_messages_for_peer env peer)
  unfolding flush_buffered_messages_for_peer
  flush-OnceKept peer =
      search (once_rules, flush_loop-OnceKept, drop_empty_buffer-Quiet env) depth 10

module _ (env : Env) where
  allow-Quiet : (peer : String) → Quiet (allow_inbound_from_peer env peer)
  unfolding allow_inbound_from_peer
  allow-Quiet peer = record { at = λ s. (refl, refl) }

  allow_origin-Quiet : (key : String) → Quiet (allow_inbound_by_origin_key env key)
  unfolding allow_inbound_by_origin_key
  allow_origin-Quiet key = record { at = λ s. (refl, refl) }

  receive_new-OnceKept : (m : Message) → OnceKept (receive_new env m)
  unfolding receive_new
  receive_new-OnceKept m =
      search
        (
          once_rules,
          ack_data-Quiet env,
          buffer_out_of_order_message-Quiet env,
          process-OnceKept env,
          flush-OnceKept env,
        )
        depth 24

  module _ (inner : Exec (Unit {0})) (safe : OnceKept inner) where
    handle_store_and_forward-OnceKept :
        (h : Header) (p : Payload) → OnceKept (handle_store_and_forward env h p inner)
    unfolding handle_store_and_forward
    handle_store_and_forward-OnceKept h (text t) = search once_rules
    handle_store_and_forward-OnceKept h (object t) = search once_rules
    handle_store_and_forward-OnceKept h (delta info pending) =
        search (once_rules, keeps_rules) depth 8
    handle_store_and_forward-OnceKept h (relay info original) =
        OnceKept-if (not (is_relay_envelope_valid env info original)) _ _ (search once_rules) (
          OnceKept-if (info.target_peer_id == env.self) _ _
            (OnceKept-bind inner _ safe (λ _. search once_rules))
            (search (once_rules, keeps_rules) depth 8))

    receive_unless_handled-OnceKept :
        (type : MessageType) (m : Message) → OnceKept (receive_unless_handled type env m inner)
    unfolding receive_unless_handled
    receive_unless_handled-OnceKept MessageType.store_and_forward (message h p) =
        search (once_rules, handle_store_and_forward-OnceKept, receive_new-OnceKept)
    receive_unless_handled-OnceKept _ m = receive_new-OnceKept m

    receive_timely-OnceKept : (m : Message) → OnceKept (receive_timely env m inner)
    unfolding receive_timely
    receive_timely-OnceKept (message h p) = search (once_rules, receive_unless_handled-OnceKept)

    dispatch-OnceKept : (type : MessageType) (m : Message) → OnceKept (dispatch type env m inner)
    unfolding dispatch
    dispatch-OnceKept MessageType.ack (message h p) = OnceKept-Quiet _ (handle_ack-Quiet env h)
    dispatch-OnceKept MessageType.nak (message h p) = OnceKept-Quiet _ (handle_nak-Quiet env h)
    dispatch-OnceKept _ m = receive_timely-OnceKept m

    receive_admitted-OnceKept : (m : Message) → OnceKept (receive_admitted env m inner)
    unfolding receive_admitted
    receive_admitted-OnceKept (message h p) =
        search (once_rules, handover-Quiet env, dispatch-OnceKept)

    limit_by_peer-OnceKept : (m : Message) → OnceKept (limit_by_peer env m inner)
    unfolding limit_by_peer
    limit_by_peer-OnceKept (message h p) =
        search (once_rules, allow-Quiet, receive_admitted-OnceKept)

    receive_with-OnceKept : (m : Message) → OnceKept (receive_with env m inner)
    unfolding receive_with
    receive_with-OnceKept (message h p) =
        search (once_rules, allow_origin-Quiet, limit_by_peer-OnceKept)

  receive-OnceKept : (m : Message) → OnceKept (receive env m)
  unfolding receive
  receive-OnceKept (message h (relay info original)) =
      receive_with-OnceKept (receive env original) (receive-OnceKept original)
        (message h (relay info original))
  receive-OnceKept (message h (text t)) =
      receive_with-OnceKept skip (OnceKept-Quiet _ (Quiet-pure tt)) (message h (text t))
  receive-OnceKept (message h (object t)) =
      receive_with-OnceKept skip (OnceKept-Quiet _ (Quiet-pure tt)) (message h (object t))
  receive-OnceKept (message h (delta info pending)) =
      receive_with-OnceKept skip (OnceKept-Quiet _ (Quiet-pure tt)) (message h (delta info pending))

-- A run of the router: messages that come in one after another, each in surroundings of its own
-- (time, keys, network). A throw ends the handling of its own message.
unfoldable pub receive_all : List (Env × Message) → Router → Router
receive_all [] s = s
receive_all ((env, m) ∷ rest) s = receive_all rest (receive env m s).1

receive_all-Once : (calls : List (Env × Message)) (s : Router) → Once s → Once (receive_all calls s)
unfolding receive_all
receive_all-Once [] s h = h
receive_all-Once ((env, m) ∷ rest) s h =
    receive_all-Once rest (receive env m s).1 ((receive-OnceKept env m).at s h)

nothing-Once : (s : Router) → s.delivered ≡ [] → Once s
nothing-Once s e = record { distinct = rw e tt; seen = λ id d. absurd (false≢true (rw e at d)) }

-- From a router that has handed nothing over, whatever messages come in, in whatever order and
-- however often, relayed or not, and whatever fails on the way, no two messages that are handed to
-- the application have one id.
pub receive_all_at_most_once :
    (calls : List (Env × Message)) (s : Router)
    → s.delivered ≡ []
    → DistinctIds (receive_all calls s).delivered
receive_all_at_most_once calls s none_yet =
    (receive_all-Once calls s (nothing-Once s none_yet)).distinct

-- In such a run every message that was handed to the application is in the table of processed
-- messages when the run ends.
pub receive_all_recorded :
    (calls : List (Env × Message)) (s : Router) (id : String)
    → s.delivered ≡ []
    → was_delivered id (receive_all calls s).delivered ≡ true
    → is_message_processed (receive_all calls s).db id ≡ true
receive_all_recorded calls s id none_yet =
    (receive_all-Once calls s (nothing-Once s none_yet)).seen id
