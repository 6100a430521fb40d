-- ===== src/Router/Quiet/Methods.antt =====
-- The methods of the router that are quiet.
use yapyap.Prelude.{ℕ, zero, suc, String, refl, Option, none, some, arith, string_keys}
use yapyap.Message.{Message, message, Header}
use yapyap.Database.{PendingRow}
use yapyap.Database.Clocks.{update_vector_clock}
use yapyap.Router.{Env, change, skip, ◌>>◌}
use yapyap.Router.Transport.{copies_of_failed, put_on_wire, transmit_loop, transmit}
use yapyap.Router.Outgoing.{
  apply_outgoing_vector_clock, or_throw, encrypt_payload, transmit_reporting, queue_outgoing, send,
  send_ack,
}
use yapyap.Router.Ordering.{remember_processed_message, buffer_out_of_order_message}
use yapyap.Router.Acks.{accept_ack, handle_ack, handle_nak, reschedule_nak, clear_pending_ack}
use yapyap.Router.Incoming.{
  ack_data, hand_over_entry, handover_pending_messages_to_peer, drop_empty_buffer,
}
use yapyap.Router.Quiet.{Quiet, quiet_rules, Quiet-pure, Quiet-throw, Quiet-bind, Quiet-put_on_wire}
use yapyap.Router.Quiet.Tables.{keeps_rules}

module _ (env : Env) where
  transmit_loop-Quiet :
      (m : Message) (left attempt : ℕ) (last : String)
      → Quiet (transmit_loop env m left attempt last)
  unfolding transmit_loop
  transmit_loop-Quiet m zero attempt last = search quiet_rules
  transmit_loop-Quiet m (suc left) attempt last =
      go (env.attempt m attempt) (transmit_loop-Quiet m left (suc attempt))
    where
      go :
          (o : Option String)
          → ((e : String) → Quiet (transmit_loop env m left (suc attempt) e))
          → Quiet (elim o [
            | none ↦ put_on_wire 1 m
            | some error ↦
                put_on_wire (copies_of_failed env m attempt) m
                >> transmit_loop env m left (suc attempt) error
          ])
      go none q = Quiet-put_on_wire 1 m
      go (some e) q =
          Quiet-bind _ _ (Quiet-put_on_wire (copies_of_failed env m attempt) m) (λ _. q e)

  pub transmit-Quiet : (m : Message) → Quiet (transmit env m)
  unfolding transmit
  transmit-Quiet m = search (quiet_rules, transmit_loop-Quiet)

  apply_outgoing_vector_clock-Quiet : (m : Message) → Quiet (apply_outgoing_vector_clock env m)
  unfolding apply_outgoing_vector_clock update_vector_clock
  apply_outgoing_vector_clock-Quiet (message h p) = record { at = λ s. (refl, refl) }

  or_throw-Quiet : {A : Type 0} (e : String) (o : Option A) → Quiet (or_throw e o)
  unfolding or_throw
  or_throw-Quiet e none = Quiet-throw e
  or_throw-Quiet e (some a) = Quiet-pure a

  encrypt_payload-Quiet : (m : Message) → Quiet (encrypt_payload env m)
  unfolding encrypt_payload
  encrypt_payload-Quiet (message h p) = search (quiet_rules, or_throw-Quiet)

  transmit_reporting-Quiet : (m : Message) → Quiet (transmit_reporting env m)
  unfolding transmit_reporting
  transmit_reporting-Quiet m = search (quiet_rules, transmit-Quiet)

  queue_outgoing-Quiet : (m : Message) → Quiet (queue_outgoing env m)
  unfolding queue_outgoing
  queue_outgoing-Quiet m = search (quiet_rules, keeps_rules)

  pub send-Quiet : (m : Message) → Quiet (send env m)
  unfolding send
  send-Quiet m =
      search
        (
          quiet_rules, apply_outgoing_vector_clock-Quiet, queue_outgoing-Quiet,
          encrypt_payload-Quiet, transmit_reporting-Quiet,
        )
        depth 14

  pub send_ack-Quiet : (m : Message) → Quiet (send_ack env m)
  unfolding send_ack
  send_ack-Quiet m = send-Quiet _

  pub ack_data-Quiet : (m : Message) → Quiet (ack_data env m)
  unfolding ack_data
  ack_data-Quiet m = search (quiet_rules, send_ack-Quiet)

  pub remember_processed_message-Quiet : (id : String) → Quiet (remember_processed_message env id)
  unfolding remember_processed_message
  remember_processed_message-Quiet id = record { at = λ s. (refl, refl) }

  pub buffer_out_of_order_message-Quiet : (m : Message) → Quiet (buffer_out_of_order_message m)
  unfolding buffer_out_of_order_message
  buffer_out_of_order_message-Quiet m = record { at = λ s. (ground arith, ground arith) }

  clear_pending_ack-Quiet : (id : String) → Quiet (clear_pending_ack id)
  unfolding clear_pending_ack
  clear_pending_ack-Quiet id = record { at = λ s. (refl, refl) }

  accept_ack-Quiet : (ack : Header) → Quiet (accept_ack env ack)
  unfolding accept_ack
  accept_ack-Quiet ack = search (quiet_rules, keeps_rules, clear_pending_ack-Quiet) depth 20

  pub handle_ack-Quiet : (ack : Header) → Quiet (handle_ack env ack)
  unfolding handle_ack
  handle_ack-Quiet ack = search (quiet_rules, accept_ack-Quiet) depth 8

  reschedule_nak-Quiet : (nak : Header) (entry : PendingRow) → Quiet (reschedule_nak env nak entry)
  unfolding reschedule_nak
  reschedule_nak-Quiet nak entry = search (quiet_rules, keeps_rules) depth 8

  reschedule_found-Quiet :
      (nak : Header) (found : Option PendingRow)
      → Quiet (elim found [ none ↦ skip | some entry ↦ reschedule_nak env nak entry ])
  reschedule_found-Quiet nak none = Quiet-pure tt
  reschedule_found-Quiet nak (some entry) = reschedule_nak-Quiet nak entry

  pub handle_nak-Quiet : (nak : Header) → Quiet (handle_nak env nak)
  unfolding handle_nak
  handle_nak-Quiet nak = search (quiet_rules, reschedule_found-Quiet) depth 8

  hand_over_entry-Quiet : (e : String × PendingRow) → Quiet (hand_over_entry env e)
  unfolding hand_over_entry
  hand_over_entry-Quiet (id, entry) = search (quiet_rules, keeps_rules, transmit-Quiet) depth 12

  pub handover-Quiet : (peer : String) → Quiet (handover_pending_messages_to_peer env peer)
  unfolding handover_pending_messages_to_peer
  handover-Quiet peer = search (quiet_rules, hand_over_entry-Quiet) depth 8

  pub drop_empty_buffer-Quiet : (peer : String) → Quiet (change (drop_empty_buffer peer))
  unfolding drop_empty_buffer change
  drop_empty_buffer-Quiet peer = record { at = λ s. (ground arith, ground arith) }
