-- ===== src/Router/Incoming/Buffer.antt =====
-- The methods of src/message/message-router.ts that leave the out-of-order buffer alone.
use yapyap.Prelude.{
  ℕ, zero, suc, String, Bool, true, false, ◌≡◌, refl, ◌∙◌, if◌then◌else◌, Option, none, some,
}
use yapyap.Message.{Message, message}
use yapyap.Database.{Db}
use yapyap.Database.Clocks.{update_vector_clock}
use yapyap.Router.{
  Router, Env, Exec, Result, ok, err, pure, throw, change, on_db, emit, RouterEvent, ◌>>=◌, ◌>>◌,
  try_catch,
}
use yapyap.Router.Transport.{copies_of_failed, put_on_wire, transmit_loop, transmit}
use yapyap.Router.Outgoing.{
  apply_outgoing_vector_clock, or_throw, encrypt_payload, transmit_reporting, queue_outgoing, send,
  send_ack,
}
use yapyap.Router.Ordering.{remember_processed_message}
use yapyap.Router.Incoming.{
  persist, ack_data, hand_over, throw_some, notify, call_on_message, announce,
  process_accepted_incoming_message,
}

-- A method that leaves the buffer alone, whether it returns or throws.
pub record KeepsBuffer {A : Type 0} (m : Exec A) : Type 0 where
  pub at : (s : Router) → (m s).1.out_of_order_buffer ≡ s.out_of_order_buffer

module _ {A : Type 0} where
  KeepsBuffer-pure : (a : A) → KeepsBuffer (pure a)
  unfolding pure
  KeepsBuffer-pure a = record { at = λ s. refl }

  KeepsBuffer-throw : (e : String) → KeepsBuffer (throw {A = A} e)
  unfolding throw
  KeepsBuffer-throw e = record { at = λ s. refl }

  KeepsBuffer-if :
      (b : Bool) (m n : Exec A) → KeepsBuffer m → KeepsBuffer n → KeepsBuffer (if b then m else n)
  KeepsBuffer-if true m n km kn = km
  KeepsBuffer-if false m n km kn = kn

  KeepsBuffer-try_catch :
      (m : Exec A) (f : String → Exec A)
      → KeepsBuffer m
      → ((e : String) → KeepsBuffer (f e))
      → KeepsBuffer (try_catch m f)
  unfolding try_catch
  KeepsBuffer-try_catch m f km kf = record { at = λ s. caught s (m s).0 (m s).1 (km.at s) }
    where
      caught :
          (s : Router) (r : Result A) (t : Router)
          → t.out_of_order_buffer ≡ s.out_of_order_buffer
          → (try_catch (λ _. (r, t)) f s).1.out_of_order_buffer ≡ s.out_of_order_buffer
      caught s (ok a) t e = e
      caught s (err x) t e = (kf x).at t ∙ e

module _ {A B : Type 0} where
  KeepsBuffer-bind :
      (m : Exec A) (f : A → Exec B)
      → KeepsBuffer m
      → ((a : A) → KeepsBuffer (f a))
      → KeepsBuffer (m >>= f)
  unfolding ◌>>=◌
  KeepsBuffer-bind m f km kf = record { at = λ s. continued s (m s).0 (m s).1 (km.at s) }
    where
      continued :
          (s : Router) (r : Result A) (t : Router)
          → t.out_of_order_buffer ≡ s.out_of_order_buffer
          → ((◌>>=◌ (λ _. (r, t)) f) s).1.out_of_order_buffer ≡ s.out_of_order_buffer
      continued s (ok a) t e = (kf a).at t ∙ e
      continued s (err x) t e = e

KeepsBuffer-on_db : (f : Db → Db) → KeepsBuffer (on_db f)
unfolding on_db
KeepsBuffer-on_db f = record { at = λ s. refl }

KeepsBuffer-emit : (e : RouterEvent) → KeepsBuffer (emit e)
unfolding emit
KeepsBuffer-emit e = record { at = λ s. refl }

KeepsBuffer-put_on_wire : (n : ℕ) (m : Message) → KeepsBuffer (put_on_wire n m)
unfolding put_on_wire
KeepsBuffer-put_on_wire n m = record { at = λ s. refl }

KeepsBuffer-hand_over : (m : Message) → KeepsBuffer (hand_over m)
unfolding hand_over
KeepsBuffer-hand_over m = record { at = λ s. refl }

KeepsBuffer-or_throw : {A : Type 0} (e : String) (o : Option A) → KeepsBuffer (or_throw e o)
unfolding or_throw
KeepsBuffer-or_throw e none = KeepsBuffer-throw e
KeepsBuffer-or_throw e (some a) = KeepsBuffer-pure a

ruleset buffer_rules = (
  KeepsBuffer-pure, KeepsBuffer-throw, KeepsBuffer-if, KeepsBuffer-try_catch, KeepsBuffer-bind,
  KeepsBuffer-on_db, KeepsBuffer-emit, KeepsBuffer-put_on_wire, KeepsBuffer-hand_over,
  KeepsBuffer-or_throw,
)

module _ (env : Env) where
  transmit_loop-KeepsBuffer :
      (m : Message) (left attempt : ℕ) (last : String)
      → KeepsBuffer (transmit_loop env m left attempt last)
  unfolding transmit_loop
  transmit_loop-KeepsBuffer m zero attempt last = search buffer_rules
  transmit_loop-KeepsBuffer m (suc left) attempt last =
      attempted (env.attempt m attempt) (transmit_loop-KeepsBuffer m left (suc attempt))
    where
      attempted :
          (o : Option String)
          → ((e : String) → KeepsBuffer (transmit_loop env m left (suc attempt) e))
          → KeepsBuffer (elim o [
            | none ↦ put_on_wire 1 m
            | some error ↦
                put_on_wire (copies_of_failed env m attempt) m
                >> transmit_loop env m left (suc attempt) error
          ])
      attempted none k = KeepsBuffer-put_on_wire 1 m
      attempted (some e) k =
          KeepsBuffer-bind _ _ (KeepsBuffer-put_on_wire (copies_of_failed env m attempt) m)
            (λ _. k e)

  transmit-KeepsBuffer : (m : Message) → KeepsBuffer (transmit env m)
  unfolding transmit
  transmit-KeepsBuffer m = search (buffer_rules, transmit_loop-KeepsBuffer)

  apply_outgoing_vector_clock-KeepsBuffer :
      (m : Message) → KeepsBuffer (apply_outgoing_vector_clock env m)
  unfolding apply_outgoing_vector_clock update_vector_clock
  apply_outgoing_vector_clock-KeepsBuffer (message h p) = record { at = λ s. refl }

  encrypt_payload-KeepsBuffer : (m : Message) → KeepsBuffer (encrypt_payload env m)
  unfolding encrypt_payload
  encrypt_payload-KeepsBuffer (message h p) = search buffer_rules

  transmit_reporting-KeepsBuffer : (m : Message) → KeepsBuffer (transmit_reporting env m)
  unfolding transmit_reporting
  transmit_reporting-KeepsBuffer m = search (buffer_rules, transmit-KeepsBuffer)

  send-KeepsBuffer : (m : Message) → KeepsBuffer (send env m)
  unfolding send queue_outgoing
  send-KeepsBuffer m =
      search
        (
          buffer_rules, apply_outgoing_vector_clock-KeepsBuffer, encrypt_payload-KeepsBuffer,
          transmit_reporting-KeepsBuffer,
        )
        depth 14

  ack_data-KeepsBuffer : (m : Message) → KeepsBuffer (ack_data env m)
  unfolding ack_data send_ack
  ack_data-KeepsBuffer m = search (buffer_rules, send-KeepsBuffer)

  persist-KeepsBuffer : (m : Message) → KeepsBuffer (persist env m)
  unfolding persist
  persist-KeepsBuffer m = record { at = λ s. refl }

  remember_processed_message-KeepsBuffer :
      (id : String) → KeepsBuffer (remember_processed_message env id)
  unfolding remember_processed_message change
  remember_processed_message-KeepsBuffer id = record { at = λ s. refl }

  throw_some-KeepsBuffer : (o : Option String) → KeepsBuffer (throw_some o)
  unfolding throw_some
  throw_some-KeepsBuffer none = KeepsBuffer-pure tt
  throw_some-KeepsBuffer (some e) = KeepsBuffer-throw e

  notify-KeepsBuffer :
      (o : Option (Message → Option String)) (m : Message) → KeepsBuffer (notify o m)
  unfolding notify
  notify-KeepsBuffer none m = KeepsBuffer-pure tt
  notify-KeepsBuffer (some f) m = search (buffer_rules, throw_some-KeepsBuffer)

  announce-KeepsBuffer : (m : Message) → KeepsBuffer (announce env m)
  unfolding announce call_on_message
  announce-KeepsBuffer m = search (buffer_rules, ack_data-KeepsBuffer, notify-KeepsBuffer) depth 10

  pub process_accepted_incoming_message-KeepsBuffer :
      (m : Message) → KeepsBuffer (process_accepted_incoming_message env m)
  unfolding process_accepted_incoming_message
  process_accepted_incoming_message-KeepsBuffer m =
      search
        (
          buffer_rules, persist-KeepsBuffer, remember_processed_message-KeepsBuffer,
          announce-KeepsBuffer, ack_data-KeepsBuffer,
        )
        depth 10
