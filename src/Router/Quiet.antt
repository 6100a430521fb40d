-- ===== src/Router/Quiet.antt =====
-- Methods that hand nothing to the application and leave the table of processed messages alone:
-- one rule for each way to build a method, and the methods.
pub mod Tables
pub mod Methods
use yapyap.Prelude.{
  ℕ, zero, suc, String, ◌≡◌, refl, ◌∙◌, List, [], ◌∷◌, Option, none, some, Bool, true, false, arith,
  if◌then◌else◌, is_some, not, ◌&&◌, ◌==◌, string_keys, or_else,
}
use yapyap.Prelude.Int.{ℤ}
use yapyap.Message.{
  Message, message, Header, header, Messages, nil, cons, is_object, is_data, DeltaInfo, RelayInfo,
  Payload,
}
use yapyap.Database.{Db, PendingRow}
use yapyap.Database.Pending
use yapyap.Database.Pending.{
  upsert_message_history, sync_outbound_history, queue_message, update_pending,
  mark_pending_message_delivered, mark_pending_message_failed, increment_attempts, schedule_retry,
  schedule_pending_retry,
}
use yapyap.Database.Replicas.{
  upsert_replicated_message, assign_message_replica, mark_replica_stored, mark_replica_ack_received,
  update_replica_ack_expected, mark_replicated_message_delivered, update_replica, update_replicated,
}
use yapyap.Database.Clocks.{update_vector_clock, merge_vector_clock, processed-merge_vector_clock}
use yapyap.Database.Processed.{is_message_processed}
use yapyap.Router.{
  Router, Env, Exec, Result, ok, err, pure, throw, gets, change, skip, on_db, emit, ◌>>=◌, ◌>>◌,
  try_catch, for_each, RouterEvent,
}
use yapyap.Router.Limits.{bump_peer_score}
use yapyap.Router.Transport.{put_on_wire, transmit_loop, transmit}
use yapyap.Router.Outgoing.{
  apply_outgoing_vector_clock, or_throw, encrypt_object, encrypt_payload, transmit_reporting,
  queue_outgoing, send, send_ack, recipient_key,
}
use yapyap.Router.Ordering.{remember_processed_message, buffer_out_of_order_message}
use yapyap.Router.Acks.{
  accept_ack, handle_ack, handle_nak, reschedule_nak, clear_pending_ack, validate_ack, is_valid,
}

-- A method that is quiet, whether it returns or throws.
pub record Quiet {A : Type 0} (m : Exec A) : Type 0 where
  pub at :
      (s : Router)
      → ((m s).1.delivered ≡ s.delivered)
        × ((m s).1.db.processed_messages ≡ s.db.processed_messages)

-- The same of a change of the database.
pub record KeepsProcessed (f : Db → Db) : Type 0 where
  pub at : (db : Db) → (f db).processed_messages ≡ db.processed_messages

module _ {A : Type 0} where
  pub Quiet-pure : (a : A) → Quiet (pure a)
  unfolding pure
  Quiet-pure a = record { at = λ s. (refl, refl) }

  pub Quiet-throw : (e : String) → Quiet (throw {A = A} e)
  unfolding throw
  Quiet-throw e = record { at = λ s. (refl, refl) }

  pub Quiet-gets : (f : Router → A) → Quiet (gets f)
  unfolding gets
  Quiet-gets f = record { at = λ s. (refl, refl) }

  pub Quiet-if : (b : Bool) (m n : Exec A) → Quiet m → Quiet n → Quiet (if b then m else n)
  Quiet-if true m n qm qn = qm
  Quiet-if false m n qm qn = qn

module _ {A B : Type 0} where
  pub Quiet-bind :
      (m : Exec A) (f : A → Exec B) → Quiet m → ((a : A) → Quiet (f a)) → Quiet (m >>= f)
  unfolding ◌>>=◌
  Quiet-bind m f qm qf = record { at = λ s. go s (m s).0 (m s).1 (qm.at s) }
    where
      go :
          (s : Router) (r : Result A) (t : Router)
          → (t.delivered ≡ s.delivered) × (t.db.processed_messages ≡ s.db.processed_messages)
          → (((◌>>=◌ (λ _. (r, t)) f) s).1.delivered ≡ s.delivered)
            × (((◌>>=◌ (λ _. (r, t)) f) s).1.db.processed_messages ≡ s.db.processed_messages)
      go s (ok a) t e = (((qf a).at t).0 ∙ e.0, ((qf a).at t).1 ∙ e.1)
      go s (err x) t e = e

module _ {A : Type 0} where
  pub Quiet-try_catch :
      (m : Exec A) (f : String → Exec A)
      → Quiet m
      → ((e : String) → Quiet (f e))
      → Quiet (try_catch m f)
  unfolding try_catch
  Quiet-try_catch m f qm qf = record { at = λ s. go s (m s).0 (m s).1 (qm.at s) }
    where
      go :
          (s : Router) (r : Result A) (t : Router)
          → (t.delivered ≡ s.delivered) × (t.db.processed_messages ≡ s.db.processed_messages)
          → ((try_catch (λ _. (r, t)) f s).1.delivered ≡ s.delivered)
            × ((try_catch (λ _. (r, t)) f s).1.db.processed_messages ≡ s.db.processed_messages)
      go s (ok a) t e = e
      go s (err x) t e = (((qf x).at t).0 ∙ e.0, ((qf x).at t).1 ∙ e.1)

  pub Quiet-for_each :
      (f : A → Exec (Unit {0})) (xs : List A) → ((a : A) → Quiet (f a)) → Quiet (for_each f xs)
  unfolding for_each
  Quiet-for_each f [] q = Quiet-pure tt
  Quiet-for_each f (a ∷ xs) q = Quiet-bind (f a) _ (q a) (λ _. Quiet-for_each f xs q)

pub Quiet-on_db : (f : Db → Db) → KeepsProcessed f → Quiet (on_db f)
unfolding on_db
Quiet-on_db f k = record { at = λ s. (refl, k.at s.db) }

pub Quiet-emit : (e : RouterEvent) → Quiet (emit e)
unfolding emit
Quiet-emit e = record { at = λ s. (refl, refl) }

pub Quiet-put_on_wire : (n : ℕ) (m : Message) → Quiet (put_on_wire n m)
unfolding put_on_wire
Quiet-put_on_wire n m = record { at = λ s. (refl, refl) }

pub Quiet-bump_peer_score : (peer : String) (delta : ℤ) → Quiet (bump_peer_score peer delta)
unfolding bump_peer_score
Quiet-bump_peer_score peer delta = record { at = λ s. (refl, refl) }

pub ruleset quiet_rules = (
  Quiet-pure, Quiet-throw, Quiet-gets, Quiet-if, Quiet-bind, Quiet-try_catch, Quiet-for_each,
  Quiet-on_db, Quiet-emit, Quiet-put_on_wire, Quiet-bump_peer_score,
)
