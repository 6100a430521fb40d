-- ===== src/Router/Quiet/Tables.antt =====
-- The writes to the database that leave the table of processed messages alone.
use yapyap.Prelude.{ℕ, String, ◌≡◌, refl, ◌∙◌, Option, arith, string_keys}
use yapyap.Message.{Message, message, Header, Messages, nil, cons, DeltaInfo, RelayInfo}
use yapyap.Database.{Db, PendingRow}
use yapyap.Database.Pending.{
  upsert_message_history, sync_outbound_history, queue_message, update_pending,
  mark_pending_message_delivered, increment_attempts, schedule_retry, schedule_pending_retry,
}
use yapyap.Database.Replicas.{
  upsert_replicated_message, assign_message_replica, mark_replica_stored, mark_replica_ack_received,
  update_replica_ack_expected, mark_replicated_message_delivered, update_replica, update_replicated,
}
use yapyap.Database.Clocks.{processed-merge_vector_clock}
use yapyap.Router.{Env}
use yapyap.Router.Incoming.{store_for_target, queue_delta, queue_deltas, apply_delta_sync_payload}
use yapyap.Router.Quiet.{KeepsProcessed}

module _ (now : ℕ) (id : String) where
  sync_outbound_history-KeepsProcessed : KeepsProcessed (sync_outbound_history now id)
  unfolding sync_outbound_history upsert_message_history
  sync_outbound_history-KeepsProcessed = record { at = λ db. ground arith }

  update_pending-KeepsProcessed :
      (f : PendingRow → PendingRow) → KeepsProcessed (update_pending now id f)
  unfolding update_pending
  update_pending-KeepsProcessed f = record {
    at = λ db. (sync_outbound_history-KeepsProcessed.at _);
  }

  pub queue_message-KeepsProcessed :
      (m : Message) (target : String) (deadline : ℕ)
      → KeepsProcessed (queue_message now id m target deadline)
  unfolding queue_message upsert_message_history
  queue_message-KeepsProcessed m target deadline = record { at = λ db. refl }

  pub mark_pending_message_delivered-KeepsProcessed :
      KeepsProcessed (mark_pending_message_delivered now id)
  unfolding mark_pending_message_delivered
  mark_pending_message_delivered-KeepsProcessed = update_pending-KeepsProcessed _

  pub increment_attempts-KeepsProcessed : KeepsProcessed (increment_attempts now id)
  unfolding increment_attempts
  increment_attempts-KeepsProcessed = update_pending-KeepsProcessed _

  pub schedule_retry-KeepsProcessed :
      (next : ℕ) (reason : Option String) → KeepsProcessed (schedule_retry now id next reason)
  unfolding schedule_retry
  schedule_retry-KeepsProcessed next reason = update_pending-KeepsProcessed _

  pub schedule_pending_retry-KeepsProcessed :
      (next : ℕ) (reason : Option String)
      → KeepsProcessed (schedule_pending_retry now id next reason)
  unfolding schedule_pending_retry
  schedule_pending_retry-KeepsProcessed next reason = update_pending-KeepsProcessed _

  pub mark_replica_ack_received-KeepsProcessed :
      (replica : String) → KeepsProcessed (mark_replica_ack_received now id replica)
  unfolding mark_replica_ack_received update_replica
  mark_replica_ack_received-KeepsProcessed replica = record { at = λ db. refl }

  pub mark_replicated_message_delivered-KeepsProcessed :
      KeepsProcessed (mark_replicated_message_delivered now id)
  unfolding mark_replicated_message_delivered update_replicated
  mark_replicated_message_delivered-KeepsProcessed = record { at = λ db. refl }

pub store_for_target-KeepsProcessed :
    (env : Env) (from : String) (info : RelayInfo) (h : Header) (original : Message)
    → KeepsProcessed (store_for_target env from info h original)
unfolding store_for_target queue_message upsert_message_history update_replica_ack_expected
    mark_replica_stored assign_message_replica upsert_replicated_message update_replica
store_for_target-KeepsProcessed env from info h original = record { at = λ db. refl }

queue_delta-processed :
    (now : ℕ) (m : Message) (db : Db)
    → (queue_delta now m db).processed_messages ≡ db.processed_messages
unfolding queue_delta queue_message upsert_message_history
queue_delta-processed now (message h p) db = ground arith

queue_deltas-processed :
    (now : ℕ) (ms : Messages) (db : Db)
    → (queue_deltas now ms db).processed_messages ≡ db.processed_messages
unfolding queue_deltas
queue_deltas-processed now nil db = refl
queue_deltas-processed now (cons m ms) db =
    queue_deltas-processed now ms (queue_delta now m db) ∙ queue_delta-processed now m db

pub apply_delta_sync_payload-KeepsProcessed :
    (now : ℕ) (info : DeltaInfo) (pending : Messages)
    → KeepsProcessed (apply_delta_sync_payload now info pending)
unfolding apply_delta_sync_payload
apply_delta_sync_payload-KeepsProcessed now info pending = record {
  at = λ db.
      queue_deltas-processed now pending _ ∙ processed-merge_vector_clock now info.vector_clock db;
}

pub ruleset keeps_rules = (
  queue_message-KeepsProcessed, mark_pending_message_delivered-KeepsProcessed,
  increment_attempts-KeepsProcessed, schedule_retry-KeepsProcessed,
  schedule_pending_retry-KeepsProcessed, mark_replica_ack_received-KeepsProcessed,
  mark_replicated_message_delivered-KeepsProcessed, store_for_target-KeepsProcessed,
  apply_delta_sync_payload-KeepsProcessed,
)
