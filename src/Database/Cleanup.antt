-- ===== src/Database/Cleanup.antt =====
-- cleanup and the deletions that it makes (src/database/index.ts). The deletions from the
-- tables of sessions and of peer metadata are in Sessions and Contacts, and the whole in Whole.
use yapyap.Prelude.{
  ℕ, ◌+◌, ◌*◌, ◌≡◌, refl, String, List, [], ◌∷◌, Bool, true, false, ◌&&◌, ◌||◌, not, string_keys,
  leb, ltb, keep, any, all, is_some, arith,
}
use yapyap.Map.{get}
use yapyap.Database.{Db, PendingStatus, PendingRow, ReplicatedRow, ProcessedRow}

abbrev is_settled : PendingStatus → Bool
is_settled PendingStatus.pending = false
is_settled PendingStatus.processing = false
is_settled PendingStatus.delivered = true
is_settled PendingStatus.failed = true

pub delete_stale_routing_entries : ℕ → Db → Db
delete_stale_routing_entries now db = record db {
  routing_cache = keep (λ e. not (ltb (e.1.last_seen + e.1.ttl) now)) db.routing_cache;
}

pub delete_expired_pending_messages : ℕ → Db → Db
delete_expired_pending_messages now db = record db {
  pending_messages =
      keep (λ e. not (leb e.1.deadline_at now || is_settled e.1.status)) db.pending_messages;
}

-- the replicas of a deleted row go with it
pub delete_expired_replicated_messages : ℕ → Db → Db
delete_expired_replicated_messages now db =
    let left =
      keep (λ e. not (leb e.1.deadline_at now || is_settled e.1.status)) db.replicated_messages in
    record db {
      replicated_messages = left;
      message_replicas = keep (λ e. is_some (get left e.0.0)) db.message_replicas;
    }

abbrev pub processed_max_age_ms : ℕ
processed_max_age_ms = 7 * 24 * 60 * 60 * 1000

-- processed_at < now - maxAge
pub delete_old_processed_messages : ℕ → Db → Db
delete_old_processed_messages now db = record db {
  processed_messages =
      keep (λ e. not (ltb (e.1.processed_at + processed_max_age_ms) now)) db.processed_messages;
}

pub cleanup : ℕ → Db → Db
cleanup now db = delete_old_processed_messages now (
    delete_expired_replicated_messages now
      (delete_expired_pending_messages now (delete_stale_routing_entries now db)))

-- A row of either queue that cleanup may keep.
abbrev pub is_live : ℕ → ℕ → PendingStatus → Bool
is_live now deadline status = not (leb deadline now || is_settled status)

module _ {ℓ} {A : Type ℓ} where
  any-keep :
      (p q r : A → Bool)
      → ((e : A) → q e ≡ r e)
      → (rows : List A) → any p (keep q rows) ≡ any (λ e. r e && p e) rows
  any-keep p q r h [] = refl
  any-keep p q r h (e ∷ rows) = ground (arith, h e, any-keep p q r h rows)

  all-keep : (p : A → Bool) (rows : List A) → all p (keep p rows) ≡ true
  all-keep p [] = refl
  all-keep p (e ∷ rows) = ground (arith, all-keep p rows)

-- What cleanup keeps of the queue, of the replicated messages and of the processed ids, seen
-- through any test on the rows: of the queue and of the replicated messages exactly the rows that
-- are neither settled nor past their deadline, and of the processed messages exactly those that are
-- not older than the maximal age.
pub cleanup_keeps :
    (now : ℕ) (db : Db) (is_pending : String × PendingRow → Bool)
    (is_replicated : String × ReplicatedRow → Bool) (is_processed : String × ProcessedRow → Bool)
    → (any is_pending (cleanup now db).pending_messages
        ≡ any (λ e. is_live now e.1.deadline_at e.1.status && is_pending e) db.pending_messages)
      × (any is_replicated (cleanup now db).replicated_messages
          ≡ any
              (λ e. is_live now e.1.deadline_at e.1.status && is_replicated e)
              db.replicated_messages)
      × (any is_processed (cleanup now db).processed_messages
          ≡ any
              (λ e. leb now (e.1.processed_at + processed_max_age_ms) && is_processed e)
              db.processed_messages)
unfolding cleanup delete_stale_routing_entries delete_expired_pending_messages
    delete_expired_replicated_messages delete_old_processed_messages
cleanup_keeps now db is_pending is_replicated is_processed = (
  any-keep is_pending _ _ (λ e. refl) db.pending_messages,
  any-keep is_replicated _ _ (λ e. refl) db.replicated_messages,
  any-keep is_processed _ _ (λ e. ground arith) db.processed_messages,
)

-- No replica row is left without the row of its message.
pub cleanup_leaves_no_orphans :
    (now : ℕ) (db : Db)
    → all
        (λ e. is_some (get (cleanup now db).replicated_messages e.0.0))
        (cleanup now db).message_replicas
      ≡ true
unfolding cleanup delete_stale_routing_entries delete_expired_pending_messages
    delete_expired_replicated_messages delete_old_processed_messages
cleanup_leaves_no_orphans now db = all-keep _ db.message_replicas
