-- ===== src/Database/Pending.antt =====
-- pending_messages and message_history: the queue of outgoing messages (src/database/index.ts).
use yapyap.Prelude.{
  ◌≡◌, refl, ap, ◌∙◌, ==_refl, ℕ, ◌+◌, String, List, Option, none, some, Bool, true, false, ◌&&◌,
  ◌==◌, string_keys, leb, ltb, keep, take,
}
use yapyap.Map.{get, put, modify, get-modify, on_some}
use yapyap.Message.{Message}
use yapyap.Database.{
  Db, PendingRow, PendingStatus, HistoryRow, sending, Direction, outbound, history_keys, order_by,
}

-- upsertMessageHistory: a row that is there keeps its created_at
keep_created : Option HistoryRow → HistoryRow → HistoryRow
keep_created none row = row
keep_created (some old) row = record row { created_at = old.created_at }

unfoldable pub upsert_message_history : ℕ → String → Direction → HistoryRow → Db → Db
unfolding keep_created
upsert_message_history now id direction row db =
    let fresh = record row { created_at = now; updated_at = now } in
    let kept = keep_created (get db.message_history (id, direction)) fresh in
    record db { message_history = put db.message_history (id, direction) kept }

unfoldable pub history_of : PendingRow → HistoryRow
history_of entry = record {
  peer_id = entry.target_peer_id;
  status = sending entry.status;
  message_data = entry.message_data;
  attempts = entry.attempts;
  next_retry_at = some entry.next_retry_at;
  processed_at = none;
  created_at = 0;
  updated_at = 0;
}

unfoldable pub get_pending_message : Db → String → Option PendingRow
get_pending_message db id = get db.pending_messages id

-- syncOutboundHistory
unfoldable pub sync_outbound_history : ℕ → String → Db → Db
sync_outbound_history now id db = elim (get_pending_message db id) [
  | none ↦ db
  | some entry ↦ upsert_message_history now id outbound (history_of entry) db
]

-- INSERT … ON CONFLICT(message_id) DO UPDATE: a row that is there keeps attempts, next_retry_at,
-- created_at and last_error
queued_row : ℕ → Message → String → ℕ → Option PendingRow → PendingRow
queued_row now m target deadline none = record {
  target_peer_id = target;
  message_data = m;
  status = PendingStatus.pending;
  attempts = 0;
  next_retry_at = now;
  created_at = now;
  updated_at = now;
  deadline_at = deadline;
  last_error = none;
}
queued_row now m target deadline (some old) = record old {
  target_peer_id = target;
  message_data = m;
  status = PendingStatus.pending;
  updated_at = now;
  deadline_at = deadline;
}

-- queueMessage: the history row is written with attempts 0, whatever the queue's row says
unfoldable pub queue_message : ℕ → String → Message → String → ℕ → Db → Db
unfolding queued_row
queue_message now id m target deadline db =
    let row = queued_row now m target deadline (get db.pending_messages id) in
    let first = queued_row now m target deadline none in
    upsert_message_history now id outbound (history_of first)
      (record db { pending_messages = put db.pending_messages id row })

unfoldable pub update_pending : ℕ → String → (PendingRow → PendingRow) → Db → Db
update_pending now id f db =
    sync_outbound_history now id (record db { pending_messages = modify db.pending_messages id f })

unfoldable pub mark_message_status : ℕ → String → PendingStatus → Db → Db
mark_message_status now id status db = record db {
  pending_messages =
      modify db.pending_messages id (λ r. record r { status = status; updated_at = now });
}

unfoldable pub increment_attempts : ℕ → String → Db → Db
increment_attempts now id =
    update_pending now id (λ r. record r { attempts = r.attempts + 1; updated_at = now })

unfoldable pub schedule_retry : ℕ → String → ℕ → Option String → Db → Db
schedule_retry now id next reason = update_pending now id (λ r. record r {
  next_retry_at = next;
  updated_at = now;
  last_error = reason;
  attempts = r.attempts + 1;
})

unfoldable pub mark_pending_message_delivered : ℕ → String → Db → Db
mark_pending_message_delivered now id =
    update_pending now id
      (λ r. record r { status = PendingStatus.delivered; updated_at = now; last_error = none })

unfoldable pub mark_pending_message_failed : ℕ → String → Option String → Db → Db
mark_pending_message_failed now id reason =
    update_pending now id
      (λ r. record r { status = PendingStatus.failed; updated_at = now; last_error = reason })

unfoldable pub schedule_pending_retry : ℕ → String → ℕ → Option String → Db → Db
schedule_pending_retry now id next reason = update_pending now id (λ r. record r {
  status = PendingStatus.pending;
  attempts = r.attempts + 1;
  next_retry_at = next;
  updated_at = now;
  last_error = reason;
})

abbrev pub is_pending : PendingStatus → Bool
is_pending PendingStatus.pending = true
is_pending PendingStatus.processing = false
is_pending PendingStatus.delivered = false
is_pending PendingStatus.failed = false

-- WHERE status = 'pending' AND next_retry_at <= now AND deadline_at > now
abbrev pub is_retryable : ℕ → String × PendingRow → Bool
is_retryable now e = is_pending e.1.status && leb e.1.next_retry_at now && ltb now e.1.deadline_at

unfoldable pub get_retryable_pending_messages : ℕ → Db → List (String × PendingRow)
get_retryable_pending_messages now db =
    order_by (λ e. e.1.next_retry_at) (keep (is_retryable now) db.pending_messages)

-- WHERE status = 'pending' AND target_peer_id = peer AND deadline_at > now
abbrev pub is_pending_for : ℕ → String → String × PendingRow → Bool
is_pending_for now peer e =
    is_pending e.1.status && (e.1.target_peer_id == peer) && ltb now e.1.deadline_at

unfoldable pub get_pending_messages_for_peer : ℕ → String → ℕ → Db → List (String × PendingRow)
get_pending_messages_for_peer now peer limit db =
    take limit (order_by (λ e. e.1.created_at) (keep (is_pending_for now peer) db.pending_messages))

abbrev pub is_pending_since : ℕ → String × PendingRow → Bool
is_pending_since since e = ltb since e.1.created_at && is_pending e.1.status

unfoldable pub get_pending_messages_since : ℕ → ℕ → Db → List (String × PendingRow)
get_pending_messages_since since limit db =
    take limit (order_by (λ e. e.1.created_at) (keep (is_pending_since since) db.pending_messages))

pub pending-sync_outbound_history :
    (now : ℕ) (id : String) (db : Db)
    → (sync_outbound_history now id db).pending_messages ≡ db.pending_messages
unfolding sync_outbound_history upsert_message_history
pending-sync_outbound_history now id db = by_row (get_pending_message db id)
  where
    by_row :
        (found : Option PendingRow)
        → (elim found as (λ _. Db) [
          | none ↦ db
          | some entry ↦ upsert_message_history now id outbound (history_of entry) db
        ]).pending_messages
          ≡ db.pending_messages
    by_row none = refl
    by_row (some entry) = refl

pub get_pending_message-update_pending :
    (now : ℕ) (id : String) (f : PendingRow → PendingRow) (db : Db) (row : PendingRow)
    → get_pending_message db id ≡ some row
    → get_pending_message (update_pending now id f db) id ≡ some (f row)
unfolding update_pending get_pending_message
get_pending_message-update_pending now id f db row e =
    ap (λ rows. get rows id)
      (pending-sync_outbound_history now id
        (record db { pending_messages = modify db.pending_messages id f }))
    ∙ get-modify db.pending_messages id id f
    ∙ rw (==_refl id) (ap (on_some f) e)
