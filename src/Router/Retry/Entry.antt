-- ===== src/Router/Retry/Entry.antt =====
-- What one round of retry of src/message/message-router.ts does to the queue's row.
use yapyap.Prelude.{
  ℕ, ◌+◌, ◌≤◌, ◌<◌, String, Bool, true, false, ◌≡◌, ◌≢◌, refl, ap, sym, subst, ◌∙◌, none, some,
  arith, string_keys, ◌⊎◌, inl, inr, ltb, if◌then◌else◌,
}
use yapyap.Map.{get}
use yapyap.Message.{Message}
use yapyap.Database.{PendingRow, PendingStatus}
use yapyap.Database.Pending.{
  get_pending_message, schedule_pending_retry, get_pending_message-update_pending,
}
use yapyap.Router.{
  Router, Env, Exec, Result, ok, err, pure, on_db, ◌>>=◌, try_catch, resume, recover,
}
use yapyap.Router.Limits.{calculate_backoff_delay}
use yapyap.Router.Transport.{transmit, sent, transmit_gives_up}
use yapyap.Router.Retry.{
  try_fallback_relay_routes, deliver_entry, reschedule_entry, retry_entry, max_retry_attempts,
  fallback_relay_threshold_attempts, retry_error,
}
use yapyap.Router.Retry.Returns.{CanRelay, try_fallback_relay_routes-Returns}
use yapyap.Router.Retry.Queue.{try_fallback_relay_routes-KeepsQueue}

module _ {A B : Type 0} (m : Exec A) (s t : Router) where
  bind-ok : (f : A → Exec B) (a : A) → m s ≡ (ok a, t) → (m >>= f) s ≡ f a t
  unfolding ◌>>=◌
  bind-ok f a e = ap (λ r. resume f r.0 r.1) e

  bind-err : (f : A → Exec B) (x : String) → m s ≡ (err x, t) → (m >>= f) s ≡ (err x, t)
  unfolding ◌>>=◌
  bind-err f x e = ap (λ r. resume f r.0 r.1) e

module _ {A : Type 0} (m : Exec A) (s t : Router) where
  try_catch-err : (f : String → Exec A) (x : String) → m s ≡ (err x, t) → try_catch m f s ≡ f x t
  unfolding try_catch
  try_catch-err f x e = ap (λ r. recover f r.0 r.1) e

-- The row that is left when every attempt fails.
abbrev pub rescheduled : ℕ → PendingRow → String → PendingRow
rescheduled now entry reason = record entry {
  status = PendingStatus.pending;
  attempts = entry.attempts + 1;
  next_retry_at = now + calculate_backoff_delay entry.attempts;
  updated_at = now;
  last_error = some reason;
}

-- How a round ends whose message was not sent.
abbrev Outcome : Env → String → PendingRow → Result (Unit {0}) × Router → Type 0
Outcome env id entry r =
    ((r.0 ≡ ok tt)
      × ((reason : String) × (get_pending_message r.1.db id
            ≡ some (rescheduled env.now entry reason))))
    ⊎ (error : String) × (r.0 ≡ err error)
      × (fallback_relay_threshold_attempts ≤ entry.attempts)
      × (¬ CanRelay env)
      × (get_pending_message r.1.db id ≡ some entry)

if-throws :
    {A : Type 0} (b : Bool) (a : A) (m : Exec A) (s : Router) (x : String)
    → ((if b then pure a else m) s).0 ≡ err x
    → b ≡ false
unfolding pure
if-throws true a m s x e = cc
if-throws false a m s x e = refl

-- The search for relays throws only for a message that has had enough attempts for relays.
try_fallback_relay_routes-throws :
    (env : Env) (m : Message) (attempts : ℕ) (error : String) (s : Router) (x : String)
    → (try_fallback_relay_routes env m attempts error s).0 ≡ err x
    → fallback_relay_threshold_attempts ≤ attempts
unfolding try_fallback_relay_routes
try_fallback_relay_routes-throws env m attempts error s x e =
    let many : ltb attempts fallback_relay_threshold_attempts ≡ false =
      if-throws (ltb attempts fallback_relay_threshold_attempts) false _ s x e in
    ground (arith, many)

-- It throws only if some id cannot be read or some envelope cannot be signed.
try_fallback_relay_routes-cannot :
    (env : Env) (m : Message) (attempts : ℕ) (error : String) (s : Router) (x : String)
    → (try_fallback_relay_routes env m attempts error s).0 ≡ err x
    → ¬ CanRelay env
try_fallback_relay_routes-cannot env m attempts error s x e can =
    let (relayed, returned) = (try_fallback_relay_routes-Returns env can m attempts error).at s in
    cc

module _ (env : Env) (id : String) (entry : PendingRow) where
  retry_entry-tries :
      (s : Router)
      → entry.next_retry_at ≤ env.now
      → entry.attempts < max_retry_attempts
      → retry_entry env (id, entry) s
        ≡ try_catch (deliver_entry env (id, entry)) (reschedule_entry env (id, entry)) s
  unfolding retry_entry
  retry_entry-tries s due few = ground (arith, due, few)

  deliver_entry-fails :
      (s t : Router) (error : String)
      → transmit env entry.message_data s ≡ (err error, t)
      → deliver_entry env (id, entry) s ≡ (err error, t)
  unfolding deliver_entry
  deliver_entry-fails s t error e = bind-err (transmit env entry.message_data) s t _ error e

  reschedule_entry-Outcome :
      (s : Router) (error : String)
      → get_pending_message s.db id ≡ some entry
      → Outcome env id entry (reschedule_entry env (id, entry) error s)
  unfolding reschedule_entry on_db schedule_pending_retry get_pending_message
  reschedule_entry-Outcome s error there = go (relaying s).0 refl
    where
      relaying : Exec Bool
      relaying = try_fallback_relay_routes env entry.message_data entry.attempts error

      after : Router
      after = (relaying s).1

      row_is_there : get after.db.pending_messages id ≡ some entry
      row_is_there =
          ap (λ rows. get rows id)
            ((try_fallback_relay_routes-KeepsQueue env entry.message_data error entry.attempts).at
              s)
          ∙ there

      go :
          (r : Result Bool)
          → (relaying s).0 ≡ r
          → Outcome env id entry (reschedule_entry env (id, entry) error s)
      go (ok relayed) e =
          let whole = bind-ok relaying s after _ relayed (ap (λ r. (r, after)) e) in
          inl (
            ap (λ r. r.0) whole,
            (
              retry_error relayed error,
              ap (λ r. get_pending_message r.1.db id) whole
                  ∙ get_pending_message-update_pending env.now id
                      (λ row. record row {
                        status = PendingStatus.pending;
                        attempts = row.attempts + 1;
                        next_retry_at = env.now + calculate_backoff_delay entry.attempts;
                        updated_at = env.now;
                        last_error = some (retry_error relayed error);
                      })
                      after.db entry row_is_there,
            ),
          )
      go (err x) e =
          let whole = bind-err relaying s after _ x (ap (λ r. (r, after)) e) in
          inr (
            x,
            ap (λ r. r.0) whole,
            try_fallback_relay_routes-throws env entry.message_data entry.attempts error s x e,
            try_fallback_relay_routes-cannot env entry.message_data entry.attempts error s x e,
            ap (λ r. get_pending_message r.1.db id) whole ∙ row_is_there,
          )

-- A retryable message of the queue that has had fewer attempts than the maximum, and none of whose
-- attempts to be sent ends well now, stays in the queue. Either this round returns, whether or not relays
-- take the message: then one attempt is counted, and the next one is due after the backoff for the
-- attempts before. Or the search for relays throws out of the round: then the message has had at least three
-- attempts, not every peer's id can be read or not every relay envelope can be signed, and the row is as it
-- was, due at once.
pub retry_entry_reschedules :
    (env : Env) (id : String) (entry : PendingRow) (s : Router)
    → get_pending_message s.db id ≡ some entry
    → entry.next_retry_at ≤ env.now
    → entry.attempts < max_retry_attempts
    → ((i : ℕ) → i ≤ env.reconnect_attempts → env.attempt entry.message_data i ≢ none)
    → (((retry_entry env (id, entry) s).0 ≡ ok tt)
        × ((reason : String) × (get_pending_message (retry_entry env (id, entry) s).1.db id
              ≡ some (rescheduled env.now entry reason))))
      ⊎ (error : String) × ((retry_entry env (id, entry) s).0 ≡ err error)
        × (fallback_relay_threshold_attempts ≤ entry.attempts)
        × (¬ CanRelay env)
        × (get_pending_message (retry_entry env (id, entry) s).1.db id ≡ some entry)
retry_entry_reschedules env id entry s there due few never =
    let (error, n, given_up) = transmit_gives_up env entry.message_data s never in
    let after = sent n entry.message_data s in
    let caught : retry_entry env (id, entry) s ≡ reschedule_entry env (id, entry) error after =
      retry_entry-tries env id entry s due few
      ∙ try_catch-err (deliver_entry env (id, entry)) s after _ error
          (deliver_entry-fails env id entry s after error given_up) in
    subst (Outcome env id entry) (sym caught)
      (reschedule_entry-Outcome env id entry after error there)
