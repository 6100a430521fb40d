-- ===== src/Router/Retry/Queue.antt =====
-- What the search for relays in src/message/message-router.ts does to the queue of messages.
use yapyap.Prelude.{
  ℕ, String, List, [], ◌∷◌, Bool, true, false, ◌≡◌, refl, ap, ◌∙◌, if◌then◌else◌, Option, none,
  some, string_keys,
}
use yapyap.Prelude.Int.{ℤ}
use yapyap.Message.{Message}
use yapyap.Database.{Db}
use yapyap.Database.Replicas.{
  upsert_replicated_message, assign_message_replica, mark_replica_stored, mark_replica_failed,
  update_replica_ack_expected, update_replica,
}
use yapyap.Router.{Router, Env, Exec, Result, ok, err, pure, throw, gets, on_db, ◌>>=◌, try_catch}
use yapyap.Router.Limits.{bump_peer_score}
use yapyap.Router.Transport.{transmit, db-transmit}
use yapyap.Router.Outgoing.{or_throw}
use yapyap.Router.Retry.{
  relay_message, relay_peers, relay_to, relay_failed, relay_loop, try_fallback_relay_routes,
}

-- A change of the database that leaves the queue alone.
abbrev LeavesQueue : (Db → Db) → Type 0
LeavesQueue f = (db : Db) → (f db).pending_messages ≡ db.pending_messages

-- A method that leaves the queue alone, whether it returns or throws.
pub record KeepsQueue {A : Type 0} (m : Exec A) : Type 0 where
  pub at : (s : Router) → (m s).1.db.pending_messages ≡ s.db.pending_messages

module _ {A : Type 0} where
  KeepsQueue-pure : (a : A) → KeepsQueue (pure a)
  unfolding pure
  KeepsQueue-pure a = record { at = λ s. refl }

  KeepsQueue-or_throw : (e : String) (o : Option A) → KeepsQueue (or_throw e o)
  unfolding or_throw throw
  KeepsQueue-or_throw e none = record { at = λ s. refl }
  KeepsQueue-or_throw e (some a) = KeepsQueue-pure a

  KeepsQueue-gets : (f : Router → A) → KeepsQueue (gets f)
  unfolding gets
  KeepsQueue-gets f = record { at = λ s. refl }

  KeepsQueue-if :
      (b : Bool) (m n : Exec A) → KeepsQueue m → KeepsQueue n → KeepsQueue (if b then m else n)
  KeepsQueue-if true m n km kn = km
  KeepsQueue-if false m n km kn = kn

  KeepsQueue-try_catch :
      (m : Exec A) (f : String → Exec A)
      → KeepsQueue m
      → ((e : String) → KeepsQueue (f e))
      → KeepsQueue (try_catch m f)
  unfolding try_catch
  KeepsQueue-try_catch m f km kf = record { at = λ s. go s (m s).0 (m s).1 (km.at s) }
    where
      go :
          (s : Router) (r : Result A) (t : Router)
          → t.db.pending_messages ≡ s.db.pending_messages
          → (try_catch (λ _. (r, t)) f s).1.db.pending_messages ≡ s.db.pending_messages
      go s (ok a) t e = e
      go s (err x) t e = (kf x).at t ∙ e

module _ {A B : Type 0} where
  KeepsQueue-bind :
      (m : Exec A) (f : A → Exec B)
      → KeepsQueue m
      → ((a : A) → KeepsQueue (f a))
      → KeepsQueue (m >>= f)
  unfolding ◌>>=◌
  KeepsQueue-bind m f km kf = record { at = λ s. go s (m s).0 (m s).1 (km.at s) }
    where
      go :
          (s : Router) (r : Result A) (t : Router)
          → t.db.pending_messages ≡ s.db.pending_messages
          → ((◌>>=◌ (λ _. (r, t)) f) s).1.db.pending_messages ≡ s.db.pending_messages
      go s (ok a) t e = (kf a).at t ∙ e
      go s (err x) t e = e

KeepsQueue-on_db : (f : Db → Db) → LeavesQueue f → KeepsQueue (on_db f)
unfolding on_db
KeepsQueue-on_db f h = record { at = λ s. h s.db }

KeepsQueue-bump_peer_score : (peer : String) (delta : ℤ) → KeepsQueue (bump_peer_score peer delta)
unfolding bump_peer_score
KeepsQueue-bump_peer_score peer delta = record { at = λ s. refl }

KeepsQueue-transmit : (env : Env) (m : Message) → KeepsQueue (transmit env m)
KeepsQueue-transmit env m = record {
  at = λ s. ap (λ db. db.pending_messages) (db-transmit env m s);
}

module _ (now : ℕ) (id peer : String) where
  LeavesQueue-assign : LeavesQueue (assign_message_replica now id peer)
  unfolding assign_message_replica upsert_replicated_message
  LeavesQueue-assign db = refl

  LeavesQueue-stored : LeavesQueue (mark_replica_stored now id peer)
  unfolding mark_replica_stored update_replica
  LeavesQueue-stored db = refl

  LeavesQueue-replica_failed : (e : Option String) → LeavesQueue (mark_replica_failed now id peer e)
  unfolding mark_replica_failed update_replica
  LeavesQueue-replica_failed e db = refl

  LeavesQueue-expected : (b : Bool) → LeavesQueue (update_replica_ack_expected now id peer b)
  unfolding update_replica_ack_expected update_replica
  LeavesQueue-expected b db = refl

  LeavesQueue-upsert :
      (source : String) (deadline : ℕ)
      → LeavesQueue (upsert_replicated_message now id peer source deadline)
  unfolding upsert_replicated_message
  LeavesQueue-upsert source deadline db = refl

ruleset queue_rules = (
  KeepsQueue-pure, KeepsQueue-or_throw, KeepsQueue-gets, KeepsQueue-if, KeepsQueue-try_catch,
  KeepsQueue-bind, KeepsQueue-on_db, KeepsQueue-bump_peer_score, KeepsQueue-transmit,
  LeavesQueue-assign, LeavesQueue-stored, LeavesQueue-replica_failed, LeavesQueue-expected,
  LeavesQueue-upsert,
)

module _ (env : Env) (m : Message) (error : String) where
  relay_to-KeepsQueue : (peer : String) (r : Message) → KeepsQueue (relay_to env m peer r)
  unfolding relay_to
  relay_to-KeepsQueue peer r = search queue_rules depth 10

  relay_message-KeepsQueue :
      (target reason peer : String) → KeepsQueue (relay_message env m target reason error peer)
  unfolding relay_message
  relay_message-KeepsQueue target reason peer = search queue_rules

  relay_peers-KeepsQueue : (target : String) → KeepsQueue (relay_peers env target)
  unfolding relay_peers
  relay_peers-KeepsQueue target = search queue_rules

  relay_failed-KeepsQueue :
      (peer : String) (relayed : Bool) → KeepsQueue (relay_failed env m error peer relayed)
  unfolding relay_failed
  relay_failed-KeepsQueue peer relayed = search queue_rules depth 10

  relay_loop-KeepsQueue :
      (assigned peers : List String) (relayed : Bool)
      → KeepsQueue (relay_loop env m error assigned peers relayed)
  unfolding relay_loop
  relay_loop-KeepsQueue assigned [] relayed = KeepsQueue-pure relayed
  relay_loop-KeepsQueue assigned (p ∷ peers) relayed =
      KeepsQueue-bind _ _
        (KeepsQueue-bind _ _
          (KeepsQueue-bind _ _ (search queue_rules) (λ _. relay_message-KeepsQueue _ _ p))
          (λ r.
            KeepsQueue-try_catch _ _ (relay_to-KeepsQueue p r)
              (λ _. relay_failed-KeepsQueue p relayed)))
        (λ so_far. relay_loop-KeepsQueue assigned peers so_far)

  pub try_fallback_relay_routes-KeepsQueue :
      (attempts : ℕ) → KeepsQueue (try_fallback_relay_routes env m attempts error)
  unfolding try_fallback_relay_routes
  try_fallback_relay_routes-KeepsQueue attempts =
      search (queue_rules, relay_peers-KeepsQueue, relay_loop-KeepsQueue) depth 10
