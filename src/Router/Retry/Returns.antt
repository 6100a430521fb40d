-- ===== src/Router/Retry/Returns.antt =====
-- Which of the methods behind retry in src/message/message-router.ts can throw.
use yapyap.Prelude.{
  ℕ, String, List, [], ◌∷◌, Bool, true, false, ◌≡◌, ◌≢◌, refl, if◌then◌else◌, none, some, arith,
  Option,
}
use yapyap.Prelude.Int.{ℤ}
use yapyap.Message.{Message, RelayInfo}
use yapyap.Database.{Db}
use yapyap.Router.{
  Router, Env, Exec, Result, ok, err, pure, throw, gets, on_db, emit, RouterEvent, ◌>>=◌, try_catch,
  for_each,
}
use yapyap.Router.Limits.{bump_peer_score}
use yapyap.Router.Outgoing.{or_throw}
use yapyap.Router.Peers.{select_replica_peers}
use yapyap.Router.Peers.Readable.{select_replica_peers-readable}
use yapyap.Router.Retry.{
  max_fallback_relays, relay_message, relay_peers, relay_failed, relay_loop,
  try_fallback_relay_routes,
}

-- A method that never throws.
pub record Returns {A : Type 0} (m : Exec A) : Type 0 where
  pub at : (s : Router) → (a : A) × ((m s).0 ≡ ok a)

module _ {A : Type 0} where
  Returns-pure : (a : A) → Returns (pure a)
  unfolding pure
  Returns-pure a = record { at = λ s. (a, refl) }

  Returns-gets : (f : Router → A) → Returns (gets f)
  unfolding gets
  Returns-gets f = record { at = λ s. (f s, refl) }

  Returns-if : (b : Bool) (m n : Exec A) → Returns m → Returns n → Returns (if b then m else n)
  Returns-if true m n rm rn = rm
  Returns-if false m n rm rn = rn

  -- what is tried may throw, since what catches it does not
  Returns-try_catch :
      (m : Exec A) (f : String → Exec A) → ((e : String) → Returns (f e)) → Returns (try_catch m f)
  unfolding try_catch
  Returns-try_catch m f rf = record { at = λ s. go (m s).0 (m s).1 }
    where
      go : (r : Result A) (t : Router) → (a : A) × ((try_catch (λ _. (r, t)) f t).0 ≡ ok a)
      go (ok a) t = (a, refl)
      go (err e) t = (rf e).at t

module _ {A B : Type 0} where
  Returns-bind :
      (m : Exec A) (f : A → Exec B) → Returns m → ((a : A) → Returns (f a)) → Returns (m >>= f)
  unfolding ◌>>=◌
  Returns-bind m f rm rf = record { at = λ s. go (m s).0 (m s).1 (rm.at s) }
    where
      go :
          (r : Result A) (t : Router)
          → (a : A) × (r ≡ ok a)
          → (b : B) × (((◌>>=◌ (λ _. (r, t)) f) t).0 ≡ ok b)
      go (ok a) t e = (rf a).at t
      go (err x) t (a, e) = ground (arith, e)

module _ {A : Type 0} where
  Returns-for_each :
      (f : A → Exec (Unit {0})) (xs : List A) → ((a : A) → Returns (f a)) → Returns (for_each f xs)
  unfolding for_each
  Returns-for_each f [] r = Returns-pure tt
  Returns-for_each f (a ∷ xs) r = Returns-bind (f a) _ (r a) (λ _. Returns-for_each f xs r)

Returns-on_db : (f : Db → Db) → Returns (on_db f)
unfolding on_db
Returns-on_db f = record { at = λ s. (tt, refl) }

Returns-emit : (e : RouterEvent) → Returns (emit e)
unfolding emit
Returns-emit e = record { at = λ s. (tt, refl) }

Returns-bump_peer_score : (peer : String) (delta : ℤ) → Returns (bump_peer_score peer delta)
unfolding bump_peer_score
Returns-bump_peer_score peer delta = record { at = λ s. (tt, refl) }

ruleset returns_rules = (
  Returns-pure, Returns-gets, Returns-if, Returns-try_catch, Returns-bind, Returns-for_each,
  Returns-on_db, Returns-emit, Returns-bump_peer_score,
)

Returns-or_throw : {A : Type 0} (e : String) (o : Option A) → o ≢ none → Returns (or_throw e o)
unfolding or_throw throw pure
Returns-or_throw e none h = absurd (h refl)
Returns-or_throw e (some a) h = record { at = λ s. (a, refl) }

-- A context in which the ids of peers can be read, and signing a relay envelope does not throw.
pub record CanRelay (env : Env) : Type 0 where
  pub readable : (peer : String) → env.distance_bytes peer ≢ none
  pub signs : (info : RelayInfo) (m : Message) → env.sign_relay info m ≢ none

module _ (env : Env) (can : CanRelay env) where
  relay_message-Returns :
      (m : Message) (target reason error peer : String)
      → Returns (relay_message env m target reason error peer)
  unfolding relay_message
  relay_message-Returns m target reason error peer =
      Returns-bind _ _ (Returns-or_throw _ _ (can.signs _ m)) (λ signed. Returns-pure _)

  relay_peers-Returns : (target : String) → Returns (relay_peers env target)
  unfolding relay_peers ◌>>=◌ gets
  relay_peers-Returns target = record {
    at = λ s.
        (Returns-or_throw "Error: invalid peer id"
            (select_replica_peers env s target max_fallback_relays)
            (select_replica_peers-readable env can.readable s target max_fallback_relays)).at
          s;
  }

  relay_loop-Returns :
      (m : Message) (error : String) (assigned peers : List String) (relayed : Bool)
      → Returns (relay_loop env m error assigned peers relayed)
  unfolding relay_loop relay_failed
  relay_loop-Returns m error assigned [] relayed = Returns-pure relayed
  relay_loop-Returns m error assigned (p ∷ peers) relayed =
      Returns-bind _ _
        (Returns-bind _ _
          (Returns-bind _ _ (search returns_rules) (λ _. relay_message-Returns m _ _ _ p))
          (λ r. Returns-try_catch _ _ (λ _. search returns_rules)))
        (λ so_far. relay_loop-Returns m error assigned peers so_far)

  pub try_fallback_relay_routes-Returns :
      (m : Message) (attempts : ℕ) (error : String)
      → Returns (try_fallback_relay_routes env m attempts error)
  unfolding try_fallback_relay_routes
  try_fallback_relay_routes-Returns m attempts error =
      search (returns_rules, relay_peers-Returns, relay_loop-Returns)
