-- ===== src/Sessions/Runs.antt =====
-- What cleanupExpired of src/crypto/session-manager.ts leaves, and runs of its methods.
use mathlib.Core.Bool.{false≢true}
use yapyap.Prelude.{
  ℕ, ◌+◌, ◌≡◌, refl, sym, ap, subst, ◌∙◌, String, List, [], ◌∷◌, Option, none, some, Bool, true,
  false, not, arith, if◌then◌else◌, ◌==◌, string_keys, ==_iff, ltb, keep, Bool-cases, inl, inr,
}
use yapyap.Map.{get, get-delete}
use yapyap.Database.Sessions.{SessionRow, SessionTable, delete_expired_sessions}
use yapyap.Sessions.{
  Session, SessionManager, SessionEnv, Clock, NoiseSessionInfo, create_session, is_expired,
  get_or_create_session, invalidated, invalidate_session, get_session,
  derive_and_store_session_keys, update_session_usage, cleanup_sessions, cleanup_expired,
}
use yapyap.Sessions.Backed.{
  IsBacked, some-eq, invalidate-IsBacked, create-IsBacked, get_or_create-IsBacked, derive-IsBacked,
  use-IsBacked, read-IsBacked,
}

invalidate-sessions :
    (env : SessionEnv) (j id : String) (m : SessionManager)
    → get (invalidate_session env j m).sessions id ≡ (if j == id then none else get m.sessions id)
unfolding invalidate_session
invalidate-sessions env j id m = by_session (get m.sessions j) refl
  where
    by_id :
        (b : Bool)
        → (j == id) ≡ b
        → get m.sessions j ≡ none
        → get m.sessions id ≡ (if b then none else get m.sessions id)
    by_id true same is = ap (get m.sessions) (sym ((==_iff j id).0 same)) ∙ is
    by_id false other is = refl

    by_session :
        (o : Option Session)
        → get m.sessions j ≡ o
        → get (invalidated env j o m).sessions id ≡ (if j == id then none else get m.sessions id)
    by_session none is = by_id (j == id) refl is
    by_session (some s) is = get-delete m.sessions j id

-- What is left in memory by the loop over some entries was there, and an entry that came first
-- under its id is not expired, where the clock stands still.
cleanup_sessions-left :
    (env : SessionEnv) (i : ℕ) (entries : List (String × Session)) (count : ℕ) (m : SessionManager)
    (id : String) (s : Session)
    → get (cleanup_sessions env (λ _. env.now) i entries count m).1.sessions id ≡ some s
    → (get m.sessions id ≡ some s)
      × ((t : Session) → get entries id ≡ some t → is_expired env.now t ≡ false)
unfolding cleanup_sessions get
cleanup_sessions-left env i [] count m id s e = (e, λ t k. absurd (ground (arith, k)))
cleanup_sessions-left env i ((j, t) ∷ rest) count m id s e = by_expiry (is_expired env.now t) refl (
    cleanup_sessions-left env (i + 2) rest (if is_expired env.now t then count + 1 else count)
      (if is_expired env.now t then invalidate_session env j m else m) id s e)
  where
    by_id :
        (b c : Bool)
        → is_expired env.now t ≡ b
        → ((u : Session) → get rest id ≡ some u → is_expired env.now u ≡ false)
        → (b ≡ true → c ≡ true → none ≡ some s)
        → (u : Session) → (if c then some t else get rest id) ≡ some u
        → is_expired env.now u ≡ false
    by_id b false is there gone u k = there u k
    by_id false true is there gone u k = ap (is_expired env.now) (sym (some-eq k)) ∙ is
    by_id true true is there gone u k = absurd (ground (arith, gone refl refl))

    kept_out :
        (c : Bool)
        → (if c then none else get m.sessions id) ≡ some s
        → (get m.sessions id ≡ some s) × (c ≡ true → none ≡ some s)
    kept_out true k = absurd (ground (arith, k))
    kept_out false k = (k, λ e. absurd (false≢true e))

    by_expiry :
        (b : Bool)
        → is_expired env.now t ≡ b
        → (get (if b then invalidate_session env j m else m).sessions id ≡ some s)
          × ((u : Session) → get rest id ≡ some u → is_expired env.now u ≡ false)
        → (get m.sessions id ≡ some s)
          × ((u : Session)
              → (if j == id then some t else get rest id) ≡ some u
              → is_expired env.now u ≡ false)
    by_expiry false is (here, there) =
        (here, by_id false (j == id) is there (λ e. absurd (false≢true e)))
    by_expiry true is (here, there) =
        let (old, gone) = kept_out (j == id) (sym (invalidate-sessions env j id m) ∙ here) in
        (old, by_id true (j == id) is there (λ e. gone))

keep-get :
    (p : String × SessionRow → Bool) (table : SessionTable) (id : String) (row : SessionRow)
    → get table id ≡ some row
    → ((key : String) → p (key, row) ≡ true)
    → get (keep p table) id ≡ some row
unfolding get
keep-get p [] id row e k = absurd (ground (arith, e))
keep-get p ((j, r) ∷ table) id row e k = elim (Bool-cases (j == id)) [
  | inl same ↦
      let first : r ≡ row = some-eq (ground (arith, e, same)) in
      let holds : p (j, r) ≡ true = subst (λ x. p (j, x) ≡ true) (sym first) (k j) in
      ground (arith, e, same, holds)
  | inr other ↦
      let later : get table id ≡ some row = ground (arith, e, other) in
      ground (arith, other, keep-get p table id row later k)
]

loop-IsBacked :
    (env : SessionEnv) (clock : Clock) (i : ℕ) (entries : List (String × Session)) (count : ℕ)
    (m : SessionManager)
    → IsBacked m
    → IsBacked (cleanup_sessions env clock i entries count m).1
unfolding cleanup_sessions
loop-IsBacked env clock i [] count m h = h
loop-IsBacked env clock i ((j, t) ∷ rest) count m h =
    loop-IsBacked env clock (i + 2) rest (if is_expired (clock i) t then count + 1 else count)
      (if is_expired (clock i) t
        then invalidate_session (record env { now = clock (i + 1) }) j m
        else m)
      (by_expiry (is_expired (clock i) t))
  where
    by_expiry :
        (b : Bool)
        → IsBacked (if b then invalidate_session (record env { now = clock (i + 1) }) j m else m)
    by_expiry true = invalidate-IsBacked (record env { now = clock (i + 1) }) j m h
    by_expiry false = h

cleanup-IsBacked :
    (env : SessionEnv) (m : SessionManager)
    → IsBacked m
    → IsBacked (cleanup_expired env (λ _. env.now) m).1
unfolding cleanup_expired delete_expired_sessions
cleanup-IsBacked env m h id s e =
    let (old, fresh) = cleanup_sessions-left env 0 m.sessions 0 m id s e in
    let k = loop-IsBacked env (λ _. env.now) 0 m.sessions 0 m h id s e in
    record {
      named = k.named;
      active = k.active;
      row = k.row;
      found =
          keep-get (λ r. not (ltb r.1.expires_at env.now))
            (cleanup_sessions env (λ _. env.now) 0 m.sessions 0 m).1.table id k.row k.found
            (λ key. ap not (ap (λ t. ltb t env.now) k.agrees.expiry ∙ fresh s old));
      agrees = k.agrees;
    }

-- The methods that change a session manager, but for init, each with its surroundings, in which
-- the clock shows one time.
pub data Op : Type 0 where
  create get_or_create : SessionEnv → String → Option NoiseSessionInfo → Op
  derive : SessionEnv → String → List ℕ → Op
  read use_session invalidate : SessionEnv → String → Op
  clean : SessionEnv → Op

unfoldable pub step : Op → SessionManager → SessionManager
step (create env peer noise) m = (create_session env peer noise m).1
step (get_or_create env peer noise) m = (get_or_create_session env peer noise m).1
step (derive env id key) m = (derive_and_store_session_keys env id key m).1
step (read env id) m = (get_session env id m).1
step (use_session env id) m = update_session_usage env id m
step (invalidate env id) m = invalidate_session env id m
step (clean env) m = (cleanup_expired env (λ _. env.now) m).1

unfoldable pub run : List Op → SessionManager → SessionManager
run [] m = m
run (o ∷ ops) m = run ops (step o m)

step-IsBacked : (o : Op) (m : SessionManager) → IsBacked m → IsBacked (step o m)
unfolding step
step-IsBacked (create env peer noise) m h = create-IsBacked env peer noise m h
step-IsBacked (get_or_create env peer noise) m h = get_or_create-IsBacked env peer noise m h
step-IsBacked (derive env id key) m h = derive-IsBacked env id key m h
step-IsBacked (read env id) m h = read-IsBacked env id m h
step-IsBacked (use_session env id) m h = use-IsBacked env id m h
step-IsBacked (invalidate env id) m h = invalidate-IsBacked env id m h
step-IsBacked (clean env) m h = cleanup-IsBacked env m h

run_from-IsBacked : (ops : List Op) (m : SessionManager) → IsBacked m → IsBacked (run ops m)
unfolding run
run_from-IsBacked [] m h = h
run_from-IsBacked (o ∷ ops) m h = run_from-IsBacked ops (step o m) (step-IsBacked o m h)

-- After any run of createSession, getOrCreateSession, deriveAndStoreSessionKeys, getSession, updateSessionUsage,
-- invalidateSession and cleanupExpired on a manager with no session in memory, where the clock shows one time within a
-- call and any time in the next one, and the database does not throw, whatever the primitives do and whatever the table
-- had: every session in memory stands under its own id, is active, and has a row in the table with its peer, its private
-- key and its expiry, marked active.
pub run-IsBacked :
    (ops : List Op) (table : SessionTable)
    → IsBacked (run ops (record { sessions = []; table = table }))
unfolding get
run-IsBacked ops table =
    run_from-IsBacked ops (record { sessions = []; table = table })
      (λ id s e. absurd (ground (arith, e)))
