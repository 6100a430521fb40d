-- ===== src/Sessions/Backed.antt =====
-- The sessions that SessionManager of src/crypto/session-manager.ts has in memory, and their rows.
use yapyap.Prelude.{
  ℕ, ◌≡◌, refl, sym, ap, subst, ◌∙◌, String, List, [], ◌∷◌, Option, none, some, Bool, true, false,
  arith, if◌then◌else◌, ◌==◌, string_keys, ==_iff, ==_refl, or_else,
}
use yapyap.Map.{get, get-put, get-delete}
use yapyap.Database.Sessions.{SessionRow, SessionTable, save_session}
use yapyap.Sessions.{
  Session, SessionManager, SessionEnv, SessionKeys, NoiseSessionInfo, noise_text,
  save_session_to_database, keep_session, new_session, create_session, is_expired,
  get_active_sessions_for_peer, first_or_new, get_or_create_session, closed, invalidated,
  invalidate_session, unless_expired, get_session, keyed, store_keys, derive_for,
  derive_and_store_session_keys, used, update_session_usage,
}

-- A row that keeps what a session needs after a restart.
pub record Agrees (s : Session) (row : SessionRow) : Type 0 where
  pub peer : row.peer_id ≡ s.peer_id
  pub secret : row.private_key ≡ s.private_key
  pub expiry : row.expires_at ≡ s.expires_at
  pub active : row.is_active ≡ true

-- A session in memory stands under its own id, is active, and has its row in the table.
pub record HasRow (table : SessionTable) (id : String) (s : Session) : Type 0 where
  pub named : s.id ≡ id
  pub active : s.is_active ≡ true
  pub row : SessionRow
  pub found : get table id ≡ some row
  pub agrees : Agrees s row

abbrev pub IsBacked : SessionManager → Type 0
IsBacked m = (id : String) (s : Session) → get m.sessions id ≡ some s → HasRow m.table id s

other_row :
    (old new : SessionTable) (id : String) (s : Session)
    → get new id ≡ get old id
    → HasRow old id s
    → HasRow new id s
other_row old new id s same h = record {
  named = h.named;
  active = h.active;
  row = h.row;
  found = same ∙ h.found;
  agrees = h.agrees;
}

pub some-eq : {A : Type 0} {a b : A} → some a ≡ some b → a ≡ b
some-eq {A} {a} {b} e = ap (λ o. or_else o a) e

-- What the map and the table have after a session was kept.
module _ (env : SessionEnv) (s : Session) (m : SessionManager) where
  saved : SessionRow
  saved = record {
    peer_id = s.peer_id;
    public_key = s.public_key;
    private_key = s.private_key;
    created_at = env.now;
    expires_at = s.expires_at;
    last_used = env.now;
    is_active = s.is_active;
    noise_session_info =
        if noise_text env s.noise_session_info == ""
        then none
        else some (noise_text env s.noise_session_info);
  }

  row-saved :
      (id : String)
      → get (save_session_to_database env s m.table) id
        ≡ (if s.id == id then some saved else get m.table id)
  unfolding save_session_to_database save_session saved
  row-saved id = get-put m.table s.id id saved

  saved-HasRow : s.is_active ≡ true → HasRow (save_session_to_database env s m.table) s.id s
  unfolding saved
  saved-HasRow alive = record {
    named = refl;
    active = alive;
    row = saved;
    found = row-saved s.id ∙ ap (λ b. if b then some saved else get m.table s.id) (==_refl s.id);
    agrees = record { peer = refl; secret = refl; expiry = refl; active = alive };
  }

  keep_session-IsBacked : s.is_active ≡ true → IsBacked m → IsBacked (keep_session env s m)
  keep_session-IsBacked alive h id t e =
      by_id (s.id == id) refl (sym (get-put m.sessions s.id id s) ∙ e)
    where
      by_id :
          (b : Bool)
          → (s.id == id) ≡ b
          → (if b then some s else get m.sessions id) ≡ some t
          → HasRow (save_session_to_database env s m.table) id t
      by_id true same k = subst (HasRow (save_session_to_database env s m.table) id) (some-eq k) (
          subst (λ i. HasRow (save_session_to_database env s m.table) i s) ((==_iff s.id id).0 same)
            (saved-HasRow alive))
      by_id false other k =
          other_row m.table (save_session_to_database env s m.table) id t
            (row-saved id ∙ ap (λ b. if b then some saved else get m.table id) other) (h id t k)

closed-IsBacked :
    (env : SessionEnv) (id : String) (s : Session) (m : SessionManager)
    → get m.sessions id ≡ some s
    → IsBacked m
    → IsBacked (invalidated env id (some s) m)
closed-IsBacked env id s m is h j t e = by_id (id == j) refl (sym (get-delete m.sessions id j) ∙ e)
  where
    named : (closed env s).id ≡ id
    named = (h id s is).named

    by_id :
        (b : Bool)
        → (id == j) ≡ b
        → (if b then none else get m.sessions j) ≡ some t
        → HasRow (save_session_to_database env (closed env s) m.table) j t
    by_id true same k = absurd (ground (arith, k))
    by_id false other k =
        other_row m.table (save_session_to_database env (closed env s) m.table) j t
          (row-saved env (closed env s) m j
            ∙ ap (λ b. if b then some (saved env (closed env s) m) else get m.table j)
                (ap (λ i. i == j) named ∙ other))
          (h j t k)

invalidated-IsBacked :
    (env : SessionEnv) (id : String) (o : Option Session) (m : SessionManager)
    → get m.sessions id ≡ o
    → IsBacked m
    → IsBacked (invalidated env id o m)
invalidated-IsBacked env id none m is h = h
invalidated-IsBacked env id (some s) m is h = closed-IsBacked env id s m is h

pub invalidate-IsBacked :
    (env : SessionEnv) (id : String) (m : SessionManager)
    → IsBacked m
    → IsBacked (invalidate_session env id m)
unfolding invalidate_session
invalidate-IsBacked env id m h = invalidated-IsBacked env id (get m.sessions id) m refl h

abbrev read_by :
    SessionEnv → String → Session → SessionManager → Bool → Option Session × SessionManager
read_by env id s m expired = if expired then (none, invalidate_session env id m) else (some s, m)

pub read-IsBacked :
    (env : SessionEnv) (id : String) (m : SessionManager)
    → IsBacked m
    → IsBacked (get_session env id m).1
unfolding get_session
read-IsBacked env id m h = by_session (get m.sessions id)
  where
    by_expiry : (s : Session) (b : Bool) → IsBacked (read_by env id s m b).1
    by_expiry s true = invalidate-IsBacked env id m h
    by_expiry s false = h

    by_session : (o : Option Session) → IsBacked (unless_expired env id o m).1
    by_session none = h
    by_session (some s) = by_expiry s (is_expired env.now s)

-- The session that is read is one of those in memory afterwards.
read-found :
    (env : SessionEnv) (id : String) (m : SessionManager) (s : Session)
    → (get_session env id m).0 ≡ some s
    → get (get_session env id m).1.sessions id ≡ some s
unfolding get_session
read-found env id m s = by_session (get m.sessions id) refl
  where
    by_expiry :
        (t : Session) (b : Bool)
        → get m.sessions id ≡ some t
        → (read_by env id t m b).0 ≡ some s
        → get (read_by env id t m b).1.sessions id ≡ some s
    by_expiry t true is e = absurd (ground (arith, e))
    by_expiry t false is e = is ∙ e

    by_session :
        (o : Option Session)
        → get m.sessions id ≡ o
        → (unless_expired env id o m).0 ≡ some s
        → get (unless_expired env id o m).1.sessions id ≡ some s
    by_session none is e = absurd (ground (arith, e))
    by_session (some t) is e = by_expiry t (is_expired env.now t) is e

pub derive-IsBacked :
    (env : SessionEnv) (id : String) (key : List ℕ) (m : SessionManager)
    → IsBacked m
    → IsBacked (derive_and_store_session_keys env id key m).1
unfolding derive_and_store_session_keys
derive-IsBacked env id key m h =
    by_session (get_session env id m).0 (get_session env id m).1 (read-found env id m)
      (read-IsBacked env id m h)
  where
    by_keys :
        (s : Session) (keys : Option SessionKeys) (next : SessionManager)
        → s.is_active ≡ true
        → IsBacked next
        → IsBacked (store_keys env s keys next).1
    by_keys s none next alive k = k
    by_keys s (some keys) next alive k = keep_session-IsBacked env (keyed env s keys) next alive k

    by_session :
        (o : Option Session) (next : SessionManager)
        → ((s : Session) → o ≡ some s → get next.sessions id ≡ some s)
        → IsBacked next
        → IsBacked (derive_for env key (o, next)).1
    by_session none next found k = k
    by_session (some s) next found k =
        by_keys s (env.derive_keys s.private_key key) next (k id s (found s refl)).active k

pub use-IsBacked :
    (env : SessionEnv) (id : String) (m : SessionManager)
    → IsBacked m
    → IsBacked (update_session_usage env id m)
unfolding update_session_usage
use-IsBacked env id m h = by_session (get m.sessions id) refl
  where
    by_session : (o : Option Session) → get m.sessions id ≡ o → IsBacked (used env o m)
    by_session none is = h
    by_session (some s) is =
        keep_session-IsBacked env (record s { last_used = env.now }) m (h id s is).active h

pub create-IsBacked :
    (env : SessionEnv) (peer : String) (noise : Option NoiseSessionInfo) (m : SessionManager)
    → IsBacked m
    → IsBacked (create_session env peer noise m).1
unfolding create_session
create-IsBacked env peer noise m h = keep_session-IsBacked env (new_session env peer noise) m refl h

pub get_or_create-IsBacked :
    (env : SessionEnv) (peer : String) (noise : Option NoiseSessionInfo) (m : SessionManager)
    → IsBacked m
    → IsBacked (get_or_create_session env peer noise m).1
unfolding get_or_create_session
get_or_create-IsBacked env peer noise m h = by_active (get_active_sessions_for_peer env.now peer m)
  where
    by_active : (found : List Session) → IsBacked (first_or_new env peer noise found m).1
    by_active [] = create-IsBacked env peer noise m h
    by_active (s ∷ rest) = h
