-- ===== src/Sessions.antt =====
-- SessionManager of src/crypto/session-manager.ts over the table of sessions. The primitives of
-- node:crypto and JSON text are functions of the surroundings; a call reads the clock once, but for
-- cleanupExpired, which reads it for every session and for the rows.
pub mod Backed
pub mod Runs
pub mod Tests
use yapyap.Prelude.{
  ℕ, ◌+◌, ◌*◌, ◌-◌, String, List, [], ◌∷◌, Option, none, some, Bool, true, false, ◌&&◌, not,
  if◌then◌else◌, ◌==◌, string_keys, leb, ltb, keep, map, length,
}
use yapyap.Map.{get, put, delete}
use yapyap.Sort.{sort_with}
use yapyap.Database.Sessions.{
  SessionRow, SessionTable, save_session, get_all_active_sessions, delete_expired_sessions,
}

pub record SessionKeys : Type 0 where
  pub encryption_key : List ℕ
  pub decryption_key : List ℕ

-- The fields of a noise session that this code reads or writes.
pub record NoiseSessionInfo : Type 0 where
  pub session_id : String
  pub peer_id : String
  pub static_public_key : List ℕ
  pub handshake_complete : Bool
  pub session_keys : Option SessionKeys

pub record Session : Type 0 where
  pub id : String
  pub peer_id : String
  pub public_key : List ℕ
  pub private_key : List ℕ
  pub created_at : ℕ
  pub expires_at : ℕ
  pub last_used : ℕ
  pub is_active : Bool
  pub noise_session_info : Option NoiseSessionInfo

pub record SessionManager : Type 0 where
  pub sessions : List (String × Session)
  pub table : SessionTable

pub record SessionEnv : Type 0 where
  pub now : ℕ
  pub random_uuid : String
  -- generateKeyPair, exported: the public key and the private key
  pub key_pair : List ℕ × List ℕ
  -- deriveSessionKeysHKDF of deriveSharedSecret, of a private and a public key; `none` is a throw
  pub derive_keys : List ℕ → List ℕ → Option SessionKeys
  -- JSON.stringify, and JSON.parse, where `none` is a throw
  pub text_of : NoiseSessionInfo → String
  pub parse : String → Option NoiseSessionInfo

abbrev pub default_session_lifetime : ℕ
default_session_lifetime = 60 * 60 * 1000

abbrev pub noise_text : SessionEnv → Option NoiseSessionInfo → String
noise_text env none = ""
noise_text env (some info) = env.text_of info

-- saveSessionToDatabase
unfoldable pub save_session_to_database : SessionEnv → Session → SessionTable → SessionTable
save_session_to_database env s table =
    save_session env.now s.id s.peer_id s.public_key s.private_key s.expires_at s.is_active
      (noise_text env s.noise_session_info) table

-- A session of the map, and its row in the table.
abbrev pub keep_session : SessionEnv → Session → SessionManager → SessionManager
keep_session env s m = record {
  sessions = put m.sessions s.id s;
  table = save_session_to_database env s m.table;
}

abbrev pub new_session : SessionEnv → String → Option NoiseSessionInfo → Session
new_session env peer noise = record {
  id = env.random_uuid;
  peer_id = peer;
  public_key = env.key_pair.0;
  private_key = env.key_pair.1;
  created_at = env.now;
  expires_at = env.now + default_session_lifetime;
  last_used = env.now;
  is_active = true;
  noise_session_info = noise;
}

unfoldable pub create_session :
    SessionEnv → String → Option NoiseSessionInfo → SessionManager → Session × SessionManager
create_session env peer noise m =
    (new_session env peer noise, keep_session env (new_session env peer noise) m)

abbrev pub is_expired : ℕ → Session → Bool
is_expired now s = ltb s.expires_at now

abbrev pub is_active_for : ℕ → String → Session → Bool
is_active_for now peer s = (s.peer_id == peer) && s.is_active && not (is_expired now s)

-- the newest first
unfoldable pub get_active_sessions_for_peer : ℕ → String → SessionManager → List Session
get_active_sessions_for_peer now peer m =
    sort_with (λ a b. leb b.created_at a.created_at)
      (keep (is_active_for now peer) (map (λ e. e.1) m.sessions))

abbrev pub first_or_new :
    SessionEnv
    → String
    → Option NoiseSessionInfo
    → List Session
    → SessionManager
    → Session × SessionManager
first_or_new env peer noise [] m = create_session env peer noise m
first_or_new env peer noise (s ∷ rest) m = (s, m)

unfoldable pub get_or_create_session :
    SessionEnv → String → Option NoiseSessionInfo → SessionManager → Session × SessionManager
get_or_create_session env peer noise m =
    first_or_new env peer noise (get_active_sessions_for_peer env.now peer m) m

abbrev pub closed : SessionEnv → Session → Session
closed env s = record s { is_active = false; expires_at = env.now }

abbrev pub invalidated : SessionEnv → String → Option Session → SessionManager → SessionManager
invalidated env id none m = m
invalidated env id (some s) m = record {
  sessions = delete m.sessions id;
  table = save_session_to_database env (closed env s) m.table;
}

unfoldable pub invalidate_session : SessionEnv → String → SessionManager → SessionManager
invalidate_session env id m = invalidated env id (get m.sessions id) m

abbrev pub unless_expired :
    SessionEnv → String → Option Session → SessionManager → Option Session × SessionManager
unless_expired env id none m = (none, m)
unless_expired env id (some s) m =
    if is_expired env.now s then (none, invalidate_session env id m) else (some s, m)

unfoldable pub get_session : SessionEnv → String → SessionManager → Option Session × SessionManager
get_session env id m = unless_expired env id (get m.sessions id) m

-- the noise session with its keys
abbrev pub with_keys : Session → SessionKeys → Option NoiseSessionInfo → NoiseSessionInfo
with_keys s keys none = record {
  session_id = s.id;
  peer_id = s.peer_id;
  static_public_key = s.public_key;
  handshake_complete = true;
  session_keys = some keys;
}
with_keys s keys (some info) = record info { session_keys = some keys; handshake_complete = true }

abbrev pub keyed : SessionEnv → Session → SessionKeys → Session
keyed env s keys = record s {
  noise_session_info = some (with_keys s keys s.noise_session_info);
  last_used = env.now;
}

abbrev pub store_keys :
    SessionEnv → Session → Option SessionKeys → SessionManager → Bool × SessionManager
store_keys env s none m = (false, m)
store_keys env s (some keys) m = (true, keep_session env (keyed env s keys) m)

abbrev pub derive_for :
    SessionEnv → List ℕ → Option Session × SessionManager → Bool × SessionManager
derive_for env peer_key (none, m) = (true, m)
derive_for env peer_key (some s, m) = store_keys env s (env.derive_keys s.private_key peer_key) m

-- deriveAndStoreSessionKeys, and whether it returns: it throws if a key cannot be read
unfoldable pub derive_and_store_session_keys :
    SessionEnv → String → List ℕ → SessionManager → Bool × SessionManager
derive_and_store_session_keys env id peer_key m = derive_for env peer_key (get_session env id m)

abbrev pub keys_of : Option Session → Option SessionKeys
keys_of none = none
keys_of (some s) = elim s.noise_session_info [ none ↦ none | some info ↦ info.session_keys ]

unfoldable pub get_session_keys :
    SessionEnv → String → SessionManager → Option SessionKeys × SessionManager
get_session_keys env id m = let (s, next) = get_session env id m in (keys_of s, next)

abbrev pub used : SessionEnv → Option Session → SessionManager → SessionManager
used env none m = m
used env (some s) m = keep_session env (record s { last_used = env.now }) m

unfoldable pub update_session_usage : SessionEnv → String → SessionManager → SessionManager
update_session_usage env id m = used env (get m.sessions id) m

-- The readings of the clock in one call of cleanupExpired.
abbrev pub Clock : Type 0
Clock = ℕ → ℕ

-- the loop of cleanupExpired over the entries that the map had, from the i-th reading on, with the
-- count so far: each session is looked at with one reading, and ended with the next one
unfoldable pub cleanup_sessions :
    SessionEnv → Clock → ℕ → List (String × Session) → ℕ → SessionManager → ℕ × SessionManager
cleanup_sessions env clock i [] count m = (count, m)
cleanup_sessions env clock i ((id, s) ∷ rest) count m =
    let expired = is_expired (clock i) s in
    cleanup_sessions env clock (i + 2) rest (if expired then count + 1 else count)
      (if expired then invalidate_session (record env { now = clock (i + 1) }) id m else m)

-- the clock is read again for the rows
unfoldable pub cleanup_expired : SessionEnv → Clock → SessionManager → ℕ × SessionManager
cleanup_expired env clock m =
    let (count, cleaned) = cleanup_sessions env clock 0 m.sessions 0 m in
    let last = clock (2 * length m.sessions) in
    (count, record cleaned { table = delete_expired_sessions last cleaned.table })

abbrev pub noise_of : SessionEnv → Option String → Option NoiseSessionInfo
noise_of env none = none
noise_of env (some text) = if text == "" then none else env.parse text

abbrev pub session_of : SessionEnv → String → SessionRow → Session
session_of env id row = record {
  id = id;
  peer_id = row.peer_id;
  public_key = row.public_key;
  private_key = row.private_key;
  created_at = row.created_at;
  expires_at = row.expires_at;
  last_used = row.last_used;
  is_active = row.is_active;
  noise_session_info = noise_of env row.noise_session_info;
}

-- the loop of loadSessionsFromDatabase
unfoldable pub load_rows : SessionEnv → SessionTable → SessionManager → SessionManager
load_rows env [] m = m
load_rows env ((id, row) ∷ rows) m =
    let s = session_of env id row in
    load_rows env rows (
      if not (is_expired env.now s) && s.is_active
      then record m { sessions = put m.sessions id s }
      else m)

-- init
unfoldable pub init : SessionEnv → SessionManager → SessionManager
init env m = load_rows env (get_all_active_sessions m.table) m

-- getStatistics: total, active and expired
unfoldable pub get_statistics : ℕ → SessionManager → ℕ × ℕ × ℕ
get_statistics now m =
    let active = length (keep (λ e. e.1.is_active && not (is_expired now e.1)) m.sessions) in
    (length m.sessions, active, length m.sessions - active)
