-- ===== src/Database/Sessions.antt =====
-- The table of sessions in src/database/index.ts. A key's hexadecimal text is represented by the
-- bytes that it spells, and the text of the noise session by itself.
use yapyap.Prelude.{
  ℕ, String, List, Option, none, some, Bool, false, not, if◌then◌else◌, ◌==◌, string_keys, ltb,
  keep,
}
use yapyap.Map.{get, put, modify}

pub record SessionRow : Type 0 where
  pub peer_id : String
  pub public_key : List ℕ
  pub private_key : List ℕ
  pub created_at : ℕ
  pub expires_at : ℕ
  pub last_used : ℕ
  pub is_active : Bool
  pub noise_session_info : Option String

abbrev pub SessionTable : Type 0
SessionTable = List (String × SessionRow)

-- saveSession: both times are the clock's, whatever the session says
unfoldable pub save_session :
    ℕ → String → String → List ℕ → List ℕ → ℕ → Bool → String → SessionTable → SessionTable
save_session now id peer public_key private_key expires_at is_active noise table =
    put table id (record {
      peer_id = peer;
      public_key = public_key;
      private_key = private_key;
      created_at = now;
      expires_at = expires_at;
      last_used = now;
      is_active = is_active;
      noise_session_info = if noise == "" then none else some noise;
    })

unfoldable pub get_session_row : SessionTable → String → Option SessionRow
get_session_row table id = get table id

unfoldable pub get_all_active_sessions : SessionTable → SessionTable
get_all_active_sessions table = keep (λ e. e.1.is_active) table

unfoldable pub update_session_last_used : ℕ → String → SessionTable → SessionTable
update_session_last_used now id table = modify table id (λ row. record row { last_used = now })

unfoldable pub invalidate_session_row : String → SessionTable → SessionTable
invalidate_session_row id table = modify table id (λ row. record row { is_active = false })

unfoldable pub delete_expired_sessions : ℕ → SessionTable → SessionTable
delete_expired_sessions now table = keep (λ e. not (ltb e.1.expires_at now)) table
