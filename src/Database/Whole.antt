-- ===== src/Database/Whole.antt =====
-- The whole database of src/database/index.ts, and its cleanup over all the tables.
use yapyap.Prelude.{ℕ}
use yapyap.Database.{Db}
use yapyap.Database.Cleanup.{
  delete_stale_routing_entries, delete_expired_pending_messages, delete_expired_replicated_messages,
  delete_old_processed_messages,
}
use yapyap.Database.Sessions.{SessionTable, delete_expired_sessions}
use yapyap.Database.Contacts.{PeerTables, delete_expired_peer_metadata}

pub record Database (V : Type 0) : Type 0 where
  pub messages : Db
  pub sessions : SessionTable
  pub peers : PeerTables V

unfoldable pub cleanup_database : {V : Type 0} → ℕ → Database V → Database V
cleanup_database now d = record {
  messages = delete_old_processed_messages now (
      delete_expired_replicated_messages now
        (delete_expired_pending_messages now (delete_stale_routing_entries now d.messages)));
  sessions = delete_expired_sessions now d.sessions;
  peers = (delete_expired_peer_metadata now d.peers).1;
}
