-- ===== src/Node.antt =====
-- The keys of peers in src/core/node.ts: where they are kept, who waits for them, and the handshake
-- that brings them. A promise that waits is a number; `resolved` lists those that were resolved.
pub mod Keys
pub mod Attempts
pub mod Payload
pub mod Decrypted
pub mod Tests
use yapyap.Prelude.{
  ℕ, zero, suc, ◌+◌, String, List, [], ◌∷◌, ◌++◌, Option, none, some, Bool, true, false, ◌&&◌, ◌||◌,
  not, leb, nat_eq, if◌then◌else◌, ◌==◌, string_keys, is_some, or_else, keep, any,
}
use yapyap.Map.{get, put, delete, modify}
use yapyap.Framing.{Bytes}
use yapyap.Text.{codes, hex_bytes}
use yapyap.Database.Keys.{NodeKeyTable, NodeKey, get_node_key}
use yapyap.Database.Sessions.{SessionRow, SessionTable, get_all_active_sessions}
use yapyap.Sessions.{SessionManager, SessionEnv, create_session}
use yapyap.Handshake.Hex.{uint8_array_to_hex}

pub record Node : Type 0 where
  pub node_keys : NodeKeyTable
  -- the rows of peer_metadata with the key "public_key": hexadecimal texts as codes
  pub metadata_keys : List (String × List ℕ)
  pub sessions : SessionManager
  pub peer_key_versions : List (String × ℕ)
  pub peer_key_waiters : List (String × List ℕ)
  pub peer_key_refresh_pending : List String
  pub peer_key_refresh_pending_version : List (String × ℕ)
  pub handshake_in_progress : List String
  pub resolved : List ℕ

-- the public key of the first session of the peer
abbrev pub session_key_of : String → SessionTable → Option Bytes
session_key_of peer [] = none
session_key_of peer ((id, row) ∷ rows) =
    if row.peer_id == peer then some row.public_key else session_key_of peer rows

abbrev pub metadata_or : Option Bytes → Option (List ℕ) → Option Bytes
metadata_or session none = session
metadata_or session (some text) = some (hex_bytes text)

-- the row's key unless it is empty, or else the others
abbrev pub first_key : Option NodeKey → Option Bytes → Option Bytes
first_key none others = others
first_key (some row) others =
    if row.public_key == "" then others else some (hex_bytes (codes row.public_key))

-- fetchRecipientPublicKey
unfoldable pub fetch_recipient_public_key : String → Node → Option Bytes
fetch_recipient_public_key peer node = first_key (get_node_key node.node_keys peer) (
    metadata_or (session_key_of peer (get_all_active_sessions node.sessions.table))
      (get node.metadata_keys peer))

abbrev pub version_of : String → Node → ℕ
version_of peer node = or_else (get node.peer_key_versions peer) 0

abbrev pub should_refresh_peer_public_key : String → Node → Bool
should_refresh_peer_public_key peer node = any (λ p. p == peer) node.peer_key_refresh_pending

abbrev pub should_wait : String → Bool → Node → Bool
should_wait peer force_refresh node =
    not (is_some (fetch_recipient_public_key peer node))
    || (force_refresh
        && leb (version_of peer node)
            (or_else (get node.peer_key_refresh_pending_version peer) (version_of peer node)))

abbrev pub add_waiter : String → ℕ → Node → Node
add_waiter peer waiter node = record node {
  peer_key_waiters =
      put node.peer_key_waiters peer (or_else (get node.peer_key_waiters peer) [] ++ waiter ∷ []);
}

-- waitForPeerPublicKey, with the number of its promise: whether it waits
unfoldable pub wait_for_peer_public_key : ℕ → String → Bool → Node → Bool × Node
wait_for_peer_public_key waiter peer force_refresh node =
    if not (should_wait peer force_refresh node)
    then (false, node)
    else if force_refresh && not (should_refresh_peer_public_key peer node)
    then (false, node)
    else (true, add_waiter peer waiter node)

-- removePeerKeyWaiter, when the time of a promise is over
unfoldable pub remove_peer_key_waiter : String → ℕ → Node → Node
remove_peer_key_waiter peer waiter node = record node {
  peer_key_waiters =
      modify node.peer_key_waiters peer (λ waiters. keep (λ w. not (nat_eq w waiter)) waiters);
}

-- signalPeerKeyAvailable: for a peer without waiters nothing is called, and nothing is deleted
unfoldable pub signal_peer_key_available : String → Node → Node
signal_peer_key_available peer node = record node {
  resolved = node.resolved ++ or_else (get node.peer_key_waiters peer) [];
  peer_key_waiters = delete node.peer_key_waiters peer;
}

abbrev pub add_to_set : String → List String → List String
add_to_set peer peers = if any (λ p. p == peer) peers then peers else peers ++ peer ∷ []

unfoldable pub mark_peer_key_refresh_pending : String → Node → Node
mark_peer_key_refresh_pending peer node = record node {
  peer_key_refresh_pending = add_to_set peer node.peer_key_refresh_pending;
  peer_key_refresh_pending_version =
      put node.peer_key_refresh_pending_version peer (version_of peer node);
}

unfoldable pub clear_peer_key_refresh : String → Node → Node
clear_peer_key_refresh peer node = record node {
  peer_key_refresh_pending = keep (λ p. not (p == peer)) node.peer_key_refresh_pending;
  peer_key_refresh_pending_version = delete node.peer_key_refresh_pending_version peer;
}

abbrev pub store_peer_key : String → Bytes → Node → Node
store_peer_key peer key node = record node {
  metadata_keys = put node.metadata_keys peer (uint8_array_to_hex key);
  peer_key_versions = put node.peer_key_versions peer (version_of peer node + 1);
}

-- createSession; if the database throws, the new session is in memory and has no row
abbrev pub open_session : SessionEnv → Bool → String → Node → Node
open_session env session_saved peer node = record node {
  sessions =
      let made = (create_session env peer none node.sessions).1 in
      if session_saved then made else record made { table = node.sessions.table };
}

-- processHandshake, for the key that the message has, and whether it ends well: createSession throws
-- where the session cannot be saved, and then buildResponse throws without libp2p
unfoldable pub process_handshake :
    SessionEnv → Bool → Bool → Option Bytes → String → Node → Bool × Node
process_handshake env libp2p_ready session_saved none peer node = (false, node)
process_handshake env libp2p_ready session_saved (some key) peer node = (
  session_saved && libp2p_ready,
  open_session env session_saved peer
      (clear_peer_key_refresh peer (signal_peer_key_available peer (store_peer_key peer key node))),
)

-- How one attempt of performHandshake goes: it throws before there is an answer, the stream gives
-- no bytes, or it gives an answer, with its public key and whether a session can then be saved.
pub data Attempt : Type 0 where
  throws_early no_answer : Attempt
  answered_with : Option Bytes → Bool → Attempt

abbrev pub handshake_max_attempts : ℕ
handshake_max_attempts = 3

abbrev pub take_answer : SessionEnv → Bool → Attempt → String → Node → Bool × Node
take_answer env ready throws_early peer node = (false, node)
take_answer env ready no_answer peer node = (true, node)
take_answer env ready (answered_with key saved) peer node =
    process_handshake env ready saved key peer node

-- the loop over the attempts that are left, and whether one of them ends well
unfoldable pub attempt_loop :
    SessionEnv → Bool → (ℕ → Attempt) → ℕ → ℕ → String → Node → Bool × Node
attempt_loop env ready attempts attempt zero peer node = (false, node)
attempt_loop env ready attempts attempt (suc left) peer node =
    let (fine, next) = take_answer env ready (attempts attempt) peer node in
    let rest = attempt_loop env ready attempts (attempt + 1) left peer next in
    if fine then (true, next) else rest

-- the finally block
abbrev pub finished : String → Bool × Node → Bool × Node
finished peer (fine, node) = (
  fine,
  clear_peer_key_refresh peer (record node {
    handshake_in_progress = keep (λ p. not (p == peer)) node.handshake_in_progress;
  }),
)

-- performHandshake of a node that has libp2p and an encryption key; `false` is a throw
unfoldable pub perform_handshake : SessionEnv → Bool → (ℕ → Attempt) → String → Node → Bool × Node
perform_handshake env ready attempts peer node =
    if any (λ p. p == peer) node.handshake_in_progress
    then (true, node)
    else finished peer (
        attempt_loop env ready attempts 1 handshake_max_attempts peer
          (record node { handshake_in_progress = add_to_set peer node.handshake_in_progress }))
