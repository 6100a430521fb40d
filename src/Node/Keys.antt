-- ===== src/Node/Keys.antt =====
-- What a handshake brings to those who wait for a key, in src/core/node.ts.
use yapyap.Prelude.{
  ℕ, ◌+◌, ◌≡◌, refl, ◌∙◌, String, List, [], ◌∷◌, ◌++◌, none, some, Bool, true, false, arith, not,
  ◌==◌, string_keys, ==_refl, or_else, keep, any,
}
use yapyap.Map.{get, get-put, get-delete}
use yapyap.Framing.{Bytes}
use yapyap.Framing.Header.{AreBytes}
use yapyap.Database.Keys.{get_node_key}
use yapyap.Sessions.{SessionEnv}
use yapyap.Handshake.Hex.{uint8_array_to_hex, hex_bytes-uint8_array_to_hex}
use yapyap.Node.{
  Node, fetch_recipient_public_key, version_of, should_refresh_peer_public_key,
  wait_for_peer_public_key, signal_peer_key_available, clear_peer_key_refresh, process_handshake,
}

any-keep_others :
    (peer : String) (peers : List String)
    → any (λ p. p == peer) (keep (λ p. not (p == peer)) peers) ≡ false
any-keep_others peer [] = refl
any-keep_others peer (p ∷ peers) = ground (arith, any-keep_others peer peers)

-- The waiters of a peer, which may have none.
abbrev pub waiters_of : String → Node → List ℕ
waiters_of peer node = or_else (get node.peer_key_waiters peer) []

-- What holds of a peer when its key has come.
pub record HasArrived (peer : String) (key : Bytes) (before after : Node) : Type 0 where
  pub is_fetched : fetch_recipient_public_key peer after ≡ some key
  pub are_resolved : after.resolved ≡ before.resolved ++ waiters_of peer before
  pub none_waits : get after.peer_key_waiters peer ≡ none
  pub others_wait :
      (other : String)
      → (peer == other) ≡ false
      → get after.peer_key_waiters other ≡ get before.peer_key_waiters other
  pub has_next_version : version_of peer after ≡ version_of peer before + 1
  pub none_has_to_wait :
      (waiter : ℕ) (force_refresh : Bool)
      → wait_for_peer_public_key waiter peer force_refresh after ≡ (false, after)

module _ (env : SessionEnv) (libp2p_ready session_saved : Bool) (key : Bytes) (peer : String)
    (node : Node) where
  abbrev arrived : Node
  arrived = (process_handshake env libp2p_ready session_saved (some key) peer node).1

  fetched :
      AreBytes key
      → get_node_key node.node_keys peer ≡ none
      → fetch_recipient_public_key peer arrived ≡ some key
  unfolding fetch_recipient_public_key process_handshake clear_peer_key_refresh
      signal_peer_key_available
  fetched bytes none_there =
      rw
        (
          none_there,
          get-put node.metadata_keys peer peer (uint8_array_to_hex key),
          ==_refl peer,
          hex_bytes-uint8_array_to_hex key bytes,
        )
        refl

  is_next_version : version_of peer arrived ≡ version_of peer node + 1
  unfolding process_handshake clear_peer_key_refresh signal_peer_key_available
  is_next_version =
      rw (get-put node.peer_key_versions peer peer (version_of peer node + 1), ==_refl peer) refl

  no_refresh : should_refresh_peer_public_key peer arrived ≡ false
  unfolding process_handshake clear_peer_key_refresh signal_peer_key_available
  no_refresh = any-keep_others peer node.peer_key_refresh_pending

  nobody_waits :
      fetch_recipient_public_key peer arrived ≡ some key
      → (waiter : ℕ) (force_refresh : Bool)
      → wait_for_peer_public_key waiter peer force_refresh arrived ≡ (false, arrived)
  unfolding wait_for_peer_public_key
  nobody_waits there waiter true = rw (there, no_refresh) (ground arith)
  nobody_waits there waiter false = rw there refl

  -- When a peer's message with a key is processed, and the peer's id is not a key of the node's own table: the key
  -- is what is fetched for the peer, exactly the promises that waited for it are resolved, in order and after
  -- the others, those for other peers wait as before, the version of the key is the next one, and
  -- nobody has to wait for the key any more.
  pub process_handshake-HasArrived :
      AreBytes key → get_node_key node.node_keys peer ≡ none → HasArrived peer key node arrived
  unfolding process_handshake clear_peer_key_refresh signal_peer_key_available
  process_handshake-HasArrived bytes none_there = record {
    is_fetched = fetched bytes none_there;
    are_resolved = refl;
    none_waits = get-delete node.peer_key_waiters peer peer ∙ ground (arith, ==_refl peer);
    others_wait = λ other h. get-delete node.peer_key_waiters peer other ∙ ground (arith, h);
    has_next_version = is_next_version;
    none_has_to_wait = nobody_waits (fetched bytes none_there);
  }
