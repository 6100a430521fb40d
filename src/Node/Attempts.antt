-- ===== src/Node/Attempts.antt =====
-- The attempts of performHandshake in src/core/node.ts.
use yapyap.Prelude.{
  ℕ, zero, suc, ◌+◌, ◌<◌, ◌≡◌, refl, sym, ap, subst, ◌∙◌, String, ◌++◌, none, some, Bool, true,
  false, arith, if◌then◌else◌, ◌==◌, string_keys, any, ◌⊎◌, inl, inr,
}
use yapyap.Framing.{Bytes}
use yapyap.Framing.Header.{AreBytes}
use yapyap.Database.Keys.{get_node_key}
use yapyap.Sessions.{SessionEnv}
use yapyap.Node.{
  Node, Attempt, throws_early, answered_with, fetch_recipient_public_key, clear_peer_key_refresh,
  process_handshake, handshake_max_attempts, take_answer, attempt_loop, finished, add_to_set,
  perform_handshake,
}
use yapyap.Node.Keys.{waiters_of, HasArrived, process_handshake-HasArrived}

-- An attempt that brings no key: it throws before there is an answer, or its answer has none.
abbrev pub Fails : Attempt → Type 0
Fails a = (a ≡ throws_early) ⊎ (saved : Bool) × (a ≡ answered_with none saved)

abbrev pub AllFail : (ℕ → Attempt) → ℕ → ℕ → Type 0
AllFail attempts attempt zero = Unit {0}
AllFail attempts attempt (suc n) = Fails (attempts attempt) × AllFail attempts (attempt + 1) n

module _ (env : SessionEnv) (ready : Bool) (attempts : ℕ → Attempt) (peer : String) where
  take_answer-Fails :
      (a : Attempt) (node : Node) → Fails a → take_answer env ready a peer node ≡ (false, node)
  unfolding process_handshake
  take_answer-Fails a node (inl e) = rw e refl
  take_answer-Fails a node (inr (saved, e)) = rw e refl

attempt_loop-answered :
    (env : SessionEnv) (attempts : ℕ → Attempt) (peer : String) (key : Bytes) (left k attempt : ℕ)
    (node : Node)
    → k < left
    → AllFail attempts attempt k
    → attempts (attempt + k) ≡ answered_with (some key) true
    → attempt_loop env true attempts attempt left peer node
      ≡ process_handshake env true true (some key) peer node
unfolding attempt_loop process_handshake
attempt_loop-answered env attempts peer key zero k attempt node h fails e = elim h [ ]
attempt_loop-answered env attempts peer key (suc left) zero attempt node h fails e =
    let now : attempts attempt ≡ answered_with (some key) true =
      subst (λ a. attempts a ≡ answered_with (some key) true) (omega arith) e in
    rw now refl
attempt_loop-answered env attempts peer key (suc left) (suc k) attempt node h fails e =
    let later : attempts (attempt + 1 + k) ≡ answered_with (some key) true =
      subst (λ a. attempts a ≡ answered_with (some key) true) (omega arith) e in
    rw (take_answer-Fails env true attempts peer (attempts attempt) node fails.0) (
      attempt_loop-answered env attempts peer key left k (attempt + 1) node (omega (arith, h))
        fails.1 later)

perform_handshake-loop :
    (env : SessionEnv) (ready : Bool) (attempts : ℕ → Attempt) (peer : String) (node : Node)
    → any (λ p. p == peer) node.handshake_in_progress ≡ false
    → perform_handshake env ready attempts peer node
      ≡ finished peer (
          attempt_loop env ready attempts 1 handshake_max_attempts peer
            (record node { handshake_in_progress = add_to_set peer node.handshake_in_progress }))
unfolding perform_handshake
perform_handshake-loop env ready attempts peer node idle =
    let after = finished peer (
      attempt_loop env ready attempts 1 handshake_max_attempts peer
        (record node { handshake_in_progress = add_to_set peer node.handshake_in_progress })) in
    ap (λ b. if b then (true, node) else after) idle

-- The end of performHandshake takes nothing back.
arrived_still :
    (env : SessionEnv) (key : Bytes) (peer : String) (node : Node)
    → HasArrived peer key node (process_handshake env true true (some key) peer node).1
    → ((finished peer (process_handshake env true true (some key) peer node)).0 ≡ true)
      × (fetch_recipient_public_key peer
            (finished peer (process_handshake env true true (some key) peer node)).1
          ≡ some key)
      × ((finished peer (process_handshake env true true (some key) peer node)).1.resolved
          ≡ node.resolved ++ waiters_of peer node)
unfolding process_handshake fetch_recipient_public_key clear_peer_key_refresh
arrived_still env key peer node there = (refl, there.is_fetched, there.are_resolved)

-- With libp2p, no handshake with the peer under way and no row of the peer in the node's own table of keys: if one of
-- the first three attempts brings a key and its session can be saved, if each one before it throws before there is an answer
-- or brings an answer without a key, and if no other method runs in between, then performHandshake returns, the key is what
-- is fetched for the peer, and exactly the promises that waited for it when performHandshake was called are resolved.
pub perform_handshake-stores :
    (env : SessionEnv) (attempts : ℕ → Attempt) (peer : String) (key : Bytes) (k : ℕ) (node : Node)
    → any (λ p. p == peer) node.handshake_in_progress ≡ false
    → get_node_key node.node_keys peer ≡ none
    → AreBytes key
    → k < handshake_max_attempts
    → AllFail attempts 1 k
    → attempts (1 + k) ≡ answered_with (some key) true
    → ((perform_handshake env true attempts peer node).0 ≡ true)
      × (fetch_recipient_public_key peer (perform_handshake env true attempts peer node).1
          ≡ some key)
      × ((perform_handshake env true attempts peer node).1.resolved
          ≡ node.resolved ++ waiters_of peer node)
perform_handshake-stores env attempts peer key k node idle none_there bytes h fails e =
    let busy = record node { handshake_in_progress = add_to_set peer node.handshake_in_progress } in
    let loop = attempt_loop-answered env attempts peer key 3 k 1 busy h fails e in
    let there = process_handshake-HasArrived env true true key peer busy bytes none_there in
    let whole = perform_handshake-loop env true attempts peer node idle ∙ ap (finished peer) loop in
    subst
      (λ r.
        (r.0 ≡ true)
        × (fetch_recipient_public_key peer r.1 ≡ some key)
        × (r.1.resolved ≡ node.resolved ++ waiters_of peer node))
      (sym whole) (arrived_still env key peer busy there)
