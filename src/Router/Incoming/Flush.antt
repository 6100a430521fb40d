-- ===== src/Router/Incoming/Flush.antt =====
-- The rounds of the loop of flushBufferedMessagesForPeer in src/message/message-router.ts.
use yapyap.Prelude.{
  ℕ, zero, suc, ◌+◌, ◌<◌, String, ◌≡◌, refl, sym, ap, ◌∙◌, none, some, arith, length, or_else, [],
  string_keys, nat_keys, ==_refl, is_some, Option-cases, inl, inr,
}
use yapyap.Map.{get, put, delete, get-put, length-delete-lt}
use yapyap.Message.{Message}
use yapyap.Router.{Router, Env, Exec, Result, ok, err, resume, ◌>>=◌, ◌>>◌}
use yapyap.Router.Ordering.{peer_buffer, expected_sequence}
use yapyap.Router.Incoming.{
  take_buffered, next_buffered, flush_loop, process_accepted_incoming_message,
}
use yapyap.Router.Incoming.Buffer.{process_accepted_incoming_message-KeepsBuffer}

module _ {A B : Type 0} (m : Exec A) (f g : A → Exec B) (s : Router) where
  -- Two continuations that agree on the state in which `m` returns.
  bind-agree : ((a : A) → f a (m s).1 ≡ g a (m s).1) → (m >>= f) s ≡ (m >>= g) s
  unfolding ◌>>=◌
  bind-agree h = resumed (m s).0 (m s).1 h
    where
      resumed :
          (r : Result A) (t : Router) → ((a : A) → f a t ≡ g a t) → resume f r t ≡ resume g r t
      resumed (ok a) t h = h a
      resumed (err e) t h = refl

module _ (env : Env) (peer : String) where
  -- The state in which the message of this number has been taken from the buffer.
  taken : ℕ → Router → Router
  taken n s = record s {
    out_of_order_buffer = put s.out_of_order_buffer peer (delete (peer_buffer s peer) n);
  }

  peer_buffer-taken :
      (n : ℕ) (s : Router) → peer_buffer (taken n s) peer ≡ delete (peer_buffer s peer) n
  unfolding taken peer_buffer
  peer_buffer-taken n s =
      let left = delete (peer_buffer s peer) n in
      let found : get (put s.out_of_order_buffer peer left) peer ≡ some left =
        get-put s.out_of_order_buffer peer peer left ∙ rw (==_refl peer) refl in
      ap (λ o. or_else o []) found

  flush_loop-none :
      (fuel : ℕ) (s : Router)
      → get (peer_buffer s peer) (expected_sequence s.db peer) ≡ none
      → flush_loop env peer (suc fuel) s ≡ (ok tt, s)
  unfolding flush_loop next_buffered take_buffered ◌>>=◌
  flush_loop-none fuel s e = rw (e, take_buffered) refl

  flush_loop-some :
      (fuel : ℕ) (s : Router) (m : Message)
      → get (peer_buffer s peer) (expected_sequence s.db peer) ≡ some m
      → flush_loop env peer (suc fuel) s
        ≡ (process_accepted_incoming_message env m >> flush_loop env peer fuel)
            (taken (expected_sequence s.db peer) s)
  unfolding flush_loop next_buffered take_buffered ◌>>=◌ taken
  flush_loop-some fuel s m e = rw (e, take_buffered) refl

  -- What is left in the buffer when the message that was waited for has been processed.
  shorter :
      (s : Router) (m : Message)
      → get (peer_buffer s peer) (expected_sequence s.db peer) ≡ some m
      → length (
          peer_buffer
            (process_accepted_incoming_message env m (taken (expected_sequence s.db peer) s)).1
            peer)
        < length (peer_buffer s peer)
  unfolding peer_buffer
  shorter s m e =
      let n = expected_sequence s.db peer in
      let kept = (process_accepted_incoming_message-KeepsBuffer env m).at (taken n s) in
      let same : length (peer_buffer (process_accepted_incoming_message env m (taken n s)).1 peer)
          ≡ length (delete (peer_buffer s peer) n) =
        ap (λ buffers. length (or_else (get buffers peer) [])) kept
        ∙ ap length (peer_buffer-taken n s) in
      omega (arith, same, length-delete-lt (peer_buffer s peer) n (ap is_some e))

-- One round more than there are messages in the peer's buffer is enough for the loop that empties
-- it: with any number of rounds more it returns the same and leaves the same state.
pub flush_loop-enough :
    (env : Env) (peer : String) (fuel extra : ℕ) (s : Router)
    → length (peer_buffer s peer) < fuel
    → flush_loop env peer (fuel + extra) s ≡ flush_loop env peer fuel s
flush_loop-enough env peer zero extra s h = absurd (omega (arith, h))
flush_loop-enough env peer (suc fuel) extra s h =
    let more : suc fuel + extra ≡ suc (fuel + extra) = omega arith in
    ap (λ k. flush_loop env peer k s) more
    ∙ elim (Option-cases (get (peer_buffer s peer) (expected_sequence s.db peer))) [
      | inl e ↦
          flush_loop-none env peer (fuel + extra) s e ∙ sym (flush_loop-none env peer fuel s e)
      | inr (m, e) ↦
          flush_loop-some env peer (fuel + extra) s m e
          ∙ bind-agree (process_accepted_incoming_message env m) _ _ _ (λ _.
            flush_loop-enough env peer fuel extra _ (omega (arith, h, shorter env peer s m e)))
          ∙ sym (flush_loop-some env peer fuel s m e)
    ]
