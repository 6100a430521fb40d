-- ===== src/Sync/History.antt =====
-- What a node of src/protocols/sync.ts keeps of the deltas that it applied.
use yapyap.Prelude.{
  ℕ, zero, suc, ◌+◌, ◌-◌, ◌≤◌, ◌≡◌, refl, sym, ap, ◌∙◌, ◌++◌, List, [], ◌∷◌, String, Bool, true,
  false, not, arith, if◌then◌else◌, ltb, ltb→lt, keep, map, drop, length, all, length-append,
  append_assoc, append-nil,
}
use yapyap.Sync.{
  Delta, NodeState, new_node_state, assign_delta, shift_over, last_of, max_history, apply_delta,
  get_deltas_since,
}

-- The calls of applyDelta, each with its time.
unfoldable pub apply_all : {V : Type 0} → List (ℕ × Delta V) → NodeState V → NodeState V
apply_all [] s = s
apply_all ((now, d) ∷ ds) s = apply_all ds (apply_delta now d s)

-- A list of deltas, one after the other.
abbrev pub assign_all : {V : Type 0} → List (Delta V) → List (String × V) → List (String × V)
assign_all [] state = state
assign_all (d ∷ ds) state = assign_all ds (assign_delta d state)

module _ {A : Type 0} where
  shift_over-length :
      (max : ℕ) (xs : List A) (x : A)
      → length xs ≤ max
      → length (shift_over max (xs ++ x ∷ [])) ≤ max
  shift_over-length max [] x h = ground (arith, h)
  shift_over-length max (y ∷ xs) x h = ground (arith, h, length-append xs (x ∷ []))

  last_of-shift_over :
      (max : ℕ) (xs ds : List A)
      → length xs ≤ max + 1
      → last_of max (shift_over max xs ++ ds) ≡ last_of max (xs ++ ds)
  last_of-shift_over max [] ds h = ground arith
  last_of-shift_over max (x ∷ xs) ds h = by_length (ltb max (suc (length xs))) refl
    where
      one_more :
          ltb max (suc (length xs)) ≡ true
          → suc (length (xs ++ ds)) - max ≡ suc (length (xs ++ ds) - max)
      one_more over =
          let fits = ltb→lt max (suc (length xs)) over in omega (arith, fits, length-append xs ds)

      by_length :
          (over : Bool)
          → ltb max (suc (length xs)) ≡ over
          → last_of max ((if over then xs else x ∷ xs) ++ ds) ≡ last_of max (x ∷ xs ++ ds)
      by_length true e = sym (ap (λ k. drop k (x ∷ xs ++ ds)) (one_more e))
      by_length false e = refl

  drop-append : (k : ℕ) (xs ys : List A) → k ≤ length xs → drop k (xs ++ ys) ≡ drop k xs ++ ys
  drop-append zero xs ys h = refl
  drop-append (suc k) [] ys h = absurd (omega (arith, h))
  drop-append (suc k) (x ∷ xs) ys h = drop-append k xs ys (omega (arith, h))

  keep-append : (p : A → Bool) (xs ys : List A) → keep p (xs ++ ys) ≡ keep p xs ++ keep p ys
  keep-append p [] ys = refl
  keep-append p (x ∷ xs) ys = ground (arith, keep-append p xs ys)

  keep_none : (p : A → Bool) (xs : List A) → all (λ x. not (p x)) xs ≡ true → keep p xs ≡ []
  keep_none p [] h = refl
  keep_none p (x ∷ xs) h = ground (arith, h, keep_none p xs)

  keep-all : (p : A → Bool) (xs : List A) → all p xs ≡ true → keep p xs ≡ xs
  keep-all p [] h = refl
  keep-all p (x ∷ xs) h = ground (arith, h, keep-all p xs)

  all-drop : (p : A → Bool) (k : ℕ) (xs : List A) → all p xs ≡ true → all p (drop k xs) ≡ true
  all-drop p zero xs h = h
  all-drop p (suc k) [] h = refl
  all-drop p (suc k) (x ∷ xs) h = all-drop p k xs (ground (arith, h))

module _ {V : Type 0} where
  -- From a history of no more than the maximum, the history after a run.
  apply_all-from :
      (ds : List (ℕ × Delta V)) (s : NodeState V)
      → length s.delta_history ≤ max_history
      → (apply_all ds s).delta_history ≡ last_of max_history (s.delta_history ++ ds)
  unfolding apply_all apply_delta
  apply_all-from [] s h =
      let fits : length s.delta_history - max_history ≡ 0 = omega (arith, h) in
      sym (ap (λ k. drop k s.delta_history) fits)
      ∙ ap (last_of max_history) (sym (append-nil s.delta_history))
  apply_all-from ((now, d) ∷ ds) s h =
      apply_all-from ds (apply_delta now d s)
        (shift_over-length max_history s.delta_history (now, d) h)
      ∙ last_of-shift_over max_history (s.delta_history ++ (now, d) ∷ []) ds
          (omega (arith, h, length-append s.delta_history ((now, d) ∷ [])))
      ∙ ap (last_of max_history) (append_assoc s.delta_history ((now, d) ∷ []) ds)

  apply_all-state :
      (ds : List (ℕ × Delta V)) (s : NodeState V)
      → (apply_all ds s).state ≡ assign_all (map (λ d. d.1) ds) s.state
  unfolding apply_all apply_delta
  apply_all-state [] s = refl
  apply_all-state ((now, d) ∷ ds) s = apply_all-state ds (apply_delta now d s)

  apply_all-append :
      (xs ys : List (ℕ × Delta V)) (s : NodeState V)
      → apply_all (xs ++ ys) s ≡ apply_all ys (apply_all xs s)
  unfolding apply_all
  apply_all-append [] ys s = refl
  apply_all-append ((now, d) ∷ xs) ys s = apply_all-append xs ys (apply_delta now d s)

-- After any run of applyDelta on a new node, its history is the last hundred of the deltas, or all
-- of them if there are fewer, in their order.
pub apply_all-history :
    {V : Type 0} (ds : List (ℕ × Delta V))
    → (apply_all ds new_node_state).delta_history ≡ last_of max_history ds
apply_all-history ds = apply_all-from ds new_node_state (omega arith)

-- A node that has applied some deltas up to a time and at most a hundred after it, and a node that
-- stood still at that time: the deltas that the first one reports since then, applied in order to
-- the state of the second, give the state of the first.
pub get_deltas_since-catches_up :
    {V : Type 0} (time : ℕ) (before after : List (ℕ × Delta V))
    → all (λ d. not (ltb time d.0)) before ≡ true
    → all (λ d. ltb time d.0) after ≡ true
    → length after ≤ max_history
    → assign_all
        (get_deltas_since (apply_all (before ++ after) new_node_state) time)
        (apply_all before new_node_state).state
      ≡ (apply_all (before ++ after) new_node_state).state
unfolding get_deltas_since
get_deltas_since-catches_up {V} time before after old recent few =
    let k = length (before ++ after) - max_history in
    let reported : keep (λ d. ltb time d.0)
          (apply_all (before ++ after) new_node_state).delta_history
        ≡ after =
      ap (keep (λ d. ltb time d.0)) (
        apply_all-history (before ++ after)
        ∙ drop-append k before after (omega (arith, few, length-append before after)))
      ∙ keep-append (λ d. ltb time d.0) (drop k before) after
      ∙ ap (λ xs. xs ++ keep (λ d. ltb time d.0) after)
          (keep_none (λ d. ltb time d.0) (drop k before)
            (all-drop (λ d. not (ltb time d.0)) k before old))
      ∙ keep-all (λ d. ltb time d.0) after recent in
    ap (λ ds. assign_all (map (λ d. d.1) ds) (apply_all before new_node_state).state) reported
    ∙ sym (apply_all-state after (apply_all before new_node_state))
    ∙ sym (ap (λ s. s.state) (apply_all-append before after new_node_state))
