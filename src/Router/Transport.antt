-- ===== src/Router/Transport.antt =====
-- transmit and what it stands on, in src/message/message-router.ts. A throw is represented by what
-- String(error) gives of it. How an attempt to dial, send
-- and close ends is the network's choice (`Env.attempt`), and so is whether an attempt that fails
-- has sent before (`Env.sent_before_failing`); the waiting between attempts and the
-- choice between the cached address and the peer's id change nothing that the model can see.
use Prim.Native.String.{◌++◌ as ◌++s◌}
use yapyap.Prelude.{
  ℕ, zero, suc, ◌+◌, String, List, [], ◌∷◌, ◌++◌, append_assoc, append-nil, none, some, Bool, false,
  true, ◌||◌, ◌&&◌, if◌then◌else◌, leb, nat_eq, string_keys, ◌≤◌, ◌<◌, ◌≡◌, ◌≢◌, refl, sym, ap, ◌∙◌,
  arith, Bool-cases, Option-cases, inl, inr, ltb, ltb→lt, is_some,
}
use mathlib.Core.Bool.{false≢true}
use yapyap.Text.{codes}
use yapyap.Message.{Message}
use yapyap.Router.{Env, Router, Exec, ok, err, throw, ◌>>=◌, ◌>>◌}

-- toLowerCase, for ASCII
to_lower : List ℕ → List ℕ
to_lower [] = []
to_lower (c ∷ cs) = (if leb b'A' c && leb c b'Z' then c + 32 else c) ∷ to_lower cs

begins_with : List ℕ → List ℕ → Bool
begins_with cs [] = true
begins_with [] (d ∷ ds) = false
begins_with (c ∷ cs) (d ∷ ds) = nat_eq c d && begins_with cs ds

-- text.includes(part)
includes : List ℕ → List ℕ → Bool
unfolding begins_with
includes [] part = begins_with [] part
includes (c ∷ cs) part = begins_with (c ∷ cs) part || includes cs part

-- classifyTransportError
abbrev pub classify_transport_error : String → String
unfolding to_lower includes
classify_transport_error error =
    let text = to_lower (codes error) in
    if includes text (codes "stream-dial-timeout")
    then "dial-timeout"
    else if includes text (codes "stream-send-timeout")
    then "send-timeout"
    else if includes text (codes "stream-close-timeout")
    then "close-timeout"
    else if includes text (codes "reset") || includes text (codes "connreset")
    then "connection-reset"
    else if includes text (codes "eof")
        || includes text (codes "stream closed")
        || includes text (codes "ended")
    then "eof"
    else "transport-error"

-- `${a}:${b}`
pub joined : String → String → String
joined a b = a ++s ":" ++s b

-- So many copies of an item.
abbrev pub times {ℓ} : {A : Type ℓ} → ℕ → A → List A
times zero a = []
times (suc n) a = a ∷ times n a

abbrev pub sent : ℕ → Message → Router → Router
sent n m s = record s { transmitted = s.transmitted ++ times n m }

unfoldable pub put_on_wire : ℕ → Message → Exec (Unit {0})
put_on_wire n m s = (ok tt, sent n m s)

-- the copies that a failed attempt puts on the wire: one if the throw came after stream.send, as
-- when safeClose takes too long
abbrev pub copies_of_failed : Env → Message → ℕ → ℕ
copies_of_failed env m attempt = if env.sent_before_failing m attempt then 1 else 0

-- for (let attempt = 0; attempt <= reconnectAttempts; attempt++): `left` rounds are left
unfoldable pub transmit_loop : Env → Message → ℕ → ℕ → String → Exec (Unit {0})
transmit_loop env m zero attempt last =
    throw ("Error: " ++s joined (classify_transport_error last) last)
transmit_loop env m (suc left) attempt last = elim (env.attempt m attempt) [
  | none ↦ put_on_wire 1 m
  | some error ↦
      put_on_wire (copies_of_failed env m attempt) m >> transmit_loop env m left (suc attempt) error
]

unfoldable pub transmit : Env → Message → Exec (Unit {0})
transmit env m =
    if env.libp2p_ready
    then transmit_loop env m (suc env.reconnect_attempts) 0 "undefined"
    else throw "Error: libp2p not initialized"

times-add : {A : Type 0} (a b : ℕ) (x : A) → times a x ++ times b x ≡ times (a + b) x
times-add zero b x = let same : b ≡ 0 + b = omega arith in ap (λ n. times n x) same
times-add (suc a) b x =
    let same : suc (a + b) ≡ suc a + b = omega arith in
    ap (λ xs. x ∷ xs) (times-add a b x) ∙ ap (λ n. times n x) same

sent-sent : (a b : ℕ) (m : Message) (s : Router) → sent b m (sent a m s) ≡ sent (a + b) m s
sent-sent a b m s =
    ap (λ ms. record s { transmitted = ms })
      (append_assoc s.transmitted (times a m) (times b m)
        ∙ ap (λ ms. s.transmitted ++ ms) (times-add a b m))

sent-zero : (m : Message) (s : Router) → sent 0 m s ≡ s
sent-zero m s = ap (λ ms. record s { transmitted = ms }) (append-nil s.transmitted)

copies_of_failed-most : (env : Env) (m : Message) (attempt : ℕ) → copies_of_failed env m attempt ≤ 1
copies_of_failed-most env m attempt = ground arith

module _ (env : Env) (m : Message) where
  transmit_loop-ends :
      (left attempt : ℕ) (last : String) (s : Router)
      → env.attempt m attempt ≡ none
      → transmit_loop env m (suc left) attempt last s ≡ (ok tt, sent 1 m s)
  unfolding transmit_loop put_on_wire
  transmit_loop-ends left attempt last s here = rw (here, transmit_loop) refl

  transmit_loop-goes_on :
      (left attempt : ℕ) (last error : String) (s : Router)
      → env.attempt m attempt ≡ some error
      → transmit_loop env m (suc left) attempt last s
        ≡ transmit_loop env m left (suc attempt) error (sent (copies_of_failed env m attempt) m s)
  unfolding transmit_loop put_on_wire ◌>>=◌
  transmit_loop-goes_on left attempt last error s here = rw (here, transmit_loop) refl

  transmit_loop-finds :
      (left attempt i : ℕ) (last : String) (s : Router)
      → attempt ≤ i
      → i < attempt + left
      → env.attempt m i ≡ none
      → (n : ℕ) × (n + attempt ≤ i)
        × (transmit_loop env m left attempt last s ≡ (ok tt, sent (n + 1) m s))
  transmit_loop-finds zero attempt i last s h k e = absurd (omega (arith, h, k))
  transmit_loop-finds (suc left) attempt i last s h k e =
      elim (Option-cases (env.attempt m attempt)) [
        | inl here ↦ (0, omega (arith, h), transmit_loop-ends left attempt last s here)
        | inr (error, here) ↦
            let c = copies_of_failed env m attempt in
            let (n, few, found) =
              transmit_loop-finds left (suc attempt) i error (sent c m s) (next error here)
                (omega (arith, k)) e in
            (
              c + n,
              omega (arith, few, copies_of_failed-most env m attempt),
              transmit_loop-goes_on left attempt last error s here
                  ∙ found
                  ∙ ap (λ t. (ok tt, t))
                      (sent-sent c (n + 1) m s ∙ ap (λ j. sent j m s) (omega arith)),
            )
      ]
    where
      next : (error : String) → env.attempt m attempt ≡ some error → suc attempt ≤ i
      next error here = elim (Bool-cases (ltb attempt i)) [
        | inl lt ↦ omega (arith, ltb→lt attempt i lt)
        | inr not_lt ↦
            let same : i ≡ attempt = ground (arith, h, not_lt) in
            absurd (false≢true (ap is_some (sym e ∙ ap (env.attempt m) same ∙ here)))
      ]

  transmit_loop-gives_up :
      (left attempt : ℕ) (last : String) (s : Router)
      → ((i : ℕ) → attempt ≤ i → i < attempt + left → env.attempt m i ≢ none)
      → (e : String) × (n : ℕ) × (transmit_loop env m left attempt last s ≡ (err e, sent n m s))
  unfolding transmit_loop throw
  transmit_loop-gives_up zero attempt last s never = (
    _,
    0,
    ap (λ t. (err ("Error: " ++s joined (classify_transport_error last) last), t))
        (sym (sent-zero m s)),
  )
  transmit_loop-gives_up (suc left) attempt last s never =
      elim (Option-cases (env.attempt m attempt)) [
        | inl here ↦ absurd (never attempt (omega arith) (omega arith) here)
        | inr (error, here) ↦
            let c = copies_of_failed env m attempt in
            let (e, n, given_up) =
              transmit_loop-gives_up left (suc attempt) error (sent c m s)
                (λ i h k. never i (omega (arith, h)) (omega (arith, k))) in
            (
              e,
              c + n,
              transmit_loop-goes_on left attempt last error s here
                  ∙ given_up
                  ∙ ap (λ t. (err e, t)) (sent-sent c n m s),
            )
      ]

  transmit-when :
      (s : Router) (b : Bool)
      → env.libp2p_ready ≡ b
      → transmit env m s
        ≡ (if b
              then transmit_loop env m (suc env.reconnect_attempts) 0 "undefined"
              else throw "Error: libp2p not initialized")
            s
  unfolding transmit
  transmit-when s b e =
      ap
        (λ ready.
          (if ready
              then transmit_loop env m (suc env.reconnect_attempts) 0 "undefined"
              else throw "Error: libp2p not initialized")
            s)
        e

-- If there is a network and one of the first attempt and the permitted further attempts ends
-- well, transmit returns, has put the message on the wire at least once and at most once more for
-- each attempt before that one, and has changed nothing else, wherever the failed attempts threw.
pub transmit_delivers :
    (env : Env) (m : Message) (s : Router) (i : ℕ)
    → env.libp2p_ready ≡ true
    → i ≤ env.reconnect_attempts
    → env.attempt m i ≡ none
    → (n : ℕ) × (n ≤ i)
      × (transmit env m s ≡ (ok tt, record s { transmitted = s.transmitted ++ times (n + 1) m }))
transmit_delivers env m s i ready h e =
    let (n, few, found) =
      transmit_loop-finds env m (suc env.reconnect_attempts) 0 i "undefined" s (omega arith)
        (omega (arith, h)) e in
    (n, omega (arith, few), transmit-when env m s true ready ∙ found)

-- If none of the permitted attempts ends well, whether or not there is a network, transmit throws
-- and has changed nothing but the wire.
pub transmit_gives_up :
    (env : Env) (m : Message) (s : Router)
    → ((i : ℕ) → i ≤ env.reconnect_attempts → env.attempt m i ≢ none)
    → (e : String) × (n : ℕ) × (transmit env m s ≡ (err e, sent n m s))
unfolding throw
transmit_gives_up env m s never = elim (Bool-cases env.libp2p_ready) [
  | inl ready ↦
      let (error, n, given_up) =
        transmit_loop-gives_up env m (suc env.reconnect_attempts) 0 "undefined" s
          (λ i _ k. never i (omega (arith, k))) in
      (error, n, transmit-when env m s true ready ∙ given_up)
  | inr down ↦ (
    "Error: libp2p not initialized",
    0,
    transmit-when env m s false down
        ∙ ap (λ t. (err "Error: libp2p not initialized", t)) (sym (sent-zero m s)),
  )
]

-- transmit writes nothing to the database.
module _ (env : Env) (m : Message) where
  db-transmit_loop :
      (left attempt : ℕ) (last : String) (s : Router)
      → (transmit_loop env m left attempt last s).1.db ≡ s.db
  unfolding transmit_loop throw
  db-transmit_loop zero attempt last s = refl
  db-transmit_loop (suc left) attempt last s = elim (Option-cases (env.attempt m attempt)) [
    | inl here ↦ ap (λ r. r.1.db) (transmit_loop-ends env m left attempt last s here)
    | inr (error, here) ↦
        ap (λ r. r.1.db) (transmit_loop-goes_on env m left attempt last error s here)
        ∙ db-transmit_loop left (suc attempt) error (sent (copies_of_failed env m attempt) m s)
  ]

  pub db-transmit : (s : Router) → (transmit env m s).1.db ≡ s.db
  unfolding throw
  db-transmit s = elim (Bool-cases env.libp2p_ready) [
    | inl ready ↦
        ap (λ r. r.1.db) (transmit-when env m s true ready)
        ∙ db-transmit_loop (suc env.reconnect_attempts) 0 "undefined" s
    | inr down ↦ ap (λ r. r.1.db) (transmit-when env m s false down)
  ]
