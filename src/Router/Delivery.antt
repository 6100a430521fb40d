-- ===== src/Router/Delivery.antt =====
-- What the application is handed, and the method that hands it over.
pub mod Receive
use yapyap.Prelude.{
  ℕ, zero, suc, String, ◌≡◌, refl, sym, ◌∙◌, List, [], ◌∷◌, ◌++◌, Option, none, some, Bool, true,
  false, arith, if◌then◌else◌, is_some, not, ◌&&◌, ◌||◌, ◌==◌, string_keys, or_else, any, ==_iff,
  ==_refl, Bool-cases, inl, inr,
}
use yapyap.Map.{get, put, get-put}
use yapyap.Message.{
  Message, message, Header, header, Payload, text, object, relay, delta, id_of, is_data,
  MessageType,
}
use yapyap.Database.{Db}
use yapyap.Database.Processed.{
  is_message_processed, persist_incoming_message, persist_incoming_message_lem,
}
use yapyap.Router.{Router, Env, Exec, Result, ok, err, pure, throw, gets, skip, ◌>>=◌, ◌>>◌}
use yapyap.Router.Limits.{allow_inbound_from_peer, allow_inbound_by_origin_key}
use yapyap.Router.Ordering.{remember_processed_message}
use yapyap.Router.Incoming.{
  persist, ack_data, hand_over, call_on_message, notify, throw_some, announce,
  process_accepted_incoming_message, next_buffered, flush_loop, flush_buffered_messages_for_peer,
  handle_store_and_forward, receive_new, receive_unless_handled, receive_timely, dispatch,
  limit_by_peer, receive_admitted, receive_with, receive,
}
use yapyap.Router.Quiet.{Quiet, quiet_rules, Quiet-pure, Quiet-throw, Quiet-emit}
use yapyap.Router.Quiet.Methods.{
  ack_data-Quiet, remember_processed_message-Quiet, handle_ack-Quiet, handle_nak-Quiet,
  handover-Quiet, buffer_out_of_order_message-Quiet, drop_empty_buffer-Quiet,
}
use yapyap.Router.Quiet.Tables.{keeps_rules}

-- The message of this id is among those handed over.
abbrev pub was_delivered : String → List Message → Bool
was_delivered id ms = any (λ m. id_of m == id) ms

-- No two messages of the list have one id.
abbrev pub DistinctIds : List Message → Type 0
DistinctIds [] = Unit {0}
DistinctIds (m ∷ ms) = (was_delivered (id_of m) ms ≡ false) × DistinctIds ms

-- Nothing was handed over twice, and all that was handed over is in the table of processed
-- messages.
pub record Once (s : Router) : Type 0 where
  pub distinct : DistinctIds s.delivered
  pub seen :
      (id : String) → was_delivered id s.delivered ≡ true → is_message_processed s.db id ≡ true

was_delivered-append :
    (id : String) (ms : List Message) (m : Message)
    → was_delivered id (ms ++ m ∷ []) ≡ (was_delivered id ms || (id_of m == id))
was_delivered-append id [] m = ground arith
was_delivered-append id (x ∷ ms) m = ground (arith, was_delivered-append id ms m)

DistinctIds-append :
    (ms : List Message) (m : Message)
    → DistinctIds ms
    → was_delivered (id_of m) ms ≡ false
    → DistinctIds (ms ++ m ∷ [])
DistinctIds-append [] m d h = (refl, tt)
DistinctIds-append (x ∷ ms) m d h = (
  ground (
    arith,
    d.0,
    h,
    was_delivered-append (id_of x) ms m,
    ==_iff (id_of m) (id_of x),
    ==_iff (id_of x) (id_of m),
  ),
  DistinctIds-append ms m d.1 (ground (arith, h)),
)

-- `m` is accepted and about to be handed over: it is marked as processed, and was not handed over.
record Fresh (m : Message) (s : Router) : Type 0 where
  only_once : Once s
  unseen : was_delivered (id_of m) s.delivered ≡ false
  stored : is_message_processed s.db (id_of m) ≡ true

abbrev Post : {A : Type 0} → (A → Router → Type 0) → Result A → Router → Type 0
Post R (ok a) t = R a t
Post R (err e) t = Once t

-- From a state with `P` the method returns in one with `R`, or throws in one with `Once`.
record Safe {A : Type 0} (P : Router → Type 0) (m : Exec A) (R : A → Router → Type 0) : Type 0 where
  at : (s : Router) → P s → Post R (m s).0 (m s).1

module _ {A B : Type 0} {P : Router → Type 0} {R : A → Router → Type 0}
    {R' : B → Router → Type 0} where
  Safe-bind :
      (m : Exec A) (f : A → Exec B)
      → Safe P m R
      → ((a : A) → Safe (R a) (f a) R')
      → Safe P (m >>= f) R'
  unfolding ◌>>=◌
  Safe-bind m f sm sf = record { at = λ s h. go (m s).0 (m s).1 (sm.at s h) }
    where
      go :
          (r : Result A) (t : Router)
          → Post R r t
          → Post R' (((λ _. (r, t)) >>= f) t).0 (((λ _. (r, t)) >>= f) t).1
      go (ok a) t h = (sf a).at t h
      go (err e) t h = h

module _ {A : Type 0} {P : Router → Type 0} {R : A → Router → Type 0} where
  Safe-if : (b : Bool) (m n : Exec A) → Safe P m R → Safe P n R → Safe P (if b then m else n) R
  Safe-if true m n sm sn = sm
  Safe-if false m n sm sn = sn

-- What a quiet method leaves is as it was.
quiet-Once :
    (s t : Router)
    → t.delivered ≡ s.delivered
    → t.db.processed_messages ≡ s.db.processed_messages
    → Once s
    → Once t
unfolding is_message_processed
quiet-Once s t d p h = record {
  distinct = rw d h.distinct;
  seen = λ id e. rw p (h.seen id (rw d at e));
}

quiet-Fresh :
    (m : Message) (s t : Router)
    → t.delivered ≡ s.delivered
    → t.db.processed_messages ≡ s.db.processed_messages
    → Fresh m s
    → Fresh m t
unfolding is_message_processed
quiet-Fresh m s t d p h = record {
  only_once = quiet-Once s t d p h.only_once;
  unseen = rw d h.unseen;
  stored = rw p h.stored;
}

module _ {A : Type 0} where
  Post-Once : (r : Result A) (t : Router) → Once t → Post (λ _. Once) r t
  Post-Once (ok a) t h = h
  Post-Once (err e) t h = h

  Post-Fresh : (m : Message) (r : Result A) (t : Router) → Fresh m t → Post (λ _. Fresh m) r t
  Post-Fresh m (ok a) t h = h
  Post-Fresh m (err e) t h = h.only_once

  Safe-Quiet : (n : Exec A) → Quiet n → Safe Once n (λ _. Once)
  Safe-Quiet n q = record {
    at = λ s h. Post-Once (n s).0 (n s).1 (quiet-Once s (n s).1 (q.at s).0 (q.at s).1 h);
  }

  Safe-Fresh : (m : Message) (n : Exec A) → Quiet n → Safe (Fresh m) n (λ _. Fresh m)
  Safe-Fresh m n q = record {
    at = λ s h. Post-Fresh m (n s).0 (n s).1 (quiet-Fresh m s (n s).1 (q.at s).0 (q.at s).1 h);
  }

hand_over-Safe : (m : Message) → Safe (Fresh m) (hand_over m) (λ _. Once)
unfolding hand_over
hand_over-Safe m = record {
  at = λ s h. record {
    distinct = DistinctIds-append s.delivered m h.only_once.distinct h.unseen;
    seen = λ id e. ground (
      arith,
      was_delivered-append id s.delivered m,
      h.only_once.seen id,
      h.stored,
      ==_iff (id_of m) id,
    );
  };
}

-- After `persist` the message is fresh, if it was applied.
abbrev Persisted : Message → Bool → Router → Type 0
Persisted m true s = Fresh m s
Persisted m false s = Once s

Persisted-intro :
    (m : Message) (s : Router) (applied : Bool) (db : Db)
    → Once s
    → applied ≡ not (is_message_processed s.db (id_of m))
    → ((id : String)
        → is_message_processed db id ≡ ((id_of m == id) || is_message_processed s.db id))
    → Persisted m applied (record s { db = db })
Persisted-intro m s true db h e marks = record {
  only_once = record {
    distinct = h.distinct;
    seen = λ id d. ground (arith, marks id, h.seen id d);
  };
  unseen = ground (arith, h.seen (id_of m));
  stored = ground (arith, marks (id_of m), ==_refl (id_of m));
}
Persisted-intro m s false db h e marks = record {
  distinct = h.distinct;
  seen = λ id d. ground (arith, marks id, h.seen id d);
}

persist-Safe : (env : Env) (m : Message) → Safe Once (persist env m) (Persisted m)
unfolding persist
persist-Safe env m = record {
  at = λ s h.
      Persisted-intro m s _ _ h (persist_incoming_message_lem env.now m s.db (id_of m)).0
        (λ id. (persist_incoming_message_lem env.now m s.db id).1);
}

-- `m` keeps `Once`, whether it returns or throws.
pub record OnceKept {A : Type 0} (m : Exec A) : Type 0 where
  pub at : (s : Router) → Once s → Once (m s).1

module _ {A : Type 0} where
  of_Post : (r : Result A) (t : Router) → Post (λ _. Once) r t → Once t
  of_Post (ok a) t h = h
  of_Post (err e) t h = h

  of_Safe : (m : Exec A) → Safe Once m (λ _. Once) → OnceKept m
  of_Safe m safe = record { at = λ s h. of_Post (m s).0 (m s).1 (safe.at s h) }

  pub OnceKept-Quiet : (m : Exec A) → Quiet m → OnceKept m
  OnceKept-Quiet m q = record { at = λ s h. quiet-Once s (m s).1 (q.at s).0 (q.at s).1 h }

  pub OnceKept-if :
      (b : Bool) (m n : Exec A) → OnceKept m → OnceKept n → OnceKept (if b then m else n)
  OnceKept-if true m n km kn = km
  OnceKept-if false m n km kn = kn

module _ {A B : Type 0} where
  pub OnceKept-bind :
      (m : Exec A) (f : A → Exec B) → OnceKept m → ((a : A) → OnceKept (f a)) → OnceKept (m >>= f)
  unfolding ◌>>=◌
  OnceKept-bind m f km kf = record { at = λ s h. go (m s).0 (m s).1 (km.at s h) }
    where
      go : (r : Result A) (t : Router) → Once t → Once (((λ _. (r, t)) >>= f) t).1
      go (ok a) t h = (kf a).at t h
      go (err e) t h = h

pub ruleset once_rules = (OnceKept-bind, OnceKept-if, OnceKept-Quiet, quiet_rules)

module _ (env : Env) where
  throw_some-Quiet : (o : Option String) → Quiet (throw_some o)
  unfolding throw_some
  throw_some-Quiet none = Quiet-pure tt
  throw_some-Quiet (some e) = Quiet-throw e

  notify-Safe :
      (o : Option (Message → Option String)) (m : Message) → Safe (Fresh m) (notify o m) (λ _. Once)
  unfolding notify pure
  notify-Safe none m = record { at = λ s h. h.only_once }
  notify-Safe (some f) m =
      Safe-bind _ _ (hand_over-Safe m) (λ _. Safe-Quiet _ (throw_some-Quiet (f m)))

  call_on_message-Safe : (m : Message) → Safe (Fresh m) (call_on_message env m) (λ _. Once)
  unfolding call_on_message
  call_on_message-Safe m = notify-Safe env.on_message m

  announce-Safe : (m : Message) → Safe (Fresh m) (announce env m) (λ _. Once)
  unfolding announce
  announce-Safe m =
      Safe-bind _ _ (Safe-Fresh m _ (Quiet-emit _))
        (λ _. Safe-bind _ _ (Safe-Fresh m _ (ack_data-Quiet env m)) (λ _. call_on_message-Safe m))

  Persisted-Safe :
      (m : Message) (applied : Bool)
      → Safe (Persisted m applied) (if applied then announce env m else ack_data env m) (λ _. Once)
  Persisted-Safe m true = announce-Safe m
  Persisted-Safe m false = Safe-Quiet _ (ack_data-Quiet env m)

  remembered-Safe :
      (m : Message) (applied : Bool)
      → Safe
          (Persisted m applied)
          (remember_processed_message env (id_of m))
          (λ _. Persisted m applied)
  remembered-Safe m true = Safe-Fresh m _ (remember_processed_message-Quiet env _)
  remembered-Safe m false = Safe-Quiet _ (remember_processed_message-Quiet env _)

  process-Safe : (m : Message) → Safe Once (process_accepted_incoming_message env m) (λ _. Once)
  unfolding process_accepted_incoming_message
  process-Safe m =
      Safe-bind _ _ (persist-Safe env m)
        (λ applied. Safe-bind _ _ (remembered-Safe m applied) (λ _. Persisted-Safe m applied))

  pub process-OnceKept : (m : Message) → OnceKept (process_accepted_incoming_message env m)
  process-OnceKept m = of_Safe _ (process-Safe m)
