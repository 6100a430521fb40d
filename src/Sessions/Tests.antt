-- ===== src/Sessions/Tests.antt =====
-- A run of the session manager at a small input, and its theorem there.
use yapyap.Prelude.{ℕ, ◌≡◌, refl, String, List, [], ◌∷◌, none, some, string_keys}
use yapyap.Map.{get, put}
use yapyap.Sessions.{
  SessionEnv, SessionManager, create_session, get_session, derive_and_store_session_keys,
  get_session_keys,
}
use yapyap.Sessions.Backed.{IsBacked}
use yapyap.Sessions.Runs.{Op, create, derive, use_session, clean, run, step, run-IsBacked}

abbrev at_time : ℕ → String → SessionEnv
at_time now id = record {
  now = now;
  random_uuid = id;
  key_pair = (1 ∷ [], 2 ∷ []);
  derive_keys = λ secret key. some (record { encryption_key = secret; decryption_key = key });
  text_of = λ info. "noise";
  parse = λ text. none;
}

abbrev some_calls : List Op
some_calls =
    create (at_time 10 "s1") "alice" none
    ∷ create (at_time 20 "s2") "bob" none
    ∷ derive (at_time 30 "") "s1" (9 ∷ [])
    ∷ use_session (at_time 40 "") "s2"
    ∷ clean (at_time 3600015 "")
    ∷ []

abbrev nobody : SessionManager
nobody = record { sessions = []; table = [] }

run-IsBacked_example : IsBacked (run some_calls nobody)
run-IsBacked_example = run-IsBacked some_calls []

-- The session that was made first has expired, its keys with it.
abbrev first_calls : List Op
first_calls = create (at_time 10 "s1") "alice" none ∷ derive (at_time 30 "") "s1" (9 ∷ []) ∷ []

the_keys :
    (get_session_keys (at_time 3600010 "") "s1" (run first_calls nobody)).0
    ≡ some (record { encryption_key = 2 ∷ []; decryption_key = 9 ∷ [] })
unfolding get_session_keys get_session get run step derive_and_store_session_keys create_session put
the_keys = refl

no_keys : (get_session_keys (at_time 3600011 "") "s1" (run first_calls nobody)).0 ≡ none
unfolding get_session_keys get_session get run step derive_and_store_session_keys create_session put
no_keys = refl
