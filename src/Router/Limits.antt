-- ===== src/Router/Limits.antt =====
-- Rate limits, peer scores and retry delays of src/message/message-router.ts.
pub mod Rate
use yapyap.Prelude.{
  ℕ, zero, suc, ◌+◌, ◌-◌, ◌*◌, ◌^◌, ◌≤◌, ◌<◌, min, String, ◌≡◌, List, [], ◌∷◌, Option, none, some,
  Bool, true, false, ◌==◌, string_keys, ==_iff, ==_refl, ◌≢◌, ◌∙◌, arith, if◌then◌else◌, ltb,
  or_else,
}
use native.Mathlib.Nat.{pow-suc, one-le-pow}
use yapyap.Prelude.Int.{ℤ, pos, negsuc, ◌+ℤ◌, ◌≤ℤ◌, leℤ, minℤ, maxℤ, pos_part, neg_part, +ℤ_parts}
use yapyap.Map.{get, put, get-put}
use yapyap.Router.{Router, Env, InboundBucket, RateLimit, Exec, ok, pure, gets, change, ◌>>=◌, ◌>>◌}

abbrev pub default_rate_limit : RateLimit
default_rate_limit = record { tokens_per_interval = 30; interval_ms = 1000; burst = 60 }

abbrev pub default_origin_rate_limit : RateLimit
default_origin_rate_limit = record { tokens_per_interval = 60; interval_ms = 1000; burst = 120 }

-- a bucket's first use fills it
abbrev full_bucket : RateLimit → ℕ → InboundBucket
full_bucket limit now = record { tokens = limit.burst * limit.interval_ms; last_refill_at = now }

refill : RateLimit → ℕ → InboundBucket → InboundBucket
refill limit now bucket =
    let elapsed = now - bucket.last_refill_at in
    if ltb 0 elapsed
    then record {
      tokens =
          min (limit.burst * limit.interval_ms)
            (bucket.tokens + elapsed * limit.tokens_per_interval);
      last_refill_at = now;
    }
    else bucket

-- the body of allowInboundFromPeer and of allowInboundByOriginKey
unfoldable pub take_token : RateLimit → ℕ → Option InboundBucket → Bool × InboundBucket
unfolding refill
take_token limit now found =
    let bucket = refill limit now (or_else found (full_bucket limit now)) in
    if ltb bucket.tokens limit.interval_ms
    then (false, bucket)
    else (true, record bucket { tokens = bucket.tokens - limit.interval_ms })

unfoldable pub allow_inbound_from_peer : Env → String → Exec Bool
allow_inbound_from_peer env peer s =
    let (allowed, bucket) = take_token env.rate_limit env.now (get s.inbound_buckets peer) in
    (ok allowed, record s { inbound_buckets = put s.inbound_buckets peer bucket })

unfoldable pub allow_inbound_by_origin_key : Env → String → Exec Bool
allow_inbound_by_origin_key env key s =
    let (allowed, bucket) =
      take_token env.origin_rate_limit env.now (get s.inbound_origin_buckets key) in
    (ok allowed, record s { inbound_origin_buckets = put s.inbound_origin_buckets key bucket })

abbrev pub peer_score_min : ℤ
peer_score_min = negsuc 99

abbrev pub peer_score_max : ℤ
peer_score_max = pos 100

abbrev pub peer_score_block_threshold : ℤ
peer_score_block_threshold = negsuc 39

unfoldable pub get_peer_score : Router → String → ℤ
get_peer_score s peer = or_else (get s.peer_scores peer) (pos 0)

-- Math.max(MIN, Math.min(MAX, score + delta))
pub clamped_score : ℤ → ℤ → ℤ
clamped_score score delta = maxℤ peer_score_min (minℤ peer_score_max (score +ℤ delta))

unfoldable pub bump_peer_score : String → ℤ → Exec (Unit {0})
unfolding change get_peer_score
bump_peer_score peer delta = change (λ s. record s {
  peer_scores = put s.peer_scores peer (clamped_score (get_peer_score s peer) delta);
})

unfoldable pub is_peer_blocked : Router → String → Bool
is_peer_blocked s peer = leℤ (get_peer_score s peer) peer_score_block_threshold

-- calculateBackoffDelay
unfoldable pub calculate_backoff_delay : ℕ → ℕ
calculate_backoff_delay attempts = min (1000 * 2 ^ attempts) 60000

pow_bounds : (n : ℕ) → (1 ≤ 2 ^ n) × (2 ^ suc n ≡ 2 * 2 ^ n)
pow_bounds n = (one-le-pow n 2 (omega arith), omega (arith, pow-suc 2 n))

pow_six : (k : ℕ) → 64 ≤ 2 ^ (k + 6)
pow_six zero = omega arith
pow_six (suc k) =
    let e : suc k + 6 ≡ suc (k + 6) = omega arith in
    rw e (omega (arith, pow_six k, (pow_bounds (k + 6)).1))

-- A delay lies between the base delay and the maximum, doubles from one attempt to the next
-- until it meets the maximum, and from the sixth attempt on it is the maximum.
pub backoff_doubles :
    (n : ℕ)
    → (1000 ≤ calculate_backoff_delay n)
      × (calculate_backoff_delay n ≤ 60000)
      × (calculate_backoff_delay (suc n) ≡ min (2 * calculate_backoff_delay n) 60000)
      × (calculate_backoff_delay (n + 6) ≡ 60000)
unfolding calculate_backoff_delay
backoff_doubles n = (
  omega (arith, (pow_bounds n).0),
  omega arith,
  omega (arith, (pow_bounds n).1),
  omega (arith, pow_six n),
)

abbrev pub ScoreInRange : ℤ → Type 0
ScoreInRange z = (peer_score_min ≤ℤ z) × (z ≤ℤ peer_score_max)

clamped_score-ScoreInRange : (score delta : ℤ) → ScoreInRange (clamped_score score delta)
unfolding clamped_score
clamped_score-ScoreInRange score delta = ground arith

get_peer_score-bump :
    (s : Router) (peer other : String) (delta : ℤ)
    → get_peer_score (bump_peer_score peer delta s).1 other ≡ (
        if peer == other
        then clamped_score (get_peer_score s peer) delta
        else get_peer_score s other)
unfolding bump_peer_score
get_peer_score-bump s peer other delta =
    rw (get-put s.peer_scores peer other (clamped_score (get_peer_score s peer) delta))
      (ground arith)

-- Whatever a peer's score was and however much it is to change, the score that is stored is the
-- old score plus the change, cut to the range from the minimum to the maximum, and the scores of
-- all other peers stay.
pub bump_peer_score_range :
    (s : Router) (peer : String) (delta : ℤ) (other : String)
    → ScoreInRange (get_peer_score (bump_peer_score peer delta s).1 peer)
      × (get_peer_score (bump_peer_score peer delta s).1 other ≡ (
          if peer == other
          then maxℤ peer_score_min (minℤ peer_score_max (get_peer_score s peer +ℤ delta))
          else get_peer_score s other))
unfolding clamped_score
bump_peer_score_range s peer delta other =
    let own : get_peer_score (bump_peer_score peer delta s).1 peer
        ≡ clamped_score (get_peer_score s peer) delta =
      rw (get_peer_score-bump s peer peer delta) (rw (==_refl peer)) in
    (
      rw own (clamped_score-ScoreInRange (get_peer_score s peer) delta),
      get_peer_score-bump s peer other delta,
    )
