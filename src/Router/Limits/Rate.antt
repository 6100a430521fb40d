-- ===== src/Router/Limits/Rate.antt =====
-- The token bucket as a rate limit.
use yapyap.Prelude.{
  ℕ, ◌+◌, ◌-◌, ◌*◌, ◌≤◌, ◌≡◌, List, [], ◌∷◌, Option, none, some, Bool, true, false, arith,
  if◌then◌else◌,
}
use yapyap.Router.{InboundBucket, RateLimit}
use yapyap.Router.Limits.{take_token}

-- How many of the calls at these times are let through.
pub admitted : RateLimit → Option InboundBucket → List ℕ → ℕ
admitted limit bucket [] = 0
admitted limit bucket (now ∷ times) =
    let (allowed, next) = take_token limit now bucket in
    (if allowed then 1 else 0) + admitted limit (some next) times

-- The times do not go back, from `start` to `end`.
abbrev pub Ascends : ℕ → List ℕ → ℕ → Type 0
Ascends start [] end = start ≤ end
Ascends start (now ∷ times) end = (start ≤ now) × Ascends now times end

take_token-some :
    (limit : RateLimit) (now : ℕ) (b : InboundBucket)
    → b.last_refill_at ≤ now
    → ((take_token limit now (some b)).1.last_refill_at ≡ now)
      × ((if (take_token limit now (some b)).0 then limit.interval_ms else 0)
            + (take_token limit now (some b)).1.tokens
          ≤ b.tokens + (now - b.last_refill_at) * limit.tokens_per_interval)
unfolding take_token
take_token-some limit now b h = ground arith

Ascends-le : (start : ℕ) (times : List ℕ) (end : ℕ) → Ascends start times end → start ≤ end
Ascends-le start [] end h = h
Ascends-le start (now ∷ times) end h = omega (arith, Ascends-le now times end h.1)

sub_mul_split : (l n e k : ℕ) → l ≤ n → n ≤ e → (n - l) * k + (e - n) * k ≡ (e - l) * k
sub_mul_split l n e k h g =
    let split : e - l ≡ (n - l) + (e - n) = omega arith in rw split (omega arith)

count_step :
    (allowed : Bool) (n unit left before d e total : ℕ)
    → (if allowed then unit else 0) + left ≤ before + d
    → n * unit ≤ left + e
    → d + e ≡ total
    → ((if allowed then 1 else 0) + n) * unit ≤ before + total
count_step true n unit left before d e total h k p = omega arith
count_step false n unit left before d e total h k p = omega arith

admitted-some :
    (limit : RateLimit) (b : InboundBucket) (times : List ℕ) (end : ℕ)
    → Ascends b.last_refill_at times end
    → admitted limit (some b) times * limit.interval_ms
      ≤ b.tokens + (end - b.last_refill_at) * limit.tokens_per_interval
unfolding admitted
admitted-some limit b [] end h = omega arith
admitted-some limit b (now ∷ times) end h =
    let step = take_token-some limit now b h.0 in
    let later = admitted-some limit (take_token limit now (some b)).1 times end (rw step.0 h.1) in
    let split =
      sub_mul_split b.last_refill_at now end limit.tokens_per_interval h.0
        (Ascends-le now times end h.1) in
    count_step (take_token limit now (some b)).0 (admitted limit _ times) limit.interval_ms _ _ _ _
      _ step.1 (rw step.0 at later) split

-- However the calls of one peer fall in time, from its first call at `start` to `end` the number
-- of those that are let through is at most the burst and what is refilled in that time: counted in
-- units of 1 / intervalMs, the burst times intervalMs and the elapsed time times the rate.
pub admitted_bound :
    (limit : RateLimit) (start : ℕ) (times : List ℕ) (end : ℕ)
    → Ascends start times end
    → admitted limit none (start ∷ times) * limit.interval_ms
      ≤ limit.burst * limit.interval_ms + (end - start) * limit.tokens_per_interval
unfolding admitted take_token
admitted_bound limit start times end h =
    let bucket : InboundBucket = record {
      tokens = limit.burst * limit.interval_ms;
      last_refill_at = start;
    } in
    admitted-some limit bucket (start ∷ times) end (omega arith, h)
