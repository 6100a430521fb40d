-- ===== src/Crypto/Inverse.antt =====
-- modInverse of src/crypto/index.ts: the extended algorithm of Euclid.
use native.Mathlib.Nat.{div-add-mod', mod-lt, zero-lt-suc, mod-eq_of_lt, add-mul-mod_self_right}
use yapyap.Prelude.{
  ℕ, zero, suc, ◌+◌, ◌-◌, ◌*◌, ◌/◌, ◌%◌, ◌<◌, ◌≡◌, ◌≢◌, refl, sym, ap, ◌∙◌, ◌⊎◌, inl, inr, arith,
  subst, Bool-cases, nat_eq, nat_eq_iff, if◌then◌else◌,
}
use yapyap.Prelude.Int.{ℤ, pos, negsuc, pos_part, neg_part}
use yapyap.Crypto.{Checked, ok, err, not_invertible}
use yapyap.Crypto.Field.{
  rem_ℤ, positive_mod, minus_times, mod_inverse_loop, inverse_of, mod_inverse,
}

-- `a` is `x * v` modulo `m`.
pub record IsMultiple (v m a : ℕ) (x : ℤ) : Type 0 where
  pub over : ℕ
  pub under : ℕ
  pub balance : a + neg_part x * v + over * m ≡ pos_part x * v + under * m

minus_times_parts :
    (l : ℤ) (q : ℕ) (x : ℤ)
    → pos_part (minus_times l q x) + (neg_part l + q * pos_part x)
      ≡ neg_part (minus_times l q x) + (pos_part l + q * neg_part x)
minus_times_parts l q x = ground arith

minus_times-IsMultiple :
    (v m q a b : ℕ) (l x : ℤ)
    → IsMultiple v m (q * b + a) l
    → IsMultiple v m b x
    → IsMultiple v m a (minus_times l q x)
minus_times-IsMultiple v m q a b l x ka kb = record {
  over = ka.over + q * kb.under;
  under = ka.under + q * kb.over;
  balance =
      omega (arith, ka.balance, ap (◌*◌ q) kb.balance, ap (λ t. t * v) (minus_times_parts l q x));
}

-- What the loop returns is a divisor of both numbers, and a multiple of `v`.
pub record Ends (v m a b : ℕ) (r : Checked (ℕ × ℤ)) : Type 0 where
  pub gcd : ℕ
  pub factor : ℤ
  pub ends : r ≡ ok (gcd, factor)
  pub a_over : ℕ
  pub b_over : ℕ
  pub divides_a : a_over * gcd ≡ a
  pub divides_b : b_over * gcd ≡ b
  pub multiple : IsMultiple v m gcd factor

remainder : (a b : ℕ) → a / b * b + (a - a / b * b) ≡ a
remainder a b = omega (arith, div-add-mod' a b)

pub mod_inverse_loop-Ends :
    (fuel v m a b : ℕ) (x l : ℤ)
    → b < fuel
    → IsMultiple v m a l
    → IsMultiple v m b x
    → Ends v m a b (mod_inverse_loop fuel a b x l)
unfolding mod_inverse_loop
mod_inverse_loop-Ends zero v m a b x l h ka kb = elim h [ ]
mod_inverse_loop-Ends (suc fuel) v m a zero x l h ka kb = record {
  gcd = a;
  factor = l;
  ends = refl;
  a_over = 1;
  b_over = 0;
  divides_a = omega arith;
  divides_b = omega arith;
  multiple = ka;
}
mod_inverse_loop-Ends (suc fuel) v m a (suc b) x l h ka kb =
    let q = a / suc b in
    let r = a - q * suc b in
    let split = remainder a (suc b) in
    let small : r < suc b = omega (arith, div-add-mod' a (suc b), mod-lt a (zero-lt-suc b)) in
    let next =
      mod_inverse_loop-Ends fuel v m (suc b) r (minus_times l q x) x (omega (arith, h, small)) kb
        (minus_times-IsMultiple v m q r (suc b) l x (rw split ka) kb) in
    record {
      gcd = next.gcd;
      factor = next.factor;
      ends = next.ends;
      a_over = q * next.a_over + next.b_over;
      b_over = next.a_over;
      divides_a = omega (arith, ap (◌*◌ q) next.divides_a, next.divides_b, split);
      divides_b = next.divides_a;
      multiple = next.multiple;
    }

pub positive_mod-IsMultiple : (z : ℤ) (m : ℕ) → 0 < m → IsMultiple 1 m (positive_mod z m) z
unfolding positive_mod
positive_mod-IsMultiple (pos n) m h = record {
  over = (n % m + m - 0) / m + n / m;
  under = 1;
  balance = omega (arith, div-add-mod' (n % m + m - 0) m, div-add-mod' n m);
}
positive_mod-IsMultiple (negsuc n) m h =
    let parts : pos_part (rem_ℤ (negsuc n) m) + suc n % m ≡ neg_part (rem_ℤ (negsuc n) m) =
      ground arith in
    let t = pos_part (rem_ℤ (negsuc n) m) + m - neg_part (rem_ℤ (negsuc n) m) in
    let none_above : pos_part (rem_ℤ (negsuc n) m) ≡ 0 = ground arith in
    record {
      over = t / m;
      under = 1 + suc n / m;
      balance =
          omega
            (arith, parts, none_above, div-add-mod' t m, div-add-mod' (suc n) m, mod-lt (suc n) h);
    }

pub positive_mod-lt : (z : ℤ) (m : ℕ) → 0 < m → positive_mod z m < m
unfolding positive_mod
positive_mod-lt z m h = mod-lt _ h

-- Numbers that differ by multiples of `m` only.
pub same_mod : (m a b c d : ℕ) → a + c * m ≡ b + d * m → a % m ≡ b % m
same_mod m a b c d e =
    sym (add-mul-mod_self_right a c m) ∙ ap (λ t. t % m) e ∙ add-mul-mod_self_right b d m

one_of_multiples : (g x y : ℕ) → x * g ≡ 1 + y * g → g ≡ 1
one_of_multiples zero x y e = absurd (omega (arith, e))
one_of_multiples (suc zero) x y e = refl
one_of_multiples (suc (suc g)) x y e =
    let same = same_mod (suc (suc g)) 0 1 x y (omega (arith, e)) in
    absurd (
      omega (
        arith,
        sym (mod-eq_of_lt {n = 0} {m = suc (suc g)} (omega arith))
            ∙ same
            ∙ mod-eq_of_lt {n = 1} {m = suc (suc g)} (omega arith),
      ))

factor-inverse :
    (v m : ℕ) (factor : ℤ) → 1 < m → IsMultiple v m 1 factor → (positive_mod factor m * v) % m ≡ 1
factor-inverse v m factor h k =
    let r = positive_mod-IsMultiple factor m (omega (arith, h)) in
    same_mod m (positive_mod factor m * v) 1 (r.over * v + k.under) (k.over + r.under * v)
      (omega (arith, k.balance, ap (λ t. t * v) r.balance))
    ∙ mod-eq_of_lt h

no_inverse :
    (v m gcd a_over b_over s : ℕ) → a_over * gcd ≡ v → b_over * gcd ≡ m → (s * v) % m ≡ 1 → gcd ≡ 1
no_inverse v m gcd a_over b_over s da db e =
    one_of_multiples gcd (s * a_over) ((s * v) / m * b_over)
      (omega (arith, ap (◌*◌ s) da, ap (◌*◌ ((s * v) / m)) db, div-add-mod' (s * v) m, e))

-- For a modulus above 1, modInverse ends. Either it returns the inverse of the value, which is below the modulus,
-- or it throws that there is none, and then no number is an inverse of the value.
pub mod_inverse_lem :
    (value : ℤ) (modulus : ℕ)
    → 1 < modulus
    → ((r : ℕ) × (mod_inverse value modulus ≡ ok r)
        × (r < modulus)
        × ((r * positive_mod value modulus) % modulus ≡ 1))
      ⊎ ((mod_inverse value modulus ≡ err not_invertible)
          × ((s : ℕ) → (s * positive_mod value modulus) % modulus ≢ 1))
unfolding mod_inverse
mod_inverse_lem value modulus h =
    let v = positive_mod value modulus in
    let e =
      mod_inverse_loop-Ends (suc modulus) v modulus v modulus (pos 0) (pos 1) (omega arith)
        (record { over = 0; under = 0; balance = omega arith })
        (record { over = 0; under = 1; balance = omega arith }) in
    elim (Bool-cases (nat_eq e.gcd 1)) [
      | inl one ↦
          let is_one = (nat_eq_iff e.gcd 1).0 one in
          inl (
            positive_mod e.factor modulus,
            ap (inverse_of modulus) e.ends
                ∙ ap (λ b. if b then ok (positive_mod e.factor modulus) else err not_invertible)
                    one,
            positive_mod-lt e.factor modulus (omega (arith, h)),
            factor-inverse v modulus e.factor h
                (subst (λ g. IsMultiple v modulus g e.factor) is_one e.multiple),
          )
      | inr other ↦ inr (
        ap (inverse_of modulus) e.ends
            ∙ ap (λ b. if b then ok (positive_mod e.factor modulus) else err not_invertible) other,
        λ s one.
            let is_one =
              (nat_eq_iff e.gcd 1).1
                (no_inverse v modulus e.gcd e.a_over e.b_over s e.divides_a e.divides_b one) in
            cc,
      )
    ]
