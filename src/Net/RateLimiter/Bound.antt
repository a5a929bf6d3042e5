-- ===== src/Net/RateLimiter/Bound.antt =====
-- crates/net/src/lib.rs: what the token bucket grants.
use native.Mathlib.Nat.{mul-le-mul_left, le_of_mul-le-mul_left}
use helbreath_backend.Prelude.{
  ℕ, ◌+◌, ◌-◌, ◌*◌, ◌/◌, ◌%◌, ◌≤◌, ◌≡◌, refl, true, if◌then◌else◌, List, [], ◌∷◌, arith, Bool-cases,
  inl, inr, leb,
}
use helbreath_backend.Net.RateLimiter.{
  nano, F64, Limiter, new_limiter, as_secs_f64, refill, try_acquire, run_attempts,
}

-- The instants of the attempts do not run backwards.
abbrev pub IsMonotone : ℕ → List (ℕ × ℕ) → Type 0
IsMonotone start [] = Unit
IsMonotone start ((now, cost) ∷ rest) = (start ≤ now) × IsMonotone now rest

abbrev pub attempts_of : List (ℕ × ℕ) → ℕ
attempts_of [] = 0
attempts_of (a ∷ rest) = 1 + attempts_of rest

-- 2 ^ 53, and the next number.
abbrev pub k : ℕ
k = 9_007_199_254_740_992

abbrev pub k1 : ℕ
k1 = 9_007_199_254_740_993

secs_split : (ns one : ℕ) → ns / nano * one * nano + ns % nano * one ≡ ns * one
secs_split ns one = spread (ns / nano) (ns % nano) ns (omega arith)
  where
    spread : (s n t : ℕ) → s * nano + n ≡ t → s * one * nano + n * one ≡ t * one
    spread s n t e = rw (← e) (omega arith)

scale : (e a x b r : ℕ) → e * a ≤ x * b → e * r * a ≤ x * r * b
scale e a x b r h = omega (arith, mul-le-mul_left r h)

as_secs_near : (f : F64) (ns : ℕ) → as_secs_f64 f ns * (k * k * nano) ≤ ns * f.one * (k1 * k1)
unfolding as_secs_f64
as_secs_near f ns =
    let s = f.round (ns / nano * f.one) in
    let n = f.nanos_over_nano (ns % nano) in
    omega (
      arith,
      f.round_near (s + n),
      f.round_near (ns / nano * f.one),
      f.nanos_near (ns % nano),
      secs_split ns f.one,
    )

refilled_near :
    (f : F64) (ns rate : ℕ)
    → f.round (as_secs_f64 f ns * rate) * (k * k * k * nano) ≤ ns * f.one * rate * (k1 * k1 * k1)
refilled_near f ns rate =
    let e = as_secs_f64 f ns in
    omega (
      arith,
      f.round_near (e * rate),
      scale e (k * k * nano) (ns * f.one) (k1 * k1) rate (as_secs_near f ns),
    )

-- The fields that an attempt keeps or sets.
try_acquire_fields :
    (f : F64) (now cost : ℕ) (l : Limiter)
    → ((try_acquire f now cost l).0.rate_per_sec ≡ l.rate_per_sec)
      × ((try_acquire f now cost l).0.burst ≡ l.burst)
      × ((try_acquire f now cost l).0.last_refill ≡ now)
unfolding try_acquire
try_acquire_fields f now cost l =
    elim (Bool-cases (leb (cost * f.one) (refill f now l).available)) [
      | inl t ↦ rw t (refl, refl, refl)
      | inr t ↦ rw t (refl, refl, refl)
    ]

-- A refill adds what flows in, and the rounding of a sum within the burst.
refill_gains :
    (f : F64) (now : ℕ) (l : Limiter)
    → (refill f now l).available * k
      ≤ (l.available + f.round (as_secs_f64 f (now - l.last_refill) * l.rate_per_sec)) * k + l.burst
unfolding refill
refill_gains f now l =
    let p = f.round (as_secs_f64 f (now - l.last_refill) * l.rate_per_sec) in
    omega (arith, f.round_near (l.available + p))

within_burst : (f : F64) (now : ℕ) (l : Limiter) → (refill f now l).available ≤ l.burst
unfolding refill
within_burst f now l = omega arith

-- An attempt spends what it grants, but for the rounding of the difference.
try_acquire_spends :
    (f : F64) (now cost : ℕ) (l : Limiter)
    → ((if (try_acquire f now cost l).1 then cost else 0) * f.one
          + (try_acquire f now cost l).0.available)
        * k
      ≤ (refill f now l).available * k + l.burst
unfolding try_acquire
try_acquire_spends f now cost l =
    let a = (refill f now l).available in
    elim (Bool-cases (leb (cost * f.one) a)) [
      | inl t ↦
          rw t (omega (arith, f.round_near (a - cost * f.one), within_burst f now l, leb_le t))
      | inr t ↦ rw t (omega arith)
    ]
  where
    leb_le : {n m : ℕ} → leb n m ≡ true → n ≤ m
    leb_le h = ground arith

-- What flows in over two stretches of time that follow each other.
flows : (now last w x : ℕ) → last ≤ now → x ≡ (now - last) * w → x + w * last ≡ w * now
flows now last w x h e = omega (arith, spread (now - last) (omega arith))
  where
    spread : (d : ℕ) → d + last ≡ now → d * w + w * last ≡ w * now
    spread d e' = rw (← e') (omega arith)

-- One attempt: what it grants and leaves, in parts of 2 ^ 159 billionths.
attempt_bound :
    (f : F64) (now cost : ℕ) (l : Limiter)
    → l.last_refill ≤ now
    → ((if (try_acquire f now cost l).1 then cost else 0) * f.one
            + (try_acquire f now cost l).0.available)
          * (k * k * k * nano)
        + f.one * l.rate_per_sec * (k1 * k1 * k1) * l.last_refill
      ≤ l.available * (k * k * k * nano)
        + 2 * l.burst * (k * k * nano)
        + f.one * l.rate_per_sec * (k1 * k1 * k1) * now
attempt_bound f now cost l h = omega (
  arith,
  try_acquire_spends f now cost l,
  refill_gains f now l,
  refilled_near f (now - l.last_refill) l.rate_per_sec,
  flows now l.last_refill (f.one * l.rate_per_sec * (k1 * k1 * k1))
      ((now - l.last_refill) * (f.one * l.rate_per_sec * (k1 * k1 * k1))) h refl,
)

combine :
    (g t one a0 a1 a2 b n w l0 l1 l2 : ℕ)
    → (g * one + a1) * (k * k * k * nano) + w * l0
      ≤ a0 * (k * k * k * nano) + 2 * b * (k * k * nano) + w * l1
    → t * one * (k * k * k * nano) + a2 * (k * k * k * nano) + w * l1
      ≤ a1 * (k * k * k * nano) + n * (2 * b * (k * k * nano)) + w * l2
    → (g + t) * one * (k * k * k * nano) + a2 * (k * k * k * nano) + w * l0
      ≤ a0 * (k * k * k * nano) + (1 + n) * (2 * b * (k * k * nano)) + w * l2
combine g t one a0 a1 a2 b n w l0 l1 l2 h j = omega arith

run_attempts_spends :
    (f : F64) (attempts : List (ℕ × ℕ)) (l : Limiter)
    → IsMonotone l.last_refill attempts
    → (run_attempts f attempts l).1 * f.one * (k * k * k * nano)
        + (run_attempts f attempts l).0.available * (k * k * k * nano)
        + f.one * l.rate_per_sec * (k1 * k1 * k1) * l.last_refill
      ≤ l.available * (k * k * k * nano)
        + attempts_of attempts * (2 * l.burst * (k * k * nano))
        + f.one * l.rate_per_sec * (k1 * k1 * k1) * (run_attempts f attempts l).0.last_refill
unfolding run_attempts
run_attempts_spends f [] l h = omega arith
run_attempts_spends f ((now, cost) ∷ rest) l h =
    let l' = (try_acquire f now cost l).0 in
    let fields = try_acquire_fields f now cost l in
    let later = run_attempts_spends f rest l' (rw fields.2 h.1) in
    combine (if (try_acquire f now cost l).1 then cost else 0) (run_attempts f rest l').1 f.one
      l.available l'.available (run_attempts f rest l').0.available l.burst (attempts_of rest)
      (f.one * l.rate_per_sec * (k1 * k1 * k1)) l.last_refill now
      (run_attempts f rest l').0.last_refill (attempt_bound f now cost l h.0)
      (rw (fields.0, fields.1, fields.2) at later)

-- From a fresh limiter, over any run of attempts at instants that do not run backwards, what is
-- granted is at most the burst, with 2 ^ -52 of it for each attempt, and the rate times the time that
-- has passed, with (1 + 2 ^ -53) ^ 3 of it, whatever the rounding of doubles does within its error of
-- 2 ^ -53. Both sides are multiplied by 2 ^ 159 * 10 ^ 9.
pub run_attempts_bound :
    (f : F64) (start rate burst : ℕ) (attempts : List (ℕ × ℕ))
    → IsMonotone start attempts
    → (run_attempts f attempts (new_limiter f start rate burst)).1 * (k * k * k * nano)
        + rate * (k1 * k1 * k1) * start
      ≤ burst * (k * k * k * nano)
        + attempts_of attempts * (2 * burst * (k * k * nano))
        + rate
          * (k1 * k1 * k1)
          * (run_attempts f attempts (new_limiter f start rate burst)).0.last_refill
unfolding new_limiter
run_attempts_bound f start rate burst attempts h =
    le_of_mul-le-mul_left {k = f.one}
      (omega (arith, run_attempts_spends f attempts (new_limiter f start rate burst) h)) f.one_pos
