-- ===== src/Net/RateLimiter.antt =====
-- crates/net/src/lib.rs: `TokenBucketRateLimiter`, on doubles that are rounded. A double of the
-- limiter is not negative, so it is a whole number of the least double's units, of which `one` make
-- 1.0; sums and differences of whole numbers, and a double times a whole rate, are whole numbers too,
-- which IEEE 754 rounds to a double. An instant is its number of nanoseconds.
pub mod Bound
use Prim.Native.Nat.{min}
use helbreath_backend.Prelude.{
  ℕ, ◌+◌, ◌-◌, ◌*◌, ◌/◌, ◌%◌, ◌^◌, ◌≤◌, ◌<◌, Bool, true, false, leb, if◌then◌else◌, List, [], ◌∷◌,
}

abbrev pub nano : ℕ
nano = 1_000_000_000

-- The arithmetic of `f64`: rounding to the nearest double is off by at most one part in 2 ^ 53, for
-- whole numbers of units, and for a number of nanoseconds below a second divided by 10 ^ 9.
pub record F64 : Type 0 where
  pub one : ℕ
  pub one_pos : 0 < one
  pub round : ℕ → ℕ
  pub nanos_over_nano : ℕ → ℕ
  pub round_near : (n : ℕ) → round n * 9_007_199_254_740_992 ≤ n * 9_007_199_254_740_993
  pub nanos_near :
      (n : ℕ)
      → nanos_over_nano n * 1_000_000_000 * 9_007_199_254_740_992 ≤ n * one * 9_007_199_254_740_993

-- The rate and the burst are whole; the other doubles are in units.
pub record Limiter : Type 0 where
  pub rate_per_sec : ℕ
  pub burst : ℕ
  pub available : ℕ
  pub last_refill : ℕ

-- `TokenBucketRateLimiter::new` at the instant `now`. A u32 is a double as it is.
unfoldable pub new_limiter : F64 → ℕ → ℕ → ℕ → Limiter
new_limiter f now rate burst = record {
  rate_per_sec = rate;
  burst = burst * f.one;
  available = burst * f.one;
  last_refill = now;
}

-- `Duration::as_secs_f64`: `(secs as f64) + (nanos as f64) / (NANOS_PER_SEC as f64)`.
unfoldable pub as_secs_f64 : F64 → ℕ → ℕ
as_secs_f64 f nanos = f.round (f.round (nanos / nano * f.one) + f.nanos_over_nano (nanos % nano))

-- `duration_since` is zero for an instant that is not later, as `-` is here.
unfoldable pub refill : F64 → ℕ → Limiter → Limiter
unfolding as_secs_f64
refill f now l =
    let elapsed = as_secs_f64 f (now - l.last_refill) in
    record l {
      last_refill = now;
      available = min (f.round (l.available + f.round (elapsed * l.rate_per_sec))) l.burst;
    }

unfoldable pub try_acquire : F64 → ℕ → ℕ → Limiter → Limiter × Bool
unfolding refill
try_acquire f now cost l =
    let l' = refill f now l in
    if leb (cost * f.one) l'.available
    then (record l' { available = f.round (l'.available - cost * f.one) }, true)
    else (l', false)

-- A run of attempts, each at an instant and with a cost: the limiter behind them, and the sum of the
-- costs that were granted.
unfoldable pub run_attempts : F64 → List (ℕ × ℕ) → Limiter → Limiter × ℕ
unfolding try_acquire
run_attempts f [] l = (l, 0)
run_attempts f ((now, cost) ∷ rest) l =
    let (l', granted) = try_acquire f now cost l in
    let (l'', total) = run_attempts f rest l' in (l'', (if granted then cost else 0) + total)
