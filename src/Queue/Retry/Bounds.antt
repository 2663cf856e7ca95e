-- ===== src/Queue/Retry/Bounds.antt =====
-- The backoff schedule.
use Prim.Native.Nat.pow
use think_tank.Prelude.{ℕ, zero, suc, ◌*◌, ◌^◌, ◌≤◌, min, ◌≡◌, arith}
use think_tank.Queue.Job.{minute}
use think_tank.Queue.Retry.{backoff_minutes, calculate_backoff}

pow_pos : (a : ℕ) → 1 ≤ 2 ^ a
pow_pos zero = omega arith
pow_pos (suc a) = rw (pow.suc 2 a) (omega (arith, pow_pos a))

pub backoff_step : (a : ℕ) → backoff_minutes (suc a) ≡ min (2 * backoff_minutes a) 60
unfolding backoff_minutes
backoff_step a = rw (pow.suc 2 a) (omega arith)

backoff_top : (a : ℕ) → backoff_minutes a ≤ 60
unfolding backoff_minutes
backoff_top a = omega arith

backoff_bottom : (a : ℕ) → 1 ≤ backoff_minutes a
unfolding backoff_minutes
backoff_bottom a = omega (arith, pow_pos a)

backoff_mono : (a b : ℕ) → a ≤ b → backoff_minutes a ≤ backoff_minutes b
backoff_mono zero zero h = omega arith
backoff_mono zero (suc b) h =
    omega (arith, backoff_mono zero b (omega arith), backoff_step b, backoff_top b)
backoff_mono (suc a) zero h = absurd (omega arith)
backoff_mono (suc a) (suc b) h =
    omega (arith, backoff_mono a b (omega arith), backoff_step a, backoff_step b)

-- The delay before a retry lies between 1 and 60 minutes, never shrinks with the attempts, and
-- doubles from one attempt to the next until it reaches the hour.
pub calculate_backoff_bounds :
    (a b : ℕ)
    → a ≤ b
    → (minute ≤ calculate_backoff a)
      × (calculate_backoff a ≤ calculate_backoff b)
      × (calculate_backoff b ≤ 60 * minute)
      × (calculate_backoff (suc a) ≡ min (2 * calculate_backoff a) (60 * minute))
unfolding calculate_backoff
calculate_backoff_bounds a b h =
    omega (arith, backoff_bottom a, backoff_mono a b h, backoff_top b, backoff_step a)
