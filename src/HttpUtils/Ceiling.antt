-- ===== src/HttpUtils/Ceiling.antt =====
-- How long an upstream can hold a job back.
use think_tank.Prelude.{
  ℕ, ◌*◌, ◌≤◌, ◌≡◌, ap, inl, inr, ℤ, pos, negsuc, false, Option, none, some, List, [], min, same,
  strip, subst, Bool-cases, Option-cases, arith,
}
use think_tank.Json.{parse_int}
use think_tank.Queue.Job.{second}
use think_tank.Queue.Claim.{retry_delay}
use think_tank.HttpUtils.{clamp, seconds_until, parse_retry_after}

clamp-le : (n : ℤ) → clamp n ≤ 300
unfolding clamp
clamp-le (pos n) = omega arith
clamp-le (negsuc n) = omega arith

abbrev Within : Option ℕ → Type 0
Within none = Unit
Within (some n) = n ≤ 300

parse_retry_after-Within :
    (now : ℕ) (parse_date : List ℕ → Option ℕ) (raw : Option (List ℕ))
    → Within (parse_retry_after now parse_date raw)
unfolding parse_retry_after
parse_retry_after-Within now parse_date none = tt
parse_retry_after-Within now parse_date (some raw) = elim (Bool-cases (same (strip raw) [])) [
  | inl e ↦ rw e tt
  | inr e ↦ rw e (elim (Option-cases (parse_int (strip raw))) [
    | inr (n, i) ↦ rw i (clamp-le n)
    | inl i ↦ rw i (elim (Option-cases (parse_date (strip raw))) [
      | inl d ↦ rw d tt
      | inr (t, d) ↦ rw d (clamp-le (seconds_until now t))
    ])
  ])
]

min_of : (n : ℕ) → n ≤ 300 → min n 300 ≡ n
min_of n l = omega (arith, l)

-- A hint that is read from the header is at most 300 seconds, whatever the header says and whatever
-- dates the parser makes of it, so it delays the retry of the job by at most five minutes; and a
-- number of seconds up to that ceiling is taken as it is.
pub parse_retry_after_ceiling :
    (now : ℕ) (parse_date : List ℕ → Option ℕ) (raw : List ℕ)
    → ((attempts n : ℕ)
        → parse_retry_after now parse_date (some raw) ≡ some n
        → retry_delay attempts (some n) ≤ 300 * second)
      × ((n : ℕ)
          → same (strip raw) [] ≡ false
          → parse_int (strip raw) ≡ some (pos n)
          → n ≤ 300
          → parse_retry_after now parse_date (some raw) ≡ some n)
unfolding parse_retry_after retry_delay clamp
parse_retry_after_ceiling now parse_date raw = (
  λ attempts n h.
      let bounded = subst Within h (parse_retry_after-Within now parse_date (some raw)) in
      omega (arith, bounded),
  λ n e i l. rw (e, i) (ap some (min_of n l)),
)
