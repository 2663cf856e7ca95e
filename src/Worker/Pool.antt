-- ===== src/Worker/Pool.antt =====
-- The tasks of one worker: `semaphore.acquire()` before a task is started, `release()` when it ends.
use think_tank.Prelude.{ℕ, ◌+◌, ◌-◌, ◌≡◌, ◌≤◌, ◌<◌, ltb, if◌then◌else◌, arith, Option, none, some}

-- The permits left, and the tasks that run.
pub record Pool : Type 0 where
  pub permits : ℕ
  pub active : ℕ

abbrev pub start : ℕ → Pool
start max_concurrency = record { permits = max_concurrency; active = 0 }

-- `none`: the loop waits at `semaphore.acquire()`.
unfoldable pub start_task : Pool → Option Pool
start_task p =
    if ltb 0 p.permits
    then some (record { permits = p.permits - 1; active = p.active + 1 })
    else none

unfoldable pub end_task : Pool → Pool
end_task p = record { permits = p.permits + 1; active = p.active - 1 }

-- Tasks start when a permit is free, and any running task may end.
pub data Turn (p : Pool) : Pool → Type 0 where
  begin : (q : Pool) → start_task p ≡ some q → Turn p q
  finish : 0 < p.active → Turn p (end_task p)

pub data Turns (p : Pool) : Pool → Type 0 where
  here : Turns p p
  next : {q r : Pool} → Turns p q → Turn q r → Turns p r

Turn-sum : {p q : Pool} → Turn p q → q.permits + q.active ≡ p.permits + p.active
unfolding start_task end_task
Turn-sum (begin q e) = ground arith
Turn-sum (finish h) = omega arith

-- Whatever the interleaving of starts and ends, the permits and the running tasks add up to
-- `max_concurrency`, so no more tasks than that ever run; and the loop is held up only when exactly
-- so many run.
pub Turns-bounded :
    (max_concurrency : ℕ) {q : Pool}
    → Turns (start max_concurrency) q
    → (q.permits + q.active ≡ max_concurrency)
      × (q.active ≤ max_concurrency)
      × (start_task q ≡ none → q.active ≡ max_concurrency)
unfolding start_task
Turns-bounded n here = ground arith
Turns-bounded n (next t m) = ground (arith, Turn-sum m, Turns-bounded n t)
