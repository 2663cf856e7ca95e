-- ===== src/Scaling/IdleTime.antt =====
-- Why the GPU service is scaled, over the checks of one scheduler.
use think_tank.Prelude.{
  ℕ, ◌≡◌, refl, subst, ◌⊎◌, inl, inr, ℤ, pos, Bool, true, ◌&&◌, Option, none, some, List, [], ◌∷◌,
  ltb, Bool-cases, arith,
}
use think_tank.Json.{Value, int, PyError, Result, ok, raise, Result-cases}
use think_tank.Config.{SystemConfig, get_config_value}
use think_tank.Queue.Job.{Job}
use think_tank.Queue.Backpressure.{get_queue_depth}
use think_tank.Scaling.{
  is_above, minutes_of, Scaling, is_off, is_over, idle_check, check_depth, manage_gpu_scaling,
}

-- What one check sees.
pub record Tick : Type 0 where
  pub now : ℕ
  pub config : List SystemConfig
  pub jobs : List Job
  pub replicas : Option ℕ

abbrev pub depth_at : Tick → ℕ
depth_at t = get_queue_depth t.jobs "process_content"

abbrev pub check : Tick → Option ℕ → Result Scaling
check t idle_since = manage_gpu_scaling t.now t.config t.jobs t.replicas idle_since

abbrev pub threshold_at : Tick → Value
threshold_at t = get_config_value t.config "gpu_queue_threshold" (int (pos 5))

abbrev pub minutes_at : Tick → Value
minutes_at t = get_config_value t.config "gpu_idle_minutes_before_shutdown" (int (pos 30))

-- The queue is empty, and the timer is older than the timeout.
pub record Expired (t : Tick) (idle_since : Option ℕ) : Type 0 where
  pub empty_now : depth_at t ≡ 0
  pub since : ℕ
  pub timer : idle_since ≡ some since
  pub timeout : ℤ
  pub limit : minutes_of (minutes_at t) ≡ ok timeout
  pub over : is_over t.now since timeout ≡ true

-- What a check that succeeds does.
record Facts (t : Tick) (idle_since : Option ℕ) (r : Scaling) : Type 0 where
  timed : (s : ℕ) → r.idle_since ≡ some s → (depth_at t ≡ 0) × ((t.now ≡ s) ⊎ (idle_since ≡ some s))
  down : r.request ≡ some 0 → Expired t idle_since
  up :
      r.request ≡ some 1
      → (is_above (depth_at t) (threshold_at t) ≡ ok true) × (is_off t.replicas ≡ true)

abbrev Explains : Tick → Option ℕ → Result Scaling → Type 0
Explains t i (raise e) = Unit
Explains t i (ok r) = Facts t i r

idle_check-Explains :
    (t : Tick) (i : Option ℕ) → depth_at t ≡ 0 → Explains t i (idle_check t.now (minutes_at t) i)
unfolding idle_check
idle_check-Explains t none d = record { timed = λ s e. (d, inl cc); down = λ e. cc; up = λ e. cc }
idle_check-Explains t (some since) d = elim (Result-cases (minutes_of (minutes_at t))) [
  | inr (e, m) ↦ rw m tt
  | inl (timeout, m) ↦ rw m (elim (Bool-cases (is_over t.now since timeout)) [
    | inl o ↦ rw o (record {
      timed = λ s e. cc;
      down = λ e. record {
        empty_now = d;
        since = since;
        timer = refl;
        timeout = timeout;
        limit = m;
        over = o;
      };
      up = λ e. cc;
    })
    | inr o ↦ rw o (record { timed = λ s e. (d, inr e); down = λ e. cc; up = λ e. cc })
  ])
]

check_depth-Explains :
    (t : Tick) (i : Option ℕ) (above : Bool)
    → is_above (depth_at t) (threshold_at t) ≡ ok above
    → Explains t i (check_depth t.now (minutes_at t) (depth_at t) t.replicas i above)
unfolding check_depth
check_depth-Explains t i above a = elim (Bool-cases (above && is_off t.replicas)) [
  | inl b ↦ rw b (record {
    timed = λ s e. cc;
    down = λ e. cc;
    up = λ e. (
      subst (λ v. is_above (depth_at t) (threshold_at t) ≡ ok v) (ground (arith, b)) a,
      ground (arith, b),
    );
  })
  | inr b ↦ rw b (elim (Bool-cases (ltb 0 (depth_at t))) [
    | inl l ↦ rw l (record { timed = λ s e. cc; down = λ e. cc; up = λ e. cc })
    | inr l ↦ rw l (idle_check-Explains t i (ground (arith, l)))
  ])
]

check-Explains : (t : Tick) (i : Option ℕ) → Explains t i (check t i)
unfolding manage_gpu_scaling
check-Explains t i = elim (Result-cases (is_above (depth_at t) (threshold_at t))) [
  | inr (e, a) ↦ rw a tt
  | inl (above, a) ↦ rw a (check_depth-Explains t i above a)
]

-- The timer that the scheduler keeps: an error leaves it.
abbrev pub next_timer : Option ℕ → Result Scaling → Option ℕ
next_timer i (ok r) = r.idle_since
next_timer i (raise e) = i

-- The checks so far, the last one first, with the timer that they leave.
pub data Checked : List Tick → Option ℕ → Type 0 where
  begun : Checked [] none
  tick :
      {ts : List Tick} {i : Option ℕ} (t : Tick)
      → Checked ts i
      → Checked (t ∷ ts) (next_timer i (check t i))

-- The queue was found empty at time `since`, and by every later check that did not fail.
pub data EmptySince (since : ℕ) : List Tick → Type 0 where
  from : {ts : List Tick} (t : Tick) → t.now ≡ since → depth_at t ≡ 0 → EmptySince since (t ∷ ts)
  still :
      {ts : List Tick} (t : Tick)
      → (depth_at t ≡ 0) ⊎ ((e : PyError) × (check t (some since) ≡ raise e))
      → EmptySince since ts
      → EmptySince since (t ∷ ts)

timer-EmptySince :
    {ts : List Tick} {i : Option ℕ}
    → Checked ts i
    → (since : ℕ) → i ≡ some since
    → EmptySince since ts
timer-EmptySince begun since e = cc
timer-EmptySince (tick {ts} {i} t c) since e = elim (Result-cases (check t i)) [
  | inl (r, k) ↦
      let facts = subst (Explains t i) k (check-Explains t i) in
      let (empty, from_now_or_before) = facts.timed since (rw k at e) in
      elim from_now_or_before [
        | inl now ↦ from t now empty
        | inr before ↦ still t (inl empty) (timer-EmptySince c since before)
      ]
  | inr (x, k) ↦
      let before : i ≡ some since = rw k at e in
      still t (inr (x, subst (λ j. check t j ≡ raise x) before k)) (timer-EmptySince c since before)
]

-- Why the service is stopped by the check `t` after the checks `ts`.
pub record Stopped (ts : List Tick) (t : Tick) : Type 0 where
  pub since : ℕ
  pub timeout : ℤ
  pub empty_since : EmptySince since ts
  pub empty_now : depth_at t ≡ 0
  pub limit : minutes_of (minutes_at t) ≡ ok timeout
  pub over : is_over t.now since timeout ≡ true

-- However the checks of one scheduler went before, a check asks for no replica only when the queue
-- is empty, was found empty at some time and by every check since then that did not fail, and that
-- time is longer ago than the timeout; and it asks for a replica only when the queue is deeper than
-- the threshold and the service is off or unknown.
pub check-Stopped :
    {ts : List Tick} {i : Option ℕ}
    → Checked ts i
    → (t : Tick) (r : Scaling) → check t i ≡ ok r
    → (r.request ≡ some 0 → Stopped ts t)
      × (r.request ≡ some 1
          → (is_above (depth_at t) (threshold_at t) ≡ ok true) × (is_off t.replicas ≡ true))
check-Stopped {ts} {i} c t r k =
    let facts = subst (Explains t i) k (check-Explains t i) in
    (
      λ e.
          let x = facts.down e in
          record {
            since = x.since;
            timeout = x.timeout;
            empty_since = timer-EmptySince c x.since x.timer;
            empty_now = x.empty_now;
            limit = x.limit;
            over = x.over;
          },
      facts.up,
    )
