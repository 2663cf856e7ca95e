-- ===== src/Schedule/Recurring/Ticks.antt =====
-- A whole tick: the rounds over the tasks, one after the other.
use think_tank.Prelude.{
  ℕ, ◌+◌, ◌≤◌, max, ◌≡◌, inl, inr, refl, sym, subst, ap, ◌∙◌, String, Bool, true, false, not,
  Option, none, some, List, [], ◌∷◌, ◌++◌, str_eq, if◌then◌else◌, eq_iff, All, Bool-cases, arith,
}
use think_tank.Json.{Value, ok, ◌>>=◌, Result-cases}
use think_tank.Config.{config_value}
use think_tank.Queue.Job.{Job, is_queued, new_job}
use think_tank.Queue.Backpressure.{get_queue_depth, is_queued_of}
use think_tank.Schedule.{TaskDef, config_key, Clock}
use think_tank.Schedule.Recurring.{Tick, is_due, advanced, recurring_job, run_task, run_tasks}
use think_tank.Schedule.Recurring.Rounds.{
  config_value-put_config, get_queue_depth-append, Rests, Enqueues, run_task_idle, run_task-cases,
}

abbrev pub apart : TaskDef → TaskDef → Bool
apart t u = not (str_eq (config_key t.key) (config_key u.key))

-- The tasks have different rows.
abbrev pub DistinctKeys : List TaskDef → Type 0
DistinctKeys [] = Unit
DistinctKeys (t ∷ ts) = All (λ u. (apart t u ≡ true) × (apart u t ≡ true)) ts × DistinctKeys ts

pub get_queue_depth-recurring :
    (jobs : List Job) (now i : ℕ) (t u : String)
    → get_queue_depth (jobs ++ recurring_job now i t ∷ []) u
      ≡ get_queue_depth jobs u + (if str_eq t u then 1 else 0)
unfolding recurring_job new_job is_queued_of is_queued
get_queue_depth-recurring jobs now i t u =
    get_queue_depth-append jobs (recurring_job now i t) u ∙ ground arith

module _ (clock : Clock) (now : ℕ) (uuid4 : ℕ → ℕ) where
  abbrev pub row : TaskDef → Tick → Value
  row t s = config_value (config_key t.key) s.config

  module _ (u : TaskDef) (s s' : Tick) (h : run_task clock now uuid4 u s ≡ ok s') where
    pub run_task-row : (t : TaskDef) → apart u t ≡ true → row t s' ≡ row t s
    run_task-row t a = elim (run_task-cases clock now uuid4 u s s' h) [
      | inl (e, r) ↦ ap (row t) e
      | inr q ↦
          ap (row t) q.result
          ∙ config_value-put_config (config_key u.key) (config_key t.key)
              (advanced clock now q.next u (row u s)) s.config
          ∙ ground (arith, a)
    ]

    run_task-grows : (j : String) → get_queue_depth s.jobs j ≤ get_queue_depth s'.jobs j
    run_task-grows j = elim (run_task-cases clock now uuid4 u s s' h) [
      | inl (e, r) ↦ rw e (omega arith)
      | inr q ↦
          rw q.result
            (omega (arith, get_queue_depth-recurring s.jobs now (uuid4 s.enqueued) q.job_type j))
    ]

    run_task-bound : (j : String) → get_queue_depth s'.jobs j ≤ max 1 (get_queue_depth s.jobs j)
    run_task-bound j = elim (run_task-cases clock now uuid4 u s s' h) [
      | inl (e, r) ↦ rw e (omega arith)
      | inr q ↦ elim (Bool-cases (str_eq q.job_type j)) [
        | inl p ↦
            let idle =
              subst (λ x. get_queue_depth s.jobs x ≡ 0) ((eq_iff q.job_type j).0 p) q.idle in
            rw q.result (
              ground (
                arith,
                p,
                idle,
                get_queue_depth-recurring s.jobs now (uuid4 s.enqueued) q.job_type j,
              ))
        | inr p ↦ rw q.result (
            ground (arith, p, get_queue_depth-recurring s.jobs now (uuid4 s.enqueued) q.job_type j))
      ]
    ]

    pub Enqueues-depth :
        (q : Enqueues clock now uuid4 u s s') → 1 ≤ get_queue_depth s'.jobs q.job_type
    Enqueues-depth q = rw q.result (
        ground (
          arith,
          eq_iff q.job_type q.job_type,
          get_queue_depth-recurring s.jobs now (uuid4 s.enqueued) q.job_type q.job_type,
        ))

    pub run_task-Rests : Rests clock now uuid4 u s' u.job_type
    run_task-Rests = elim (run_task-cases clock now uuid4 u s s' h) [
      | inl (e, r) ↦ subst (λ x. Rests clock now uuid4 u x u.job_type) (sym e) r
      | inr q ↦ subst (Rests clock now uuid4 u s') (sym q.typed) (inr (Enqueues-depth q))
    ]

    run_task-keeps :
        (t : TaskDef) (j : Option String)
        → apart u t ≡ true
        → Rests clock now uuid4 t s j
        → Rests clock now uuid4 t s' j
    run_task-keeps t none a r = tt
    run_task-keeps t (some j) a (inl d) =
        inl (subst (λ v. is_due clock v now ≡ false) (sym (run_task-row t a)) d)
    run_task-keeps t (some j) a (inr d) = inr (omega (arith, run_task-grows j, d))

  -- A run of several rounds, as its first round and the rest.
  pub run_tasks-split :
      (t : TaskDef) (ts : List TaskDef) (s s' : Tick)
      → run_tasks clock now uuid4 (t ∷ ts) s ≡ ok s'
      → (m : Tick) × (run_task clock now uuid4 t s ≡ ok m)
        × (run_tasks clock now uuid4 ts m ≡ ok s')
  unfolding run_tasks
  run_tasks-split t ts s s' h = elim (Result-cases (run_task clock now uuid4 t s)) [
    | inl (m, e) ↦ (m, e, subst (λ r. (r >>= run_tasks clock now uuid4 ts) ≡ ok s') e h)
    | inr (x, e) ↦ let wrong = subst (λ r. (r >>= run_tasks clock now uuid4 ts) ≡ ok s') e h in cc
  ]

  pub run_tasks-grows :
      (ts : List TaskDef) (s s' : Tick) (j : String)
      → run_tasks clock now uuid4 ts s ≡ ok s'
      → get_queue_depth s.jobs j ≤ get_queue_depth s'.jobs j
  unfolding run_tasks
  run_tasks-grows [] s s' j h = let e : s ≡ s' = cc in rw e (omega arith)
  run_tasks-grows (t ∷ ts) s s' j h =
      let (m, e, r) = run_tasks-split t ts s s' h in
      omega (arith, run_task-grows t s m e j, run_tasks-grows ts m s' j r)

  pub run_tasks-bound :
      (ts : List TaskDef) (s s' : Tick) (j : String)
      → run_tasks clock now uuid4 ts s ≡ ok s'
      → get_queue_depth s'.jobs j ≤ max 1 (get_queue_depth s.jobs j)
  unfolding run_tasks
  run_tasks-bound [] s s' j h = let e : s ≡ s' = cc in rw e (omega arith)
  run_tasks-bound (t ∷ ts) s s' j h =
      let (m, e, r) = run_tasks-split t ts s s' h in
      omega (arith, run_task-bound t s m e j, run_tasks-bound ts m s' j r)

  run_tasks-row :
      (t : TaskDef) (ts : List TaskDef) (s s' : Tick)
      → All (λ u. (apart t u ≡ true) × (apart u t ≡ true)) ts
      → run_tasks clock now uuid4 ts s ≡ ok s'
      → row t s' ≡ row t s
  unfolding run_tasks
  run_tasks-row t [] s s' a h = let e : s ≡ s' = cc in ap (row t) (sym e)
  run_tasks-row t (u ∷ ts) s s' a h =
      let (m, e, r) = run_tasks-split u ts s s' h in
      run_tasks-row t ts m s' a.1 r ∙ run_task-row u s m e t a.0.1

  run_tasks-keeps :
      (t : TaskDef) (j : Option String) (ts : List TaskDef) (s s' : Tick)
      → All (λ u. (apart t u ≡ true) × (apart u t ≡ true)) ts
      → run_tasks clock now uuid4 ts s ≡ ok s'
      → Rests clock now uuid4 t s j
      → Rests clock now uuid4 t s' j
  run_tasks-keeps t none ts s s' a h r = tt
  run_tasks-keeps t (some j) ts s s' a h (inl d) =
      inl (subst (λ v. is_due clock v now ≡ false) (sym (run_tasks-row t ts s s' a h)) d)
  run_tasks-keeps t (some j) ts s s' a h (inr d) =
      inr (omega (arith, run_tasks-grows ts s s' j h, d))

  -- After a tick every task rests.
  pub run_tasks-Rests :
      (ts : List TaskDef) (s s' : Tick)
      → DistinctKeys ts
      → run_tasks clock now uuid4 ts s ≡ ok s'
      → All (λ t. Rests clock now uuid4 t s' t.job_type) ts
  run_tasks-Rests [] s s' d h = tt
  run_tasks-Rests (t ∷ ts) s s' d h =
      let (m, e, r) = run_tasks-split t ts s s' h in
      (
        run_tasks-keeps t t.job_type ts m s' d.0 r (run_task-Rests t s m e),
        run_tasks-Rests ts m s' d.1 r,
      )

  -- Where every task rests, a tick does nothing.
  pub run_tasks_idle :
      (ts : List TaskDef) (s : Tick)
      → All (λ t. Rests clock now uuid4 t s t.job_type) ts
      → run_tasks clock now uuid4 ts s ≡ ok s
  unfolding run_tasks
  run_tasks_idle [] s h = refl
  run_tasks_idle (t ∷ ts) s h = rw (run_task_idle clock now uuid4 t s h.0) (run_tasks_idle ts s h.1)
