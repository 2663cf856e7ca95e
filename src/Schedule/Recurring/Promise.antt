-- ===== src/Schedule/Recurring/Promise.antt =====
-- What a tick of the executor promises: each due task is served, once, and no other.
use think_tank.Prelude.{
  ℕ, ◌≤◌, max, ◌≡◌, inl, inr, refl, sym, subst, ap, ◌∙◌, String, Bool, true, false, some, List, [],
  ◌∷◌, str_eq, pos, eq_iff, All, All-In, In, here, there, Bool-cases, arith,
}
use think_tank.Json.{int, ok}
use think_tank.Config.{SystemConfig, config_value}
use think_tank.Queue.Job.{Job}
use think_tank.Queue.Backpressure.{get_queue_depth}
use think_tank.Schedule.{TaskDef, scheduled_tasks, config_key, Clock, hours_from, setting}
use think_tank.Schedule.Recurring.{Tick, is_due, run_task, run_tasks, run_due_scheduled_tasks}
use think_tank.Schedule.Recurring.Rounds.{
  Rests, enqueued_by, Rests-or, run_task_idle, run_task-enqueues, run_task-cases,
}
use think_tank.Schedule.Recurring.Ticks.{
  get_queue_depth-recurring, apart, DistinctKeys, row, run_task-row, run_tasks-grows,
  run_tasks-bound, run_tasks-Rests, run_tasks_idle, run_tasks-split, Enqueues-depth,
}

scheduled_tasks-DistinctKeys : DistinctKeys scheduled_tasks
scheduled_tasks-DistinctKeys =
    let r : (true ≡ true) × (true ≡ true) = (refl, refl) in
    (
      (r, (r, (r, (r, (r, (r, (r, tt))))))),
      (
        (r, (r, (r, (r, (r, (r, tt)))))),
        (
          (r, (r, (r, (r, (r, tt))))),
          ((r, (r, (r, (r, tt)))), ((r, (r, (r, tt))), ((r, (r, tt)), ((r, tt), (tt, tt))))),
        ),
      ),
    )

module _ (clock : Clock) (now : ℕ) where
  -- A tick that has the advisory lock and succeeds leaves nothing for another tick at the same time
  -- with the lock: that one enqueues nothing and changes no row of the configuration.
  pub run_due_scheduled_tasks-again :
      (uuid4 uuid4' : ℕ → ℕ) (config : List SystemConfig) (jobs : List Job) (s : Tick)
      → run_due_scheduled_tasks clock now uuid4 true config jobs ≡ ok s
      → run_due_scheduled_tasks clock now uuid4' true s.config s.jobs
        ≡ ok (record s { enqueued = 0 })
  unfolding run_due_scheduled_tasks
  run_due_scheduled_tasks-again uuid4 uuid4' config jobs s h =
      run_tasks_idle clock now uuid4' scheduled_tasks (record s { enqueued = 0 })
        (run_tasks-Rests clock now uuid4 scheduled_tasks
          (record { config = config; jobs = jobs; enqueued = 0 }) s scheduled_tasks-DistinctKeys h)

  -- The hours of a task's row are a number that leads to a time of the calendar.
  abbrev pub Numeric : List SystemConfig → TaskDef → Type 0
  Numeric config t =
      (next : ℕ) × (hours_from now (
          setting (config_value (config_key t.key) config) "frequency_hours"
            (int (pos t.default_hours)))
        ≡ ok next)

  module _ (uuid4 : ℕ → ℕ) where
    run_task-total :
        (t : TaskDef) (s : Tick)
        → Numeric s.config t
        → (m : Tick) × (run_task clock now uuid4 t s ≡ ok m)
    run_task-total t s (next, l) = elim (Rests-or clock now uuid4 t s) [
      | inl r ↦ (s, run_task_idle clock now uuid4 t s r)
      | inr (j, e, d, q) ↦ (
        enqueued_by clock now uuid4 t s j next,
        run_task-enqueues clock now uuid4 t s j e d q next l,
      )
    ]

    Numeric-kept :
        (t : TaskDef) (s m : Tick) (ts : List TaskDef)
        → run_task clock now uuid4 t s ≡ ok m
        → All (λ u. (apart t u ≡ true) × (apart u t ≡ true)) ts
        → All (Numeric s.config) ts
        → All (Numeric m.config) ts
    Numeric-kept t s m [] e a h = tt
    Numeric-kept t s m (u ∷ ts) e a h = (
      subst
          (λ v.
            (next : ℕ) × (hours_from now (setting v "frequency_hours" (int (pos u.default_hours)))
              ≡ ok next))
          (sym (run_task-row clock now uuid4 t s m e u a.0.0)) h.0,
      Numeric-kept t s m ts e a.1 h.1,
    )

    run_tasks-total :
        (ts : List TaskDef) (s : Tick)
        → DistinctKeys ts
        → All (Numeric s.config) ts
        → (s' : Tick) × (run_tasks clock now uuid4 ts s ≡ ok s')
    unfolding run_tasks
    run_tasks-total [] s d h = (s, refl)
    run_tasks-total (t ∷ ts) s d h =
        let (m, e) = run_task-total t s h.0 in
        let (s', r) = run_tasks-total ts m d.1 (Numeric-kept t s m ts e d.0 h.1) in (s', rw e r)

    -- A due task with a job type has a job in the queue in the end.
    run_tasks-serves :
        (t : TaskDef) (j : String) (ts : List TaskDef) (s s' : Tick)
        → In t ts
        → t.job_type ≡ some j
        → is_due clock (row clock now uuid4 t s) now ≡ true
        → DistinctKeys ts
        → run_tasks clock now uuid4 ts s ≡ ok s'
        → 1 ≤ get_queue_depth s'.jobs j
    run_tasks-serves t j [] s s' i q due d h = elim i [ ]
    run_tasks-serves t j (u ∷ ts) s s' here q due d h =
        let (m, e, r) = run_tasks-split clock now uuid4 t ts s s' h in
        let grown = run_tasks-grows clock now uuid4 ts m s' j r in
        elim (run_task-cases clock now uuid4 t s m e) [
          | inl (same, rest) ↦ elim (subst (Rests clock now uuid4 t s) q rest) [
            | inl late ↦ cc
            | inr queued ↦
                omega (arith, grown, subst (λ x. 1 ≤ get_queue_depth x.jobs j) (sym same) queued)
          ]
          | inr n ↦
              let same : n.job_type ≡ j = cc in
              omega (
                arith,
                grown,
                subst (λ x. 1 ≤ get_queue_depth m.jobs x) same
                    (Enqueues-depth clock now uuid4 t s m e n),
              )
        ]
    run_tasks-serves t j (u ∷ ts) s s' (there i) q due d h =
        let (m, e, r) = run_tasks-split clock now uuid4 u ts s s' h in
        let a = All-In (λ v. (apart u v ≡ true) × (apart v u ≡ true)) i d.0 in
        run_tasks-serves t j ts m s' i q
          (subst (λ v. is_due clock v now ≡ true) (sym (run_task-row clock now uuid4 u s m e t a.0))
            due)
          d.1 r

  -- When the hours of every task are numbers, a tick with the advisory lock succeeds, and each task with a job type that is
  -- enabled and due has a job in the queue afterwards; of no job type it leaves more than one job in
  -- the queue, or more than there were.
  pub run_due_scheduled_tasks-serves :
      (uuid4 : ℕ → ℕ) (config : List SystemConfig) (jobs : List Job)
      → All (Numeric config) scheduled_tasks
      → (s : Tick) × (run_due_scheduled_tasks clock now uuid4 true config jobs ≡ ok s)
        × ((t : TaskDef) (j : String)
            → In t scheduled_tasks
            → t.job_type ≡ some j
            → is_due clock (config_value (config_key t.key) config) now ≡ true
            → 1 ≤ get_queue_depth s.jobs j)
        × ((j : String) → get_queue_depth s.jobs j ≤ max 1 (get_queue_depth jobs j))
  unfolding run_due_scheduled_tasks
  run_due_scheduled_tasks-serves uuid4 config jobs h =
      let start : Tick = record { config = config; jobs = jobs; enqueued = 0 } in
      let (s, e) = run_tasks-total uuid4 scheduled_tasks start scheduled_tasks-DistinctKeys h in
      (
        s,
        e,
        λ t j i q due.
            run_tasks-serves uuid4 t j scheduled_tasks start s i q due scheduled_tasks-DistinctKeys
              e,
        λ j. run_tasks-bound clock now uuid4 scheduled_tasks start s j e,
      )

  -- No task of a job type is due.
  abbrev pub Silent : String → List SystemConfig → TaskDef → Type 0
  Silent j config t =
      t.job_type ≡ some j → is_due clock (config_value (config_key t.key) config) now ≡ false

  module _ (uuid4 : ℕ → ℕ) (j : String) where
    run_task_quiet :
        (t : TaskDef) (s m : Tick)
        → run_task clock now uuid4 t s ≡ ok m
        → Silent j s.config t
        → get_queue_depth m.jobs j ≡ get_queue_depth s.jobs j
    run_task_quiet t s m e h = elim (run_task-cases clock now uuid4 t s m e) [
      | inl (same, r) ↦ rw same refl
      | inr n ↦ elim (Bool-cases (str_eq n.job_type j)) [
        | inl q ↦
            let late = h (n.typed ∙ ap some ((eq_iff n.job_type j).0 q)) in let due = n.due in cc
        | inr q ↦ rw n.result (
            get_queue_depth-recurring s.jobs now (uuid4 s.enqueued) n.job_type j
            ∙ ground (arith, q))
      ]
    ]

    Silent-kept :
        (t : TaskDef) (s m : Tick) (ts : List TaskDef)
        → run_task clock now uuid4 t s ≡ ok m
        → All (λ u. (apart t u ≡ true) × (apart u t ≡ true)) ts
        → All (Silent j s.config) ts
        → All (Silent j m.config) ts
    Silent-kept t s m [] e a h = tt
    Silent-kept t s m (u ∷ ts) e a h = (
      λ q.
          subst (λ v. is_due clock v now ≡ false)
            (sym (run_task-row clock now uuid4 t s m e u a.0.0)) (h.0 q),
      Silent-kept t s m ts e a.1 h.1,
    )

    pub run_tasks_quiet :
        (ts : List TaskDef) (s s' : Tick)
        → DistinctKeys ts
        → run_tasks clock now uuid4 ts s ≡ ok s'
        → All (Silent j s.config) ts
        → get_queue_depth s'.jobs j ≡ get_queue_depth s.jobs j
    unfolding run_tasks
    run_tasks_quiet [] s s' d e h = let same : s ≡ s' = cc in rw same refl
    run_tasks_quiet (t ∷ ts) s s' d e h =
        let (m, f, r) = run_tasks-split clock now uuid4 t ts s s' e in
        run_tasks_quiet ts m s' d.1 r (Silent-kept t s m ts f d.0 h.1) ∙ run_task_quiet t s m f h.0

    -- A tick enqueues no job of a type whose tasks are disabled or not due yet.
    pub run_due_scheduled_tasks_quiet :
        (config : List SystemConfig) (jobs : List Job) (locked : Bool) (s : Tick)
        → All (Silent j config) scheduled_tasks
        → run_due_scheduled_tasks clock now uuid4 locked config jobs ≡ ok s
        → get_queue_depth s.jobs j ≡ get_queue_depth jobs j
    unfolding run_due_scheduled_tasks
    run_due_scheduled_tasks_quiet config jobs true s h e =
        run_tasks_quiet scheduled_tasks (record { config = config; jobs = jobs; enqueued = 0 }) s
          scheduled_tasks-DistinctKeys e h
    run_due_scheduled_tasks_quiet config jobs false s h e =
        let start : Tick = record { config = config; jobs = jobs; enqueued = 0 } in
        let same : start ≡ s = cc in ap (λ (x : Tick). get_queue_depth x.jobs j) (sym same)
