-- ===== src/Schedule/Recurring/Rounds.antt =====
-- One round over a task: it rests, or it enqueues.
use think_tank.Prelude.{
  ℕ, ◌+◌, ◌≤◌, ◌≡◌, ◌⊎◌, inl, inr, refl, sym, subst, ◌∙◌, String, true, false, not, ◌||◌, Option,
  none, some, List, [], ◌∷◌, ◌++◌, ltb, ◌==◌, str_eq, if◌then◌else◌, pos, eq_iff, ==_iff,
  tally-append, Bool-cases, Option-cases, arith,
}
use think_tank.Json.{Value, int, Result, ok, raise, PyError, Result-cases}
use think_tank.Config.{SystemConfig, config_value}
use think_tank.Queue.Job.{Job}
use think_tank.Queue.Backpressure.{get_queue_depth, is_queued_of}
use think_tank.Schedule.{TaskDef, config_key, put_config, Clock, hours_from, setting}
use think_tank.Schedule.Recurring.{Tick, is_due, advanced, recurring_job, enqueue_task, run_task}

pub config_value-put_config :
    (k j : String) (v : Value) (rows : List SystemConfig)
    → config_value j (put_config k v rows) ≡ (if str_eq k j then v else config_value j rows)
unfolding config_value put_config
config_value-put_config k j v [] = refl
config_value-put_config k j v (row ∷ rows) = elim (Bool-cases (str_eq row.key k)) [
  | inl e ↦
      let p = (eq_iff row.key k).0 e in
      subst
        (λ x.
          config_value j (
            if str_eq row.key k then record row { value = v } ∷ rows else row ∷ put_config k v rows)
          ≡ (if str_eq x j then v else config_value j (row ∷ rows)))
        p (rw e (ground arith))
  | inr e ↦ rw e (elim (Bool-cases (str_eq k j)) [
    | inl q ↦
        let p = (eq_iff k j).0 q in
        let r = subst (λ x. str_eq row.key x ≡ false) p e in
        ground (arith, r, q, config_value-put_config k j v rows)
    | inr q ↦ ground (arith, q, config_value-put_config k j v rows)
  ])
]

pub get_queue_depth-append :
    (jobs : List Job) (j : Job) (u : String)
    → get_queue_depth (jobs ++ j ∷ []) u
      ≡ get_queue_depth jobs u + (if is_queued_of u j then 1 else 0)
unfolding get_queue_depth
get_queue_depth-append jobs j u = ground (arith, tally-append (is_queued_of u) jobs (j ∷ []))

module _ (clock : Clock) (now : ℕ) (uuid4 : ℕ → ℕ) (t : TaskDef) (s : Tick) where
  abbrev pub raw : Value
  raw = config_value (config_key t.key) s.config

  -- Nothing to do for the task.
  abbrev pub Rests : Option String → Type 0
  Rests none = Unit
  Rests (some job_type) = (is_due clock raw now ≡ false) ⊎ (1 ≤ get_queue_depth s.jobs job_type)

  abbrev pub enqueued_by : String → ℕ → Tick
  enqueued_by job_type next = record {
    config = put_config (config_key t.key) (advanced clock now next t raw) s.config;
    jobs = s.jobs ++ recurring_job now (uuid4 s.enqueued) job_type ∷ [];
    enqueued = s.enqueued + 1;
  }

  abbrev pub hours : Value
  hours = setting raw "frequency_hours" (int (pos t.default_hours))

  pub record Enqueues (s' : Tick) : Type 0 where
    pub job_type : String
    pub next : ℕ
    pub typed : t.job_type ≡ some job_type
    pub due : is_due clock raw now ≡ true
    pub idle : get_queue_depth s.jobs job_type ≡ 0
    pub later : hours_from now hours ≡ ok next
    pub result : s' ≡ enqueued_by job_type next

  pub run_task_idle : Rests t.job_type → run_task clock now uuid4 t s ≡ ok s
  unfolding run_task
  run_task_idle h = elim (Option-cases t.job_type) [
    | inl e ↦ rw (e, run_task) refl
    | inr (job_type, e) ↦ rw (e, run_task) (ground (arith, subst Rests e h))
  ]

  module _ (job_type : String) (e : t.job_type ≡ some job_type) (d : is_due clock raw now ≡ true)
      (q : get_queue_depth s.jobs job_type ≡ 0) where
    enqueue_task-run : run_task clock now uuid4 t s ≡ enqueue_task clock now uuid4 t job_type s
    unfolding run_task
    enqueue_task-run =
        subst
          (λ x.
            elim x as (λ _. Result Tick) [
              | none ↦ ok s
              | some job_type ↦
                  if not (is_due clock raw now) || ltb 0 (get_queue_depth s.jobs job_type)
                  then ok s
                  else enqueue_task clock now uuid4 t job_type s
            ]
            ≡ enqueue_task clock now uuid4 t job_type s)
          (sym e) (rw d (rw q refl))

    pub run_task-enqueues :
        (next : ℕ)
        → hours_from now hours ≡ ok next
        → run_task clock now uuid4 t s ≡ ok (enqueued_by job_type next)
    unfolding enqueue_task
    run_task-enqueues next h = enqueue_task-run ∙ rw h refl

    run_task-raises :
        (x : PyError) → hours_from now hours ≡ raise x → run_task clock now uuid4 t s ≡ raise x
    unfolding enqueue_task
    run_task-raises x h = enqueue_task-run ∙ rw h refl

  pub Rests-or :
      Rests t.job_type
      ⊎ ((job_type : String) × (t.job_type ≡ some job_type)
          × (is_due clock raw now ≡ true)
          × (get_queue_depth s.jobs job_type ≡ 0))
  Rests-or = elim (Option-cases t.job_type) [
    | inl e ↦ inl (subst Rests (sym e) tt)
    | inr (job_type, e) ↦ elim (Bool-cases (is_due clock raw now)) [
      | inl d ↦ elim (Bool-cases (get_queue_depth s.jobs job_type == 0)) [
        | inl q ↦ inr (job_type, e, d, (==_iff (get_queue_depth s.jobs job_type) 0).0 q)
        | inr q ↦ inl (subst Rests (sym e) (inr (ground (arith, q))))
      ]
      | inr d ↦ inl (subst Rests (sym e) (inl d))
    ]
  ]

  pub run_task-cases :
      (s' : Tick)
      → run_task clock now uuid4 t s ≡ ok s'
      → ((s' ≡ s) × Rests t.job_type) ⊎ Enqueues s'
  run_task-cases s' h = elim Rests-or [
    | inl r ↦ let e = run_task_idle r in inl ((cc), r)
    | inr (job_type, e, d, q) ↦ elim (Result-cases (hours_from now hours)) [
      | inl (next, l) ↦
          let r = run_task-enqueues job_type e d q next l in
          inr (record {
            job_type = job_type;
            next = next;
            typed = e;
            due = d;
            idle = q;
            later = l;
            result = cc;
          })
      | inr (x, l) ↦ let r = run_task-raises job_type e d q x l in cc
    ]
  ]
