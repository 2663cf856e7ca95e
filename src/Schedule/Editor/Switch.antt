-- ===== src/Schedule/Editor/Switch.antt =====
-- A task that the editor switches off is not run.
use think_tank.Prelude.{
  ℕ, ◌≡◌, inl, inr, refl, sym, subst, ap, ◌∙◌, pos, String, true, false, not, none, some, List,
  eq_iff, All, All-map, Bool-cases, Option-cases, arith,
}
use think_tank.Json.{
  Value, empty, entry, null, bool, int, obj, get, put, truthy, get-put, get-put_other, ok, raise,
  Result-cases,
}
use think_tank.Config.{SystemConfig, config_value}
use think_tank.Queue.Backpressure.{get_queue_depth}
use think_tank.Schedule.{
  TaskDef, scheduled_tasks, find_task, config_key, put_config, Clock, hours_from, setting,
  fields_or,
}
use think_tank.Schedule.Recurring.{is_due}
use think_tank.Schedule.Recurring.Rounds.{config_value-put_config}
use think_tank.Schedule.Recurring.Promise.{Silent}
use think_tank.Schedule.Editor.{
  Board, unknown_task, committed, failed, reply, find_config, iso, toggled, scheduler_toggle,
}
use think_tank.Schedule.Editor.Disabled.{
  is_enabled, is_due-disabled, Attempt, attempt, config_after, config_after-disabled, attempt_quiet,
}
use think_tank.Schedule.Editor.Readback.{find_config-value, setting-fields_or}

module _ (clock : Clock) where
  scheduler_toggle-commits :
      (now : ℕ) (k : String) (b b' : Board)
      → scheduler_toggle clock now k b ≡ committed b'
      → (t : TaskDef) × (v : Value) × (toggled clock now t.default_hours
            (find_config (config_key k) b.config)
          ≡ ok v)
        × (b' ≡ record b { config = put_config (config_key k) v b.config })
  unfolding scheduler_toggle reply
  scheduler_toggle-commits now k b b' h = elim (Option-cases (find_task k scheduled_tasks)) [
    | inl e ↦
        let u : scheduler_toggle clock now k b ≡ unknown_task = rw (e, scheduler_toggle) refl in cc
    | inr (t, e) ↦
        elim (Result-cases
          (toggled clock now t.default_hours (find_config (config_key k) b.config))) [
            | inl (v, s) ↦
                let u : scheduler_toggle clock now k b
                    ≡ committed (record b { config = put_config (config_key k) v b.config }) =
                  rw (e, scheduler_toggle) (rw s refl) in
                (t, v, s, (cc))
            | inr (x, s) ↦
                let u : scheduler_toggle clock now k b ≡ failed x =
                  rw (e, scheduler_toggle) (rw s refl) in
                cc
          ]
  ]

  toggled_new : (now d : ℕ) (v : Value) → toggled clock now d none ≡ ok v → is_enabled v ≡ false
  unfolding toggled setting get truthy
  toggled_new now d v h =
      let row = obj (
        entry "frequency_hours" (int (pos d)) (
          entry "enabled" (bool false)
            (entry "last_run_at" null (entry "next_run_at" null empty)))) in
      let same : row ≡ v = cc in subst (λ x. is_enabled x ≡ false) same refl

  toggled_old :
      (now d : ℕ) (old v : Value)
      → toggled clock now d (some old) ≡ ok v
      → is_enabled v ≡ not (is_enabled old)
  unfolding toggled setting truthy
  toggled_old now d old v h =
      let fs = fields_or empty old in
      let was : is_enabled old ≡ truthy (get fs "enabled" (bool true)) =
        ap truthy (setting-fields_or old "enabled" (bool true)) in
      elim (Bool-cases (truthy (get fs "enabled" (bool true)))) [
        | inl e ↦
            let row = obj (put fs "enabled" (bool false)) in
            let u : toggled clock now d (some old) ≡ ok row = rw e refl in
            let same : row ≡ v = cc in
            subst (λ x. is_enabled x ≡ not (is_enabled old)) same
              (rw was (rw e (ap truthy (get-put fs "enabled" (bool false) (bool true)))))
        | inr e ↦ elim (Result-cases (hours_from now (get fs "frequency_hours" (int (pos d))))) [
          | inl (next, l) ↦
              let on = put fs "enabled" (bool true) in
              let row = obj (put on "next_run_at" (iso clock next)) in
              let u : toggled clock now d (some old) ≡ ok row = rw e (rw l refl) in
              let same : row ≡ v = cc in
              subst (λ x. is_enabled x ≡ not (is_enabled old)) same
                (rw was (
                  rw e (
                    ap truthy (
                      get-put_other on "next_run_at" "enabled" (iso clock next) (bool true) refl
                      ∙ get-put fs "enabled" (bool true) (bool true)))))
          | inr (x, l) ↦ let u : toggled clock now d (some old) ≡ raise x = rw e (rw l refl) in cc
        ]
      ]

  -- A toggle turns `enabled` over.
  pub toggled-is_enabled :
      (now d : ℕ) (k : String) (rows : List SystemConfig) (v : Value)
      → toggled clock now d (find_config k rows) ≡ ok v
      → is_enabled v ≡ not (is_enabled (config_value k rows))
  unfolding truthy setting
  toggled-is_enabled now d k rows v h = elim (Option-cases (find_config k rows)) [
    | inl e ↦
        rw ((find_config-value k rows).0 e)
          (toggled_new now d v (subst (λ x. toggled clock now d x ≡ ok v) e h))
    | inr (old, e) ↦
        rw ((find_config-value k rows).1 old e)
          (toggled_old now d old v (subst (λ x. toggled clock now d x ≡ ok v) e h))
  ]

  -- A task has the job type of its key, or none.
  abbrev Typed : TaskDef → Type 0
  Typed t = (j : String) → t.job_type ≡ some j → t.key ≡ j

  scheduled_tasks-Typed : All Typed scheduled_tasks
  scheduled_tasks-Typed = (
    λ j e. (cc),
    (
      λ j e. (cc),
      (λ j e. (cc), (λ j e. (cc), (λ j e. (cc), (λ j e. (cc), (λ j e. (cc), (λ j e. (cc), tt)))))),
    ),
  )

  -- A toggle of an enabled task switches it off: as long as only ticks write to the configuration, no
  -- tick after it enqueues a job of its type, whatever ticks came between, at any times, on any jobs,
  -- with the lock or without it, succeeding or raising.
  pub scheduler_toggle-silences :
      (now : ℕ) (k : String) (b b' : Board) (earlier : List Attempt) (next : Attempt)
      → is_enabled (config_value (config_key k) b.config) ≡ true
      → scheduler_toggle clock now k b ≡ committed b'
      → get_queue_depth (attempt clock next (config_after clock earlier b'.config)).1 k
        ≡ get_queue_depth next.jobs k
  scheduler_toggle-silences now k b b' earlier next on h =
      let (t, v, w, same) = scheduler_toggle-commits now k b b' h in
      let off : is_enabled v ≡ false =
        toggled-is_enabled now t.default_hours (config_key k) b.config v w ∙ rw on refl in
      let read : config_value (config_key k) b'.config ≡ v =
        ap (λ (x : Board). config_value (config_key k) x.config) same
        ∙ config_value-put_config (config_key k) (config_key k) v b.config
        ∙ ground (arith, eq_iff (config_key k) (config_key k)) in
      let rows = config_after clock earlier b'.config in
      let stays : is_enabled (config_value (config_key k) rows) ≡ false =
        config_after-disabled clock (config_key k) earlier b'.config (rw read off) in
      attempt_quiet clock k next rows (
        All-map {P = Typed} {Q = Silent clock next.now k rows}
          (λ u typed j.
            subst (λ x. is_due clock (config_value (config_key x) rows) next.now ≡ false)
              (sym (typed k j))
              (is_due-disabled clock (config_value (config_key k) rows) next.now stays))
          scheduled_tasks scheduled_tasks-Typed)
