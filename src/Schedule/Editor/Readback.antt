-- ===== src/Schedule/Editor/Readback.antt =====
-- What the editor writes is what the editor and the executor read.
use think_tank.Prelude.{
  ℕ, max, ◌≡◌, inl, inr, refl, sym, subst, ap, ◌∙◌, ℤ, pos, pos_part, String, true, false, ◌&&◌,
  none, some, List, [], ◌∷◌, leb, str_eq, eq_iff, Bool-cases, Option-cases, arith,
}
use think_tank.Json.{
  Value, Fields, empty, entry, null, bool, int, str, obj, get, put, truthy, get-put, get-put_other,
  ok, raise, Result-cases,
}
use think_tank.Config.{SystemConfig, config_value}
use think_tank.Schedule.{
  TaskDef, scheduled_tasks, find_task, config_key, put_config, Clock, ReadsBack, hours_from,
  setting, fields_or,
}
use think_tank.Schedule.Recurring.{parse_iso, is_due, advanced}
use think_tank.Schedule.Recurring.Rounds.{config_value-put_config}
use think_tank.Schedule.Editor.{
  moment, unknown_task, failed, Board, committed, reply, find_config, shown, iso, last_or, saved,
  scheduler_save, task_view,
}

-- A row that is there is the row that the readers find.
pub find_config-value :
    (k : String) (rows : List SystemConfig)
    → (find_config k rows ≡ none → config_value k rows ≡ null)
      × ((v : Value) → find_config k rows ≡ some v → config_value k rows ≡ v)
unfolding find_config config_value
find_config-value k [] = (λ e. refl, λ v e. cc)
find_config-value k (row ∷ rows) = elim (Bool-cases (str_eq row.key k)) [
  | inl e ↦ rw e (λ h. cc, λ v h. cc)
  | inr e ↦ rw e (find_config-value k rows)
]

-- The fields of a value, none when it is no dict.
pub setting-fields_or :
    (v : Value) (k : String) (d : Value) → setting v k d ≡ get (fields_or empty v) k d
unfolding setting fields_or get
setting-fields_or null k d = refl
setting-fields_or (bool b) k d = refl
setting-fields_or (int n) k d = refl
setting-fields_or (Value.float m e) k d = refl
setting-fields_or (str s) k d = refl
setting-fields_or (Value.arr xs) k d = refl
setting-fields_or (obj fs) k d = refl

-- The executor's base keeps what `enabled` reads.
fields_or-enabled :
    (v : Value)
    → get (fields_or (entry "enabled" (bool true) empty) v) "enabled" (bool true)
      ≡ setting v "enabled" (bool true)
unfolding setting fields_or get
fields_or-enabled null = refl
fields_or-enabled (bool b) = refl
fields_or-enabled (int n) = refl
fields_or-enabled (Value.float m e) = refl
fields_or-enabled (str s) = refl
fields_or-enabled (Value.arr xs) = refl
fields_or-enabled (obj fs) = refl

-- Writing the hours and a next run leaves the other keys, and both can be read.
put-hours :
    (fs : Fields) (x y d : Value)
    → get (put (put fs "frequency_hours" x) "next_run_at" y) "frequency_hours" d ≡ x
put-hours fs x y d =
    get-put_other (put fs "frequency_hours" x) "next_run_at" "frequency_hours" y d refl
    ∙ get-put fs "frequency_hours" x d

put-enabled :
    (fs : Fields) (x y d : Value)
    → get (put (put fs "frequency_hours" x) "next_run_at" y) "enabled" d ≡ get fs "enabled" d
put-enabled fs x y d =
    get-put_other (put fs "frequency_hours" x) "next_run_at" "enabled" y d refl
    ∙ get-put_other fs "frequency_hours" "enabled" x d refl

module _ (clock : Clock) (reads_back : ReadsBack clock) where
  -- The schedule that the executor writes for a task is due again exactly from the next run on,
  -- and only if it is enabled.
  pub is_due-advanced :
      (now next now' : ℕ) (t : TaskDef) (raw : Value)
      → is_due clock (advanced clock now next t raw) now'
        ≡ (truthy (setting raw "enabled" (bool true)) && leb next now')
  unfolding is_due advanced parse_iso
  is_due-advanced now next now' t raw =
      let fs = fields_or (entry "enabled" (bool true) empty) raw in
      let hours = setting raw "frequency_hours" (int (pos t.default_hours)) in
      let last = str (clock.isoformat now) in
      let start = put (put fs "frequency_hours" hours) "last_run_at" last in
      let e : get (put start "next_run_at" (str (clock.isoformat next))) "enabled" (bool true)
          ≡ setting raw "enabled" (bool true) =
        get-put_other start "next_run_at" "enabled" (str (clock.isoformat next)) (bool true) refl
        ∙ get-put_other (put fs "frequency_hours" hours) "last_run_at" "enabled" last (bool true)
            refl
        ∙ get-put_other fs "frequency_hours" "enabled" hours (bool true) refl
        ∙ fields_or-enabled raw in
      rw e (
        rw (get-put start "next_run_at" (str (clock.isoformat next)) null) (
          rw (reads_back next, parse_iso)
            (elim (Bool-cases (truthy (setting raw "enabled" (bool true)))) [
              | inl q ↦ rw q refl
              | inr q ↦ rw q refl
            ])))

  -- The row that a save writes over another one.
  record Saved (now n : ℕ) (raw v : Value) : Type 0 where
    hours : (d : Value) → setting v "frequency_hours" d ≡ int (pos n)
    enabled : setting v "enabled" (bool true) ≡ setting raw "enabled" (bool true)
    next : ℕ
    counted :
        hours_from (last_or clock now (setting raw "last_run_at" null)) (int (pos n)) ≡ ok next
    shows : shown clock (setting v "next_run_at" null) ≡ moment next

  moment_shown : (t : ℕ) → shown clock (iso clock t) ≡ moment t
  unfolding shown iso
  moment_shown t = rw (reads_back t, shown) refl

  saved_new : (now n : ℕ) (v : Value) → saved clock now n none ≡ ok v → Saved now n null v
  unfolding saved setting get last_or
  saved_new now n v h = elim (Result-cases (hours_from now (int (pos n)))) [
    | inl (next, l) ↦
        let row = obj (
          entry "frequency_hours" (int (pos n)) (
            entry "enabled" (bool true)
              (entry "last_run_at" null (entry "next_run_at" (iso clock next) empty)))) in
        let e : saved clock now n none ≡ ok row = rw l refl in
        let same : v ≡ row = cc in
        subst (Saved now n null) (sym same) (record {
          hours = λ d. refl;
          enabled = refl;
          next = next;
          counted = l;
          shows = moment_shown next;
        })
    | inr (x, l) ↦ let e : saved clock now n none ≡ raise x = rw l refl in cc
  ]

  saved_old : (now n : ℕ) (old v : Value) → saved clock now n (some old) ≡ ok v → Saved now n old v
  unfolding saved setting get
  saved_old now n old v h =
      let fs = fields_or empty old in
      let val = put fs "frequency_hours" (int (pos n)) in
      let last : get val "last_run_at" null ≡ setting old "last_run_at" null =
        get-put_other fs "frequency_hours" "last_run_at" (int (pos n)) null refl
        ∙ sym (setting-fields_or old "last_run_at" null) in
      let start = last_or clock now (get val "last_run_at" null) in
      elim (Result-cases (hours_from start (int (pos n)))) [
        | inl (next, l) ↦
            let row = obj (put val "next_run_at" (iso clock next)) in
            let e : saved clock now n (some old) ≡ ok row = rw l refl in
            let same : v ≡ row = cc in
            subst (Saved now n old) (sym same) (record {
              hours = λ d. put-hours fs (int (pos n)) (iso clock next) d;
              enabled =
                  put-enabled fs (int (pos n)) (iso clock next) (bool true)
                  ∙ sym (setting-fields_or old "enabled" (bool true));
              next = next;
              counted =
                  subst (λ x. hours_from (last_or clock now x) (int (pos n)) ≡ ok next) last l;
              shows =
                  ap (shown clock) (get-put val "next_run_at" (iso clock next) null)
                  ∙ moment_shown next;
            })
        | inr (x, l) ↦ let e : saved clock now n (some old) ≡ raise x = rw l refl in cc
      ]

  saved-Saved :
      (now n : ℕ) (k : String) (rows : List SystemConfig) (v : Value)
      → saved clock now n (find_config k rows) ≡ ok v
      → Saved now n (config_value k rows) v
  unfolding saved setting get last_or shown iso
  saved-Saved now n k rows v h = elim (Option-cases (find_config k rows)) [
    | inl e ↦
        rw ((find_config-value k rows).0 e)
          (saved_new now n v (subst (λ x. saved clock now n x ≡ ok v) e h))
    | inr (old, e) ↦
        rw ((find_config-value k rows).1 old e)
          (saved_old now n old v (subst (λ x. saved clock now n x ≡ ok v) e h))
  ]

  scheduler_save-commits :
      (now : ℕ) (k : String) (n : ℤ) (b b' : Board)
      → scheduler_save clock now k n b ≡ committed b'
      → (v : Value) × (saved clock now (max 1 (pos_part n)) (find_config (config_key k) b.config)
          ≡ ok v)
        × (b' ≡ record b { config = put_config (config_key k) v b.config })
  unfolding scheduler_save reply
  scheduler_save-commits now k n b b' h = elim (Option-cases (find_task k scheduled_tasks)) [
    | inl e ↦
        let u : scheduler_save clock now k n b ≡ unknown_task = rw (e, scheduler_save) refl in cc
    | inr (t, e) ↦
        elim (Result-cases
          (saved clock now (max 1 (pos_part n)) (find_config (config_key k) b.config))) [
            | inl (v, s) ↦
                let u : scheduler_save clock now k n b
                    ≡ committed (record b { config = put_config (config_key k) v b.config }) =
                  rw (e, scheduler_save) (rw s refl) in
                (v, s, (cc))
            | inr (x, s) ↦
                let u : scheduler_save clock now k n b ≡ failed x =
                  rw (e, scheduler_save) (rw s refl) in
                cc
          ]
  ]

  -- A saved frequency is what the editor shows from then on, at least one hour: the task is enabled
  -- exactly when it was before, its next run is shown that many hours after its last run, or after
  -- now when no last run can be read; no other task's entry changes, and no job.
  pub scheduler_save-reads_back :
      (now : ℕ) (t : TaskDef) (n : ℤ) (b b' : Board)
      → scheduler_save clock now t.key n b ≡ committed b'
      → let before = config_value (config_key t.key) b.config in
        let hours = max 1 (pos_part n) in
        ((task_view clock b'.config t).frequency_hours ≡ int (pos hours))
        × ((task_view clock b'.config t).enabled ≡ (task_view clock b.config t).enabled)
        × ((next : ℕ) × (hours_from
                (last_or clock now (setting before "last_run_at" null))
                (int (pos hours))
              ≡ ok next)
            × ((task_view clock b'.config t).next_run_at ≡ moment next))
        × ((u : TaskDef)
            → str_eq (config_key t.key) (config_key u.key) ≡ false
            → task_view clock b'.config u ≡ task_view clock b.config u)
        × (b'.jobs ≡ b.jobs)
  unfolding task_view
  scheduler_save-reads_back now t n b b' h =
      let k = config_key t.key in
      let (v, s, e) = scheduler_save-commits now t.key n b b' h in
      let r = saved-Saved now (max 1 (pos_part n)) k b.config v s in
      let self : config_value k (put_config k v b.config) ≡ v =
        config_value-put_config k k v b.config ∙ ground (arith, eq_iff k k) in
      rw e (
        rw self (
          r.hours (int (pos t.default_hours)),
          r.enabled,
          (r.next, r.counted, r.shows),
          λ u a. rw (config_value-put_config k (config_key u.key) v b.config) (rw a refl),
          refl,
        ))
