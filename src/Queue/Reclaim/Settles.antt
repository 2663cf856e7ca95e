-- ===== src/Queue/Reclaim/Settles.antt =====
-- What the reclamation does to the table: the one-by-one UPDATEs amount to one pass over the rows.
use think_tank.Prelude.{
  ℕ, ◌≡◌, ◌≢◌, refl, ap, ◌∙◌, ℤ, Bool, false, List, [], ◌∷◌, map, ◌==◌, ==_iff, Bool-cases, inl,
  inr, if◌then◌else◌, select, All, arith, ==_self,
}
use think_tank.Json.{ok}
use think_tank.Config.{SystemConfig}
use think_tank.Queue.Job.{Job, update_job}
use think_tank.Queue.Rows.{KeepsId, Distinct, update_job-absent}
use think_tank.Queue.Reclaim.{
  get_stale_timeout, is_stale, mark_reclaimed, reclaim_each, reclaim_stale_jobs,
}

pub mark_reclaimed_id : (now a m : ℕ) → KeepsId (mark_reclaimed now a m)
unfolding mark_reclaimed
mark_reclaimed_id now a m j = ground arith

-- A stale row is written from its own columns, and any other row is left.
unfoldable pub reclaim_row : ℕ → (Job → Bool) → Job → Job
reclaim_row now stale j = if stale j then mark_reclaimed now j.attempts j.max_attempts j else j

absent_select :
    (n : ℕ) (p : Job → Bool) (js : List Job)
    → All (λ k. n ≢ k.id) js
    → All (λ k. n ≢ k.id) (select p js)
absent_select n p [] h = tt
absent_select n p (j ∷ js) h = elim (Bool-cases (p j)) [
  | inl e ↦ rw e (h.0, absent_select n p js h.1)
  | inr e ↦ rw e (absent_select n p js h.1)
]

-- UPDATEs of other ids pass over the head of the table.
reclaim_each-skip :
    (now : ℕ) (rows : List Job) (x : Job) (js : List Job)
    → All (λ k. x.id ≢ k.id) rows
    → reclaim_each now rows (x ∷ js) ≡ x ∷ reclaim_each now rows js
unfolding reclaim_each update_job
reclaim_each-skip now [] x js h = refl
reclaim_each-skip now (r ∷ rows) x js h = elim (Bool-cases (x.id == r.id)) [
  | inl e ↦ absurd (h.0 ((==_iff x.id r.id).0 e))
  | inr e ↦ rw e (
      reclaim_each-skip now rows x
        (update_job r.id (mark_reclaimed now r.attempts r.max_attempts) js) h.1)
]

reclaim_each-hit :
    (now : ℕ) (rows : List Job) (j : Job) (js : List Job)
    → Distinct (j ∷ js)
    → All (λ k. j.id ≢ k.id) rows
    → reclaim_each now (j ∷ rows) (j ∷ js)
      ≡ mark_reclaimed now j.attempts j.max_attempts j ∷ reclaim_each now rows js
unfolding reclaim_each update_job
reclaim_each-hit now rows j js d h =
    let f = mark_reclaimed now j.attempts j.max_attempts in
    rw (==_self j.id, update_job-absent j.id f js d.0)
      (reclaim_each-skip now rows (f j) js
        (rw (mark_reclaimed_id now j.attempts j.max_attempts j) h))

reclaim_each-map :
    (now : ℕ) (p : Job → Bool) (js : List Job)
    → Distinct js
    → reclaim_each now (select p js) js ≡ map (reclaim_row now p) js
unfolding reclaim_row
reclaim_each-map now p [] d = unfold reclaim_each in refl
reclaim_each-map now p (j ∷ js) d = elim (Bool-cases (p j)) [
  | inl e ↦ rw e (
      reclaim_each-hit now (select p js) j js d (absent_select j.id p js d.0)
      ∙ ap (λ r. mark_reclaimed now j.attempts j.max_attempts j ∷ r)
          (reclaim_each-map now p js d.1))
  | inr e ↦ rw e (
      reclaim_each-skip now (select p js) j js (absent_select j.id p js d.0)
      ∙ ap (λ r. j ∷ r) (reclaim_each-map now p js d.1))
]

-- With distinct ids and a readable timeout, the reclamation reports exactly the stale unlocked
-- rows, in order, and writes each of them from its own columns; every other row stays as it is.
pub reclaim_stale_jobs-map :
    (now : ℕ) (config : List SystemConfig) (locked : ℕ → Bool) (jobs : List Job) {timeout : ℤ}
    → Distinct jobs
    → get_stale_timeout config ≡ ok timeout
    → reclaim_stale_jobs now config locked jobs
      ≡ ok (
        select (is_stale now timeout locked) jobs,
        map (reclaim_row now (is_stale now timeout locked)) jobs,
      )
unfolding reclaim_stale_jobs
reclaim_stale_jobs-map now config locked jobs {timeout} d e =
    rw (e, reclaim_each-map now (is_stale now timeout locked) jobs d)

reclaim_row_settled :
    (now : ℕ) (timeout : ℤ) (locked : ℕ → Bool) (j : Job)
    → is_stale now timeout locked (reclaim_row now (is_stale now timeout locked) j) ≡ false
unfolding reclaim_row mark_reclaimed
reclaim_row_settled now timeout locked j = elim (Bool-cases (is_stale now timeout locked j)) [
  | inl e ↦ rw e (unfold is_stale in ground arith)
  | inr e ↦ rw e e
]

reclaim_row-All_settled :
    (now : ℕ) (timeout : ℤ) (locked : ℕ → Bool) (jobs : List Job)
    → All
        (λ j. is_stale now timeout locked j ≡ false)
        (map (reclaim_row now (is_stale now timeout locked)) jobs)
reclaim_row-All_settled now timeout locked [] = tt
reclaim_row-All_settled now timeout locked (j ∷ js) =
    (reclaim_row_settled now timeout locked j, reclaim_row-All_settled now timeout locked js)

-- After a reclamation no unlocked row is stale at that time.
pub reclaim_stale_jobs_settles :
    (now : ℕ) (config : List SystemConfig) (locked : ℕ → Bool) (jobs : List Job) {timeout : ℤ}
    → Distinct jobs
    → get_stale_timeout config ≡ ok timeout
    → (out : List Job × List Job) × (reclaim_stale_jobs now config locked jobs ≡ ok out)
      × All (λ j. is_stale now timeout locked j ≡ false) out.1
reclaim_stale_jobs_settles now config locked jobs {timeout} d e = (
  (
    select (is_stale now timeout locked) jobs,
    map (reclaim_row now (is_stale now timeout locked)) jobs,
  ),
  reclaim_stale_jobs-map now config locked jobs d e,
  reclaim_row-All_settled now timeout locked jobs,
)
