-- ===== src/Queue/Lifecycle/Bounds.antt =====
-- Every operation of the queue keeps the ids distinct and the attempts bounded.
use think_tank.Prelude.{
  ℕ, ◌≡◌, ◌≢◌, ◌≤◌, refl, sym, String, Bool, Option, none, some, List, [], ◌∷◌, map, Bool-cases,
  inl, inr, All, All-In, In, arith, ℤ, subst, ◌∙◌,
}
use think_tank.Json.{ok}
use think_tank.Config.{SystemConfig}
use think_tank.Queue.Job.{Job, ErrorCategory, find_job, update_job}
use think_tank.Queue.Rows.{
  KeepsId, find_job-In, update_row-All, update_job-All, update_job-Distinct,
}
use think_tank.Queue.Retry.{get_max_attempts}
use think_tank.Queue.Claim.{
  mark_running, mark_done, complete_job, mark_failed, attempt_limit, fail_job,
}
use think_tank.Queue.Claim.Ownership.{
  Claimed, idle, claimed, claim_job-Claimed, eligible_queued, mark_running_id,
}
use think_tank.Queue.Claim.Failure.{mark_failed_id, mark_done_id}
use think_tank.Queue.Reclaim.{get_stale_timeout, is_stale, reclaim_stale_jobs}
use think_tank.Queue.Reclaim.Settles.{reclaim_row, mark_reclaimed_id, reclaim_stale_jobs-map}
use think_tank.Queue.Lifecycle.{
  Step, insert, claim, complete, fail, reclaim, Reach, here, next, IsBounded, IsSound,
  insert-IsBounded, mark_running-IsBounded, mark_done-IsBounded, mark_failed-IsBounded,
  mark_reclaimed-IsBounded,
}

-- An UPDATE by id of a sound table.
update-IsSound :
    (i : ℕ) (f : Job → Job) (jobs : List Job)
    → KeepsId f
    → ((k : Job) → k.id ≡ i → IsBounded k → IsBounded (f k))
    → IsSound jobs
    → IsSound (update_job i f jobs)
update-IsSound i f jobs keeps step s = record {
  distinct = update_job-Distinct i f keeps jobs s.distinct;
  bounded = update_job-All IsBounded i f step jobs s.bounded;
}

-- An UPDATE of one row `j` of the table: no other row has its id.
update_row-IsSound :
    (j : Job) (f : Job → Job) (jobs : List Job)
    → KeepsId f
    → In j jobs
    → IsBounded (f j)
    → IsSound jobs
    → IsSound (update_job j.id f jobs)
update_row-IsSound j f jobs keeps m step s = record {
  distinct = update_job-Distinct j.id f keeps jobs s.distinct;
  bounded = update_row-All IsBounded f jobs s.distinct m step s.bounded;
}

claim-IsSound :
    (now : ℕ) (w : String) (types : Option (List String)) (locked : ℕ → Bool) (jobs : List Job)
    {out : Option Job × List Job}
    → Claimed now w types locked jobs out
    → IsSound jobs
    → IsSound out.1
claim-IsSound now w types locked jobs (idle h) s = s
claim-IsSound now w types locked jobs (claimed j m p l _) s =
    update_row-IsSound j (mark_running now w) jobs (mark_running_id now w) m
      (mark_running-IsBounded now w j (eligible_queued now types locked j p)
        (All-In IsBounded m s.bounded))
      s

fail-IsSound :
    (now i : ℕ) (msg : String) (c : ErrorCategory) (m retry_after : Option ℕ) (jobs : List Job)
    → ((t : String) → attempt_limit m t ≤ get_max_attempts t)
    → IsSound jobs
    → (o : Option Job) → find_job i jobs ≡ o
    → IsSound (fail_job now i msg c m retry_after jobs)
unfolding fail_job
fail-IsSound now i msg c m retry_after jobs h s none e = rw (e, fail_job) s
fail-IsSound now i msg c m retry_after jobs h s (some j) e =
    let n = attempt_limit m j.job_type in
    let (row, at) = find_job-In i jobs e in
    rw (e, fail_job)
      (subst (λ k. IsSound (update_job k (mark_failed now msg c n retry_after) jobs)) at
        (update_row-IsSound j (mark_failed now msg c n retry_after) jobs
          (mark_failed_id now msg c n retry_after) row
          (mark_failed-IsBounded now msg c n retry_after j (omega (arith, h j.job_type))
            (All-In IsBounded row s.bounded))
          s))

complete-IsSound : (now i : ℕ) (jobs : List Job) → IsSound jobs → IsSound (complete_job now i jobs)
unfolding complete_job
complete-IsSound now i jobs s =
    update-IsSound i (mark_done now) jobs (mark_done_id now) (λ k _ b. mark_done-IsBounded now k b)
      s

reclaim_row-IsBounded :
    (now : ℕ) (timeout : ℤ) (locked : ℕ → Bool) (j : Job)
    → IsBounded j
    → IsBounded (reclaim_row now (is_stale now timeout locked) j)
unfolding reclaim_row
reclaim_row-IsBounded now timeout locked j b = elim (Bool-cases (is_stale now timeout locked j)) [
  | inl e ↦ rw e (mark_reclaimed-IsBounded now j (unfold is_stale in ground arith) b)
  | inr e ↦ rw e b
]

reclaim_row_id : (now : ℕ) (p : Job → Bool) → KeepsId (reclaim_row now p)
unfolding reclaim_row
reclaim_row_id now p j = ground (arith, mark_reclaimed_id now j.attempts j.max_attempts j)

map-ne_ids :
    (n : ℕ) (f : Job → Job)
    → KeepsId f
    → (js : List Job) → All (λ k. n ≢ k.id) js
    → All (λ k. n ≢ k.id) (map f js)
map-ne_ids n f keeps [] h = tt
map-ne_ids n f keeps (j ∷ js) h = (rw (keeps j) h.0, map-ne_ids n f keeps js h.1)

map-IsSound :
    (f : Job → Job) (js : List Job)
    → KeepsId f
    → ((j : Job) → IsBounded j → IsBounded (f j))
    → IsSound js
    → IsSound (map f js)
map-IsSound f [] keeps step s = record { distinct = tt; bounded = tt }
map-IsSound f (j ∷ js) keeps step s =
    let rest =
      map-IsSound f js keeps step (record { distinct = s.distinct.1; bounded = s.bounded.1 }) in
    record {
      distinct = (rw (keeps j) (map-ne_ids j.id f keeps js s.distinct.0), rest.distinct);
      bounded = (step j s.bounded.0, rest.bounded);
    }

reclaim-IsSound :
    (now : ℕ) (config : List SystemConfig) (locked : ℕ → Bool) (timeout : ℤ) (jobs : List Job)
    {out : List Job × List Job}
    → get_stale_timeout config ≡ ok timeout
    → reclaim_stale_jobs now config locked jobs ≡ ok out
    → IsSound jobs
    → IsSound out.1
reclaim-IsSound now config locked timeout jobs {out} e r s =
    subst IsSound (table (sym (reclaim_stale_jobs-map now config locked jobs s.distinct e) ∙ r)) (
      map-IsSound (reclaim_row now (is_stale now timeout locked)) jobs
        (reclaim_row_id now (is_stale now timeout locked))
        (reclaim_row-IsBounded now timeout locked) s)
  where
    table : {a b : List Job × List Job} → ok a ≡ ok b → a.1 ≡ b.1
    table p = cc

-- Each operation keeps a sound table sound: distinct ids, and attempts within bounds.
pub Step-IsSound : {jobs jobs' : List Job} → Step jobs jobs' → IsSound jobs → IsSound jobs'
Step-IsSound (insert j p a fresh) s = record {
  distinct = (fresh, s.distinct);
  bounded = (insert-IsBounded j p a, s.bounded);
}
Step-IsSound {jobs} (claim now w types locked) s =
    claim-IsSound now w types locked jobs (claim_job-Claimed now w types locked jobs) s
Step-IsSound {jobs} (complete now i) s = complete-IsSound now i jobs s
Step-IsSound {jobs} (fail now i msg c m retry_after h) s =
    fail-IsSound now i msg c m retry_after jobs h s (find_job i jobs) refl
Step-IsSound {jobs} (reclaim now config locked timeout out e r) s =
    reclaim-IsSound now config locked timeout jobs e r s

-- In every table that the queue's operations reach from the empty one, the ids are distinct, a
-- waiting row has attempts to spare, a running row is within its limit, and no row has more than
-- one attempt beyond it.
pub Reach-IsSound : {jobs : List Job} → Reach [] jobs → IsSound jobs
Reach-IsSound here = record { distinct = tt; bounded = tt }
Reach-IsSound (next r st) = Step-IsSound st (Reach-IsSound r)
