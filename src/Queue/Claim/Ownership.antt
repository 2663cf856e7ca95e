-- ===== src/Queue/Claim/Ownership.antt =====
-- What `claim_job`, `complete_job` and `fail_job` promise.
use think_tank.Prelude.{
  ℕ, ◌+◌, ◌≡◌, ◌≢◌, refl, String, Bool, true, false, Option, none, some, List, [], ◌∷◌, ◌==◌,
  Bool-cases, inl, inr, All, All-In, In, arith,
}
use think_tank.Queue.Job.{Job, running, is_queued, update_job}
use think_tank.Queue.Rows.{KeepsId, update_job-All}
use think_tank.Queue.Claim.{is_eligible, select_first, mark_running, claim_job}
use think_tank.Queue.Claim.Order.{Loses, Selects, nothing, best, select_first-Selects}

-- A row `j` that worker `w` has started at `now`, as the row `j'`.
pub record Started (now : ℕ) (w : String) (j j' : Job) : Type 0 where
  pub runs :
      (j'.status ≡ running)
      × (j'.worker_id ≡ some w)
      × (j'.started_at ≡ some now)
      × (j'.attempts ≡ j.attempts + 1)
  pub same_work :
      (j'.id ≡ j.id)
      × (j'.job_type ≡ j.job_type)
      × (j'.payload ≡ j.payload)
      × (j'.priority ≡ j.priority)
      × (j'.max_attempts ≡ j.max_attempts)

mark_running-Started : (now : ℕ) (w : String) (j : Job) → Started now w j (mark_running now w j)
unfolding mark_running
mark_running-Started now w j = record {
  runs = (refl, refl, refl, refl);
  same_work = (refl, refl, refl, refl, refl);
}

-- The two outcomes of a claim.
pub data Claimed (now : ℕ) (w : String) (types : Option (List String)) (locked : ℕ → Bool)
    (jobs : List Job) : Option Job × List Job → Type 0 where
  idle :
      All (λ k. is_eligible now types locked k ≡ false) jobs
      → Claimed now w types locked jobs (none, jobs)
  claimed :
      (j : Job)
      → In j jobs
      → is_eligible now types locked j ≡ true
      → All (Loses (is_eligible now types locked) j) jobs
      → Started now w j (mark_running now w j)
      → Claimed now w types locked jobs
          (some (mark_running now w j), update_job j.id (mark_running now w) jobs)

module _ (now : ℕ) (w : String) (types : Option (List String)) (locked : ℕ → Bool)
    (jobs : List Job) where
  of_selection :
      (o : Option Job)
      → Selects (is_eligible now types locked) jobs o
      → select_first (is_eligible now types locked) jobs ≡ o
      → Claimed now w types locked jobs (claim_job now w types locked jobs)
  unfolding claim_job
  of_selection none (nothing h) e = rw (e, claim_job) (idle h)
  of_selection (some j) (best _ m p l) e =
      rw (e, claim_job) (claimed j m p l (mark_running-Started now w j))

  -- A claim returns an eligible row that no eligible row is before (by priority, then by schedule
  -- with NULL first), running for this worker since now with one more attempt and otherwise the
  -- same work, and writes exactly that row; or no row is eligible, and nothing is returned or written.
  pub claim_job-Claimed : Claimed now w types locked jobs (claim_job now w types locked jobs)
  claim_job-Claimed =
      of_selection (select_first (is_eligible now types locked) jobs)
        (select_first-Selects (is_eligible now types locked) jobs) refl

pub mark_running_id : (now : ℕ) (w : String) → KeepsId (mark_running now w)
unfolding mark_running
mark_running_id now w j = refl

-- A row of this id, if there is one, is not waiting in the queue.
abbrev pub Held : ℕ → List Job → Type 0
Held i jobs = All (λ k. k.id ≡ i → is_queued k.status ≡ false) jobs

mark_running-Held :
    (i : ℕ) (now : ℕ) (w : String) (js : List Job) → Held i (update_job i (mark_running now w) js)
unfolding update_job mark_running is_queued
mark_running-Held i now w [] = tt
mark_running-Held i now w (j ∷ js) = elim (Bool-cases (j.id == i)) [
  | inl e ↦ rw e (λ _. refl, mark_running-Held i now w js)
  | inr e ↦ rw e (λ p. absurd (ground (arith, p, e)), mark_running-Held i now w js)
]

Held-mark_running :
    (i n : ℕ) (now : ℕ) (w : String) (js : List Job)
    → Held i js
    → Held i (update_job n (mark_running now w) js)
unfolding mark_running is_queued
Held-mark_running i n now w js h =
    update_job-All (λ k. k.id ≡ i → is_queued k.status ≡ false) n (mark_running now w)
      (λ k _ _ _. refl) js h

-- One worker's request.
pub record Request : Type 0 where
  pub now : ℕ
  pub worker_id : String
  pub types : Option (List String)
  pub locked : ℕ → Bool

abbrev pub serve : Request → List Job → Option Job × List Job
serve r jobs = claim_job r.now r.worker_id r.types r.locked jobs

abbrev pub note : Option Job → List ℕ → List ℕ
note none ids = ids
note (some j) ids = j.id ∷ ids

-- The ids that a series of requests is given, whoever asks and whatever they filter by.
unfoldable pub claimed_ids : List Request → List Job → List ℕ
claimed_ids [] jobs = []
claimed_ids (r ∷ rs) jobs = note (serve r jobs).0 (claimed_ids rs (serve r jobs).1)

pub eligible_queued :
    (now : ℕ) (types : Option (List String)) (locked : ℕ → Bool) (j : Job)
    → is_eligible now types locked j ≡ true
    → is_queued j.status ≡ true
unfolding is_eligible
eligible_queued now types locked j h = ground arith

-- A held job is not what a claim returns, and stays held.
serve-Held :
    (i : ℕ) (r : Request) (jobs : List Job) {out : Option Job × List Job}
    → Claimed r.now r.worker_id r.types r.locked jobs out
    → Held i jobs
    → Held i out.1 × ((j : Job) → out.0 ≡ some j → i ≢ j.id)
serve-Held i r jobs (idle h) held = (held, λ j e. cc)
serve-Held i r jobs (claimed j m p l _) held =
    (Held-mark_running i j.id r.now r.worker_id jobs held, λ k e q. go k e q)
  where
    go : (k : Job) → some (mark_running r.now r.worker_id j) ≡ some k → i ≡ k.id → ⊥
    go k e q = ground (
      arith,
      All-In (λ k. k.id ≡ i → is_queued k.status ≡ false) m held (ground (arith, ids)),
      eligible_queued r.now r.types r.locked j p,
    )
      where
        ids : k.id ≡ j.id
        ids = unfold mark_running in ground arith

-- A claimed job is held from then on.
serve-Claimed-Held :
    (r : Request) (jobs : List Job) {out : Option Job × List Job}
    → Claimed r.now r.worker_id r.types r.locked jobs out
    → (j : Job) → out.0 ≡ some j
    → Held j.id out.1
serve-Claimed-Held r jobs (idle h) j e = cc
serve-Claimed-Held r jobs (claimed j m p l _) k e =
    rw (← ids) (mark_running-Held j.id r.now r.worker_id jobs)
  where
    ids : j.id ≡ k.id
    ids = unfold mark_running in ground arith

served :
    (r : Request) (jobs : List Job) → Claimed r.now r.worker_id r.types r.locked jobs (serve r jobs)
served r jobs = claim_job-Claimed r.now r.worker_id r.types r.locked jobs

abbrev pub AllDifferent : List ℕ → Type 0
AllDifferent [] = Unit
AllDifferent (i ∷ is) = All (λ k. i ≢ k) is × AllDifferent is

note_absent :
    (i : ℕ) (o : Option Job) (ids : List ℕ)
    → ((j : Job) → o ≡ some j → i ≢ j.id)
    → All (λ k. i ≢ k) ids
    → All (λ k. i ≢ k) (note o ids)
note_absent i none ids h t = t
note_absent i (some j) ids h t = (h j refl, t)

pub Held-absent :
    (i : ℕ) (rs : List Request) (jobs : List Job)
    → Held i jobs
    → All (λ k. i ≢ k) (claimed_ids rs jobs)
unfolding claimed_ids
Held-absent i [] jobs h = tt
Held-absent i (r ∷ rs) jobs h =
    let (stays, other) = serve-Held i r jobs (served r jobs) h in
    note_absent i (serve r jobs).0 (claimed_ids rs (serve r jobs).1) other
      (Held-absent i rs (serve r jobs).1 stays)

note_different :
    (o : Option Job) (ids : List ℕ)
    → ((j : Job) → o ≡ some j → All (λ k. j.id ≢ k) ids)
    → AllDifferent ids
    → AllDifferent (note o ids)
note_different none ids h t = t
note_different (some j) ids h t = (h j refl, t)

-- However many workers claim, at whatever times and with whatever type filters, no job is handed
-- out twice until an operation other than a claim puts it back in the queue.
pub claimed_ids_different :
    (rs : List Request) (jobs : List Job) → AllDifferent (claimed_ids rs jobs)
unfolding claimed_ids
claimed_ids_different [] jobs = tt
claimed_ids_different (r ∷ rs) jobs =
    note_different (serve r jobs).0 (claimed_ids rs (serve r jobs).1)
      (λ j e. Held-absent j.id rs (serve r jobs).1 (serve-Claimed-Held r jobs (served r jobs) j e))
      (claimed_ids_different rs (serve r jobs).1)
