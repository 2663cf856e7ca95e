-- ===== src/Governance/Apply/Permission.antt =====
-- What starts after a decision: nothing without permission, but for the critic of an area.
use think_tank.Prelude.{
  ℕ, String, Bool, true, false, ◌||◌, ◌≡◌, refl, subst, inl, inr, Option, none, some, List, [], ◌∷◌,
  ◌++◌, any, All, str_eq, find_by, update_by, Bool-cases, Option-cases, if◌then◌else◌, arith,
}
use think_tank.Queue.Job.{Job, pending, done, is_queued, new_job, update_job}
use think_tank.Discovery.Quota.{Candidate, YoutubeEvidence}
use think_tank.Governance.{Thinker, Store}
use think_tank.Governance.Thinkers.{apply_thinker_decision, discover_job, rescan_job}
use think_tank.Governance.Critique.{may_critique, critique_job, maybe_enqueue_roster_critique}
use think_tank.Governance.Candidates.{
  CandidateReview, Verdict, promotion_jobs, promoted_thinker, seed_channel, reachable_url,
  add_channel, approval_job, thinker_job, promote_candidate_to_thinker, decide_candidate,
  settle_candidate, mark_reviewed, apply_candidate_decision,
}
use think_tank.Governance.Apply.{
  Review, thinker_approval, source_approval, candidate_review, decision_allows_processing,
  apply_review, resume, resume_job, apply_decision,
}
use think_tank.Governance.Sources.{apply_source_decision}
use think_tank.Governance.Apply.Jobs.{
  Fresh, Adds, Adds-none, Adds-trans, add_jobs-Adds, Leaves, apply_thinker_decision-Leaves,
  apply_source_decision-Adds,
}

pub maybe_enqueue_roster_critique-Adds :
    {allowed : Bool} (now i : ℕ) (area : Option String) (s : Store)
    → Adds allowed s (maybe_enqueue_roster_critique now i area s)
unfolding maybe_enqueue_roster_critique critique_job new_job is_queued
maybe_enqueue_roster_critique-Adds now i none s = Adds-none s s refl
maybe_enqueue_roster_critique-Adds now i (some area) s = elim (Bool-cases (may_critique area s)) [
  | inl e ↦
      rw e
        (add_jobs-Adds (critique_job now i area ∷ []) s s refl ((refl, refl), tt) (λ _. (refl, tt)))
  | inr e ↦ rw e (Adds-none s s refl)
]

add_channel-Adds :
    (now : ℕ) (uuid4 : ℕ → ℕ) (t : Thinker) (url : String) (s : Store)
    → Adds true s (add_channel now uuid4 t url s)
unfolding add_channel approval_job new_job is_queued
add_channel-Adds now uuid4 t url s = add_jobs-Adds _ s _ refl ((refl, refl), tt) (λ e. cc)

seed_channel-Adds :
    (now : ℕ) (uuid4 : ℕ → ℕ) (t : Thinker) (y : Option YoutubeEvidence) (s : Store)
    → Adds true s (seed_channel now uuid4 t y s)
unfolding seed_channel
seed_channel-Adds now uuid4 t y s = elim (Option-cases (reachable_url y)) [
  | inl e ↦ rw (e, seed_channel) (Adds-none s s refl)
  | inr (url, e) ↦
      rw (e, seed_channel)
        (elim (Bool-cases (any (λ x. str_eq x.url url) s.sources)) [
          | inl k ↦ rw k (Adds-none s s refl)
          | inr k ↦ rw k (add_channel-Adds now uuid4 t url s)
        ])
]

promote-Adds :
    (now : ℕ) (uuid4 : ℕ → ℕ) (slug : String) (r : CandidateReview) (c : Candidate) (s : Store)
    → Adds true s (promote_candidate_to_thinker now uuid4 slug r c s).1
unfolding promote_candidate_to_thinker promotion_jobs discover_job rescan_job thinker_job new_job
    is_queued
promote-Adds now uuid4 slug r c s =
    let t = promoted_thinker now (uuid4 0) slug r c in
    Adds-trans s _ _
      (add_jobs-Adds (promotion_jobs now uuid4 t) s (record s { thinkers = s.thinkers ++ t ∷ [] })
        refl ((refl, refl), ((refl, refl), ((refl, refl), ((refl, refl), tt)))) (λ e. cc))
      (seed_channel-Adds now uuid4 t c.youtube _)

is_approved : Verdict → Bool
is_approved d = elim d [ Verdict.approved ↦ true | _ ↦ false ]

decide_candidate-Adds :
    (now : ℕ) (uuid4 : ℕ → ℕ) (slug : String) (d : Verdict) (tier : Option ℕ) (c : Candidate)
    (s : Store)
    → Adds
        (is_approved d)
        s
        (decide_candidate now uuid4 slug (record { decision = d; tier = tier }) c s).1
unfolding decide_candidate is_approved
decide_candidate-Adds now uuid4 slug Verdict.approved tier c s =
    promote-Adds now uuid4 slug (record { decision = Verdict.approved; tier = tier }) c s
decide_candidate-Adds now uuid4 slug Verdict.rejected tier c s = Adds-none s s refl
decide_candidate-Adds now uuid4 slug Verdict.duplicate tier c s = Adds-none s s refl
decide_candidate-Adds now uuid4 slug Verdict.need_more_appearances tier c s = Adds-none s s refl
decide_candidate-Adds now uuid4 slug Verdict.escalate_to_human tier c s = Adds-none s s refl

settle_candidate-Adds :
    {allowed : Bool} (now : ℕ) (uuid4 : ℕ → ℕ) (s : Store) (r : Candidate × Store)
    → Adds allowed s r.1
    → Adds allowed s (settle_candidate now uuid4 r)
unfolding settle_candidate
settle_candidate-Adds now uuid4 s (c, t) h =
    let flushed = record t { candidates = update_by (λ x. x.id) c.id (λ _. c) t.candidates } in
    Adds-trans s t _ h (
      Adds-trans t flushed _ (Adds-none t flushed refl)
        (maybe_enqueue_roster_critique-Adds now (uuid4 7) c.search_area flushed))

apply_candidate_decision-Leaves :
    (now : ℕ) (uuid4 : ℕ → ℕ) (slug : String) (i : Option ℕ) (r : CandidateReview) (review_id : ℕ)
    (s : Store)
    → Leaves (is_approved r.decision) s (apply_candidate_decision now uuid4 slug i r review_id s)
unfolding apply_candidate_decision
apply_candidate_decision-Leaves now uuid4 slug none r review_id s = tt
apply_candidate_decision-Leaves now uuid4 slug (some i) r review_id s =
    elim (Option-cases (find_by (λ c. c.id) i s.candidates)) [
      | inl e ↦ rw (e, apply_candidate_decision) tt
      | inr (c, e) ↦
          rw (e, apply_candidate_decision)
            (settle_candidate-Adds now uuid4 s _ (
              decide_candidate-Adds now uuid4 slug r.decision r.tier (mark_reviewed now review_id c)
                s))
    ]

apply_review-Leaves :
    (now : ℕ) (uuid4 : ℕ → ℕ) (slug : String) (review : Review) (review_id : ℕ) (s : Store)
    → Leaves (decision_allows_processing review) s (apply_review now uuid4 slug review review_id s)
unfolding apply_review decision_allows_processing is_approved
apply_review-Leaves now uuid4 slug (thinker_approval i r) review_id s =
    apply_thinker_decision-Leaves now uuid4 i r s
apply_review-Leaves now uuid4 slug (source_approval i r) review_id s =
    apply_source_decision-Adds now uuid4 i r s
apply_review-Leaves now uuid4 slug (candidate_review i r) review_id s =
    apply_candidate_decision-Leaves now uuid4 slug i r review_id s

-- The jobs after a decision: those before and the new ones, with the waiting job resumed.
pub record Resumed (allowed : Bool) (pending_job_id : Option ℕ) (review_id : ℕ)
    (before after : List Job) : Type 0 where
  pub new : List Job
  pub fresh : All Fresh new
  pub denied : allowed ≡ false → All (λ j. j.job_type ≡ "critique_roster") new
  pub table : after ≡ elim pending_job_id [
    | none ↦ before ++ new
    | some i ↦
        update_job i
          (λ j. record j {
            llm_review_id = some review_id;
            status = if allowed then pending else done;
          })
          (before ++ new)
  ]

resume_job-Resumed :
    (allowed : Bool) (review_id : ℕ) (pending_job_id : Option ℕ) (s t : Store)
    → Adds allowed s t
    → Resumed allowed pending_job_id review_id s.jobs
        (resume_job allowed review_id pending_job_id t).jobs
unfolding resume_job resume
resume_job-Resumed allowed review_id none s t h = record {
  new = h.new;
  fresh = h.fresh;
  denied = h.denied;
  table = h.table;
}
resume_job-Resumed allowed review_id (some i) s t h = record {
  new = h.new;
  fresh = h.fresh;
  denied = h.denied;
  table = rw h.table refl;
}

abbrev pub is_some : {A : Type 0} → Option A → Bool
is_some none = false
is_some (some a) = true

-- The row that the review is about is there.
abbrev pub target_found : Review → Store → Bool
target_found (thinker_approval i r) s = is_some (find_by (λ t. t.id) i s.thinkers)
target_found (source_approval i r) s = is_some (find_by (λ x. x.id) i s.sources)
target_found (candidate_review none r) s = false
target_found (candidate_review (some i) r) s = is_some (find_by (λ c. c.id) i s.candidates)

abbrev pub is_source : Review → Bool
is_source (source_approval i r) = true
is_source r = false

apply_review-found :
    (now : ℕ) (uuid4 : ℕ → ℕ) (slug : String) (review : Review) (review_id : ℕ) (s : Store)
    → is_some (apply_review now uuid4 slug review review_id s)
      ≡ (target_found review s || is_source review)
unfolding apply_review apply_thinker_decision apply_candidate_decision
apply_review-found now uuid4 slug (thinker_approval i r) review_id s = ground arith
apply_review-found now uuid4 slug (source_approval i r) review_id s = ground arith
apply_review-found now uuid4 slug (candidate_review none r) review_id s = refl
apply_review-found now uuid4 slug (candidate_review (some i) r) review_id s = ground arith

-- A missing source is left alone, and the decision is applied to nothing.
apply_review-missing :
    (now : ℕ) (uuid4 : ℕ → ℕ) (slug : String) (review : Review) (review_id : ℕ) (s : Store)
    → is_source review ≡ true
    → target_found review s ≡ false
    → apply_review now uuid4 slug review review_id s ≡ some s
unfolding apply_review apply_source_decision
apply_review-missing now uuid4 slug (thinker_approval i r) review_id s h k = cc
apply_review-missing now uuid4 slug (candidate_review c r) review_id s h k = cc
apply_review-missing now uuid4 slug (source_approval i r) review_id s h k = ground arith

-- A decision is applied when the row that it is about is there, and a source decision also when it is
-- not; any other decision about a missing row raises. When it is applied, no job is lost: the jobs
-- before it are followed by new, untried jobs that wait in the queue; the job that waited for the
-- review carries the review's id and is 'pending' when the decision allows processing and 'done'
-- otherwise; and a decision that does not allow it adds at most jobs of the roster critic. A decision
-- about a missing source changes nothing but that waiting job.
pub apply_decision-Resumed :
    (now : ℕ) (uuid4 : ℕ → ℕ) (slug : String) (review : Review) (pending_job_id : Option ℕ)
    (review_id : ℕ) (s : Store)
    → ((target_found review s || is_source review) ≡ true
        → (t : Store) × (apply_decision now uuid4 slug review pending_job_id review_id s ≡ some t)
          × Resumed (decision_allows_processing review) pending_job_id review_id s.jobs t.jobs)
      × ((target_found review s || is_source review) ≡ false
          → apply_decision now uuid4 slug review pending_job_id review_id s ≡ none)
      × (is_source review ≡ true
          → target_found review s ≡ false
          → apply_decision now uuid4 slug review pending_job_id review_id s
            ≡ some (resume_job (decision_allows_processing review) review_id pending_job_id s))
unfolding apply_decision
apply_decision-Resumed now uuid4 slug review pending_job_id review_id s =
    let found = apply_review-found now uuid4 slug review review_id s in
    elim (Option-cases (apply_review now uuid4 slug review review_id s)) [
      | inl e ↦ (
        λ h. cc,
        λ _. rw (e, apply_decision) refl,
        λ h k. rw (apply_review-missing now uuid4 slug review review_id s h k, apply_decision) refl,
      )
      | inr (u, e) ↦ (
        λ _. (
          resume_job (decision_allows_processing review) review_id pending_job_id u,
          rw (e, apply_decision) refl,
          resume_job-Resumed (decision_allows_processing review) review_id pending_job_id s u (
              subst (Leaves (decision_allows_processing review) s) e
                (apply_review-Leaves now uuid4 slug review review_id s)),
        ),
        λ h. cc,
        λ h k. rw (apply_review-missing now uuid4 slug review review_id s h k, apply_decision) refl,
      )
    ]
