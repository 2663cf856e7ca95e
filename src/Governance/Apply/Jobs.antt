-- ===== src/Governance/Apply/Jobs.antt =====
-- The jobs that a decision adds, and the job that it resumes.
use think_tank.Prelude.{
  ℕ, Bool, true, false, ◌≡◌, refl, sym, ◌∙◌, inl, inr, Option, none, some, List, [], ◌++◌, All,
  All-append, str_eq, find_by, Bool-cases, Option-cases,
}
use mathlib.Core.List.{append-nil, append_assoc}
use think_tank.Queue.Job.{Job, is_queued, new_job}
use think_tank.Governance.{
  Thinker, Source, SourceThinker, Store, Approval, approved, rejected, approved_with_modifications,
  escalate_to_human, allows, add_jobs,
}
use think_tank.Json.{Value, Fields}
use think_tank.Governance.Thinkers.{
  ThinkerApproval, decide_thinker, discover_job, rescan_job, discovery_jobs, apply_thinker_decision,
}
use think_tank.Governance.Sources.{
  SourceApproval, decide_source, ingestion_jobs, apply_source_decision,
}

-- A job that waits in the queue and was never tried.
abbrev pub Fresh : Job → Type 0
Fresh j = (is_queued j.status ≡ true) × (j.attempts ≡ 0)

-- From `s` to `t` some fresh jobs are added; without permission, the critic's at most.
pub record Adds (allowed : Bool) (s t : Store) : Type 0 where
  pub new : List Job
  pub table : t.jobs ≡ s.jobs ++ new
  pub fresh : All Fresh new
  pub denied : allowed ≡ false → All (λ j. j.job_type ≡ "critique_roster") new

module _ {allowed : Bool} where
  pub Adds-none : (s t : Store) → t.jobs ≡ s.jobs → Adds allowed s t
  Adds-none s t h = record {
    new = [];
    table = h ∙ sym (append-nil s.jobs);
    fresh = tt;
    denied = λ _. tt;
  }

  pub Adds-trans : (s t u : Store) → Adds allowed s t → Adds allowed t u → Adds allowed s u
  Adds-trans s t u h k = record {
    new = h.new ++ k.new;
    table = rw (k.table, h.table) (append_assoc s.jobs h.new k.new);
    fresh = All-append Fresh h.new k.new (h.fresh, k.fresh);
    denied = λ e. All-append _ h.new k.new (h.denied e, k.denied e);
  }

discovery_jobs-Fresh :
    (now : ℕ) (uuid4 : ℕ → ℕ) (t : Thinker) → All Fresh (discovery_jobs now uuid4 t)
unfolding discovery_jobs discover_job rescan_job new_job is_queued
discovery_jobs-Fresh now uuid4 t = elim (Bool-cases (str_eq t.approval_status "approved")) [
  | inl e ↦ rw e ((refl, refl), ((refl, refl), tt))
  | inr e ↦ rw e tt
]

discovery_jobs-denied :
    (now : ℕ) (uuid4 : ℕ → ℕ) (t : Thinker) (d : Approval) (m : Option Fields)
    → allows d ≡ false
    → discovery_jobs now uuid4 (decide_thinker (record { decision = d; modifications = m }) t) ≡ []
unfolding discovery_jobs decide_thinker allows
discovery_jobs-denied now uuid4 t approved m h = cc
discovery_jobs-denied now uuid4 t rejected m h = refl
discovery_jobs-denied now uuid4 t approved_with_modifications m h = cc
discovery_jobs-denied now uuid4 t escalate_to_human m h = refl

-- Jobs that are added at once, none of them when the decision does not allow it.
pub add_jobs-Adds :
    {allowed : Bool} (js : List Job) (s t : Store)
    → t.jobs ≡ s.jobs
    → All Fresh js
    → (allowed ≡ false → All (λ j. j.job_type ≡ "critique_roster") js)
    → Adds allowed s (add_jobs js t)
unfolding add_jobs
add_jobs-Adds js s t h fresh denied = record {
  new = js;
  table = rw h refl;
  fresh = fresh;
  denied = denied;
}

-- What a decision leaves, if it does not raise.
abbrev pub Leaves : Bool → Store → Option Store → Type 0
Leaves allowed s none = Unit
Leaves allowed s (some t) = Adds allowed s t

pub apply_thinker_decision-Leaves :
    (now : ℕ) (uuid4 : ℕ → ℕ) (i : ℕ) (r : ThinkerApproval) (s : Store)
    → Leaves (allows r.decision) s (apply_thinker_decision now uuid4 i r s)
unfolding apply_thinker_decision
apply_thinker_decision-Leaves now uuid4 i r s =
    elim (Option-cases (find_by (λ t. t.id) i s.thinkers)) [
      | inl e ↦ rw (e, apply_thinker_decision) tt
      | inr (t, e) ↦
          rw (e, apply_thinker_decision)
            (add_jobs-Adds (discovery_jobs now uuid4 (decide_thinker r t)) s _ refl
              (discovery_jobs-Fresh now uuid4 (decide_thinker r t))
              (λ d. rw (discovery_jobs-denied now uuid4 t r.decision r.modifications d) tt))
    ]

ingestion_jobs-Fresh :
    (now : ℕ) (uuid4 : ℕ → ℕ) (s : Source) (links : List SourceThinker)
    → All Fresh (ingestion_jobs now uuid4 s links)
unfolding ingestion_jobs new_job is_queued
ingestion_jobs-Fresh now uuid4 s links = elim (Bool-cases (str_eq s.approval_status "approved")) [
  | inl e ↦ rw e ((refl, refl), tt)
  | inr e ↦ rw e tt
]

ingestion_jobs-denied :
    (now : ℕ) (uuid4 : ℕ → ℕ) (s : Source) (links : List SourceThinker) (d : Approval) (v : Value)
    (m : Option Fields)
    → allows d ≡ false
    → ingestion_jobs now uuid4
        (decide_source (record { decision = d; approved_backfill_days = v; modifications = m }) s)
        links
      ≡ []
unfolding ingestion_jobs decide_source allows
ingestion_jobs-denied now uuid4 s links approved v m h = cc
ingestion_jobs-denied now uuid4 s links rejected v m h = refl
ingestion_jobs-denied now uuid4 s links approved_with_modifications v m h = cc
ingestion_jobs-denied now uuid4 s links escalate_to_human v m h = refl

pub apply_source_decision-Adds :
    (now : ℕ) (uuid4 : ℕ → ℕ) (i : ℕ) (r : SourceApproval) (s : Store)
    → Adds (allows r.decision) s (apply_source_decision now uuid4 i r s)
unfolding apply_source_decision
apply_source_decision-Adds now uuid4 i r s = elim (Option-cases (find_by (λ x. x.id) i s.sources)) [
  | inl e ↦ rw (e, apply_source_decision) (Adds-none s s refl)
  | inr (x, e) ↦
      rw (e, apply_source_decision)
        (add_jobs-Adds (ingestion_jobs now uuid4 (decide_source r x) s.source_thinkers) s _ refl
          (ingestion_jobs-Fresh now uuid4 (decide_source r x) s.source_thinkers)
          (λ d.
            rw
              (ingestion_jobs-denied now uuid4 x s.source_thinkers r.decision
                r.approved_backfill_days r.modifications d)
              tt))
]
