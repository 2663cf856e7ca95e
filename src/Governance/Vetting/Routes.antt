-- ===== src/Governance/Vetting/Routes.antt =====
-- Where a vetting takes its candidate.
use think_tank.Prelude.{
  ℕ, ◌≡◌, refl, sym, subst, inl, inr, String, Bool, true, false, not, ◌&&◌, Option, some, List, [],
  ◌∷◌, ◌++◌, All, find_by, update_by, find_by-key, find_by-update_by, Bool-cases, if◌then◌else◌,
}
use mathlib.Core.List.{append-nil}
use think_tank.Config.{SystemConfig}
use think_tank.Queue.Job.{Job}
use think_tank.Discovery.Quota.{Candidate}
use think_tank.Discovery.Rubric.{
  Outcome, auto_rejected, borderline, shortlisted, practitioner_review, fit_rescue, score_dossier,
}
use think_tank.Governance.{Store, add_jobs}
use think_tank.Governance.Critique.{maybe_enqueue_roster_critique}
use think_tank.Governance.Apply.Jobs.{Adds}
use think_tank.Governance.Apply.Permission.{maybe_enqueue_roster_critique-Adds}
use think_tank.Governance.Candidates.Promotion.{critique_keeps}
use think_tank.Governance.Vetting.{
  Findings, rejection_is_suspicious, is_skipped, judge_job, save, gate, route, handle_vet_candidate,
}

-- The judge sees a candidate that the gate lets through.
abbrev pub reaches_judge : Outcome → Bool
reaches_judge auto_rejected = false
reaches_judge borderline = false
reaches_judge _ = true

abbrev pub destination : Findings → Outcome → String
destination f auto_rejected =
    if rejection_is_suspicious f && not f.legitimate then "pending_human" else "auto_rejected"
destination f borderline = "pending_human"
destination f _ = "awaiting_llm"

-- The candidate `c` of `s` after its vetting, in `t`.
pub record Vetted (now i : ℕ) (f : Findings) (o : Outcome) (c : Candidate) (s t : Store)
    : Type 0 where
  pub row :
      (c' : Candidate) × (find_by (λ x. x.id) c.id t.candidates ≡ some c')
      × (c'.name ≡ c.name)
      × (c'.status ≡ destination f o)
      × (c'.qualification_score ≡ some (score_dossier f.dossier f.peers).0)
  pub critics : List Job
  pub jobs :
      t.jobs ≡ (if reaches_judge o then s.jobs ++ judge_job now i c.id ∷ [] else s.jobs) ++ critics
  pub critics_only : All (λ j. j.job_type ≡ "critique_roster") critics
  pub nobody_promoted : t.thinkers ≡ s.thinkers

-- A saved row, and the trigger on top of it.
settled :
    (now i k : ℕ) (f : Findings) (o : Outcome) (area : Option String) (c c' : Candidate)
    (s m : Store)
    → find_by (λ x. x.id) c.id s.candidates ≡ some c
    → c'.id ≡ c.id
    → (c'.name ≡ c.name)
      × (c'.status ≡ destination f o)
      × (c'.qualification_score ≡ some (score_dossier f.dossier f.peers).0)
    → (m.candidates ≡ update_by (λ x. x.id) c'.id (λ _. c') s.candidates)
      × (m.thinkers ≡ s.thinkers)
      × (m.jobs ≡ (if reaches_judge o then s.jobs ++ judge_job now i c.id ∷ [] else s.jobs))
    → Vetted now i f o c s (maybe_enqueue_roster_critique now k area m)
settled now i k f o area c c' s m found same kept (rows, thinkers, jobs) =
    let a : Adds false m (maybe_enqueue_roster_critique now k area m) =
      maybe_enqueue_roster_critique-Adds now k area m in
    let keeps = critique_keeps now k area m in
    record {
      row = (
        c',
        rw (keeps.0, rows)
            (subst
              (λ n.
                find_by (λ x. x.id) c.id (update_by (λ x. x.id) n (λ _. c') s.candidates) ≡ some c')
              (sym same) (find_by-update_by (λ x. x.id) c.id s.candidates c c' same found)),
        kept.0,
        kept.1,
        kept.2,
      );
      critics = a.new;
      jobs = rw (a.table, jobs) refl;
      critics_only = a.denied refl;
      nobody_promoted = rw keeps.1 thinkers;
    }

-- The row with the evidence and the score.
abbrev scored : Findings → Candidate → Candidate
scored f c = record c {
  youtube = f.youtube;
  qualification_score = some (score_dossier f.dossier f.peers).0;
}

to_judge :
    (now : ℕ) (uuid4 : ℕ → ℕ) (f : Findings) (o : Outcome) (c : Candidate) (s : Store)
    → find_by (λ x. x.id) c.id s.candidates ≡ some c
    → destination f o ≡ "awaiting_llm"
    → reaches_judge o ≡ true
    → Vetted now (uuid4 0) f o c s (
        maybe_enqueue_roster_critique now (uuid4 1) c.search_area (
          add_jobs
            (judge_job now (uuid4 0) c.id ∷ [])
            (save (record (scored f c) { status = "awaiting_llm" }) s)))
unfolding save add_jobs
to_judge now uuid4 f o c s found d r =
    settled now (uuid4 0) (uuid4 1) f o c.search_area c
      (record (scored f c) { status = "awaiting_llm" }) s _ found refl (refl, sym d, refl)
      (refl, refl, rw r refl)

route-Vetted :
    (now : ℕ) (uuid4 : ℕ → ℕ) (f : Findings) (o : Outcome) (c : Candidate) (s : Store)
    → find_by (λ x. x.id) c.id s.candidates ≡ some c
    → Vetted now (uuid4 0) f o c s (route now uuid4 f (scored f c) o s)
unfolding route save add_jobs
route-Vetted now uuid4 f auto_rejected c s found =
    elim (Bool-cases (rejection_is_suspicious f && not f.legitimate)) [
      | inl e ↦
          let c' = record (scored f c) { status = "pending_human" } in
          rw e (record {
            row = (
              c',
              find_by-update_by (λ x. x.id) c.id s.candidates c c' refl found,
              refl,
              rw e refl,
              refl,
            );
            critics = [];
            jobs = sym (append-nil s.jobs);
            critics_only = tt;
            nobody_promoted = refl;
          })
      | inr e ↦ rw e (
          settled now (uuid4 0) (uuid4 1) f auto_rejected c.search_area c
            (record (scored f c) {
              status = "auto_rejected";
              reviewed_by = some "vetting_gate";
              reviewed_at = some now;
            })
            s _ found refl (refl, rw e refl, refl) (refl, refl, refl))
    ]
route-Vetted now uuid4 f borderline c s found =
    settled now (uuid4 0) (uuid4 1) f borderline c.search_area c
      (record (scored f c) { status = "pending_human" }) s _ found refl (refl, refl, refl)
      (refl, refl, refl)
route-Vetted now uuid4 f shortlisted c s found =
    to_judge now uuid4 f shortlisted c s found refl refl
route-Vetted now uuid4 f practitioner_review c s found =
    to_judge now uuid4 f practitioner_review c s found refl refl
route-Vetted now uuid4 f fit_rescue c s found = to_judge now uuid4 f fit_rescue c s found refl refl

-- A vetting of a known candidate succeeds. A candidate that is promoted, or past the vetting and not
-- forced, is left with everything else; any other gets its score, and the status that the outcome of
-- the gate asks for: a human's for a borderline case or an overturned rejection, the judge's when the
-- gate lets it through, and then, and only then, a review job that names it; at most critic jobs are
-- added besides, and nobody becomes a thinker.
pub handle_vet_candidate-Vetted :
    (now : ℕ) (uuid4 : ℕ → ℕ) (config : List SystemConfig) (force : Bool) (f : Findings) (i : ℕ)
    (s : Store) {c : Candidate}
    → find_by (λ x. x.id) i s.candidates ≡ some c
    → (t : Store) × (handle_vet_candidate now uuid4 config force f i s ≡ some t)
      × (is_skipped force c.status ≡ true → t ≡ s)
      × (is_skipped force c.status ≡ false → Vetted now (uuid4 0) f (gate config f) c s t)
unfolding handle_vet_candidate
handle_vet_candidate-Vetted now uuid4 config force f i s {c} found =
    let same = find_by-key (λ x. x.id) i s.candidates c found in
    let here = subst (λ k. find_by (λ x. x.id) k s.candidates ≡ some c) (sym same) found in
    elim (Bool-cases (is_skipped force c.status)) [
      | inl e ↦ (s, rw (found, handle_vet_candidate) (rw e refl), (λ _. refl), (λ h. cc))
      | inr e ↦ (
        route now uuid4 f (scored f c) (gate config f) s,
        rw (found, handle_vet_candidate) (rw e refl),
        (λ h. cc),
        (λ _. route-Vetted now uuid4 f (gate config f) c s here),
      )
    ]
