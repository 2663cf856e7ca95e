-- ===== src/Governance/Candidates/Promotion.antt =====
-- What a review does to its candidate, to the thinkers and to the sources.
use think_tank.Prelude.{
  ℕ, ◌≡◌, refl, sym, subst, inl, inr, String, Bool, true, false, Option, none, some, List, [], ◌∷◌,
  ◌++◌, any, All, All-append, str_eq, find_by, update_by, find_by-key, find_by-update_by,
  Bool-cases, Option-cases, if◌then◌else◌, arith,
}
use think_tank.Discovery.Quota.{Candidate, YoutubeEvidence}
use think_tank.Governance.{Thinker, Source, Store, add_jobs}
use think_tank.Governance.Critique.{may_critique, maybe_enqueue_roster_critique}
use think_tank.Governance.Candidates.{
  CandidateReview, Verdict, promoted_thinker, promotion_jobs, reachable_url, channel_source,
  add_channel, seed_channel, promote_candidate_to_thinker, decide_candidate, settle_candidate,
  mark_reviewed, apply_candidate_decision,
}

-- No two sources have the same URL (the column is UNIQUE).
abbrev pub UniqueUrls : List Source → Type 0
UniqueUrls [] = Unit
UniqueUrls (s ∷ ss) = All (λ x. str_eq s.url x.url ≡ false) ss × UniqueUrls ss

append-UniqueUrls :
    (x : Source) (ss : List Source)
    → any (λ y. str_eq y.url x.url) ss ≡ false
    → UniqueUrls ss
    → UniqueUrls (ss ++ x ∷ [])
append-UniqueUrls x [] h u = (tt, tt)
append-UniqueUrls x (s ∷ ss) h u = (
  All-append _ ss (x ∷ []) (u.0, (ground (arith, h), tt)),
  append-UniqueUrls x ss (ground (arith, h)) u.1,
)

seed_channel-UniqueUrls :
    (now : ℕ) (uuid4 : ℕ → ℕ) (t : Thinker) (y : Option YoutubeEvidence) (s : Store)
    → UniqueUrls s.sources
    → UniqueUrls (seed_channel now uuid4 t y s).sources
unfolding seed_channel add_channel channel_source add_jobs
seed_channel-UniqueUrls now uuid4 t y s u = elim (Option-cases (reachable_url y)) [
  | inl e ↦ rw (e, seed_channel) u
  | inr (url, e) ↦
      rw (e, seed_channel)
        (elim (Bool-cases (any (λ x. str_eq x.url url) s.sources)) [
          | inl k ↦ rw k u
          | inr k ↦ rw k (append-UniqueUrls (channel_source (uuid4 5) t.name url) s.sources k u)
        ])
]

-- What a verdict writes to the status.
abbrev pub status_of : Verdict → String
status_of d = elim d [
  | Verdict.approved ↦ "promoted"
  | Verdict.rejected ↦ "rejected"
  | Verdict.duplicate ↦ "rejected_duplicate"
  | Verdict.need_more_appearances ↦ "needs_more_data"
  | Verdict.escalate_to_human ↦ "pending_human"
]

abbrev pub promotes : Verdict → Bool
promotes d = elim d [ Verdict.approved ↦ true | _ ↦ false ]

-- The candidate `c` and the store `s` after the verdict, as `c'` and `t`.
record Judged (promoted : Bool) (status : String) (new : Thinker) (c : Candidate) (s : Store)
    (r : Candidate × Store) : Type 0 where
  same :
      (r.0.id ≡ c.id)
      × (r.0.name ≡ c.name)
      × (r.0.reviewed_by ≡ c.reviewed_by)
      × (r.0.llm_review_id ≡ c.llm_review_id)
  becomes : r.0.status ≡ status
  rows : r.1.candidates ≡ s.candidates
  thinkers : r.1.thinkers ≡ (if promoted then s.thinkers ++ new ∷ [] else s.thinkers)
  link : r.0.thinker_id ≡ (if promoted then some new.id else c.thinker_id)
  urls : UniqueUrls s.sources → UniqueUrls r.1.sources

seed_channel_keeps :
    (now : ℕ) (uuid4 : ℕ → ℕ) (t : Thinker) (y : Option YoutubeEvidence) (s : Store)
    → ((seed_channel now uuid4 t y s).candidates ≡ s.candidates)
      × ((seed_channel now uuid4 t y s).thinkers ≡ s.thinkers)
unfolding seed_channel add_channel add_jobs
seed_channel_keeps now uuid4 t y s = elim (Option-cases (reachable_url y)) [
  | inl e ↦ rw (e, seed_channel) (refl, refl)
  | inr (url, e) ↦
      rw (e, seed_channel)
        (elim (Bool-cases (any (λ x. str_eq x.url url) s.sources)) [
          | inl k ↦ rw k (refl, refl)
          | inr k ↦ rw k (refl, refl)
        ])
]

left_alone :
    (status : String) (new : Thinker) (c : Candidate) (s : Store)
    → Judged false status new c s (record c { status = status }, s)
left_alone status new c s = record {
  same = (refl, refl, refl, refl);
  becomes = refl;
  rows = refl;
  thinkers = refl;
  link = refl;
  urls = λ u. u;
}

module _ (now : ℕ) (uuid4 : ℕ → ℕ) (slug : String) where
  promote-Judged :
      (r : CandidateReview) (c : Candidate) (s : Store)
      → Judged true "promoted"
          (promoted_thinker now (uuid4 0) slug r c)
          c
          s
          (promote_candidate_to_thinker now uuid4 slug r c s)
  unfolding promote_candidate_to_thinker promoted_thinker add_jobs
  promote-Judged r c s =
      let t = promoted_thinker now (uuid4 0) slug r c in
      let with_jobs =
        add_jobs (promotion_jobs now uuid4 t) (record s { thinkers = s.thinkers ++ t ∷ [] }) in
      let keeps = seed_channel_keeps now uuid4 t c.youtube with_jobs in
      record {
        same = (refl, refl, refl, refl);
        becomes = refl;
        rows = keeps.0;
        thinkers = keeps.1;
        link = refl;
        urls = λ u. seed_channel-UniqueUrls now uuid4 t c.youtube with_jobs u;
      }

  decide_candidate-Judged :
      (d : Verdict) (tier : Option ℕ) (c : Candidate) (s : Store)
      → let r : CandidateReview = record { decision = d; tier = tier } in
        Judged
          (promotes d)
          (status_of d)
          (promoted_thinker now (uuid4 0) slug r c)
          c
          s
          (decide_candidate now uuid4 slug r c s)
  unfolding decide_candidate
  decide_candidate-Judged Verdict.approved tier c s =
      promote-Judged (record { decision = Verdict.approved; tier = tier }) c s
  decide_candidate-Judged Verdict.rejected tier c s = left_alone "rejected" _ c s
  decide_candidate-Judged Verdict.duplicate tier c s = left_alone "rejected_duplicate" _ c s
  decide_candidate-Judged Verdict.need_more_appearances tier c s =
      left_alone "needs_more_data" _ c s
  decide_candidate-Judged Verdict.escalate_to_human tier c s = left_alone "pending_human" _ c s

-- The store after the review of the candidate `c`.
pub record Reviewed (review_id : ℕ) (d : Verdict) (new : Thinker) (c : Candidate) (s t : Store)
    : Type 0 where
  pub row :
      (c' : Candidate) × (find_by (λ x. x.id) c.id t.candidates ≡ some c')
      × (c'.name ≡ c.name)
      × (c'.status ≡ status_of d)
      × (c'.reviewed_by ≡ some "llm")
      × (c'.llm_review_id ≡ some review_id)
      × (c'.thinker_id ≡ (if promotes d then some new.id else c.thinker_id))
  pub thinkers : t.thinkers ≡ (if promotes d then s.thinkers ++ new ∷ [] else s.thinkers)
  pub urls : UniqueUrls s.sources → UniqueUrls t.sources

-- The tables that the trigger of the critic leaves alone.
pub critique_keeps :
    (now i : ℕ) (area : Option String) (s : Store)
    → let t = maybe_enqueue_roster_critique now i area s in
      (t.candidates ≡ s.candidates) × (t.thinkers ≡ s.thinkers) × (t.sources ≡ s.sources)
unfolding maybe_enqueue_roster_critique add_jobs
critique_keeps now i none s = (refl, refl, refl)
critique_keeps now i (some area) s = elim (Bool-cases (may_critique area s)) [
  | inl e ↦ rw e (refl, refl, refl)
  | inr e ↦ rw e (refl, refl, refl)
]

settle-Reviewed :
    (now : ℕ) (uuid4 : ℕ → ℕ) (review_id : ℕ) (d : Verdict) (new : Thinker) (c : Candidate)
    (s : Store) (r : Candidate × Store)
    → find_by (λ x. x.id) c.id s.candidates ≡ some c
    → Judged (promotes d) (status_of d) new (mark_reviewed now review_id c) s r
    → Reviewed review_id d new c s (settle_candidate now uuid4 r)
unfolding settle_candidate mark_reviewed
settle-Reviewed now uuid4 review_id d new c s (c', t) found j =
    let flushed = record t { candidates = update_by (λ x. x.id) c'.id (λ _. c') t.candidates } in
    let keeps = critique_keeps now (uuid4 7) c'.search_area flushed in
    record {
      row = (
        c',
        rw keeps.0 (
            subst
              (λ k.
                find_by (λ x. x.id) c.id (update_by (λ x. x.id) k (λ _. c') t.candidates) ≡ some c')
              (sym j.same.0)
              (rw j.rows (find_by-update_by (λ x. x.id) c.id s.candidates c c' j.same.0 found))),
        j.same.1,
        j.becomes,
        j.same.2,
        j.same.3,
        j.link,
      );
      thinkers = rw keeps.1 j.thinkers;
      urls = λ u. rw keeps.2 (j.urls u);
    }

-- A review of a known candidate is applied: its row gets the status of the verdict and the review's
-- id; an approved candidate, and no other, becomes one new approved thinker of its name, linked to
-- the row; and no two sources come to have the same URL.
pub apply_candidate_decision-Reviewed :
    (now : ℕ) (uuid4 : ℕ → ℕ) (slug : String) (i : ℕ) (r : CandidateReview) (review_id : ℕ)
    (s : Store) {c : Candidate}
    → find_by (λ x. x.id) i s.candidates ≡ some c
    → (t : Store) × (apply_candidate_decision now uuid4 slug (some i) r review_id s ≡ some t)
      × Reviewed review_id r.decision (promoted_thinker now (uuid4 0) slug r c) c s t
unfolding apply_candidate_decision promoted_thinker mark_reviewed
apply_candidate_decision-Reviewed now uuid4 slug i r review_id s {c} found =
    let reviewed = mark_reviewed now review_id c in
    let same = find_by-key (λ x. x.id) i s.candidates c found in
    (
      settle_candidate now uuid4 (decide_candidate now uuid4 slug r reviewed s),
      rw (found, apply_candidate_decision) refl,
      settle-Reviewed now uuid4 review_id r.decision _ c s _
          (subst (λ k. find_by (λ x. x.id) k s.candidates ≡ some c) (sym same) found)
          (decide_candidate-Judged now uuid4 slug r.decision r.tier reviewed s),
    )
