-- ===== src/Discovery/Scan/DailyLimit.antt =====
-- The daily limit over the batch of a scan.
use think_tank.Prelude.{
  ℕ, ◌+◌, ◌≤◌, max, ℤ, pos, pos_part, leb_ℤ, ltb_ℤ, leb, ltb, ◌≡◌, refl, subst, inl, inr, String,
  Bool, true, false, not, ◌&&◌, Option, none, some, List, [], ◌∷◌, ◌++◌, if◌then◌else◌,
  tally-append, Bool-cases, Option-cases, arith,
}
use think_tank.Json.{ok}
use think_tank.Config.{SystemConfig}
use think_tank.Content.{Content, find_content}
use think_tank.Queue.Job.{Job}
use think_tank.Discovery.Quota.{
  Candidate, daily_limit, candidates_since, check_daily_quota, get_pending_candidate_count,
  should_trigger_llm_review,
}
use think_tank.Discovery.Scan.{
  count_appearance, new_candidate, Progress, Searches, scan_name, scan_names, body_or_empty,
  scan_content, scan_contents, review_job, scan_batch, handle_scan_for_candidates,
}
use think_tank.Discovery.Scan.Growth.{
  Extends, Extends-refl, Extends-append, Extends-count, Extends-trans,
}

count-since :
    (today_start now i : ℕ) (cs : List Candidate)
    → candidates_since today_start (count_appearance now i cs) ≡ candidates_since today_start cs
unfolding candidates_since count_appearance
count-since d now i [] = refl
count-since d now i (c ∷ cs) = ground (arith, count-since d now i cs)

module _ (now today_start : ℕ) (today : today_start ≤ now) (limit : ℤ) (s : Searches) where
  append-since :
      (i : ℕ) (name : String) (cs : List Candidate)
      → candidates_since today_start (cs ++ new_candidate now i name ∷ [])
        ≡ candidates_since today_start cs + 1
  unfolding candidates_since new_candidate
  append-since i name cs = ground (
    arith,
    today,
    tally-append (λ c. leb today_start c.first_seen_at) cs (new_candidate now i name ∷ []),
  )

  -- From `p` to `q` the local count follows the table, and stays under the limit once it moves.
  record Within (p q : Progress) : Type 0 where
    grows : Extends now s p.candidates q.candidates
    counted :
        candidates_since today_start q.candidates + p.candidates_today
        ≡ candidates_since today_start p.candidates + q.candidates_today
    limited : q.candidates_today ≤ max p.candidates_today (pos_part limit)

  Within-refl : (p : Progress) → Within p p
  Within-refl p = record {
    grows = Extends-refl now s p.candidates;
    counted = refl;
    limited = omega arith;
  }

  Within-trans : {p q r : Progress} → Within p q → Within q r → Within p r
  Within-trans h k = record {
    grows = Extends-trans now s h.grows k.grows;
    counted = omega (arith, h.counted, k.counted);
    limited = omega (arith, h.limited, k.limited);
  }

  abbrev Steps : Progress → Option Progress → Type 0
  Steps p none = Unit
  Steps p (some q) = Within p q

  scan_name-Steps : (name : String) (p : Progress) → Steps p (scan_name now limit s name p)
  unfolding scan_name
  scan_name-Steps name p = elim (Bool-cases (s.is_thinker name)) [
    | inl e ↦ rw (e, scan_name) (Within-refl p)
    | inr e ↦
        rw (e, scan_name)
          (elim (Option-cases (s.similar_candidate p.candidates name)) [
            | inr (i, o) ↦ rw o (record {
              grows = Extends-count now s i p.candidates;
              counted = omega (arith, count-since today_start now i p.candidates);
              limited = omega arith;
            })
            | inl o ↦ rw o (elim (Bool-cases (leb_ℤ limit (pos p.candidates_today))) [
              | inl l ↦ rw l tt
              | inr l ↦ rw l (record {
                grows =
                    Extends-append now s p.candidates _
                      (record { unknown = e; waits = refl; first = refl });
                counted = omega (arith, append-since (s.new_id p.candidates) name p.candidates);
                limited = ground (arith, l);
              })
            ])
          ])
  ]

  scan_names-Within :
      (names : List String) (p : Progress) → Within p (scan_names now limit s names p)
  unfolding scan_names
  scan_names-Within [] p = Within-refl p
  scan_names-Within (name ∷ names) p = elim (Option-cases (scan_name now limit s name p)) [
    | inl e ↦ rw (e, scan_names) (Within-refl p)
    | inr (q, e) ↦
        rw (e, scan_names)
          (Within-trans (subst (Steps p) e (scan_name-Steps name p)) (scan_names-Within names q))
  ]

  scan_content-Within :
      (contents : List Content) (i : Option ℕ) (p : Progress)
      → Within p (scan_content now limit s contents i p)
  unfolding scan_content
  scan_content-Within contents none p = Within-refl p
  scan_content-Within contents (some i) p = elim (Option-cases (find_content i contents)) [
    | inl e ↦ rw (e, scan_content) (Within-refl p)
    | inr (c, e) ↦
        rw (e, scan_content)
          (scan_names-Within (s.extract_names c.title (body_or_empty c.body_text)) p)
  ]

  scan_contents-Within :
      (contents : List Content) (ids : List (Option ℕ)) (p : Progress)
      → Within p (scan_contents now limit s contents ids p)
  unfolding scan_contents
  scan_contents-Within contents [] p = Within-refl p
  scan_contents-Within contents (i ∷ ids) p =
      Within-trans (scan_content-Within contents i p) (scan_contents-Within contents ids _)

-- The guards of the handler: there is something to scan, at most 40 candidates wait for their
-- review, and the limit is not reached.
abbrev may_scan : ℕ → ℤ → List (Option ℕ) → List Candidate → Bool
may_scan today_start limit [] cs = false
may_scan today_start limit (i ∷ ids) cs =
    not (ltb 40 (get_pending_candidate_count cs))
    && ltb_ℤ (pos (candidates_since today_start cs)) limit

-- The candidates `cs` and no new job before the scan, `cs'` and the new jobs `js` after it.
pub record Scanned (now today_start : ℕ) (limit : ℤ) (s : Searches) (ids : List (Option ℕ))
    (job_id : ℕ) (cs cs' : List Candidate) (js : List Job) : Type 0 where
  pub grows : Extends now s cs cs'
  pub limited :
      candidates_since today_start cs' ≤ max (candidates_since today_start cs) (pos_part limit)
  pub paused : may_scan today_start limit ids cs ≡ false → (cs' ≡ cs) × (js ≡ [])
  pub reviewed :
      may_scan today_start limit ids cs ≡ true
      → js ≡ (
          if should_trigger_llm_review (candidates_since today_start cs') limit
          then review_job now job_id ∷ []
          else [])

module _ (now today_start : ℕ) (today : today_start ≤ now) (config : List SystemConfig) {limit : ℤ}
    (set : daily_limit config ≡ ok limit) (s : Searches) (contents : List Content) (job_id : ℕ)
    (cs : List Candidate) where
  untouched :
      (ids : List (Option ℕ))
      → may_scan today_start limit ids cs ≡ false
      → Scanned now today_start limit s ids job_id cs cs []
  untouched ids e = record {
    grows = Extends-refl now s cs;
    limited = omega arith;
    paused = λ _. (refl, refl);
    reviewed = λ r. ground (arith, e, r);
  }

  scanned :
      (ids : List (Option ℕ))
      → may_scan today_start limit ids cs ≡ true
      → let r =
          scan_batch now limit s contents ids job_id
            (record { candidates = cs; candidates_today = candidates_since today_start cs }) in
        Scanned now today_start limit s ids job_id cs r.0 r.1
  unfolding scan_batch
  scanned ids e =
      let start : Progress = record {
        candidates = cs;
        candidates_today = candidates_since today_start cs;
      } in
      let w = scan_contents-Within now today_start today limit s contents ids start in
      let count : candidates_since today_start
            (scan_contents now limit s contents ids start).candidates
          ≡ (scan_contents now limit s contents ids start).candidates_today =
        omega (arith, w.counted) in
      record {
        grows = w.grows;
        limited = omega (arith, count, w.limited);
        paused = λ r. ground (arith, e, r);
        reviewed = λ _. rw count refl;
      }

  -- With a limit set, a scan succeeds. It keeps every candidate, seen at least as often, and adds at
  -- the end candidates that wait for review, first seen now, whose names match no thinker; the
  -- candidates of the day are at most the limit afterwards, or as many as before; nothing happens
  -- when there is nothing to scan, when more than 40 candidates wait or when the limit is reached,
  -- and otherwise a review job is added exactly when the candidates of the day reach the trigger.
  pub handle_scan_for_candidates-Scanned :
      (ids : List (Option ℕ))
      → (cs' : List Candidate) × (js : List Job) × (handle_scan_for_candidates now today_start
            config s contents ids job_id cs
          ≡ ok (cs', js))
        × Scanned now today_start limit s ids job_id cs cs' js
  unfolding handle_scan_for_candidates check_daily_quota
  handle_scan_for_candidates-Scanned [] = (cs, [], refl, untouched [] refl)
  handle_scan_for_candidates-Scanned (i ∷ ids) =
      elim (Bool-cases (ltb 40 (get_pending_candidate_count cs))) [
        | inl e ↦ (cs, [], rw e refl, untouched (i ∷ ids) (rw e refl))
        | inr e ↦ elim (Bool-cases (ltb_ℤ (pos (candidates_since today_start cs)) limit)) [
          | inl l ↦ (_, _, rw (e, set, l) refl, scanned (i ∷ ids) (rw (e, l) refl))
          | inr l ↦ (cs, [], rw (e, set, l) refl, untouched (i ∷ ids) (rw (e, l) refl))
        ]
      ]
