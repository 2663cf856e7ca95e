-- ===== src/Transcription/Sweep/Budget.antt =====
-- What the sweep enqueues, and the depth of the queue that it keeps.
use think_tank.Prelude.{
  ℕ, ◌-◌, ◌+◌, ◌≤◌, max, ℤ, pos, pos_part, leb_ℤ, ◌≡◌, refl, sym, ◌⊎◌, inl, inr, Bool, true, false,
  not, Option, List, [], ◌∷◌, ◌++◌, map, take, select, any, any-append, or-true, ◌||◌, length,
  tally-append, length-take, All, In, here, there, All-of, All-map, Sorted, order_by-All,
  order_by-In, order_by-Sorted, select-All, select-In, select-Sorted, take-All, take-cut,
  Bool-cases, ==_self, arith,
}
use mathlib.Core.List.{append-nil}
use think_tank.Json.{ok, get}
use think_tank.Config.{SystemConfig}
use think_tank.Content.{Content}
use think_tank.Queue.Job.{Job, new_job, is_queued, is_done, payload_is}
use think_tank.Queue.Backpressure.{get_queue_depth, get_threshold, is_queued_of}
use think_tank.Transcription.{get_transcription_age_cutoff}
use think_tank.Transcription.Sweep.{
  covers, is_due, pending_uncovered, process_content_job, enqueue_pending,
  handle_enqueue_pending_transcriptions,
}

abbrev depth : List Job → ℕ
depth jobs = get_queue_depth jobs "process_content"

abbrev is_covered : List Job → Content → Bool
is_covered jobs c = any (covers c.id) jobs

abbrev Due : Option ℕ → List Job → List Content → Content → Type 0
Due cutoff jobs contents c = In c contents × (is_due cutoff c ≡ true) × (is_covered jobs c ≡ false)

-- The table after a sweep over `contents` with this cutoff and this threshold.
pub record Swept (now : ℕ) (uuid4 : ℕ → ℕ) (cutoff : Option ℕ) (threshold : ℤ)
    (contents : List Content) (jobs jobs' : List Job) : Type 0 where
  pub added : List Content
  pub table : jobs' ≡ jobs ++ map (process_content_job now uuid4) added
  pub due : All (Due cutoff jobs contents) added
  pub covered : All (λ c. is_covered jobs' c ≡ true) added
  pub capped : depth jobs' ≤ max (depth jobs) (pos_part threshold)
  pub served :
      (c : Content)
      → In c contents
      → is_due cutoff c ≡ true
      → is_covered jobs c ≡ false
      → In c added
        ⊎ (pos_part threshold ≤ depth jobs') × All (λ a. a.discovered_at ≤ c.discovered_at) added

queued_jobs :
    (now : ℕ) (uuid4 : ℕ → ℕ) (added : List Content)
    → depth (map (process_content_job now uuid4) added) ≡ length added
unfolding get_queue_depth is_queued_of process_content_job is_queued new_job
queued_jobs now uuid4 [] = refl
queued_jobs now uuid4 (c ∷ added) = omega (arith, queued_jobs now uuid4 added)

depth-jobs :
    (now : ℕ) (uuid4 : ℕ → ℕ) (added : List Content) (jobs : List Job)
    → depth (jobs ++ map (process_content_job now uuid4) added) ≡ depth jobs + length added
unfolding get_queue_depth
depth-jobs now uuid4 added jobs =
    let new = map (process_content_job now uuid4) added in
    omega
      (arith, tally-append (is_queued_of "process_content") jobs new, queued_jobs now uuid4 added)

pending_uncovered-All :
    (cutoff : Option ℕ) (jobs : List Job) (contents : List Content)
    → All (Due cutoff jobs contents) (pending_uncovered cutoff jobs contents)
unfolding pending_uncovered
pending_uncovered-All cutoff jobs contents =
    let here = All-of (λ c. In c contents) contents (λ c m. m) in
    let young = select-All (λ c. In c contents) (is_due cutoff) contents here in
    All-map (λ c h. (h.0.0, h.0.1, ground (arith, h.1))) _
      (select-All _ (λ c. not (is_covered jobs c)) _
        (order_by-All _ (λ c. c.discovered_at) _ young))

pending_uncovered-In :
    (cutoff : Option ℕ) (jobs : List Job) (contents : List Content) (c : Content)
    → Due cutoff jobs contents c
    → In c (pending_uncovered cutoff jobs contents)
unfolding pending_uncovered
pending_uncovered-In cutoff jobs contents c (m, d, u) =
    select-In (λ c. not (is_covered jobs c)) c _
      (order_by-In (λ c. c.discovered_at) c _ (select-In (is_due cutoff) c contents m d))
      (rw u refl)

pending_uncovered-Sorted :
    (cutoff : Option ℕ) (jobs : List Job) (contents : List Content)
    → Sorted (λ c. c.discovered_at) (pending_uncovered cutoff jobs contents)
unfolding pending_uncovered
pending_uncovered-Sorted cutoff jobs contents =
    select-Sorted _ _ _ (order_by-Sorted (λ c. c.discovered_at) (select (is_due cutoff) contents))

covers-new :
    (now : ℕ) (uuid4 : ℕ → ℕ) (c : Content) (added : List Content)
    → In c added
    → any (covers c.id) (map (process_content_job now uuid4) added) ≡ true
unfolding covers process_content_job payload_is is_done get new_job
covers-new now uuid4 c [] m = elim m [ ]
covers-new now uuid4 c (_ ∷ added) here = ground (arith, ==_self c.id)
covers-new now uuid4 c (d ∷ added) (there m) = ground (arith, covers-new now uuid4 c added m)

-- Below the threshold the sweep fills the queue up to it.
module _ (now : ℕ) (uuid4 : ℕ → ℕ) (config : List SystemConfig) (contents : List Content)
    (jobs : List Job) {threshold : ℤ} {cutoff : Option ℕ}
    (set : get_threshold config ≡ ok threshold)
    (aged : get_transcription_age_cutoff now config ≡ ok cutoff) where
  abbrev added : List Content
  added = take (pos_part threshold - depth jobs) (pending_uncovered cutoff jobs contents)

  covered_by_job :
      (c : Content)
      → In c added
      → (any (covers c.id) jobs || any (covers c.id) (map (process_content_job now uuid4) added))
        ≡ true
  covered_by_job c m = rw (covers-new now uuid4 c added m, or-true) refl

  filled :
      leb_ℤ threshold (pos (depth jobs)) ≡ false
      → Swept now uuid4 cutoff threshold contents jobs
          (jobs ++ map (process_content_job now uuid4) added)
  filled below =
      let pending = pending_uncovered cutoff jobs contents in
      let budget = pos_part threshold - depth jobs in
      let sum = depth-jobs now uuid4 added jobs in
      let size = length-take budget pending in
      record {
        added = added;
        table = refl;
        due = take-All _ budget pending (pending_uncovered-All cutoff jobs contents);
        covered = All-of _ added (λ c m. rw (any-append (covers c.id) jobs _) (covered_by_job c m));
        capped = omega (arith, sum, size);
        served = λ c m d u.
            elim (take-cut (λ c. c.discovered_at) budget c pending
              (pending_uncovered-Sorted cutoff jobs contents)
              (pending_uncovered-In cutoff jobs contents c (m, d, u))) [
                | inl k ↦ inl k
                | inr (l, h) ↦ inr (omega (arith, sum, l), h)
              ];
      }

  -- With a threshold set, and an age limit that leads to a time of the calendar or to none, the sweep
  -- succeeds. It adds one queued job for each of some contents that
  -- are pending, young enough and without an unfinished job, which then have one; the queue is no
  -- deeper afterwards than the threshold, or than before; and every such content that gets no job
  -- was left because the queue is at the threshold, with only contents discovered before it, or with
  -- it, added.
  pub handle_enqueue_pending_transcriptions-Swept :
      (jobs' : List Job) × (handle_enqueue_pending_transcriptions now uuid4 config contents jobs
        ≡ ok jobs')
      × Swept now uuid4 cutoff threshold contents jobs jobs'
  unfolding handle_enqueue_pending_transcriptions enqueue_pending
  handle_enqueue_pending_transcriptions-Swept =
      elim (Bool-cases (leb_ℤ threshold (pos (depth jobs)))) [
        | inl e ↦ (
          jobs,
          rw (set, e) refl,
          record {
            added = [];
            table = sym (append-nil jobs);
            covered = tt;
            due = tt;
            capped = omega arith;
            served = λ c m d u. inr (ground (arith, e), tt);
          },
        )
        | inr e ↦ (_, rw (set, e) (rw aged refl), filled e)
      ]
