-- ===== src/Episodes/Scan/Promotion.antt =====
-- What a run of the scan leaves: who is promoted, and who is linked.
use think_tank.Prelude.{
  ℕ, ◌≤◌, ◌≡◌, refl, sym, inl, inr, true, Option, List, [], ◌++◌, ◌==◌, map, any, tally,
  Option-cases, arith,
}
use mathlib.Core.List.{append-nil}
use think_tank.Json.{ok, Result-cases}
use think_tank.Config.{SystemConfig}
use think_tank.Content.{Content, find_content}
use think_tank.Queue.Job.{Job}
use think_tank.Transcription.{get_transcription_age_cutoff}
use think_tank.Episodes.{ContentThinker, is_link}
use think_tank.Episodes.Scan.{
  ScanPayload, Catalog, Scan, host_links, scan_contents, transcription_jobs, scan_source,
  scanned_source, handle_scan_episodes_for_thinkers,
}
use think_tank.Episodes.Scan.Branches.{Tables, left, handler_idle, handler_found, handler_raises}
use think_tank.Episodes.Scan.Rows.{has_link}
use think_tank.Episodes.Scan.Traces.{Outcome, scan_contents-Traced, scan_contents_unique}

module _ (now : ℕ) (uuid4 : ℕ → ℕ) (catalog : Catalog) (payload : ScanPayload)
    (contents : List Content) (links : List ContentThinker) (jobs : List Job)
    (cutoff : Option ℕ) where
  -- The new jobs are those of the promoted contents that are young enough.
  pub record Promotes (after : List Content × List ContentThinker × List Job) : Type 0 where
    pub promoted : List Content
    pub new_jobs : after.2 ≡ jobs ++ transcription_jobs now uuid4 cutoff promoted
    pub rows :
        (i : ℕ)
        → Outcome (find_content i promoted) (find_content i contents) (find_content i after.0)
          × (tally (λ c. c.id == i) promoted ≤ 1)
          × (any (λ c. c.id == i) promoted ≡ true → has_link i after.1 ≡ true)

  idle : Promotes (contents, links, jobs)
  unfolding transcription_jobs find_content
  idle = record {
    promoted = [];
    new_jobs = sym (append-nil jobs);
    rows = λ i. (refl, omega arith, λ h. cc);
  }

  scan_source-Promotes :
      (i : ℕ) → Promotes (scan_source now uuid4 cutoff catalog payload i (contents, links, jobs))
  unfolding scan_source find_content
  scan_source-Promotes source_id =
      let hosts = map (λ l. l.thinker_id) (host_links source_id catalog.source_thinkers) in
      let start : Scan = record { contents = contents; links = links; promoted = [] } in
      let s = scan_contents now hosts catalog.thinkers payload payload.content_ids start in
      record {
        promoted = s.promoted;
        new_jobs = refl;
        rows = λ i.
            let t =
              scan_contents-Traced now hosts catalog.thinkers payload contents i payload.content_ids
                start (record { outcome = refl; once = omega arith; linked = λ h. cc }) in
            (t.outcome, t.once, t.linked);
      }

  -- When the age limit leads to a time of the calendar or to none, a run of the scan succeeds. It
  -- promotes contents, each at most once: a promoted one was cataloged, is now pending and has a link
  -- to a thinker, every other content is as it was, and the new jobs are one for each promoted content
  -- that the age policy lets pass.
  pub handle_scan_episodes_for_thinkers-Promotes :
      (config : List SystemConfig)
      → get_transcription_age_cutoff now config ≡ ok cutoff
      → (after : Tables) × (handle_scan_episodes_for_thinkers now uuid4 config catalog payload
            (contents, links, jobs)
          ≡ ok after)
        × Promotes after
  handle_scan_episodes_for_thinkers-Promotes config aged =
      let t : Tables = (contents, links, jobs) in
      elim (Option-cases (scanned_source catalog payload)) [
        | inl e ↦ (t, handler_idle catalog payload now uuid4 config t e, idle)
        | inr (i, e) ↦ (
          scan_source now uuid4 cutoff catalog payload i t,
          handler_found catalog payload now uuid4 config t i e cutoff aged,
          scan_source-Promotes i,
        )
      ]

module _ (now : ℕ) (uuid4 : ℕ → ℕ) (config : List SystemConfig) (catalog : Catalog)
    (payload : ScanPayload) (contents : List Content) (links : List ContentThinker)
    (jobs : List Job) where
  scan_source_unique :
      (i t source_id : ℕ) (cutoff : Option ℕ)
      → tally (is_link i t) links ≤ 1
      → tally
          (is_link i t)
          (scan_source now uuid4 cutoff catalog payload source_id (contents, links, jobs)).1
        ≤ 1
  unfolding scan_source
  scan_source_unique i t source_id cutoff h =
      let hosts = map (λ l. l.thinker_id) (host_links source_id catalog.source_thinkers) in
      scan_contents_unique now hosts catalog.thinkers payload i t payload.content_ids _ h

  -- A run of the scan, also one that raises, leaves no content with a second link to the same thinker.
  pub handle_scan_episodes_for_thinkers_unique :
      (i t : ℕ)
      → tally (is_link i t) links ≤ 1
      → tally
          (is_link i t)
          (left
            (contents, links, jobs)
            (handle_scan_episodes_for_thinkers now uuid4 config catalog payload
              (contents, links, jobs))).1
        ≤ 1
  handle_scan_episodes_for_thinkers_unique i t h =
      let before : Tables = (contents, links, jobs) in
      elim (Option-cases (scanned_source catalog payload)) [
        | inl e ↦ rw (handler_idle catalog payload now uuid4 config before e) h
        | inr (k, e) ↦ elim (Result-cases (get_transcription_age_cutoff now config)) [
          | inl (cutoff, a) ↦
              rw (handler_found catalog payload now uuid4 config before k e cutoff a)
                (scan_source_unique i t k cutoff h)
          | inr (x, a) ↦ rw (handler_raises catalog payload now uuid4 config before k e x a) h
        ]
      ]
