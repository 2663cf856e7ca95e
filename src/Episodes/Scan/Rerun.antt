-- ===== src/Episodes/Scan/Rerun.antt =====
-- A second run of the same scan job.
use mathlib.Core.List.{append-nil}
use think_tank.Prelude.{
  ℕ, ◌≡◌, refl, ap, sym, subst, ◌∙◌, inl, inr, Bool, false, ◌&&◌, Option, none, some, List, [], ◌∷◌,
  ◌++◌, ◌==◌, map, str_eq, ==_self, All, Bool-cases, Option-cases,
}
use think_tank.Json.{ok, Result-cases}
use think_tank.Config.{SystemConfig}
use think_tank.Content.{Content, find_content}
use think_tank.Governance.{Thinker}
use think_tank.Transcription.{get_transcription_age_cutoff}
use think_tank.Episodes.Scan.{
  ScanPayload, Catalog, Scan, get_or, host_links, episode_matches, is_relevant, promote,
  scan_content, scan_contents, transcription_jobs, scan_source, scanned_source,
  handle_scan_episodes_for_thinkers,
}
use think_tank.Episodes.Scan.Branches.{Tables, left, handler_idle, handler_found, handler_raises}
use think_tank.Episodes.Scan.Rows.{pending, find_content-promote}

module _ (hosts : List ℕ) (thinkers : List Thinker) (payload : ScanPayload) where
  -- The test of a round on the row of content `i`.
  is_wanted : ℕ → Content → Bool
  unfolding get_or
  is_wanted i c =
      str_eq c.status "cataloged"
      && is_relevant hosts (
          episode_matches hosts thinkers (get_or payload.descriptions i "")
            (get_or payload.content_persons i []) c)

  -- The scan leaves content `i` alone.
  abbrev Rests : ℕ → Option Content → Type 0
  Rests i none = Unit
  Rests i (some c) = is_wanted i c ≡ false

  abbrev Done : List Content → ℕ → Type 0
  Done contents i = Rests i (find_content i contents)

  scan_content-rests :
      (now i : ℕ) (s : Scan) → Done s.contents i → scan_content now hosts thinkers payload i s ≡ s
  unfolding scan_content is_wanted
  scan_content-rests now i s h = elim (Option-cases (find_content i s.contents)) [
    | inl e ↦ rw (e, scan_content) refl
    | inr (c, e) ↦ let b = subst (Rests i) e h in rw (e, scan_content) (rw b refl)
  ]

  scan_contents-rests :
      (now : ℕ) (is : List ℕ) (s : Scan)
      → All (Done s.contents) is
      → scan_contents now hosts thinkers payload is s ≡ s
  unfolding scan_contents
  scan_contents-rests now [] s h = refl
  scan_contents-rests now (i ∷ is) s h =
      rw (scan_content-rests now i s h.0) (scan_contents-rests now is s h.1)

  pending-Rests : (i : ℕ) (c : Option Content) → Rests i (pending c)
  unfolding is_wanted
  pending-Rests i none = tt
  pending-Rests i (some c) = refl

  promote-Done : (i j : ℕ) (cs : List Content) → Done cs i → Done (promote j cs) i
  promote-Done i j cs h = elim (Bool-cases (j == i)) [
    | inl e ↦ rw (find_content-promote j i cs) (rw e (pending-Rests i (find_content i cs)))
    | inr e ↦ rw (find_content-promote j i cs) (rw e h)
  ]

  scan_content-Done :
      (now i j : ℕ) (s : Scan)
      → Done s.contents i
      → Done (scan_content now hosts thinkers payload j s).contents i
  unfolding scan_content is_wanted
  scan_content-Done now i j s h = elim (Option-cases (find_content j s.contents)) [
    | inl e ↦ rw (e, scan_content) h
    | inr (c, e) ↦ elim (Bool-cases (is_wanted j c)) [
      | inl b ↦ rw (e, scan_content) (rw b (promote-Done i j s.contents h))
      | inr b ↦ rw (e, scan_content) (rw b h)
    ]
  ]

  -- After its round a content rests.
  scan_content-rest :
      (now i : ℕ) (s : Scan) → Done (scan_content now hosts thinkers payload i s).contents i
  unfolding scan_content is_wanted
  scan_content-rest now i s = elim (Option-cases (find_content i s.contents)) [
    | inl e ↦ rw (e, scan_content) (subst (Rests i) (sym e) tt)
    | inr (c, e) ↦ elim (Bool-cases (is_wanted i c)) [
      | inl b ↦
          rw (e, scan_content)
            (rw b (
              rw (find_content-promote i i s.contents)
                (rw (==_self i) (pending-Rests i (find_content i s.contents)))))
      | inr b ↦ rw (e, scan_content) (rw b (subst (Rests i) (sym e) b))
    ]
  ]

  scan_contents-Done :
      (now i : ℕ) (is : List ℕ) (s : Scan)
      → Done s.contents i
      → Done (scan_contents now hosts thinkers payload is s).contents i
  unfolding scan_contents
  scan_contents-Done now i [] s h = h
  scan_contents-Done now i (j ∷ is) s h =
      scan_contents-Done now i is _ (scan_content-Done now i j s h)

  scan_contents_settle :
      (now : ℕ) (is : List ℕ) (s : Scan)
      → All (Done (scan_contents now hosts thinkers payload is s).contents) is
  unfolding scan_contents
  scan_contents_settle now [] s = tt
  scan_contents_settle now (i ∷ is) s =
      (scan_contents-Done now i is _ (scan_content-rest now i s), scan_contents_settle now is _)

module _ (catalog : Catalog) (payload : ScanPayload) where
  scan_source-again :
      (now now' : ℕ) (uuid4 uuid4' : ℕ → ℕ) (cutoff cutoff' : Option ℕ) (i : ℕ) (t : Tables)
      → let after = scan_source now uuid4 cutoff catalog payload i t in
        scan_source now' uuid4' cutoff' catalog payload i after ≡ after
  unfolding scan_source transcription_jobs
  scan_source-again now now' uuid4 uuid4' cutoff cutoff' i (contents, links, jobs) =
      let hosts = map (λ l. l.thinker_id) (host_links i catalog.source_thinkers) in
      let ids = payload.content_ids in
      let start : Scan = record { contents = contents; links = links; promoted = [] } in
      let s = scan_contents now hosts catalog.thinkers payload ids start in
      let next : Scan = record { contents = s.contents; links = s.links; promoted = [] } in
      let same : scan_contents now' hosts catalog.thinkers payload ids next ≡ next =
        scan_contents-rests hosts catalog.thinkers payload now' ids next
          (scan_contents_settle hosts catalog.thinkers payload now ids start) in
      rw same (rw (append-nil (jobs ++ transcription_jobs now uuid4 cutoff s.promoted)) refl)

  -- A job that runs a second time, at another time and under other settings, on the tables that its
  -- first run left when it succeeded, changes neither the contents nor the links and adds no job,
  -- whether the second run succeeds or raises.
  pub handle_scan_episodes_for_thinkers-again :
      (now now' : ℕ) (uuid4 uuid4' : ℕ → ℕ) (config config' : List SystemConfig) (t after : Tables)
      → handle_scan_episodes_for_thinkers now uuid4 config catalog payload t ≡ ok after
      → left after (handle_scan_episodes_for_thinkers now' uuid4' config' catalog payload after)
        ≡ after
  handle_scan_episodes_for_thinkers-again now now' uuid4 uuid4' config config' t after h =
      elim (Option-cases (scanned_source catalog payload)) [
        | inl e ↦ ap (left after) (handler_idle catalog payload now' uuid4' config' after e)
        | inr (i, e) ↦ elim (Result-cases (get_transcription_age_cutoff now' config')) [
          | inr (x, a') ↦
              ap (left after) (handler_raises catalog payload now' uuid4' config' after i e x a')
          | inl (cutoff', a') ↦ elim (Result-cases (get_transcription_age_cutoff now config)) [
            | inr (x, a) ↦ let r = handler_raises catalog payload now uuid4 config t i e x a in cc
            | inl (cutoff, a) ↦
                let r = handler_found catalog payload now uuid4 config t i e cutoff a in
                let same : scan_source now uuid4 cutoff catalog payload i t ≡ after = cc in
                ap (left after)
                  (handler_found catalog payload now' uuid4' config' after i e cutoff' a')
                ∙ subst (λ u. scan_source now' uuid4' cutoff' catalog payload i u ≡ u) same
                    (scan_source-again now now' uuid4 uuid4' cutoff cutoff' i t)
          ]
        ]
      ]
