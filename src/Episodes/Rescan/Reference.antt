-- ===== src/Episodes/Rescan/Reference.antt =====
-- The rescan as one selection of the contents.
use mathlib.Core.List.{append-nil, append_assoc}
use think_tank.Prelude.{
  ℕ, ◌≡◌, ◌≢◌, refl, ap, ◌∙◌, inl, inr, Bool, true, false, not, Option, some, List, [], ◌∷◌, ◌++◌,
  ◌==◌, map, String, codes, same, select, select-All, str_eq, ==_false, any, any-append, All,
  All-map, Bool-cases, if◌then◌else◌, arith,
}
use think_tank.Config.{SystemConfig}
use think_tank.Governance.{Thinker}
use think_tank.Content.{Content}
use think_tank.Json.{ok}
use think_tank.Transcription.{get_transcription_age_cutoff, is_transcribable}
use think_tank.Transcription.Sweep.{process_content_job}
use think_tank.Episodes.{ContentThinker, is_link}
use think_tank.Episodes.Scan.{promote}
use think_tank.Episodes.Rescan.{
  find_thinker, matching_content, handle_rescan_cataloged_for_thinker, Rescan, retroactive_link,
  rescan_content, rescan_contents,
}

-- The contents that a thinker is not linked to.
abbrev pub unlinked : ℕ → List ContentThinker → List Content → List Content
unlinked thinker_id links = select (λ c. not (any (is_link c.id thinker_id) links))

-- The row, pending when it is one of those.
abbrev pub mark : List Content → Content → Content
mark chosen c = if any (λ d. c.id == d.id) chosen then record c { status = "pending" } else c

-- No two contents have the same id.
abbrev pub DistinctIds : List Content → Type 0
DistinctIds [] = Unit
DistinctIds (c ∷ cs) = All (λ d. c.id ≢ d.id) cs × DistinctIds cs

promote-mark :
    (d : Content) (ds cs : List Content) → map (mark ds) (promote d.id cs) ≡ map (mark (d ∷ ds)) cs
unfolding promote
promote-mark d ds [] = refl
promote-mark d ds (c ∷ cs) = ground (arith, promote-mark d ds cs)

mark-none : (cs : List Content) → map (mark []) cs ≡ cs
mark-none [] = refl
mark-none (c ∷ cs) = ap (λ xs. c ∷ xs) (mark-none cs)

module _ (now : ℕ) (uuid4 : ℕ → ℕ) (cutoff : Option ℕ) (thinker_id : ℕ) where
  -- A link of another content decides nothing.
  unlinked-other :
      (c : Content) (links : List ContentThinker) (cs : List Content)
      → All (λ d. c.id ≢ d.id) cs
      → unlinked thinker_id (links ++ retroactive_link now thinker_id c ∷ []) cs
        ≡ unlinked thinker_id links cs
  unfolding is_link retroactive_link
  unlinked-other c links [] h = refl
  unlinked-other c links (d ∷ cs) h = ground (
    arith,
    unlinked-other c links cs h.1,
    ==_false c.id d.id h.0,
    any-append (is_link d.id thinker_id) links (retroactive_link now thinker_id c ∷ []),
  )

  -- The tables after the promotion of `chosen`.
  abbrev pub promoting : List Content → Rescan → Rescan
  promoting chosen s = record {
    contents = map (mark chosen) s.contents;
    links = s.links ++ map (retroactive_link now thinker_id) chosen;
    jobs =
        s.jobs
        ++ map (process_content_job now uuid4)
            (select (λ c. is_transcribable c.published_at cutoff) chosen);
  }

  promoting_step :
      (c : Content) (cs : List Content) (s : Rescan)
      → All (λ d. c.id ≢ d.id) cs
      → promoting
          (unlinked thinker_id (s.links ++ retroactive_link now thinker_id c ∷ []) cs)
          (record {
            contents = promote c.id s.contents;
            links = s.links ++ retroactive_link now thinker_id c ∷ [];
            jobs =
                if is_transcribable c.published_at cutoff
                then s.jobs ++ process_content_job now uuid4 c ∷ []
                else s.jobs;
          })
        ≡ promoting (c ∷ unlinked thinker_id s.links cs) s
  promoting_step c cs s h =
      let u = unlinked thinker_id s.links cs in
      rw (unlinked-other c s.links cs h) (
        rw (promote-mark c u s.contents) (
          rw
            (append_assoc s.links (retroactive_link now thinker_id c ∷ [])
              (map (retroactive_link now thinker_id) u))
            (elim (Bool-cases (is_transcribable c.published_at cutoff)) [
              | inl e ↦ rw e (
                  rw
                    (append_assoc s.jobs (process_content_job now uuid4 c ∷ []) (
                      map (process_content_job now uuid4)
                        (select (λ c. is_transcribable c.published_at cutoff) u)))
                    refl)
              | inr e ↦ rw e refl
            ])))

  pub rescan_contents-promoting :
      (cs : List Content) (s : Rescan)
      → DistinctIds cs
      → rescan_contents now uuid4 cutoff thinker_id cs s
        ≡ promoting (unlinked thinker_id s.links cs) s
  unfolding rescan_contents rescan_content
  rescan_contents-promoting [] s h =
      rw (mark-none s.contents) (rw (append-nil s.links) (rw (append-nil s.jobs) refl))
  rescan_contents-promoting (c ∷ cs) s h =
      elim (Bool-cases (any (is_link c.id thinker_id) s.links)) [
        | inl e ↦ rw e (rescan_contents-promoting cs s h.1)
        | inr e ↦ rw e (rescan_contents-promoting cs _ h.1 ∙ promoting_step c cs s h.0)
      ]

select-DistinctIds :
    (p : Content → Bool) (cs : List Content) → DistinctIds cs → DistinctIds (select p cs)
select-DistinctIds p [] h = tt
select-DistinctIds p (c ∷ cs) h = elim (Bool-cases (p c)) [
  | inl e ↦ rw e (
    All-map (λ d k. k.0) (select p cs) (select-All (λ d. c.id ≢ d.id) p cs h.0),
    select-DistinctIds p cs h.1,
  )
  | inr e ↦ rw e (select-DistinctIds p cs h.1)
]

-- For contents with different ids, and an age limit that leads to a time of the calendar or to none, a
-- rescan for an approved thinker succeeds and promotes exactly the cataloged contents that name the
-- thinker and are not linked to it: each of them becomes pending and gets a guest
-- link, those that the age policy lets pass get a job, and every other row is as it was.
pub handle_rescan_cataloged_for_thinker-promoting :
    (now : ℕ) (uuid4 : ℕ → ℕ) (config : List SystemConfig) (thinkers : List Thinker)
    (thinker_id : ℕ) (name : String) (t : Thinker) (s : Rescan) (cutoff : Option ℕ)
    → get_transcription_age_cutoff now config ≡ ok cutoff
    → same (codes name) [] ≡ false
    → find_thinker thinker_id thinkers ≡ some t
    → str_eq t.approval_status "approved" ≡ true
    → DistinctIds s.contents
    → handle_rescan_cataloged_for_thinker now uuid4 config thinkers (some thinker_id) name s
      ≡ ok (
          promoting now uuid4 cutoff thinker_id
            (unlinked thinker_id s.links (matching_content thinker_id name s.contents))
            s)
unfolding handle_rescan_cataloged_for_thinker matching_content
handle_rescan_cataloged_for_thinker-promoting now uuid4 config thinkers thinker_id name t s cutoff
      aged n f a d =
    rw n (
      rw (f, handle_rescan_cataloged_for_thinker)
        (rw a (
          rw aged (
            ap ok (
              rescan_contents-promoting now uuid4 cutoff thinker_id
                (matching_content thinker_id name s.contents) s
                (select-DistinctIds _ _ (select-DistinctIds _ s.contents d)))))))
