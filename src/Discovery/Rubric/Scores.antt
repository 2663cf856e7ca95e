-- ===== src/Discovery/Rubric/Scores.antt =====
-- The legs of the score: bounds, and more evidence never lowers it.
use think_tank.Prelude.{
  ℕ, ◌+◌, ◌≤◌, ◌≡◌, true, ◌&&◌, List, [], ◌∷◌, leb, arith, All, Bool-cases, inl, inr, if◌then◌else◌,
}
use think_tank.Discovery.Rubric.{
  Dossier, or_zero, band_from, band, scholarship_score, notability_score, authorship_score,
  content_score, peer_score, score_dossier,
}

-- The points rise along the bands, from `s` on.
abbrev Rising : ℕ → List (ℕ × ℕ) → Type 0
Rising s [] = Unit
Rising s ((threshold, points) ∷ bands) = (s ≤ points) × Rising points bands

Rising-weaken : (s s' : ℕ) (bands : List (ℕ × ℕ)) → s ≤ s' → Rising s' bands → Rising s bands
Rising-weaken s s' [] h r = tt
Rising-weaken s s' ((threshold, points) ∷ bands) h r = (omega (arith, r.0), r.1)

band_from_mono :
    (s s' v w : ℕ) (bands : List (ℕ × ℕ))
    → s ≤ s'
    → v ≤ w
    → Rising s' bands
    → band_from s v bands ≤ band_from s' w bands
unfolding band_from
band_from_mono s s' v w [] h k r = h
band_from_mono s s' v w ((t, p) ∷ bands) h k r = elim (Bool-cases (leb t v)) [
  | inl e ↦
      let e' : leb t w ≡ true = ground arith in
      rw (e, e') (band_from_mono p p v w bands (omega arith) k r.1)
  | inr e ↦ elim (Bool-cases (leb t w)) [
    | inl e' ↦ rw (e, e') (band_from_mono s p v w bands (omega (arith, r.0)) k r.1)
    | inr e' ↦ rw (e, e') (band_from_mono s s' v w bands h k (Rising-weaken s' p bands r.0 r.1))
  ]
]

band_mono : (v w : ℕ) (bands : List (ℕ × ℕ)) → v ≤ w → Rising 0 bands → band v bands ≤ band w bands
unfolding band
band_mono v w bands h r = band_from_mono 0 0 v w bands (omega arith) h r

band_from-le :
    (m s v : ℕ) (bands : List (ℕ × ℕ)) → s ≤ m → All (λ b. b.1 ≤ m) bands → band_from s v bands ≤ m
unfolding band_from
band_from-le m s v [] h r = h
band_from-le m s v ((t, p) ∷ bands) h r =
    band_from-le m (if leb t v then p else s) v bands (ground (arith, r.0)) r.1

band-le : (m v : ℕ) (bands : List (ℕ × ℕ)) → All (λ b. b.1 ≤ m) bands → band v bands ≤ m
unfolding band
band-le m v bands r = band_from-le m 0 v bands (omega arith) r

scholarship_bound : (d : Dossier) → scholarship_score d ≤ 30
unfolding scholarship_score
scholarship_bound d = ground (
  arith,
  band-le 30 (or_zero d.h_index) ((5, 8) ∷ (15, 15) ∷ (30, 22) ∷ (50, 30) ∷ []) (omega arith),
  band-le 30 (or_zero d.cited_by_count) ((500, 8) ∷ (5000, 15) ∷ (20000, 22) ∷ (50000, 30) ∷ [])
      (omega arith),
)

notability_bound : (d : Dossier) → notability_score d ≤ 20
unfolding notability_score
notability_bound d = ground (
  arith,
  band-le 20 (or_zero d.sitelink_count) ((5, 12) ∷ (15, 16) ∷ (40, 20) ∷ []) (omega arith),
)

authorship_bound : (d : Dossier) → authorship_score d ≤ 15
unfolding authorship_score
authorship_bound d =
    ground
      (arith, band-le 15 (or_zero d.work_count) ((1, 6) ∷ (3, 10) ∷ (8, 15) ∷ []) (omega arith))

content_bound : (d : Dossier) → content_score d ≤ 25
unfolding content_score
content_bound d = omega arith

peer_bound : (n : ℕ) → peer_score n ≤ 10
unfolding peer_score
peer_bound n = band-le 10 n ((1, 4) ∷ (3, 7) ∷ (6, 10) ∷ []) (omega arith)

-- Each leg stays within its band, the total is the sum of the five legs and at most 100, and the
-- qualification is the sum of its three.
pub score_dossier_bounds :
    (d : Dossier) (peers : ℕ)
    → let (total, b) = score_dossier d peers in
      (b.scholarship ≤ 30)
      × (b.notability ≤ 20)
      × (b.authorship ≤ 15)
      × (b.content ≤ 25)
      × (b.peer_signal ≤ 10)
      × (total ≡ b.qualification_legs + b.content + b.peer_signal)
      × (b.qualification_legs ≡ b.scholarship + b.notability + b.authorship)
      × (total ≤ 100)
unfolding score_dossier
score_dossier_bounds d peers = omega (
  arith,
  scholarship_bound d,
  notability_bound d,
  authorship_bound d,
  content_bound d,
  peer_bound peers,
)

-- `d'` has all the evidence of `d`.
pub record Extends (d d' : Dossier) : Type 0 where
  pub openalex : d.openalex_found ≡ true → d'.openalex_found ≡ true
  pub h_index : or_zero d.h_index ≤ or_zero d'.h_index
  pub citations : or_zero d.cited_by_count ≤ or_zero d'.cited_by_count
  pub wikidata : d.wikidata_found ≡ true → d'.wikidata_found ≡ true
  pub enwiki : d.has_enwiki ≡ true → d'.has_enwiki ≡ true
  pub sitelinks : or_zero d.sitelink_count ≤ or_zero d'.sitelink_count
  pub books : d.books_found ≡ true → d'.books_found ≡ true
  pub works : or_zero d.work_count ≤ or_zero d'.work_count
  pub podcasts :
      (d.podcasts_ok && d.podcasts_found) ≡ true → (d'.podcasts_ok && d'.podcasts_found) ≡ true
  pub feeds : or_zero d.appearance_feed_count ≤ or_zero d'.appearance_feed_count
  pub youtube :
      (d.youtube_checked && d.youtube_reachable) ≡ true
      → (d'.youtube_checked && d'.youtube_reachable) ≡ true
  pub substack :
      (d.substack_checked && d.substack_reachable) ≡ true
      → (d'.substack_checked && d'.substack_reachable) ≡ true

module _ (d d' : Dossier) (x : Extends d d') where
  scholarship_mono : scholarship_score d ≤ scholarship_score d'
  unfolding scholarship_score
  scholarship_mono = ground (
    arith,
    x.openalex,
    band_mono (or_zero d.h_index) (or_zero d'.h_index)
        ((5, 8) ∷ (15, 15) ∷ (30, 22) ∷ (50, 30) ∷ []) x.h_index (omega arith),
    band_mono (or_zero d.cited_by_count) (or_zero d'.cited_by_count)
        ((500, 8) ∷ (5000, 15) ∷ (20000, 22) ∷ (50000, 30) ∷ []) x.citations (omega arith),
  )

  notability_mono : notability_score d ≤ notability_score d'
  unfolding notability_score
  notability_mono = ground (
    arith,
    x.wikidata,
    x.enwiki,
    band_mono (or_zero d.sitelink_count) (or_zero d'.sitelink_count)
        ((5, 12) ∷ (15, 16) ∷ (40, 20) ∷ []) x.sitelinks (omega arith),
  )

  authorship_mono : authorship_score d ≤ authorship_score d'
  unfolding authorship_score
  authorship_mono = ground (
    arith,
    x.books,
    band_mono (or_zero d.work_count) (or_zero d'.work_count) ((1, 6) ∷ (3, 10) ∷ (8, 15) ∷ [])
        x.works (omega arith),
  )

  content_mono : content_score d ≤ content_score d'
  unfolding content_score
  content_mono = ground (
    arith,
    x.podcasts,
    x.youtube,
    x.substack,
    band_mono (or_zero d.appearance_feed_count) (or_zero d'.appearance_feed_count)
        ((1, 6) ∷ (3, 10) ∷ (8, 15) ∷ []) x.feeds (omega arith),
  )

  peer_mono : (n n' : ℕ) → n ≤ n' → peer_score n ≤ peer_score n'
  unfolding peer_score
  peer_mono n n' h = band_mono n n' ((1, 4) ∷ (3, 7) ∷ (6, 10) ∷ []) h (omega arith)

  -- More evidence, and more co-appearances, never lower the total, the qualification or the
  -- content leg.
  pub score_dossier_mono :
      (n n' : ℕ)
      → n ≤ n'
      → let (total, b) = score_dossier d n in
        let (total', b') = score_dossier d' n' in
        (total ≤ total') × (b.qualification_legs ≤ b'.qualification_legs) × (b.content ≤ b'.content)
  unfolding score_dossier
  score_dossier_mono n n' h =
      omega
        (arith, scholarship_mono, notability_mono, authorship_mono, content_mono, peer_mono n n' h)
