-- ===== src/Discovery/Rubric/Gate.antt =====
-- The gate: what can never pass, what reaches the judge, and what the domain-fit verdict can change.
use think_tank.Prelude.{
  ◌≢◌, ◌↔◌, ℕ, ◌≤◌, pos, ◌≤ℤ◌, ◌≡◌, ◌⊎◌, String, true, ◌&&◌, Option, none, arith,
}
use think_tank.Discovery.Rubric.{
  Dossier, Breakdown, or_zero, GateThresholds, default_thresholds, Outcome, auto_rejected,
  borderline, band, content_score, score_dossier, base_outcome, fit_outcome, gate_decision,
  is_centrality,
}

-- 0 rejected, 1 to a human, 2 to the judge.
abbrev pub rank : Outcome → ℕ
rank auto_rejected = 0
rank borderline = 1
rank _ = 2

abbrev pub Academic : ℕ → Breakdown → GateThresholds → Type 0
Academic total b t = (t.min_qualification ≤ℤ pos b.qualification_legs) × (t.floor ≤ℤ pos total)

abbrev pub Practitioner : Breakdown → GateThresholds → Type 0
Practitioner b t = (b.scholarship ≡ 0) × (t.practitioner_min_notability ≤ℤ pos b.notability)

-- A verdict of this name, with the evidence that a rescue asks for.
abbrev pub Fit : ℕ → GateThresholds → Option String → String → Type 0
Fit total t centrality verdict =
    (is_centrality centrality verdict ≡ true) × (t.fit_rescue_floor ≤ℤ pos total)

-- What it takes not to be rejected.
pub record Passes (total : ℕ) (b : Breakdown) (t : GateThresholds) (centrality : Option String)
    : Type 0 where
  pub content : t.min_content ≤ℤ pos b.content
  pub reason :
      Academic total b t
      ⊎ Practitioner b t
      ⊎ Fit total t centrality "core"
      ⊎ Fit total t centrality "adjacent"

-- What it takes to reach the LLM judge.
pub record Judged (total : ℕ) (b : Breakdown) (t : GateThresholds) (centrality : Option String)
    : Type 0 where
  pub content : t.min_content ≤ℤ pos b.content
  pub reason :
      (Academic total b t × (t.shortlist ≤ℤ pos total))
      ⊎ ((¬ Academic total b t) × Practitioner b t)
      ⊎ Fit total t centrality "core"

base-rank :
    (total : ℕ) (b : Breakdown) (t : GateThresholds)
    → (rank (base_outcome total b t) ≡ 2) ↔ (
        (Academic total b t × (t.shortlist ≤ℤ pos total))
        ⊎ ((¬ Academic total b t) × Practitioner b t))
unfolding base_outcome
base-rank total b t = (λ h. ground arith, λ h. ground arith)

Fit-rank :
    (total : ℕ) (t : GateThresholds) (centrality : Option String) (o : Outcome)
    → (rank (fit_outcome total t centrality o) ≡ 2) ↔ ((rank o ≡ 2) ⊎ Fit total t centrality "core")
unfolding fit_outcome
Fit-rank total t centrality o = (λ h. ground arith, λ h. ground arith)

module _ (total : ℕ) (b : Breakdown) (t : GateThresholds) (centrality : Option String) where
  -- A candidate is not rejected exactly when it has the minimum of content and qualifies
  -- academically, or as a practitioner without scholarship, or is assessed as core or adjacent
  -- with the evidence that a rescue asks for.
  pub gate_decision-Passes :
      (gate_decision total b t centrality ≢ auto_rejected) ↔ Passes total b t centrality
  unfolding gate_decision base_outcome fit_outcome
  gate_decision-Passes = (λ h. ground arith, λ p. ground (arith, p.content, p.reason))

  -- It reaches the judge exactly when it has the minimum of content and is on the academic
  -- shortlist, or is a practitioner off the academic path, or is core with the evidence that a
  -- rescue asks for.
  pub gate_decision-Judged :
      (rank (gate_decision total b t centrality) ≡ 2) ↔ Judged total b t centrality
  unfolding gate_decision
  gate_decision-Judged = (
    λ h. ground (arith, Fit-rank total t centrality (base_outcome total b t), base-rank total b t),
    λ p. ground (
      arith,
      p.content,
      p.reason,
      Fit-rank total t centrality (base_outcome total b t),
      base-rank total b t,
    ),
  )

  -- A domain-fit verdict never sends a candidate to a lower place than no verdict would.
  pub verdict-rank-le :
      rank (gate_decision total b t none) ≤ rank (gate_decision total b t centrality)
  unfolding gate_decision base_outcome fit_outcome
  verdict-rank-le = ground arith

-- A source of material: podcasts on at least `feeds` feeds, a verified YouTube channel or Substack.
abbrev pub Podcasts : ℕ → Dossier → Type 0
Podcasts feeds d =
    ((d.podcasts_ok && d.podcasts_found) ≡ true) × (feeds ≤ or_zero d.appearance_feed_count)

abbrev pub YouTube : Dossier → Type 0
YouTube d = (d.youtube_checked && d.youtube_reachable) ≡ true

abbrev pub Substack : Dossier → Type 0
Substack d = (d.substack_checked && d.substack_reachable) ≡ true

content_needs :
    (d : Dossier)
    → 8 ≤ content_score d
    → Podcasts 3 d ⊎ (Podcasts 1 d × (YouTube d ⊎ Substack d)) ⊎ (YouTube d × Substack d)
unfolding content_score band
content_needs d h = ground arith

-- With the default thresholds nobody gets past the gate without material to ingest: podcasts on
-- three feeds, or on one feed beside a verified YouTube channel or Substack, or both of these.
pub gate_needs_content :
    (d : Dossier) (peers : ℕ) (centrality : Option String)
    → let (total, b) = score_dossier d peers in
      gate_decision total b default_thresholds centrality ≢ auto_rejected
      → Podcasts 3 d ⊎ (Podcasts 1 d × (YouTube d ⊎ Substack d)) ⊎ (YouTube d × Substack d)
unfolding score_dossier
gate_needs_content d peers centrality h =
    let (total, b) = score_dossier d peers in
    content_needs d
      (omega (arith, ((gate_decision-Passes total b default_thresholds centrality).0 h).content))
