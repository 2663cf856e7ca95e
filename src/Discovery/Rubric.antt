-- ===== src/Discovery/Rubric.antt =====
-- discovery/rubric.py: the score of an evidence dossier, and the gate.
pub mod Scores
pub mod Gate
use think_tank.Prelude.{
  ℕ, zero, suc, ◌+◌, ◌≤◌, min, max, ℤ, pos, ltb_ℤ, leb_ℤ, String, Bool, true, false, not, ◌&&◌,
  ◌||◌, Option, none, some, List, [], ◌∷◌, leb, ◌==◌, str_eq, if◌then◌else◌,
}
use think_tank.Json.{Value, null, obj, Result, ok, raise, get, to_int}
use think_tank.Config.{SystemConfig, config_value, int_or}

-- What `.get` reads from the blocks of a dossier: a missing block or key reads as false, or as
-- None. The counts are those of the upstream APIs, never negative.
pub record Dossier : Type 0 where
  pub openalex_found : Bool
  pub h_index : Option ℕ
  pub cited_by_count : Option ℕ
  pub wikidata_found : Bool
  pub has_enwiki : Bool
  pub sitelink_count : Option ℕ
  pub books_found : Bool
  pub work_count : Option ℕ
  pub podcasts_ok : Bool
  pub podcasts_found : Bool
  pub appearance_feed_count : Option ℕ
  pub youtube_checked : Bool
  pub youtube_reachable : Bool
  pub substack_checked : Bool
  pub substack_reachable : Bool

pub record Breakdown : Type 0 where
  pub scholarship : ℕ
  pub notability : ℕ
  pub authorship : ℕ
  pub content : ℕ
  pub peer_signal : ℕ
  pub qualification_legs : ℕ

-- `x or 0`
abbrev pub or_zero : Option ℕ → ℕ
or_zero none = 0
or_zero (some n) = n

-- `_band`: the points of the last threshold that the value meets.
unfoldable pub band_from : ℕ → ℕ → List (ℕ × ℕ) → ℕ
band_from score value [] = score
band_from score value ((threshold, points) ∷ bands) =
    band_from (if leb threshold value then points else score) value bands

unfoldable pub band : ℕ → List (ℕ × ℕ) → ℕ
unfolding band_from
band = band_from 0

unfoldable pub scholarship_score : Dossier → ℕ
scholarship_score d =
    if d.openalex_found
    then max (band (or_zero d.h_index) ((5, 8) ∷ (15, 15) ∷ (30, 22) ∷ (50, 30) ∷ []))
        (band (or_zero d.cited_by_count) ((500, 8) ∷ (5000, 15) ∷ (20000, 22) ∷ (50000, 30) ∷ []))
    else 0

unfoldable pub notability_score : Dossier → ℕ
notability_score d =
    if d.wikidata_found
    then max (if d.has_enwiki then 12 else 4)
        (band (or_zero d.sitelink_count) ((5, 12) ∷ (15, 16) ∷ (40, 20) ∷ []))
    else 0

unfoldable pub authorship_score : Dossier → ℕ
authorship_score d =
    if d.books_found then band (or_zero d.work_count) ((1, 6) ∷ (3, 10) ∷ (8, 15) ∷ []) else 0

unfoldable pub content_score : Dossier → ℕ
content_score d =
    min
      ((if d.podcasts_ok && d.podcasts_found
          then band (or_zero d.appearance_feed_count) ((1, 6) ∷ (3, 10) ∷ (8, 15) ∷ [])
          else 0)
        + (if d.youtube_checked && d.youtube_reachable then 5 else 0)
        + (if d.substack_checked && d.substack_reachable then 5 else 0))
      25

unfoldable pub peer_score : ℕ → ℕ
peer_score peers = band peers ((1, 4) ∷ (3, 7) ∷ (6, 10) ∷ [])

unfoldable pub score_dossier : Dossier → ℕ → ℕ × Breakdown
score_dossier d peers =
    let scholarship = scholarship_score d in
    let notability = notability_score d in
    let authorship = authorship_score d in
    let content = content_score d in
    let peer = peer_score peers in
    (
      scholarship + notability + authorship + content + peer,
      record {
        scholarship = scholarship;
        notability = notability;
        authorship = authorship;
        content = content;
        peer_signal = peer;
        qualification_legs = scholarship + notability + authorship;
      },
    )

pub record GateThresholds : Type 0 where
  pub floor : ℤ
  pub shortlist : ℤ
  pub min_qualification : ℤ
  pub min_content : ℤ
  pub practitioner_min_notability : ℤ
  pub fit_rescue_floor : ℤ

abbrev pub default_thresholds : GateThresholds
default_thresholds = record {
  floor = pos 35;
  shortlist = pos 50;
  min_qualification = pos 20;
  min_content = pos 8;
  practitioner_min_notability = pos 12;
  fit_rescue_floor = pos 15;
}

unfoldable pub threshold : List SystemConfig → String → ℤ → ℤ
unfolding int_or
threshold config key default = elim (config_value key config) [
  | obj fs ↦ int_or default (get fs "value" null)
  | raw ↦ int_or default raw
]

unfoldable pub load_thresholds : List SystemConfig → GateThresholds
unfolding threshold
load_thresholds config = record {
  floor = threshold config "expert_gate_floor" (pos 35);
  shortlist = threshold config "expert_gate_shortlist" (pos 50);
  min_qualification = threshold config "expert_gate_min_qualification" (pos 20);
  min_content = threshold config "expert_gate_min_content" (pos 8);
  practitioner_min_notability = threshold config "expert_gate_practitioner_min_notability" (pos 12);
  fit_rescue_floor = threshold config "expert_gate_fit_rescue_floor" (pos 15);
}

pub data Outcome : Type 0 where
  auto_rejected borderline shortlisted practitioner_review fit_rescue : Outcome

-- The academic path, else the practitioner path.
unfoldable pub base_outcome : ℕ → Breakdown → GateThresholds → Outcome
base_outcome total b t =
    if leb_ℤ t.min_qualification (pos b.qualification_legs) && leb_ℤ t.floor (pos total)
    then if leb_ℤ t.shortlist (pos total) then shortlisted else borderline
    else if b.scholarship == 0 && leb_ℤ t.practitioner_min_notability (pos b.notability)
    then practitioner_review
    else auto_rejected

unfoldable pub stalled : Outcome → Bool
stalled auto_rejected = true
stalled borderline = true
stalled _ = false

unfoldable pub is_rejected : Outcome → Bool
is_rejected auto_rejected = true
is_rejected _ = false

abbrev pub is_centrality : Option String → String → Bool
is_centrality none c = false
is_centrality (some s) c = str_eq s c

-- Domain fit, on top of the deterministic outcome.
unfoldable pub fit_outcome : ℕ → GateThresholds → Option String → Outcome → Outcome
unfolding stalled is_rejected
fit_outcome total t centrality outcome =
    if is_centrality centrality "core" && stalled outcome && leb_ℤ t.fit_rescue_floor (pos total)
    then fit_rescue
    else if is_centrality centrality "adjacent"
        && is_rejected outcome
        && leb_ℤ t.fit_rescue_floor (pos total)
    then borderline
    else outcome

unfoldable pub gate_decision : ℕ → Breakdown → GateThresholds → Option String → Outcome
gate_decision total b t centrality =
    if ltb_ℤ (pos b.content) t.min_content
    then auto_rejected
    else fit_outcome total t centrality (base_outcome total b t)
