-- ===== src/Tests/Discovery.antt =====
-- Tests of Discovery.
use think_tank.Prelude.{◌≡◌, ◌≢◌, ◌↔◌, ◌≤◌, refl, true, false, none, some, arith}
use think_tank.Discovery.Rubric.{
  Dossier, Breakdown, default_thresholds, auto_rejected, scholarship_score, notability_score,
  authorship_score, content_score, peer_score, band, score_dossier, base_outcome, fit_outcome,
  gate_decision,
}
use think_tank.Discovery.Rubric.Scores.{Extends, score_dossier_mono}
use think_tank.Discovery.Rubric.Gate.{Passes, gate_decision-Passes}

abbrev sparse : Dossier
sparse = record {
  openalex_found = true;
  h_index = some 20;
  cited_by_count = none;
  wikidata_found = false;
  has_enwiki = false;
  sitelink_count = none;
  books_found = true;
  work_count = some 3;
  podcasts_ok = true;
  podcasts_found = true;
  appearance_feed_count = some 3;
  youtube_checked = false;
  youtube_reachable = false;
  substack_checked = false;
  substack_reachable = false;
}

abbrev pub rich : Dossier
rich = record sparse {
  h_index = some 60;
  wikidata_found = true;
  has_enwiki = true;
  youtube_checked = true;
  youtube_reachable = true;
}

score_sparse : (score_dossier sparse 0).0 ≡ 35
unfolding score_dossier scholarship_score notability_score authorship_score content_score peer_score
    band
score_sparse = refl

rich-Extends : Extends sparse rich
rich-Extends = ground arith

score_dossier_mono_example :
    let (total, b) = score_dossier sparse 0 in
    let (total', b') = score_dossier rich 1 in
    (total ≤ total') × (b.qualification_legs ≤ b'.qualification_legs) × (b.content ≤ b'.content)
score_dossier_mono_example = score_dossier_mono sparse rich rich-Extends 0 1 (omega arith)

abbrev scored : Breakdown
scored = record {
  scholarship = 15;
  notability = 0;
  authorship = 10;
  content = 10;
  peer_signal = 0;
  qualification_legs = 25;
}

gate_decision-Passes_example :
    (gate_decision 35 scored default_thresholds none ≢ auto_rejected)
    ↔ Passes 35 scored default_thresholds none
gate_decision-Passes_example = gate_decision-Passes 35 scored default_thresholds none

sparse_passes :
    let (total, b) = score_dossier sparse 0 in
    gate_decision total b default_thresholds none ≢ auto_rejected
unfolding score_dossier scholarship_score notability_score authorship_score content_score peer_score
    band gate_decision base_outcome fit_outcome
sparse_passes e = cc
