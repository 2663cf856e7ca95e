-- ===== src/Episodes/Scan/Branches.antt =====
-- The branches of the scan's handler, as equations, and what its transaction leaves.
use think_tank.Prelude.{ℕ, ◌≡◌, refl, Option, none, some, List}
use think_tank.Json.{Result, ok, raise, PyError}
use think_tank.Config.{SystemConfig}
use think_tank.Content.{Content}
use think_tank.Queue.Job.{Job}
use think_tank.Transcription.{get_transcription_age_cutoff}
use think_tank.Episodes.{ContentThinker}
use think_tank.Episodes.Scan.{
  ScanPayload, Catalog, scan_source, scanned_source, handle_scan_episodes_for_thinkers,
}

abbrev pub Tables : Type 0
Tables = List Content × List ContentThinker × List Job

-- The tables after the transaction: as before it, when the handler raises.
abbrev pub left : Tables → Result Tables → Tables
left t (ok u) = u
left t (raise e) = t

module _ (catalog : Catalog) (payload : ScanPayload) (now : ℕ) (uuid4 : ℕ → ℕ)
    (config : List SystemConfig) (t : Tables) where
  abbrev run : Result Tables
  run = handle_scan_episodes_for_thinkers now uuid4 config catalog payload t

  pub handler_idle : scanned_source catalog payload ≡ none → run ≡ ok t
  unfolding handle_scan_episodes_for_thinkers
  handler_idle e = rw (e, handle_scan_episodes_for_thinkers) refl

  module _ (i : ℕ) (e : scanned_source catalog payload ≡ some i) where
    pub handler_found :
        (cutoff : Option ℕ)
        → get_transcription_age_cutoff now config ≡ ok cutoff
        → run ≡ ok (scan_source now uuid4 cutoff catalog payload i t)
    unfolding handle_scan_episodes_for_thinkers
    handler_found cutoff h =
        rw (e, handle_scan_episodes_for_thinkers) (rw (h, handle_scan_episodes_for_thinkers) refl)

    pub handler_raises :
        (x : PyError) → get_transcription_age_cutoff now config ≡ raise x → run ≡ raise x
    unfolding handle_scan_episodes_for_thinkers
    handler_raises x h =
        rw (e, handle_scan_episodes_for_thinkers) (rw (h, handle_scan_episodes_for_thinkers) refl)
