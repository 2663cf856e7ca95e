-- ===== src/Transcription.antt =====
-- transcription/policy.py: which episodes are young enough to be transcribed; and, in Sweep, the
-- handler that enqueues them.
pub mod Sweep
use think_tank.Prelude.{
  ℕ, ◌*◌, ◌-◌, ℤ, pos, pos_part, leb_ℤ, leb, Bool, true, Option, none, some, List, if◌then◌else◌,
}
use think_tank.Json.{Value, null, obj, int, get, Result, ok, ◌>>=◌}
use think_tank.Config.{SystemConfig, config_value, int_or}
use think_tank.Queue.Job.{minute}
use think_tank.Schedule.{sooner}

abbrev pub day : ℕ
day = 1440 * minute

-- `transcription_max_age_days`, 1825 when it is absent or no number.
unfoldable pub max_age_days : Value → ℤ
unfolding int_or get
max_age_days null = pos 1825
max_age_days (obj fs) = int_or (pos 1825) (get fs "value" (int (pos 1825)))
max_age_days v = int_or (pos 1825) v

-- An age that leads to a time before the year 1 is an OverflowError.
unfoldable pub get_transcription_age_cutoff : ℕ → List SystemConfig → Result (Option ℕ)
unfolding max_age_days config_value sooner
get_transcription_age_cutoff now config =
    let days = max_age_days (config_value "transcription_max_age_days" config) in
    if leb_ℤ days (pos 0)
    then ok none
    else sooner now (pos_part days * day) >>= λ cutoff. ok (some cutoff)

unfoldable pub is_transcribable : Option ℕ → Option ℕ → Bool
is_transcribable published_at none = true
is_transcribable none (some cutoff) = true
is_transcribable (some t) (some cutoff) = leb cutoff t
