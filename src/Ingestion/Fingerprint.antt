-- ===== src/Ingestion/Fingerprint.antt =====
-- ingestion/fingerprint.py: the fingerprint that finds the same episode under another address.
use think_tank.Prelude.{
  ℕ, suc, ◌+◌, ◌-◌, ◌*◌, ◌/◌, ℤ, pos, negsuc, String, Bool, false, Option, none, some, List, [],
  ◌∷◌, ◌++◌, map, codes, decimal, is_space, strip, lower, same, leb, if◌then◌else◌,
}

-- `_WHITESPACE_RUN.sub(" ", s)`: the flag says that the run has its blank already.
unfoldable pub collapse : Bool → List ℕ → List ℕ
unfolding is_space
collapse in_run [] = []
collapse in_run (c ∷ s) =
    let rest = collapse (is_space c) s in
    if is_space c then (if in_run then rest else b' ' ∷ rest) else c ∷ rest

unfoldable pub normalize_title : String → List ℕ
unfolding collapse strip lower
normalize_title title = map lower (strip (collapse false (codes title)))

-- To the nearest ten seconds, a half upwards: floor((n + 5) / 10) * 10.
unfoldable pub bucket : ℤ → ℤ
bucket (pos n) = pos ((n + 5) / 10 * 10)
bucket (negsuc n) = if leb n 4 then pos 0 else negsuc ((n - 4 + 9) / 10 * 10 - 1)

unfoldable pub decimal_ℤ : ℤ → List ℕ
unfolding decimal
decimal_ℤ (pos n) = decimal n
decimal_ℤ (negsuc n) = b'-' ∷ decimal (suc n)

abbrev pub microseconds_per_day : ℕ
microseconds_per_day = 86400000000

-- `date` writes the day with a number, and `sha256` is the digest of hashlib.
module _ (date : ℕ → List ℕ) (sha256 : List ℕ → String) where
  unfoldable pub date_str : Option ℕ → List ℕ
  date_str none = []
  date_str (some t) = date (t / microseconds_per_day)

  unfoldable pub duration_str : Option ℤ → List ℕ
  unfolding bucket decimal_ℤ
  duration_str none = decimal_ℤ (bucket (pos 0))
  duration_str (some n) = decimal_ℤ (bucket n)

  unfoldable pub compute_fingerprint : String → Option ℕ → Option ℤ → Option String
  unfolding normalize_title same date_str duration_str
  compute_fingerprint title published_at duration_seconds =
      let normalized = normalize_title title in
      if same normalized []
      then none
      else some (sha256 (normalized ++ (date_str published_at ++ duration_str duration_seconds)))
