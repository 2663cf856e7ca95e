-- ===== src/Ingestion/Filter.antt =====
-- ingestion/content_filter.py, and get_source_filter_config of ingestion/config_reader.py. Both work
-- on whatever JSON the settings hold.
use Prim.Native.String.{String}
use think_tank.Prelude.{
  ℕ, ◌+◌, ◌*◌, ◌^◌, ℤ, pos, pos_part, neg_part, Bool, true, false, ◌||◌, Option, none, some, List,
  [], ◌∷◌, ◌++◌, map, codes, lower, starts_with, ltb, ltb_ℤ, if◌then◌else◌,
}
use think_tank.Json.{
  Value, bool, int, float, str, arr, obj, Fields, empty, entry, Items, item, no_items, Result, ok,
  raise, type_error, attribute_error, ◌>>=◌, get, lookup, truthy,
}

-- `n < v`; a float m / 10^k is compared as n * 10^k < m.
unfoldable pub less_than : ℤ → Value → Result Bool
less_than n (bool b) = ok (ltb_ℤ n (pos (if b then 1 else 0)))
less_than n (int m) = ok (ltb_ℤ n m)
less_than n (float m k) =
    ok (ltb (pos_part n * 10 ^ k + neg_part m) (pos_part m + neg_part n * 10 ^ k))
less_than n v = raise type_error

unfoldable pub should_skip_by_duration : Option ℤ → Value → Result Bool
unfolding less_than
should_skip_by_duration none min_duration = ok false
should_skip_by_duration (some n) min_duration = less_than n min_duration

-- `p in s`
unfoldable pub contains : List ℕ → List ℕ → Bool
unfolding starts_with
contains p [] = starts_with p []
contains p (c ∷ s) = starts_with p (c ∷ s) || contains p s

unfoldable pub lower_codes : String → List ℕ
unfolding lower
lower_codes s = map lower (codes s)

-- `any(pattern.lower() in title_lower for pattern in …)`; only a text has `lower`.
unfoldable pub should_skip_by_title : List ℕ → List Value → Result Bool
unfolding contains lower_codes
should_skip_by_title title_lower [] = ok false
should_skip_by_title title_lower (str p ∷ ps) =
    let rest = should_skip_by_title title_lower ps in
    if contains (lower_codes p) title_lower then ok true else rest
should_skip_by_title title_lower (p ∷ ps) = raise attribute_error

unfoldable pub to_list : Items → List Value
to_list no_items = []
to_list (item v vs) = v ∷ to_list vs

unfoldable pub chars : String → List Value
chars String.[] = []
chars (String.◌∷◌ c s) = str (String.◌∷◌ c String.[]) ∷ chars s

unfoldable pub keys : Fields → List Value
keys empty = []
keys (entry k v fs) = str k ∷ keys fs

-- `list(v)`, and the loop `for x in v`.
unfoldable pub iterate : Value → Result (List Value)
unfolding to_list chars keys
iterate (arr xs) = ok (to_list xs)
iterate (str s) = ok (chars s)
iterate (obj fs) = ok (keys fs)
iterate v = raise type_error

-- `patterns + additional`, of two lists.
unfoldable pub add_patterns : List Value → Value → Result (List Value)
unfolding to_list
add_patterns ps (arr xs) = ok (ps ++ to_list xs)
add_patterns ps v = raise type_error

-- The patterns are iterated when the first title is tested; here an override is iterated at once.
unfoldable pub skip_patterns : Fields → Value → Result (List Value)
unfolding lookup get truthy iterate add_patterns
skip_patterns config global_skip_patterns = elim (lookup config "skip_title_patterns_override") [
  | some v ↦ iterate v
  | none ↦ iterate global_skip_patterns >>= (λ ps.
      let additional = get config "additional_skip_patterns" (arr no_items) in
      if truthy additional then add_patterns ps additional else ok ps)
]

unfoldable pub min_duration : Fields → Value → Value
unfolding lookup
min_duration config global_min_duration = elim (lookup config "min_duration_override") [
  | some v ↦ v
  | none ↦ global_min_duration
]
