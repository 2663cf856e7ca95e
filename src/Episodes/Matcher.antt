-- ===== src/Episodes/Matcher.antt =====
-- ingestion/name_matcher.py: the thinkers that a title or a description names.
pub mod Reference
use think_tank.Prelude.{
  ℕ, String, Bool, true, false, not, ◌&&◌, ◌||◌, Option, none, some, List, [], ◌∷◌, map, ◌==◌,
  codes, lower, same, is_word, if◌then◌else◌,
}

-- The dict {"id": …, "name": …} of a thinker.
pub record Named : Type 0 where
  pub id : ℕ
  pub name : String

pub record Match : Type 0 where
  pub thinker_id : ℕ
  pub role : String
  pub confidence : ℕ

unfoldable pub is_word_at : Option ℕ → Bool
unfolding is_word
is_word_at none = false
is_word_at (some c) = is_word c

-- `\b` between two neighbours, where the ends of the text count as no word.
unfoldable pub is_edge : Option ℕ → Option ℕ → Bool
unfolding is_word_at
is_edge before after = if is_word_at before then not (is_word_at after) else is_word_at after

unfoldable pub first_code : List ℕ → Option ℕ
first_code [] = none
first_code (c ∷ s) = some c

-- The rest of the pattern, ignoring case, from here on, and the closing `\b`.
unfoldable pub match_rest : Option ℕ → List ℕ → List ℕ → Bool
unfolding is_edge first_code lower
match_rest before [] s = is_edge before (first_code s)
match_rest before (c ∷ name) [] = false
match_rest before (c ∷ name) (d ∷ s) = lower c == lower d && match_rest (some d) name s

-- `re.search(rf"\b{re.escape(name)}\b", s, re.IGNORECASE)`
unfoldable pub search_name : List ℕ → Option ℕ → List ℕ → Bool
unfolding match_rest
search_name name before [] = is_edge before none && match_rest before name []
search_name name before (d ∷ s) =
    (is_edge before (some d) && match_rest before name (d ∷ s)) || search_name name (some d) s

-- `a.lower() == b.lower()`
unfoldable pub same_name : String → String → Bool
unfolding same lower
same_name a b = same (map lower (codes a)) (map lower (codes b))

-- `source_owner_name and name.lower() == source_owner_name.lower()`
unfoldable pub is_owner : Option String → String → Bool
unfolding same_name
is_owner none name = false
is_owner (some owner) name = not (same (codes owner) []) && same_name name owner

-- The branches of one round of the loop; `none` leaves the results alone.
unfoldable pub match_thinker : Option String → List ℕ → List ℕ → Named → Option Match
unfolding is_owner search_name
match_thinker owner title description t =
    if is_owner owner t.name
    then some (record { thinker_id = t.id; role = "primary"; confidence = 10 })
    else if search_name (codes t.name) none title
    then some (record { thinker_id = t.id; role = "guest"; confidence = 9 })
    else if search_name (codes t.name) none description
    then some (record { thinker_id = t.id; role = "guest"; confidence = 6 })
    else none

-- `results[m.thinker_id] = m`: an old key keeps its place.
unfoldable pub put_match : Match → List Match → List Match
put_match m [] = m ∷ []
put_match m (n ∷ ms) = if n.thinker_id == m.thinker_id then m ∷ ms else n ∷ put_match m ms

unfoldable pub match_from : Option String → List ℕ → List ℕ → List Named → List Match → List Match
unfolding match_thinker put_match
match_from owner title description [] results = results
match_from owner title description (t ∷ ts) results =
    elim (match_thinker owner title description t) [
      | none ↦ match_from owner title description ts results
      | some m ↦ match_from owner title description ts (put_match m results)
    ]

unfoldable pub match_thinkers_in_text : String → String → List Named → Option String → List Match
unfolding match_from
match_thinkers_in_text title description thinkers owner =
    match_from owner (codes title) (codes description) thinkers []
