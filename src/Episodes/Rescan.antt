-- ===== src/Episodes/Rescan.antt =====
-- handlers/rescan_cataloged_for_thinker.py: the cataloged episodes that name a thinker who was
-- approved later become pending.
pub mod Reference
use think_tank.Prelude.{
  ℕ, String, Bool, true, false, not, ◌&&◌, ◌||◌, Option, none, some, List, [], ◌∷◌, ◌++◌, map, ◌==◌,
  str_eq, codes, lower, same, select, any, if◌then◌else◌,
}
use think_tank.Json.{Result, ok, ◌>>=◌}
use think_tank.Config.{SystemConfig}
use think_tank.Content.{Content}
use think_tank.Queue.Job.{Job}
use think_tank.Governance.{Thinker}
use think_tank.Transcription.{get_transcription_age_cutoff, is_transcribable}
use think_tank.Transcription.Sweep.{process_content_job}
use think_tank.Episodes.{ContentThinker, is_link}
use think_tank.Episodes.Matcher.{Named, Match, match_thinkers_in_text}
use think_tank.Episodes.Scan.{promote}

unfoldable pub find_thinker : ℕ → List Thinker → Option Thinker
find_thinker i [] = none
find_thinker i (t ∷ ts) = if t.id == i then some t else find_thinker i ts

-- The items of a pattern on the rest of a text.
unfoldable pub literal : ℕ → (List ℕ → Bool) → List ℕ → Bool
unfolding lower
literal c next [] = false
literal c next (d ∷ s) = lower c == lower d && next s

unfoldable pub any_one : (List ℕ → Bool) → List ℕ → Bool
any_one next [] = false
any_one next (d ∷ s) = next s

unfoldable pub any_run : (List ℕ → Bool) → List ℕ → Bool
any_run next [] = next []
any_run next (d ∷ s) = next (d ∷ s) || any_run next s

unfoldable pub at_end : List ℕ → Bool
at_end [] = true
at_end (c ∷ s) = false

-- `text ILIKE pattern` on ASCII letters; the flag says that a backslash came just before.
unfoldable pub ilike : Bool → List ℕ → List ℕ → Bool
unfolding literal any_one any_run at_end
ilike escaped [] = at_end
ilike escaped (c ∷ pattern) =
    let next = ilike (not escaped && c == 92) pattern in
    if escaped
    then literal c next
    else if c == 92
    then next
    else if c == b'%'
    then any_run next
    else if c == b'_'
    then any_one next
    else literal c next

-- `f"%{thinker_name}%"`
unfoldable pub name_pattern : String → List ℕ
name_pattern name = b'%' ∷ (codes name ++ b'%' ∷ [])

-- `column.ilike(name_pattern)` holds of no NULL.
unfoldable pub ilike_column : List ℕ → Option String → Bool
unfolding ilike
ilike_column pattern none = false
ilike_column pattern (some s) = ilike false pattern (codes s)

unfoldable pub or_empty : Option String → String
or_empty none = ""
or_empty (some s) = s

unfoldable pub is_candidate : String → Content → Bool
unfolding ilike_column name_pattern
is_candidate name c =
    str_eq c.status "cataloged"
    && (ilike_column (name_pattern name) (some c.title)
        || ilike_column (name_pattern name) c.description)

unfoldable pub has_matches : List Match → Bool
has_matches [] = false
has_matches (m ∷ ms) = true

-- `matching_content`
unfoldable pub matching_content : ℕ → String → List Content → List Content
unfolding is_candidate match_thinkers_in_text has_matches or_empty
matching_content thinker_id name contents =
    select
      (λ c. has_matches (
        match_thinkers_in_text c.title (or_empty c.description)
          (record { id = thinker_id; name = name } ∷ []) none))
      (select (is_candidate name) contents)

unfoldable pub retroactive_link : ℕ → ℕ → Content → ContentThinker
retroactive_link now thinker_id c = record {
  content_id = c.id;
  thinker_id = thinker_id;
  role = "guest";
  confidence = 7;
  added_at = now;
}

pub record Rescan : Type 0 where
  pub contents : List Content
  pub links : List ContentThinker
  pub jobs : List Job

-- One matching content: it is promoted unless the link is there.
unfoldable pub rescan_content : ℕ → (ℕ → ℕ) → Option ℕ → ℕ → Content → Rescan → Rescan
unfolding is_link promote retroactive_link is_transcribable process_content_job
rescan_content now uuid4 cutoff thinker_id c s =
    if any (is_link c.id thinker_id) s.links then s else record {
      contents = promote c.id s.contents;
      links = s.links ++ retroactive_link now thinker_id c ∷ [];
      jobs =
          if is_transcribable c.published_at cutoff
          then s.jobs ++ process_content_job now uuid4 c ∷ []
          else s.jobs;
    }

unfoldable pub rescan_contents : ℕ → (ℕ → ℕ) → Option ℕ → ℕ → List Content → Rescan → Rescan
unfolding rescan_content
rescan_contents now uuid4 cutoff thinker_id [] s = s
rescan_contents now uuid4 cutoff thinker_id (c ∷ cs) s =
    rescan_contents now uuid4 cutoff thinker_id cs (rescan_content now uuid4 cutoff thinker_id c s)

-- The payload has an id and a name, or none of them.
unfoldable pub handle_rescan_cataloged_for_thinker :
    ℕ → (ℕ → ℕ) → List SystemConfig → List Thinker → Option ℕ → String → Rescan → Result Rescan
unfolding find_thinker matching_content rescan_contents get_transcription_age_cutoff
handle_rescan_cataloged_for_thinker now uuid4 config thinkers none name s = ok s
handle_rescan_cataloged_for_thinker now uuid4 config thinkers (some thinker_id) name s =
    if same (codes name) [] then ok s else elim (find_thinker thinker_id thinkers) [
      | none ↦ ok s
      | some t ↦
          if str_eq t.approval_status "approved"
          then (get_transcription_age_cutoff now config >>= λ cutoff. ok (
              rescan_contents now uuid4 cutoff thinker_id
                (matching_content thinker_id name s.contents) s))
          else ok s
    ]
