-- ===== src/Episodes/Scan.antt =====
-- handlers/scan_episodes_for_thinkers.py: cataloged episodes that a host's source brings, or that
-- name a thinker, become pending and are transcribed.
pub mod Rows
pub mod Branches
pub mod Rerun
pub mod Traces
pub mod Promotion
use think_tank.Prelude.{
  ℕ, String, Bool, true, false, not, ◌&&◌, ◌||◌, Option, none, some, List, [], ◌∷◌, ◌++◌, map, ◌==◌,
  str_eq, codes, lower, same, select, any, order_by, if◌then◌else◌,
}
use think_tank.Json.{Result, ok, ◌>>=◌}
use think_tank.Config.{SystemConfig}
use think_tank.Content.{Content, find_content}
use think_tank.Queue.Job.{Job}
use think_tank.Governance.{Thinker, Source, SourceThinker}
use think_tank.Transcription.{get_transcription_age_cutoff, is_transcribable}
use think_tank.Transcription.Sweep.{process_content_job}
use think_tank.Episodes.{ContentThinker, add_link}
use think_tank.Episodes.Matcher.{Named, Match, same_name, match_thinkers_in_text}

-- The payload: descriptions and the names of `podcast:person` tags by content id. `none` is a
-- person without a name.
pub record ScanPayload : Type 0 where
  pub content_ids : List ℕ
  pub source_id : Option ℕ
  pub descriptions : List (ℕ × String)
  pub content_persons : List (ℕ × List (Option String))

-- `d.get(key, default)`
unfoldable pub get_or {ℓ} : {A : Type ℓ} → List (ℕ × A) → ℕ → A → A
get_or [] k default = default
get_or ((j, v) ∷ d) k default = if j == k then v else get_or d k default

-- The tables that the handler reads.
pub record Catalog : Type 0 where
  pub sources : List Source
  pub source_thinkers : List SourceThinker
  pub thinkers : List Thinker

-- The tables that it writes, and `promoted_episodes`.
pub record Scan : Type 0 where
  pub contents : List Content
  pub links : List ContentThinker
  pub promoted : List Content

unfoldable pub find_source : ℕ → List Source → Option Source
find_source i [] = none
find_source i (s ∷ ss) = if s.id == i then some s else find_source i ss

-- The name of `session.get(Thinker, id)`.
unfoldable pub thinker_name : ℕ → List Thinker → Option String
thinker_name i [] = none
thinker_name i (t ∷ ts) = if t.id == i then some t.name else thinker_name i ts

-- `host_source_thinkers`
unfoldable pub host_links : ℕ → List SourceThinker → List SourceThinker
unfolding order_by
host_links source_id links =
    order_by (λ l. l.added_at)
      (order_by (λ l. l.thinker_id)
        (select (λ l. l.source_id == source_id && str_eq l.relationship_type "host") links))

-- `source_owner_name`
unfoldable pub owner_name : List ℕ → List Thinker → Option String
unfolding thinker_name
owner_name [] thinkers = none
owner_name (host ∷ hosts) thinkers = thinker_name host thinkers

-- `thinker_names`: the active and approved.
unfoldable pub thinker_names : List Thinker → List Named
thinker_names thinkers =
    map (λ t. record { id = t.id; name = t.name })
      (select (λ t. t.active && str_eq t.approval_status "approved") thinkers)

unfoldable pub mem : ℕ → List ℕ → Bool
mem i ids = any (λ j. j == i) ids

-- `thinker_name_lookup.get(name.lower())`: the last thinker of a name has it.
unfoldable pub lookup_name : String → List Named → Option ℕ
unfolding same_name
lookup_name name [] = none
lookup_name name (t ∷ ts) = elim (lookup_name name ts) [
  | some i ↦ some i
  | none ↦ if same_name t.name name then some t.id else none
]

-- One person of an episode that the text may not name.
unfoldable pub add_person : List ℕ → List Named → List Match → Option String → List Match
unfolding lookup_name mem
add_person hosts names matches none = matches
add_person hosts names matches (some name) = elim (lookup_name name names) [
  | none ↦ matches
  | some tid ↦
      if same (codes name) [] || mem tid hosts || any (λ m. m.thinker_id == tid) matches
      then matches
      else matches ++ record { thinker_id = tid; role = "guest"; confidence = 10 } ∷ []
]

unfoldable pub add_persons : List ℕ → List Named → List Match → List (Option String) → List Match
unfolding add_person
add_persons hosts names matches [] = matches
add_persons hosts names matches (p ∷ ps) =
    add_persons hosts names (add_person hosts names matches p) ps

-- `matches`: on a host's source the hosts are no guests.
unfoldable pub episode_matches :
    List ℕ → List Thinker → String → List (Option String) → Content → List Match
unfolding add_persons match_thinkers_in_text owner_name thinker_names mem
episode_matches hosts thinkers description persons c =
    let names = thinker_names thinkers in
    add_persons hosts names
      (match_thinkers_in_text c.title description (select (λ t. not (mem t.id hosts)) names)
        (owner_name hosts thinkers))
      persons

-- `content.status = "pending"`
unfoldable pub promote : ℕ → List Content → List Content
promote i [] = []
promote i (c ∷ cs) = (if c.id == i then record c { status = "pending" } else c) ∷ promote i cs

unfoldable pub link_hosts : ℕ → ℕ → List ℕ → List ContentThinker → List ContentThinker
unfolding add_link
link_hosts now i [] links = links
link_hosts now i (h ∷ hs) links = link_hosts now i hs (
    add_link
      (record { content_id = i; thinker_id = h; role = "primary"; confidence = 10; added_at = now })
      links)

unfoldable pub link_matches : ℕ → ℕ → List Match → List ContentThinker → List ContentThinker
unfolding add_link
link_matches now i [] links = links
link_matches now i (m ∷ ms) links = link_matches now i ms (
    add_link
      (record {
        content_id = i;
        thinker_id = m.thinker_id;
        role = m.role;
        confidence = m.confidence;
        added_at = now;
      })
      links)

-- A host's source or a match.
unfoldable pub is_relevant : List ℕ → List Match → Bool
is_relevant (h ∷ hs) matches = true
is_relevant [] (m ∷ ms) = true
is_relevant [] [] = false

-- One round of the loop over the content ids.
unfoldable pub scan_content : ℕ → List ℕ → List Thinker → ScanPayload → ℕ → Scan → Scan
unfolding get_or episode_matches is_relevant promote link_hosts link_matches find_content
scan_content now hosts thinkers payload i s = elim (find_content i s.contents) [
  | none ↦ s
  | some c ↦
      let description = get_or payload.descriptions i "" in
      let persons = get_or payload.content_persons i [] in
      let matches = episode_matches hosts thinkers description persons c in
      if str_eq c.status "cataloged" && is_relevant hosts matches
      then record {
        contents = promote i s.contents;
        links = link_matches now i matches (link_hosts now i hosts s.links);
        promoted = s.promoted ++ c ∷ [];
      }
      else s
]

unfoldable pub scan_contents : ℕ → List ℕ → List Thinker → ScanPayload → List ℕ → Scan → Scan
unfolding scan_content
scan_contents now hosts thinkers payload [] s = s
scan_contents now hosts thinkers payload (i ∷ is) s =
    scan_contents now hosts thinkers payload is (scan_content now hosts thinkers payload i s)

-- The jobs for the promoted episodes that are young enough.
unfoldable pub transcription_jobs : ℕ → (ℕ → ℕ) → Option ℕ → List Content → List Job
unfolding process_content_job is_transcribable
transcription_jobs now uuid4 cutoff promoted =
    map (process_content_job now uuid4)
      (select (λ c. is_transcribable c.published_at cutoff) promoted)

-- The loop and the jobs.
unfoldable pub scan_source :
    ℕ
    → (ℕ → ℕ)
    → Option ℕ
    → Catalog
    → ScanPayload
    → ℕ
    → List Content × List ContentThinker × List Job
    → List Content × List ContentThinker × List Job
unfolding scan_contents transcription_jobs host_links
scan_source now uuid4 cutoff catalog payload source_id (contents, links, jobs) =
    let hosts = map (λ l. l.thinker_id) (host_links source_id catalog.source_thinkers) in
    let s =
      scan_contents now hosts catalog.thinkers payload payload.content_ids
        (record { contents = contents; links = links; promoted = [] }) in
    (s.contents, s.links, jobs ++ transcription_jobs now uuid4 cutoff s.promoted)

-- The source to scan: a payload without contents or a source, or with a source that is missing, ends
-- the handler early.
unfoldable pub scanned_source : Catalog → ScanPayload → Option ℕ
unfolding find_source
scanned_source catalog payload = elim payload.content_ids [
  | [] ↦ none
  | _ ∷ _ ↦ elim payload.source_id [
    | none ↦ none
    | some source_id ↦ elim (find_source source_id catalog.sources) [
      | none ↦ none
      | some source ↦ some source_id
    ]
  ]
]

-- The results are the tables and the jobs. What raises is rolled back.
unfoldable pub handle_scan_episodes_for_thinkers :
    ℕ
    → (ℕ → ℕ)
    → List SystemConfig
    → Catalog
    → ScanPayload
    → List Content × List ContentThinker × List Job
    → Result (List Content × List ContentThinker × List Job)
unfolding scan_source scanned_source get_transcription_age_cutoff
handle_scan_episodes_for_thinkers now uuid4 config catalog payload tables =
    elim (scanned_source catalog payload) [
      | none ↦ ok tables
      | some source_id ↦ get_transcription_age_cutoff now config >>= λ cutoff.
          ok (scan_source now uuid4 cutoff catalog payload source_id tables)
    ]
