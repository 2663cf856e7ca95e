-- ===== src/Episodes/Feed.antt =====
-- handlers/fetch_podcast_feed.py: a feed becomes content rows, and a scan of the new ones.
pub mod Refetch
pub mod Rounds
pub mod Distinct
pub mod Fetch
use mathlib.Core.List.{reverse}
use think_tank.Prelude.{
  ℕ, suc, ◌+◌, ℤ, pos, String, Bool, true, false, not, ◌&&◌, ◌||◌, Option, none, some, List, [],
  ◌∷◌, ◌++◌, map, length, any, codes, is_space, same, str_eq, leb, ltb, ◌==◌, if◌then◌else◌,
}
use think_tank.Json.{
  Value, int, str, arr, Items, item, no_items, PyError, value_error, Result, ok, raise, ◌>>=◌,
}
use think_tank.Config.{SystemConfig, get_config_value}
use think_tank.Content.{Content}
use think_tank.Governance.{Thinker, Source}
use think_tank.Ingestion.Filter.{
  should_skip_by_duration, should_skip_by_title, contains, lower_codes, skip_patterns, min_duration,
}
use think_tank.Ingestion.Fingerprint.{compute_fingerprint}
use think_tank.Episodes.Scan.{ScanPayload, find_source, thinker_name}

-- ingestion/feed_parser.py: FeedEntry, without the name of the show.
pub record FeedEntry : Type 0 where
  pub title : String
  pub url : String
  pub published_at : Option ℕ
  pub duration_seconds : Option ℤ
  pub description : Option String
  pub guid : Option String

-- A dict of the names of persons by GUID.
unfoldable pub lookup_guid {ℓ} : {A : Type ℓ} → List (String × A) → String → Option A
lookup_guid [] g = none
lookup_guid ((h, v) ∷ d) g = if str_eq h g then some v else lookup_guid d g

abbrev pub default_skip_patterns : Value
default_skip_patterns = arr (
    item (str "trailer") (
      item (str "best of") (
        item (str "announcement")
          (item (str "teaser") (item (str "coming soon") (item (str "rebroadcast") no_items))))))

unfoldable pub first_of : Option ℕ → Option ℕ → Option ℕ
first_of (some t) u = some t
first_of none u = u

-- `s.split()`, from within the word `word`.
unfoldable pub split_words : List ℕ → List ℕ → List (List ℕ)
unfolding is_space same
split_words word [] = if same word [] then [] else word ∷ []
split_words word (c ∷ s) =
    let rest = split_words (if is_space c then [] else word ++ c ∷ []) s in
    if is_space c && not (same word []) then word ∷ rest else rest

-- `parts[-1] if len(parts) > 1 else None`
unfoldable pub last_name : List (List ℕ) → Option (List ℕ)
last_name [] = none
last_name (p ∷ []) = none
last_name (p ∷ q ∷ []) = some q
last_name (p ∷ q ∷ ps) = last_name (q ∷ ps)

unfoldable pub optional_text : Option String → String
optional_text none = ""
optional_text (some s) = s

unfoldable pub is_named : List ℕ → FeedEntry → Bool
unfolding contains lower_codes optional_text
is_named name e =
    contains name (lower_codes e.title) || contains name (lower_codes (optional_text e.description))

-- The guest filter, on the lower-case name of the guest.
unfoldable pub passes_guest_filter : Option (List ℕ) → FeedEntry → Bool
unfolding is_named split_words last_name same
passes_guest_filter none e = true
passes_guest_filter (some name) e =
    same name []
    || is_named name e
    || elim (last_name (split_words [] name)) [ none ↦ false | some last ↦ is_named last e ]

-- Incremental mode: at or before the high-water mark.
unfoldable pub is_old : Bool → Option ℕ → Option ℕ → Bool
is_old true cutoff published_at = false
is_old false none published_at = false
is_old false (some cutoff) none = false
is_old false (some cutoff) (some t) = leb t cutoff

unfoldable pub newest : Option ℕ → Option ℕ → Option ℕ
newest mark none = mark
newest none (some t) = some t
newest (some mark) (some t) = if ltb mark t then some t else some mark

unfoldable pub has_url : String → List Content → Bool
has_url canonical cs = any (λ c. str_eq c.canonical_url canonical) cs

unfoldable pub is_fingerprint : String → Option String → Bool
is_fingerprint fp none = false
is_fingerprint fp (some f) = str_eq f fp

unfoldable pub has_fingerprint : Option String → List Content → Bool
unfolding is_fingerprint
has_fingerprint none cs = false
has_fingerprint (some fp) cs = any (λ c. is_fingerprint fp c.content_fingerprint) cs

-- What the loop over the entries keeps.
pub record FeedLoop : Type 0 where
  pub contents : List Content
  pub inserted : List Content
  pub descriptions : List (ℕ × String)
  pub content_persons : List (ℕ × List (Option String))
  pub max_published_at : Option ℕ

-- What the loop reads: the mode, the mark, the filters, and the persons of the feed.
pub record FeedSetup : Type 0 where
  pub is_backfill : Bool
  pub incremental_cutoff : Option ℕ
  pub guest : Option (List ℕ)
  pub min_duration : Value
  pub skip_patterns : List Value
  pub persons_by_guid : List (String × List (Option String))

-- `normalize_url`, `compute_fingerprint` of an entry, `_now()` and `uuid4` are given.
module _ (normalize_url : String → String) (fingerprint : FeedEntry → Option String) (now : ℕ)
    (uuid4 : ℕ → ℕ) (u : FeedSetup) where
  -- The entry is passed over: old, without the guest, or there already.
  unfoldable pub passes_over : List Content → FeedEntry → Bool
  unfolding is_old passes_guest_filter has_url has_fingerprint
  passes_over contents e =
      is_old u.is_backfill u.incremental_cutoff e.published_at
      || not (passes_guest_filter u.guest e)
      || has_url (normalize_url e.url) contents
      || has_fingerprint (fingerprint e) contents

  unfoldable pub entry_status : FeedEntry → Result String
  unfolding should_skip_by_duration should_skip_by_title lower_codes
  entry_status e = do
    short ← should_skip_by_duration e.duration_seconds u.min_duration
    skip ← if short then ok true else should_skip_by_title (lower_codes e.title) u.skip_patterns
    ok (if skip then "skipped" else "cataloged")

  unfoldable pub entry_content : ℕ → String → FeedEntry → Content
  entry_content i status e = record {
    id = i;
    url = e.url;
    canonical_url = normalize_url e.url;
    content_fingerprint = fingerprint e;
    source_guid = e.guid;
    title = e.title;
    description = e.description;
    body_text = none;
    published_at = e.published_at;
    duration_seconds = e.duration_seconds;
    status = status;
    discovered_at = now;
  }

  -- `content_persons[…] = …` when the GUID has persons.
  unfoldable pub add_entry_persons :
      ℕ → Option String → List (ℕ × List (Option String)) → List (ℕ × List (Option String))
  unfolding lookup_guid
  add_entry_persons i none d = d
  add_entry_persons i (some g) d = elim (lookup_guid u.persons_by_guid g) [
    | none ↦ d
    | some ps ↦ d ++ (i, ps) ∷ []
  ]

  unfoldable pub insert_entry : FeedEntry → String → FeedLoop → FeedLoop
  unfolding entry_content newest optional_text add_entry_persons
  insert_entry e status s =
      let i = uuid4 (length s.inserted) in
      let c = entry_content i status e in
      record {
        contents = s.contents ++ c ∷ [];
        inserted = s.inserted ++ c ∷ [];
        descriptions = s.descriptions ++ (i, optional_text e.description) ∷ [];
        content_persons = add_entry_persons i e.guid s.content_persons;
        max_published_at = newest s.max_published_at e.published_at;
      }

  -- One round of the loop.
  unfoldable pub process_entry : FeedEntry → FeedLoop → Result FeedLoop
  unfolding passes_over entry_status insert_entry
  process_entry e s =
      if passes_over s.contents e
      then ok s
      else entry_status e >>= (λ status. ok (insert_entry e status s))

  unfoldable pub process_entries : List FeedEntry → FeedLoop → Result FeedLoop
  unfolding process_entry
  process_entries [] s = ok s
  process_entries (e ∷ es) s = process_entry e s >>= process_entries es

-- The source after the fetch.
unfoldable pub fetched_source : ℕ → FeedLoop → Source → Source
unfolding first_of
fetched_source now s source = record source {
  last_fetched = some now;
  item_count = source.item_count + length s.inserted;
  latest_published_at = first_of s.max_published_at source.latest_published_at;
  backfill_complete = true;
}

-- The payload of the scan job, which has priority 3; nothing inserted is no job.
unfoldable pub scan_payload : ℕ → FeedLoop → Option ScanPayload
scan_payload source_id s =
    if leb 1 (length s.inserted)
    then some (record {
      content_ids = map (λ c. c.id) s.inserted;
      source_id = some source_id;
      descriptions = s.descriptions;
      content_persons = s.content_persons;
    })
    else none

unfoldable pub put_source : Source → List Source → List Source
put_source source [] = []
put_source source (s ∷ ss) = if s.id == source.id then source ∷ ss else s ∷ put_source source ss

-- `guest_thinker_name`
unfoldable pub guest_name : Option ℕ → List Thinker → Option (List ℕ)
unfolding thinker_name lower_codes
guest_name none thinkers = none
guest_name (some i) thinkers = elim (thinker_name i thinkers) [
  | none ↦ none
  | some name ↦ some (lower_codes name)
]

-- Steps d, e, h2 and i of the handler, with the patterns read.
unfoldable pub setup_with :
    List SystemConfig
    → List Thinker
    → Option ℕ
    → List (String × List (Option String))
    → Source
    → List Value
    → FeedSetup
unfolding get_config_value min_duration guest_name first_of
setup_with config thinkers guest_id persons_by_guid source patterns = record {
  is_backfill = not source.backfill_complete;
  incremental_cutoff = first_of source.latest_published_at source.last_fetched;
  guest = guest_name guest_id thinkers;
  min_duration =
      min_duration source.config (get_config_value config "min_duration_seconds" (int (pos 600)));
  skip_patterns = patterns;
  persons_by_guid = persons_by_guid;
}

unfoldable pub feed_setup :
    List SystemConfig
    → List Thinker
    → Option ℕ
    → List (String × List (Option String))
    → Source
    → Result FeedSetup
unfolding get_config_value skip_patterns setup_with
feed_setup config thinkers guest_id persons_by_guid source = do
  let global_patterns = get_config_value config "skip_title_patterns" default_skip_patterns
  patterns ← skip_patterns source.config global_patterns
  ok (setup_with config thinkers guest_id persons_by_guid source patterns)

unfoldable pub feed_start : List Content → Source → FeedLoop
feed_start contents source = record {
  contents = contents;
  inserted = [];
  descriptions = [];
  content_persons = [];
  max_published_at = source.latest_published_at;
}

-- The tables that the handler reads and writes.
pub record FeedTables : Type 0 where
  pub sources : List Source
  pub contents : List Content

-- What the response gave: the parsed feed, and its persons.
pub record FetchedFeed : Type 0 where
  pub entries : List FeedEntry
  pub persons_by_guid : List (String × List (Option String))

-- A source that is approved and active is fetched; what raises is rolled back.
unfoldable pub handle_fetch_podcast_feed :
    (String → String)
    → (FeedEntry → Option String)
    → ℕ
    → (ℕ → ℕ)
    → List SystemConfig
    → List Thinker
    → Option ℕ
    → Option ℕ
    → FetchedFeed
    → FeedTables
    → Result (FeedTables × Option ScanPayload)
unfolding find_source feed_setup feed_start process_entries fetched_source scan_payload put_source
handle_fetch_podcast_feed normalize fingerprint now uuid4 config thinkers source_id guest_id feed
      st =
    elim source_id [
      | none ↦ raise value_error
      | some i ↦ elim (find_source i st.sources) [
        | none ↦ raise value_error
        | some source ↦
            if str_eq source.approval_status "approved" && source.active
            then (do
              setup ← feed_setup config thinkers guest_id feed.persons_by_guid source
              s ←
                  process_entries normalize fingerprint now uuid4 setup feed.entries
                    (feed_start st.contents source)
              ok (
                record {
                  sources = put_source (fetched_source now s source) st.sources;
                  contents = s.contents;
                },
                scan_payload i s,
              ))
            else ok (st, none)
      ]
    ]
