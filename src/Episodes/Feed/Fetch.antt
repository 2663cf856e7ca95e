-- ===== src/Episodes/Feed/Fetch.antt =====
-- A whole fetch: what it inserts, what it hands to the scan, and what it notes on the source.
use think_tank.Prelude.{
  ℕ, ◌+◌, ◌≤◌, ◌≡◌, ◌⊎◌, inl, inr, refl, sym, subst, ap, ◌∙◌, String, true, false, not, ◌&&◌,
  Option, none, some, List, [], ◌∷◌, ◌++◌, map, length, tally, All, All-map, str_eq, leb, ◌==◌,
  ==_iff, ==_self, Bool-cases, arith,
}
use mathlib.Core.List.{append-nil}
use think_tank.Json.{ok, raise, Result-cases}
use think_tank.Config.{SystemConfig, get_config_value}
use think_tank.Ingestion.Filter.{skip_patterns}
use think_tank.Content.{Content}
use think_tank.Governance.{Thinker, Source}
use think_tank.Episodes.Scan.{ScanPayload, find_source}
use think_tank.Episodes.Feed.{
  FeedEntry, FeedLoop, FeedSetup, FeedTables, FetchedFeed, first_of, is_fingerprint, feed_setup,
  feed_start, process_entries, setup_with, default_skip_patterns, fetched_source, scan_payload,
  put_source, handle_fetch_podcast_feed,
}
use think_tank.Episodes.Feed.Distinct.{
  Loops, Rises, Rises-refl, Dated, Young, process_entries-Loops,
}

pub find_source-put_source :
    (i : ℕ) (old new : Source) (ss : List Source)
    → new.id ≡ i
    → find_source i ss ≡ some old
    → find_source i (put_source new ss) ≡ some new
unfolding find_source put_source
find_source-put_source i old new [] e h = cc
find_source-put_source i old new (s ∷ ss) e h =
    ground (arith, e, h, ==_self i, find_source-put_source i old new ss e)

pub find_source-id : (i : ℕ) (s : Source) (ss : List Source) → find_source i ss ≡ some s → s.id ≡ i
unfolding find_source
find_source-id i s [] h = cc
find_source-id i s (x ∷ ss) h = elim (Bool-cases (x.id == i)) [
  | inl e ↦
      let same : x ≡ s = ground (arith, e, h) in subst (λ y. y.id ≡ i) same ((==_iff x.id i).0 e)
  | inr e ↦ find_source-id i s ss (ground (arith, e, h))
]

first_of-Rises : (old mark : Option ℕ) → Rises old mark → first_of mark old ≡ mark
unfolding first_of
first_of-Rises old (some m) r = refl
first_of-Rises none none r = refl
first_of-Rises (some o) none r = absurd (omega (arith, r))

-- The contents that a scan job is for.
abbrev pub scanned : Option ScanPayload → List ℕ
scanned none = []
scanned (some p) = p.content_ids

no_ids : (cs : List Content) → leb 1 (length cs) ≡ false → map (λ c. c.id) cs ≡ []
no_ids [] h = refl
no_ids (c ∷ cs) h = ground (arith, h)

scanned-scan_payload :
    (i : ℕ) (s : FeedLoop) → scanned (scan_payload i s) ≡ map (λ c. c.id) s.inserted
unfolding scan_payload
scanned-scan_payload i s = elim (Bool-cases (leb 1 (length s.inserted))) [
  | inl e ↦ rw e refl
  | inr e ↦ rw e (sym (no_ids s.inserted e))
]

module _ (normalize : String → String) (fingerprint : FeedEntry → Option String) (now : ℕ)
    (uuid4 : ℕ → ℕ) (config : List SystemConfig) (thinkers : List Thinker) (i : ℕ)
    (guest : Option ℕ) (feed : FetchedFeed) (st : FeedTables) (source : Source) where
  -- The run of the loop behind a fetch.
  pub record Fetched (setup : FeedSetup) (s : FeedLoop) (st' : FeedTables)
      (scan : Option ScanPayload) : Type 0 where
    pub set_up : feed_setup config thinkers guest feed.persons_by_guid source ≡ ok setup
    pub looped :
        process_entries normalize fingerprint now uuid4 setup feed.entries
          (feed_start st.contents source)
        ≡ ok s
    pub sources : st'.sources ≡ put_source (fetched_source now s source) st.sources
    pub contents : st'.contents ≡ s.contents
    pub scans : scan ≡ scan_payload i s

  pub handle_fetch_podcast_feed-Fetched :
      (st' : FeedTables) (scan : Option ScanPayload)
      → find_source i st.sources ≡ some source
      → str_eq source.approval_status "approved" && source.active ≡ true
      → handle_fetch_podcast_feed normalize fingerprint now uuid4 config thinkers
          (some i)
          guest
          feed
          st
        ≡ ok (st', scan)
      → (setup : FeedSetup) × (s : FeedLoop) × Fetched setup s st' scan
  unfolding handle_fetch_podcast_feed
  handle_fetch_podcast_feed-Fetched st' scan f a h =
      elim (Result-cases (feed_setup config thinkers guest feed.persons_by_guid source)) [
        | inl (setup, p) ↦
            elim (Result-cases (
              process_entries normalize fingerprint now uuid4 setup feed.entries
                (feed_start st.contents source))) [
                  | inl (s, q) ↦
                      let after : FeedTables = record {
                        sources = put_source (fetched_source now s source) st.sources;
                        contents = s.contents;
                      } in
                      let r : handle_fetch_podcast_feed normalize fingerprint now uuid4 config
                            thinkers (some i) guest feed st
                          ≡ ok (after, scan_payload i s) =
                        rw (f, handle_fetch_podcast_feed) (rw a (rw p (rw q refl))) in
                      let same : after ≡ st' = cc in
                      let scans : scan ≡ scan_payload i s = cc in
                      (
                        setup,
                        s,
                        record {
                          set_up = p;
                          looped = q;
                          sources = ap (λ (x : FeedTables). x.sources) (sym same);
                          contents = ap (λ (x : FeedTables). x.contents) (sym same);
                          scans = scans;
                        },
                      )
                  | inr (x, q) ↦
                      let r : handle_fetch_podcast_feed normalize fingerprint now uuid4 config
                            thinkers (some i) guest feed st
                          ≡ raise x =
                        rw (f, handle_fetch_podcast_feed) (rw a (rw p (rw q refl))) in
                      cc
                ]
        | inr (x, p) ↦
            let r : handle_fetch_podcast_feed normalize fingerprint now uuid4 config thinkers
                  (some i) guest feed st
                ≡ raise x =
              rw (f, handle_fetch_podcast_feed) (rw a (rw p refl)) in
            cc
      ]

  -- What a fetch of the source leaves.
  pub record Effect (st' : FeedTables) (scan : Option ScanPayload) : Type 0 where
    pub inserted : List Content
    pub after : Source
    pub contents : st'.contents ≡ st.contents ++ inserted
    pub scans : scanned scan ≡ map (λ c. c.id) inserted
    pub source_row : find_source i st'.sources ≡ some after
    pub fetched : after.last_fetched ≡ some now
    pub counted : after.item_count ≡ source.item_count + length inserted
    pub rises : Rises source.latest_published_at after.latest_published_at
    pub dated :
        All
          (λ c.
            Dated c.published_at after.latest_published_at
            × Young
                (not source.backfill_complete)
                (first_of source.latest_published_at source.last_fetched)
                c.published_at
            × ((c.status ≡ "skipped") ⊎ (c.status ≡ "cataloged")))
          inserted

  feed_setup-mode :
      (setup : FeedSetup)
      → feed_setup config thinkers guest feed.persons_by_guid source ≡ ok setup
      → (setup.is_backfill ≡ not source.backfill_complete)
        × (setup.incremental_cutoff ≡ first_of source.latest_published_at source.last_fetched)
  unfolding feed_setup setup_with
  feed_setup-mode setup h =
      let patterns =
        skip_patterns source.config
          (get_config_value config "skip_title_patterns" default_skip_patterns) in
      elim (Result-cases patterns) [
        | inl (ps, p) ↦
            let built = setup_with config thinkers guest feed.persons_by_guid source ps in
            let r : feed_setup config thinkers guest feed.persons_by_guid source ≡ ok built =
              rw p refl in
            let same : built ≡ setup = cc in
            (
              ap (λ (x : FeedSetup). x.is_backfill) (sym same),
              ap (λ (x : FeedSetup). x.incremental_cutoff) (sym same),
            )
        | inr (x, p) ↦
            let r : feed_setup config thinkers guest feed.persons_by_guid source ≡ raise x =
              rw p refl in
            cc
      ]

  pub feed-Loops :
      (setup : FeedSetup) (s : FeedLoop)
      → process_entries normalize fingerprint now uuid4 setup feed.entries
          (feed_start st.contents source)
        ≡ ok s
      → Loops normalize fingerprint now uuid4 setup st.contents source.latest_published_at s
  unfolding feed_start
  feed-Loops setup s h =
      process_entries-Loops normalize fingerprint now uuid4 setup st.contents
        source.latest_published_at feed.entries (feed_start st.contents source) s
        (record {
          appended = sym (append-nil st.contents);
          rises = Rises-refl source.latest_published_at;
          marked = inl refl;
          dated = tt;
          once = λ v k. k;
          once_printed = λ fp k. k;
        })
        h

  -- A fetch of an approved and active source that succeeds adds rows at the end of the contents and
  -- changes no other row, hands exactly the new ids to the scan, and counts them on the source. Each
  -- new row is skipped or cataloged, and in incremental mode none is dated at or before the old mark.
  -- The new mark is not below the old one, nor below the date of a new row.
  pub handle_fetch_podcast_feed-Effect :
      (st' : FeedTables) (scan : Option ScanPayload)
      → find_source i st.sources ≡ some source
      → str_eq source.approval_status "approved" && source.active ≡ true
      → handle_fetch_podcast_feed normalize fingerprint now uuid4 config thinkers
          (some i)
          guest
          feed
          st
        ≡ ok (st', scan)
      → Effect st' scan
  unfolding feed_start fetched_source
  handle_fetch_podcast_feed-Effect st' scan f a h =
      let (setup, s, r) = handle_fetch_podcast_feed-Fetched st' scan f a h in
      let l = feed-Loops setup s r.looped in
      let mode = feed_setup-mode setup r.set_up in
      let after = fetched_source now s source in
      let marked = first_of-Rises source.latest_published_at s.max_published_at l.rises in
      record {
        inserted = s.inserted;
        after = after;
        contents = r.contents ∙ l.appended;
        scans = rw r.scans (scanned-scan_payload i s);
        source_row = rw r.sources (
            find_source-put_source i source after st.sources (find_source-id i source st.sources f)
              f);
        fetched = refl;
        counted = refl;
        rises = rw marked l.rises;
        dated =
            All-map
              (λ c k. (
                subst (Dated c.published_at) (sym marked) k.0,
                subst
                    (λ b.
                      Young b (first_of source.latest_published_at source.last_fetched)
                        c.published_at)
                    mode.0 (subst (λ q. Young setup.is_backfill q c.published_at) mode.1 k.1),
                k.2,
              ))
              s.inserted l.dated;
      }

  -- A fetch of an approved and active source that succeeds inserts no second row with a canonical URL
  -- or with a fingerprint: each that had at most one row before has at most one after.
  pub handle_fetch_podcast_feed-distinct :
      (st' : FeedTables) (scan : Option ScanPayload) (v fp : String)
      → find_source i st.sources ≡ some source
      → str_eq source.approval_status "approved" && source.active ≡ true
      → handle_fetch_podcast_feed normalize fingerprint now uuid4 config thinkers
          (some i)
          guest
          feed
          st
        ≡ ok (st', scan)
      → (tally (λ c. str_eq c.canonical_url v) st.contents ≤ 1
          → tally (λ c. str_eq c.canonical_url v) st'.contents ≤ 1)
        × (tally (λ c. is_fingerprint fp c.content_fingerprint) st.contents ≤ 1
            → tally (λ c. is_fingerprint fp c.content_fingerprint) st'.contents ≤ 1)
  handle_fetch_podcast_feed-distinct st' scan v fp f a h =
      let (setup, s, r) = handle_fetch_podcast_feed-Fetched st' scan f a h in
      let l = feed-Loops setup s r.looped in rw r.contents (l.once v, l.once_printed fp)
