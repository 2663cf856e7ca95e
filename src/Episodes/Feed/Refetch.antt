-- ===== src/Episodes/Feed/Refetch.antt =====
-- The same feed, fetched a second time.
use think_tank.Prelude.{
  ℕ, ◌≡◌, ◌⊎◌, inl, inr, refl, sym, subst, String, Bool, true, false, not, ◌&&◌, Option, none, some,
  List, [], ◌∷◌, ◌++◌, length, any-append, All, All-map, str_eq, eq_iff, Bool-cases, arith,
}
use think_tank.Json.{Value, Result, ok, raise, Result-cases}
use think_tank.Config.{SystemConfig, get_config_value}
use think_tank.Content.{Content}
use think_tank.Governance.{Thinker, Source}
use think_tank.Ingestion.Filter.{skip_patterns}
use think_tank.Episodes.Scan.{ScanPayload, find_source}
use think_tank.Episodes.Feed.{
  FeedEntry, FeedLoop, FeedSetup, FeedTables, FetchedFeed, passes_over, insert_entry, entry_content,
  process_entry, process_entries, has_url, has_fingerprint, is_fingerprint, is_old, first_of,
  setup_with, feed_setup, feed_start, default_skip_patterns, fetched_source, scan_payload,
  put_source, handle_fetch_podcast_feed,
}
use think_tank.Episodes.Feed.Distinct.{Rises}
use think_tank.Episodes.Feed.Fetch.{
  handle_fetch_podcast_feed-Fetched, feed-Loops, find_source-put_source, find_source-id,
}
use think_tank.Episodes.Feed.Rounds.{process_entry-cases, process_entries-split}

has_fingerprint-append :
    (fp : Option String) (cs : List Content) (c : Content)
    → has_fingerprint fp cs ≡ true
    → has_fingerprint fp (cs ++ c ∷ []) ≡ true
unfolding has_fingerprint
has_fingerprint-append none cs c h = h
has_fingerprint-append (some fp) cs c h =
    ground (arith, h, any-append (λ d. is_fingerprint fp d.content_fingerprint) cs (c ∷ []))

module _ (normalize : String → String) (fingerprint : FeedEntry → Option String) (now : ℕ)
    (uuid4 : ℕ → ℕ) (u : FeedSetup) where
  abbrev pub over : List Content → FeedEntry → Bool
  over contents e = passes_over normalize fingerprint now uuid4 u contents e

  -- An entry that is passed over still is when there are more rows.
  passes_over-append :
      (cs : List Content) (c : Content) (e : FeedEntry)
      → over cs e ≡ true
      → over (cs ++ c ∷ []) e ≡ true
  unfolding passes_over has_url
  passes_over-append cs c e h = ground (
    arith,
    h,
    any-append (λ d. str_eq d.canonical_url (normalize e.url)) cs (c ∷ []),
    has_fingerprint-append (fingerprint e) cs c,
  )

  -- The inserted entry is passed over from then on.
  insert_entry-over :
      (e : FeedEntry) (status : String) (s : FeedLoop)
      → over (insert_entry normalize fingerprint now uuid4 u e status s).contents e ≡ true
  unfolding passes_over has_url insert_entry entry_content
  insert_entry-over e status s = ground (
    arith,
    eq_iff (normalize e.url) (normalize e.url),
    any-append (λ d. str_eq d.canonical_url (normalize e.url)) s.contents
        (entry_content normalize fingerprint now uuid4 u (uuid4 (length s.inserted)) status e ∷ []),
  )

  process_entry-keeps :
      (e d : FeedEntry) (s s' : FeedLoop)
      → process_entry normalize fingerprint now uuid4 u e s ≡ ok s'
      → over s.contents d ≡ true
      → over s'.contents d ≡ true
  unfolding insert_entry
  process_entry-keeps e d s s' h k =
      elim (process_entry-cases normalize fingerprint now uuid4 u e s s' h) [
        | inl (same, o) ↦ subst (λ (x : FeedLoop). over x.contents d ≡ true) (sym same) k
        | inr i ↦
            subst (λ (x : FeedLoop). over x.contents d ≡ true) (sym i.result)
              (passes_over-append s.contents _ d k)
      ]

  process_entry-over :
      (e : FeedEntry) (s s' : FeedLoop)
      → process_entry normalize fingerprint now uuid4 u e s ≡ ok s'
      → over s'.contents e ≡ true
  process_entry-over e s s' h =
      elim (process_entry-cases normalize fingerprint now uuid4 u e s s' h) [
        | inl (same, o) ↦ subst (λ (x : FeedLoop). over x.contents e ≡ true) (sym same) o
        | inr i ↦
            subst (λ (x : FeedLoop). over x.contents e ≡ true) (sym i.result)
              (insert_entry-over e i.status s)
      ]

  process_entries-keeps :
      (es : List FeedEntry) (d : FeedEntry) (s s' : FeedLoop)
      → process_entries normalize fingerprint now uuid4 u es s ≡ ok s'
      → over s.contents d ≡ true
      → over s'.contents d ≡ true
  unfolding process_entries
  process_entries-keeps [] d s s' h k =
      let e : s ≡ s' = cc in subst (λ (x : FeedLoop). over x.contents d ≡ true) e k
  process_entries-keeps (e ∷ es) d s s' h k =
      let (m, p, r) = process_entries-split normalize fingerprint now uuid4 u e es s s' h in
      process_entries-keeps es d m s' r (process_entry-keeps e d s m p k)

  -- After the loop every entry is passed over.
  process_entries-over :
      (es : List FeedEntry) (s s' : FeedLoop)
      → process_entries normalize fingerprint now uuid4 u es s ≡ ok s'
      → All (λ e. over s'.contents e ≡ true) es
  process_entries-over [] s s' h = tt
  process_entries-over (e ∷ es) s s' h =
      let (m, p, r) = process_entries-split normalize fingerprint now uuid4 u e es s s' h in
      (
        process_entries-keeps es e m s' r (process_entry-over e s m p),
        process_entries-over es m s' r,
      )

  process_entries-idle :
      (es : List FeedEntry) (s : FeedLoop)
      → All (λ e. over s.contents e ≡ true) es
      → process_entries normalize fingerprint now uuid4 u es s ≡ ok s
  unfolding process_entries process_entry
  process_entries-idle [] s h = refl
  process_entries-idle (e ∷ es) s h = rw h.0 (process_entries-idle es s h.1)

-- What was old at the first fetch is old at the second.
is_old-later :
    (now : ℕ) (backfill : Bool) (latest last mark t : Option ℕ)
    → Rises last (some now)
    → Rises latest mark
    → (mark ≡ latest) ⊎ (is_old backfill (first_of latest last) mark ≡ false)
    → is_old backfill (first_of latest last) t ≡ true
    → is_old false (first_of (first_of mark latest) (some now)) t ≡ true
unfolding is_old first_of
is_old-later now true latest last mark t a r m h = cc
is_old-later now false none none mark t a r m h = cc
is_old-later now false (some l) last mark none a r m h = cc
is_old-later now false none (some f) mark none a r m h = cc
is_old-later now false (some l) last none (some t) a r m h = absurd (omega (arith, r))
is_old-later now false (some l) last (some k) (some t) a r m h = ground (arith, h, r)
is_old-later now false none (some f) none (some t) a r m h = ground (arith, h, a)
is_old-later now false none (some f) (some k) (some t) a r (inl m) h = cc
is_old-later now false none (some f) (some k) (some t) a r (inr m) h = ground (arith, h, m)

-- What the setups of two fetches share, and what the second has from the first.
record Follows (u v : FeedSetup) : Type 0 where
  guests : v.guest ≡ u.guest
  olds :
      (t : Option ℕ)
      → is_old u.is_backfill u.incremental_cutoff t ≡ true
      → is_old v.is_backfill v.incremental_cutoff t ≡ true

module _ (normalize : String → String) (fingerprint : FeedEntry → Option String) (now now' : ℕ)
    (uuid4 uuid4' : ℕ → ℕ) where
  over-Follows :
      (u v : FeedSetup) (cs : List Content) (e : FeedEntry)
      → Follows u v
      → over normalize fingerprint now uuid4 u cs e ≡ true
      → over normalize fingerprint now' uuid4' v cs e ≡ true
  unfolding passes_over
  over-Follows u v cs e w h =
      elim (Bool-cases (is_old u.is_backfill u.incremental_cutoff e.published_at)) [
        | inl o ↦ rw (w.olds e.published_at o) refl
        | inr o ↦ rw w.guests (ground (arith, h, o))
      ]

  module _ (config : List SystemConfig) (thinkers : List Thinker) (i : ℕ) (guest : Option ℕ)
      (feed : FetchedFeed) (st : FeedTables) (source : Source) where
    patterns : Result (List Value)
    patterns =
        skip_patterns source.config
          (get_config_value config "skip_title_patterns" default_skip_patterns)

    feed_setup-patterns :
        (u : FeedSetup)
        → feed_setup config thinkers guest feed.persons_by_guid source ≡ ok u
        → (ps : List Value) × (patterns ≡ ok ps)
          × (u ≡ setup_with config thinkers guest feed.persons_by_guid source ps)
    unfolding feed_setup patterns
    feed_setup-patterns u h = elim (Result-cases patterns) [
      | inl (ps, p) ↦
          let r : feed_setup config thinkers guest feed.persons_by_guid source
              ≡ ok (setup_with config thinkers guest feed.persons_by_guid source ps) =
            rw p refl in
          (ps, p, (cc))
      | inr (x, p) ↦
          let r : feed_setup config thinkers guest feed.persons_by_guid source ≡ raise x =
            rw p refl in
          cc
    ]

    -- A second fetch of the same feed, whenever it runs, succeeds, inserts nothing and adds no scan:
    -- a job that is retried does no work twice. Both find the source approved and active, the settings as
    -- they were, and a last fetch that is not in the future.
    pub handle_fetch_podcast_feed-again :
        (st' : FeedTables) (scan : Option ScanPayload)
        → find_source i st.sources ≡ some source
        → str_eq source.approval_status "approved" && source.active ≡ true
        → Rises source.last_fetched (some now)
        → handle_fetch_podcast_feed normalize fingerprint now uuid4 config thinkers
            (some i)
            guest
            feed
            st
          ≡ ok (st', scan)
        → (after : FeedTables) × (handle_fetch_podcast_feed normalize fingerprint now' uuid4' config
              thinkers
              (some i)
              guest
              feed
              st'
            ≡ ok (after, none))
          × (after.contents ≡ st'.contents)
    unfolding handle_fetch_podcast_feed feed_setup setup_with fetched_source feed_start patterns
        scan_payload
    handle_fetch_podcast_feed-again st' scan f a past h =
        let (u, s, r) =
          handle_fetch_podcast_feed-Fetched normalize fingerprint now uuid4 config thinkers i guest
            feed st source st' scan f a h in
        let (ps, p, made) = feed_setup-patterns u r.set_up in
        let l =
          feed-Loops normalize fingerprint now uuid4 config thinkers i guest feed st source u s
            r.looped in
        let source' = fetched_source now s source in
        let v = setup_with config thinkers guest feed.persons_by_guid source' ps in
        let marked : (s.max_published_at ≡ source.latest_published_at)
            ⊎ (is_old (not source.backfill_complete)
                  (first_of source.latest_published_at source.last_fetched) s.max_published_at
                ≡ false) =
          subst
            (λ (x : FeedSetup).
              (s.max_published_at ≡ source.latest_published_at)
              ⊎ (is_old x.is_backfill x.incremental_cutoff s.max_published_at ≡ false))
            made l.marked in
        let w : Follows u v =
          subst (λ x. Follows x v) (sym made)
            (record {
              guests = refl;
              olds = λ t.
                  is_old-later now (not source.backfill_complete) source.latest_published_at
                    source.last_fetched s.max_published_at t past l.rises marked;
            }) in
        let start = feed_start st'.contents source' in
        let seen : All (λ e. over normalize fingerprint now' uuid4' v st'.contents e ≡ true)
            feed.entries =
          All-map
            (λ e k.
              subst (λ cs. over normalize fingerprint now' uuid4' v cs e ≡ true) (sym r.contents)
                (over-Follows u v s.contents e w k))
            feed.entries
            (process_entries-over normalize fingerprint now uuid4 u feed.entries
              (feed_start st.contents source) s r.looped) in
        let idle =
          process_entries-idle normalize fingerprint now' uuid4' v feed.entries start seen in
        let found : find_source i st'.sources ≡ some source' = rw r.sources (
          find_source-put_source i source source' st.sources (find_source-id i source st.sources f)
            f) in
        let set_up : feed_setup config thinkers guest feed.persons_by_guid source' ≡ ok v =
          rw p refl in
        (
          record {
            sources = put_source (fetched_source now' start source') st'.sources;
            contents = st'.contents;
          },
          rw (found, handle_fetch_podcast_feed) (rw a (rw set_up (rw idle refl))),
          refl,
        )
