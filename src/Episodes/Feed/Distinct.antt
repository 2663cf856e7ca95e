-- ===== src/Episodes/Feed/Distinct.antt =====
-- The loop over a feed: no duplicate rows, and the high-water mark.
use mathlib.Core.List.{append_assoc}
use think_tank.Prelude.{
  ℕ, ◌≤◌, ◌≡◌, ◌⊎◌, inl, inr, refl, sym, subst, ◌∙◌, String, Bool, true, false, Option, none, some,
  List, [], ◌∷◌, ◌++◌, any, tally, tally-fresh, All, All-append, All-map, ltb, str_eq, eq_iff,
  Bool-cases, if◌then◌else◌, arith,
}
use think_tank.Json.{Result, ok, raise, Result-cases}
use think_tank.Content.{Content}
use think_tank.Ingestion.Filter.{should_skip_by_duration, should_skip_by_title, lower_codes}
use think_tank.Episodes.Feed.{
  FeedEntry, FeedLoop, FeedSetup, entry_status, entry_content, insert_entry, process_entries,
  has_url, has_fingerprint, is_fingerprint, is_old, newest,
}
use think_tank.Episodes.Feed.Rounds.{
  Inserts, process_entry-cases, process_entries-split, passes_over-Fresh,
}

-- The mark is at least a time.
abbrev pub Reaches : ℕ → Option ℕ → Type 0
Reaches t none = 1 ≤ 0
Reaches t (some mark) = t ≤ mark

-- A mark is not lowered.
abbrev pub Rises : Option ℕ → Option ℕ → Type 0
Rises none mark = Unit
Rises (some t) mark = Reaches t mark

-- The row's date is after the cutoff of an incremental run, and not after the mark.
abbrev pub Dated : Option ℕ → Option ℕ → Type 0
Dated none mark = Unit
Dated (some t) mark = Reaches t mark

abbrev pub Young : Bool → Option ℕ → Option ℕ → Type 0
Young backfill cutoff t = is_old backfill cutoff t ≡ false

newest-Rises : (old mark t : Option ℕ) → Rises old mark → Rises old (newest mark t)
unfolding newest
newest-Rises none mark t h = tt
newest-Rises (some o) none none h = h
newest-Rises (some o) none (some t) h = omega (arith, h)
newest-Rises (some o) (some m) none h = h
newest-Rises (some o) (some m) (some t) h = ground (arith, h)

newest-Dated : (mark t : Option ℕ) → Dated t (newest mark t)
unfolding newest
newest-Dated mark none = tt
newest-Dated none (some t) = omega arith
newest-Dated (some m) (some t) = ground arith

Dated-Rises : (d old mark : Option ℕ) → Dated d old → Rises old mark → Dated d mark
Dated-Rises none old mark h r = tt
Dated-Rises (some t) none none h r = h
Dated-Rises (some t) none (some m) h r = omega (arith, h)
Dated-Rises (some t) (some o) none h r = omega (arith, r)
Dated-Rises (some t) (some o) (some m) h r = omega (arith, h, r)

pub Rises-refl : (m : Option ℕ) → Rises m m
Rises-refl none = tt
Rises-refl (some t) = omega arith

printed :
    (fp : String) (o : Option String) (cs : List Content)
    → is_fingerprint fp o ≡ true
    → has_fingerprint o cs ≡ false
    → any (λ c. is_fingerprint fp c.content_fingerprint) cs ≡ false
unfolding has_fingerprint is_fingerprint
printed fp none cs h k = cc
printed fp (some g) cs h k =
    subst (λ f. any (λ c. is_fingerprint f c.content_fingerprint) cs ≡ false) ((eq_iff g fp).0 h) k

module _ (normalize : String → String) (fingerprint : FeedEntry → Option String) (now : ℕ)
    (uuid4 : ℕ → ℕ) (u : FeedSetup) where
  entry_status-known :
      (e : FeedEntry) (status : String)
      → entry_status normalize fingerprint now uuid4 u e ≡ ok status
      → (status ≡ "skipped") ⊎ (status ≡ "cataloged")
  unfolding entry_status
  entry_status-known e status h =
      elim (Result-cases (should_skip_by_duration e.duration_seconds u.min_duration)) [
        | inl (short, p) ↦
            let second : Result Bool =
              if short
              then ok true
              else should_skip_by_title (lower_codes e.title) u.skip_patterns in
            elim (Result-cases second) [
              | inl (skip, q) ↦
                  let r : entry_status normalize fingerprint now uuid4 u e
                      ≡ ok (if skip then "skipped" else "cataloged") =
                    rw p (rw q refl) in
                  let known : status ≡ (if skip then "skipped" else "cataloged") = cc in
                  elim (Bool-cases skip) [
                    | inl k ↦ inl (known ∙ rw k refl)
                    | inr k ↦ inr (known ∙ rw k refl)
                  ]
              | inr (x, q) ↦
                  let r : entry_status normalize fingerprint now uuid4 u e ≡ raise x =
                    rw p (rw q refl) in
                  cc
            ]
        | inr (x, p) ↦
            let r : entry_status normalize fingerprint now uuid4 u e ≡ raise x = rw p refl in cc
      ]

  -- What holds of the loop at any time, from the contents and the mark that it started with.
  pub record Loops (contents : List Content) (mark : Option ℕ) (s : FeedLoop) : Type 0 where
    pub appended : s.contents ≡ contents ++ s.inserted
    pub rises : Rises mark s.max_published_at
    pub marked :
        (s.max_published_at ≡ mark) ⊎ Young u.is_backfill u.incremental_cutoff s.max_published_at
    pub dated :
        All
          (λ c.
            Dated c.published_at s.max_published_at
            × Young u.is_backfill u.incremental_cutoff c.published_at
            × ((c.status ≡ "skipped") ⊎ (c.status ≡ "cataloged")))
          s.inserted
    pub once :
        (v : String)
        → tally (λ c. str_eq c.canonical_url v) contents ≤ 1
        → tally (λ c. str_eq c.canonical_url v) s.contents ≤ 1
    pub once_printed :
        (fp : String)
        → tally (λ c. is_fingerprint fp c.content_fingerprint) contents ≤ 1
        → tally (λ c. is_fingerprint fp c.content_fingerprint) s.contents ≤ 1

  newest-Young :
      (old mark t : Option ℕ)
      → (mark ≡ old) ⊎ Young u.is_backfill u.incremental_cutoff mark
      → Young u.is_backfill u.incremental_cutoff t
      → (newest mark t ≡ old) ⊎ Young u.is_backfill u.incremental_cutoff (newest mark t)
  unfolding newest
  newest-Young old mark none h y = h
  newest-Young old none (some t) h y = inr y
  newest-Young old (some m) (some t) h y = elim (Bool-cases (ltb m t)) [
    | inl e ↦ rw e (inr y)
    | inr e ↦ rw e h
  ]

  insert_entry-Loops :
      (contents : List Content) (mark : Option ℕ) (e : FeedEntry) (s s' : FeedLoop)
      → Loops contents mark s
      → Inserts normalize fingerprint now uuid4 u e s s'
      → Loops contents mark s'
  unfolding insert_entry entry_content has_url
  insert_entry-Loops contents mark e s s' l i =
      let f = passes_over-Fresh normalize fingerprint now uuid4 u e s.contents i.fresh in
      subst (Loops contents mark) (sym i.result) (record {
        appended = rw l.appended (append_assoc contents s.inserted _);
        rises = newest-Rises mark s.max_published_at e.published_at l.rises;
        marked = newest-Young mark s.max_published_at e.published_at l.marked f.young;
        dated = All-append _ s.inserted _ (
          All-map
              (λ c k. (
                Dated-Rises c.published_at s.max_published_at _ k.0 (
                    newest-Rises s.max_published_at s.max_published_at e.published_at
                      (Rises-refl s.max_published_at)),
                k.1,
                k.2,
              ))
              s.inserted l.dated,
          (
            (
              newest-Dated s.max_published_at e.published_at,
              f.young,
              entry_status-known e i.status i.filtered,
            ),
            tt,
          ),
        );
        once = λ v h.
            tally-fresh (λ c. str_eq c.canonical_url v) s.contents _
              (λ q.
                subst (λ y. has_url y s.contents ≡ false) ((eq_iff (normalize e.url) v).0 q)
                  f.new_url)
              (l.once v h);
        once_printed = λ fp h.
            tally-fresh (λ c. is_fingerprint fp c.content_fingerprint) s.contents _
              (λ q. printed fp (fingerprint e) s.contents q f.new_fingerprint)
              (l.once_printed fp h);
      })

  pub process_entries-Loops :
      (contents : List Content) (mark : Option ℕ) (es : List FeedEntry) (s s' : FeedLoop)
      → Loops contents mark s
      → process_entries normalize fingerprint now uuid4 u es s ≡ ok s'
      → Loops contents mark s'
  unfolding process_entries
  process_entries-Loops contents mark [] s s' l h =
      let e : s ≡ s' = cc in subst (Loops contents mark) e l
  process_entries-Loops contents mark (e ∷ es) s s' l h =
      let (m, p, r) = process_entries-split normalize fingerprint now uuid4 u e es s s' h in
      let next : Loops contents mark m =
        elim (process_entry-cases normalize fingerprint now uuid4 u e s m p) [
          | inl (same, over) ↦ subst (Loops contents mark) (sym same) l
          | inr i ↦ insert_entry-Loops contents mark e s m l i
        ] in
      process_entries-Loops contents mark es m s' next r
