-- ===== src/Episodes/Feed/Rounds.antt =====
-- One round of the feed's loop: the entry is passed over, or inserted.
use think_tank.Prelude.{
  ℕ, ◌≡◌, ◌⊎◌, inl, inr, refl, subst, String, true, false, Option, List, ◌∷◌, Bool-cases, arith,
}
use think_tank.Json.{ok, raise, ◌>>=◌, Result-cases}
use think_tank.Content.{Content}
use think_tank.Episodes.Feed.{
  FeedEntry, FeedLoop, FeedSetup, passes_over, entry_status, insert_entry, process_entry,
  process_entries, has_url, has_fingerprint, is_old, passes_guest_filter,
}

module _ (normalize : String → String) (fingerprint : FeedEntry → Option String) (now : ℕ)
    (uuid4 : ℕ → ℕ) (u : FeedSetup) where
  -- The entry is new, and the state is that with its row.
  pub record Inserts (e : FeedEntry) (s s' : FeedLoop) : Type 0 where
    pub status : String
    pub fresh : passes_over normalize fingerprint now uuid4 u s.contents e ≡ false
    pub filtered : entry_status normalize fingerprint now uuid4 u e ≡ ok status
    pub result : s' ≡ insert_entry normalize fingerprint now uuid4 u e status s

  pub process_entry-cases :
      (e : FeedEntry) (s s' : FeedLoop)
      → process_entry normalize fingerprint now uuid4 u e s ≡ ok s'
      → ((s' ≡ s) × (passes_over normalize fingerprint now uuid4 u s.contents e ≡ true))
        ⊎ Inserts e s s'
  unfolding process_entry
  process_entry-cases e s s' h =
      elim (Bool-cases (passes_over normalize fingerprint now uuid4 u s.contents e)) [
        | inl p ↦
            let r : process_entry normalize fingerprint now uuid4 u e s ≡ ok s = rw p refl in
            inl ((cc), p)
        | inr p ↦ elim (Result-cases (entry_status normalize fingerprint now uuid4 u e)) [
          | inl (status, q) ↦
              let r : process_entry normalize fingerprint now uuid4 u e s
                  ≡ ok (insert_entry normalize fingerprint now uuid4 u e status s) =
                rw p (rw q refl) in
              inr (record { status = status; fresh = p; filtered = q; result = cc })
          | inr (x, q) ↦
              let r : process_entry normalize fingerprint now uuid4 u e s ≡ raise x =
                rw p (rw q refl) in
              cc
        ]
      ]

  pub process_entries-split :
      (e : FeedEntry) (es : List FeedEntry) (s s' : FeedLoop)
      → process_entries normalize fingerprint now uuid4 u (e ∷ es) s ≡ ok s'
      → (m : FeedLoop) × (process_entry normalize fingerprint now uuid4 u e s ≡ ok m)
        × (process_entries normalize fingerprint now uuid4 u es m ≡ ok s')
  unfolding process_entries
  process_entries-split e es s s' h =
      elim (Result-cases (process_entry normalize fingerprint now uuid4 u e s)) [
        | inl (m, q) ↦ (
          m,
          q,
          subst (λ r. (r >>= process_entries normalize fingerprint now uuid4 u es) ≡ ok s') q h,
        )
        | inr (x, q) ↦
            let wrong =
              subst (λ r. (r >>= process_entries normalize fingerprint now uuid4 u es) ≡ ok s') q
                h in
            cc
      ]

  -- What an entry that is not passed over is.
  pub record Fresh (e : FeedEntry) (contents : List Content) : Type 0 where
    pub young : is_old u.is_backfill u.incremental_cutoff e.published_at ≡ false
    pub wanted : passes_guest_filter u.guest e ≡ true
    pub new_url : has_url (normalize e.url) contents ≡ false
    pub new_fingerprint : has_fingerprint (fingerprint e) contents ≡ false

  pub passes_over-Fresh :
      (e : FeedEntry) (contents : List Content)
      → passes_over normalize fingerprint now uuid4 u contents e ≡ false
      → Fresh e contents
  unfolding passes_over
  passes_over-Fresh e contents h = record {
    young = ground (arith, h);
    wanted = ground (arith, h);
    new_url = ground (arith, h);
    new_fingerprint = ground (arith, h);
  }
