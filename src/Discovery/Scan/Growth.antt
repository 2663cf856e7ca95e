-- ===== src/Discovery/Scan/Growth.antt =====
-- How a scan changes the table of candidates.
use think_tank.Prelude.{
  ℕ, ◌≤◌, ◌≡◌, refl, inl, inr, false, List, [], ◌∷◌, ◌++◌, ◌==◌, All, Bool-cases, arith,
}
use think_tank.Discovery.Quota.{Candidate}
use think_tank.Discovery.Scan.{count_appearance, Searches}

-- A row that the scan leaves: the same candidate, seen at least as often.
pub record Kept (c c' : Candidate) : Type 0 where
  pub same :
      (c'.id ≡ c.id)
      × (c'.name ≡ c.name)
      × (c'.normalized_name ≡ c.normalized_name)
      × (c'.status ≡ c.status)
      × (c'.first_seen_at ≡ c.first_seen_at)
  pub seen : c.appearance_count ≤ c'.appearance_count

-- A row that the scan adds.
pub record Added (now : ℕ) (s : Searches) (c : Candidate) : Type 0 where
  pub unknown : s.is_thinker c.normalized_name ≡ false
  pub waits : c.status ≡ "pending_llm"
  pub first : c.first_seen_at ≡ now

-- The table grows at its end, and its rows stay.
pub data Extends (now : ℕ) (s : Searches) : List Candidate → List Candidate → Type 0 where
  added : {cs : List Candidate} → All (Added now s) cs → Extends now s [] cs
  kept :
      {c c' : Candidate} {cs cs' : List Candidate}
      → Kept c c'
      → Extends now s cs cs'
      → Extends now s (c ∷ cs) (c' ∷ cs')

module _ (now : ℕ) (s : Searches) where
  Kept-refl : (c : Candidate) → Kept c c
  Kept-refl c = record { same = (refl, refl, refl, refl, refl); seen = omega arith }

  pub Extends-refl : (cs : List Candidate) → Extends now s cs cs
  Extends-refl [] = added tt
  Extends-refl (c ∷ cs) = kept (Kept-refl c) (Extends-refl cs)

  pub Extends-append :
      (cs : List Candidate) (c : Candidate) → Added now s c → Extends now s cs (cs ++ c ∷ [])
  Extends-append [] c h = added (h, tt)
  Extends-append (d ∷ cs) c h = kept (Kept-refl d) (Extends-append cs c h)

  pub Extends-count : (i : ℕ) (cs : List Candidate) → Extends now s cs (count_appearance now i cs)
  unfolding count_appearance
  Extends-count i [] = added tt
  Extends-count i (c ∷ cs) = elim (Bool-cases (c.id == i)) [
    | inl e ↦ rw e (
        kept (record { same = (refl, refl, refl, refl, refl); seen = omega arith })
          (Extends-count i cs))
    | inr e ↦ rw e (kept (Kept-refl c) (Extends-count i cs))
  ]

  Kept-trans : {a b c : Candidate} → Kept a b → Kept b c → Kept a c
  Kept-trans h k = record { same = (cc, cc, cc, cc, cc); seen = omega (arith, h.seen, k.seen) }

  Added-Kept : {b c : Candidate} → Added now s b → Kept b c → Added now s c
  Added-Kept h k = record { unknown = rw (k.same.2) h.unknown; waits = cc; first = cc }

  All-Added :
      {ys zs : List Candidate} → All (Added now s) ys → Extends now s ys zs → All (Added now s) zs
  All-Added h (added k) = k
  All-Added h (kept k r) = (Added-Kept h.0 k, All-Added h.1 r)

  pub Extends-trans :
      {xs ys zs : List Candidate} → Extends now s xs ys → Extends now s ys zs → Extends now s xs zs
  Extends-trans (added h) r = added (All-Added h r)
  Extends-trans (kept k h) (kept l r) = kept (Kept-trans k l) (Extends-trans h r)
