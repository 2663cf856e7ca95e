-- ===== src/Governance/Slug/Free.antt =====
-- The loop of _unique_thinker_slug ends: the numbered slugs differ, so the rows cannot have them all.
use think_tank.Prelude.{
  ℕ, zero, suc, ◌+◌, ◌-◌, ◌*◌, ◌/◌, ◌%◌, ◌≤◌, ◌<◌, ◌≡◌, ◌≢◌, ◌⊎◌, inl, inr, refl, sym, ap, subst,
  ◌∙◌, String, true, false, none, some, List, [], ◌∷◌, ◌++◌, length, any, codes, decimal,
  decimal_on, same, ltb, ==_iff, Bool-cases, Option-cases, arith,
}
use think_tank.Governance.{Thinker}
use think_tank.Governance.Slug.{slugify, numbered, has_slug, free_slug, unique_thinker_slug}

value_from : ℕ → List ℕ → ℕ
value_from n [] = n
value_from n (c ∷ s) = value_from (n * 10 + (c - b'0')) s

value_from-append : (n : ℕ) (s t : List ℕ) → value_from n (s ++ t) ≡ value_from (value_from n s) t
unfolding value_from
value_from-append n [] t = refl
value_from-append n (c ∷ s) t = value_from-append (n * 10 + (c - b'0')) s t

value_from-decimal_on : (fuel n : ℕ) → n < fuel → value_from 0 (decimal_on fuel n) ≡ n
unfolding decimal_on value_from
value_from-decimal_on zero n h = omega (arith, h)
value_from-decimal_on (suc fuel) n h = elim (Bool-cases (ltb n 10)) [
  | inl e ↦ rw e (ground (arith, e))
  | inr e ↦
      let big : 10 ≤ n = ground (arith, e) in
      let ih = value_from-decimal_on fuel (n / 10) (omega (arith, h, big)) in
      rw e (
        value_from-append 0 (decimal_on fuel (n / 10)) ((b'0' + n % 10) ∷ []) ∙ rw ih (omega arith))
]

decimal-injective : (m n : ℕ) → decimal m ≡ decimal n → m ≡ n
unfolding decimal
decimal-injective m n h =
    sym (value_from-decimal_on (suc m) m (omega arith))
    ∙ ap (value_from 0) h
    ∙ value_from-decimal_on (suc n) n (omega arith)

append_cancel : (base s t : List ℕ) → base ++ s ≡ base ++ t → s ≡ t
append_cancel [] s t h = h
append_cancel (c ∷ base) s t h = append_cancel base s t (cc)

numbered-injective : (base : List ℕ) (m n : ℕ) → numbered base m ≡ numbered base n → m ≡ n
unfolding numbered
numbered-injective base m n h =
    let e = append_cancel base (b'-' ∷ decimal m) (b'-' ∷ decimal n) h in decimal-injective m n (cc)

same_sound : (s t : List ℕ) → same s t ≡ true → s ≡ t
unfolding same
same_sound [] [] h = refl
same_sound [] (d ∷ t) h = cc
same_sound (c ∷ s) [] h = cc
same_sound (c ∷ s) (d ∷ t) h =
    let e = (==_iff c d).0 (ground (arith, h)) in
    rw e (ap (λ x. d ∷ x) (same_sound s t (ground (arith, h))))

-- A row without the slug `y` keeps every other slug in use.
remove :
    (y : List ℕ) (ts : List Thinker)
    → any (has_slug y) ts ≡ true
    → (rest : List Thinker) × (length ts ≡ suc (length rest))
      × ((z : List ℕ) → z ≢ y → any (has_slug z) ts ≡ true → any (has_slug z) rest ≡ true)
unfolding has_slug
remove y [] h = cc
remove y (t ∷ ts) h = elim (Bool-cases (same y (codes t.slug))) [
  | inl e ↦ (
    ts,
    refl,
    λ z d k. elim (Bool-cases (same z (codes t.slug))) [
      | inl q ↦ absurd (d (same_sound z (codes t.slug) q ∙ sym (same_sound y (codes t.slug) e)))
      | inr q ↦ ground (arith, q, k)
    ],
  )
  | inr e ↦
      let (rest, l, k) = remove y ts (ground (arith, e, h)) in
      (
        t ∷ rest,
        ap suc l,
        λ z d m. elim (Bool-cases (same z (codes t.slug))) [
          | inl q ↦ rw q refl
          | inr q ↦ rw q (k z d (ground (arith, q, m)))
        ],
      )
]

-- Different slugs that are all in use are no more than the rows.
pigeonhole :
    (f : ℕ → List ℕ) (n : ℕ) (ts : List Thinker)
    → ((i j : ℕ) → f i ≡ f j → i ≡ j)
    → ((k : ℕ) → k < n → any (has_slug (f k)) ts ≡ true)
    → n ≤ length ts
pigeonhole f zero ts d h = omega arith
pigeonhole f (suc n) ts d h =
    let (rest, l, k) = remove (f n) ts (h n (omega arith)) in
    let ih = pigeonhole f n rest d (λ i small.
      k (f i) (λ e. let same_index = d i n e in omega (arith, small, same_index))
        (h i (omega (arith, small)))) in
    omega (arith, l, ih)

module _ (ts : List Thinker) (base : List ℕ) where
  free_slug-split :
      (fuel : ℕ) (candidate : List ℕ) (suffix : ℕ)
      → free_slug (suc fuel) ts base candidate suffix ≡ none
      → (any (has_slug candidate) ts ≡ true)
        × (free_slug fuel ts base (numbered base suffix) (suffix + 1) ≡ none)
  unfolding free_slug
  free_slug-split fuel candidate suffix h = (ground (arith, h), ground (arith, h))

  -- Out of fuel, every candidate that was tried is in use.
  free_slug-tried :
      (fuel k suffix : ℕ) (candidate : List ℕ)
      → free_slug fuel ts base candidate suffix ≡ none
      → suc k < fuel
      → any (has_slug (numbered base (suffix + k))) ts ≡ true
  free_slug-tried zero k suffix candidate h l = absurd (omega (arith, l))
  free_slug-tried (suc zero) k suffix candidate h l = absurd (omega (arith, l))
  free_slug-tried (suc (suc fuel)) zero suffix candidate h l =
      let r = (free_slug-split (suc fuel) candidate suffix h).1 in
      let e : suffix + 0 ≡ suffix = omega arith in
      rw e ((free_slug-split fuel (numbered base suffix) (suffix + 1) r).0)
  free_slug-tried (suc (suc fuel)) (suc k) suffix candidate h l =
      let r = (free_slug-split (suc fuel) candidate suffix h).1 in
      let e : suffix + suc k ≡ suffix + 1 + k = omega arith in
      rw e (free_slug-tried (suc fuel) k (suffix + 1) (numbered base suffix) r (omega (arith, l)))

  -- An answer is free, and the candidate or a later number.
  free_slug-found :
      (fuel : ℕ) (candidate : List ℕ) (suffix : ℕ) (slug : List ℕ)
      → free_slug fuel ts base candidate suffix ≡ some slug
      → (any (has_slug slug) ts ≡ false)
        × ((slug ≡ candidate) ⊎ ((k : ℕ) × (suffix ≤ k) × (slug ≡ numbered base k)))
  unfolding free_slug
  free_slug-found zero candidate suffix slug h = cc
  free_slug-found (suc fuel) candidate suffix slug h =
      elim (Bool-cases (any (has_slug candidate) ts)) [
        | inl e ↦
            let (free, found) =
              free_slug-found fuel (numbered base suffix) (suffix + 1) slug
                (ground (arith, e, h)) in
            (
              free,
              elim found [
                | inl q ↦ inr (suffix, omega arith, q)
                | inr (k, l, q) ↦ inr (k, omega (arith, l), q)
              ],
            )
        | inr e ↦
            let same_slug : candidate ≡ slug = ground (arith, e, h) in
            (subst (λ s. any (has_slug s) ts ≡ false) same_slug e, inl (sym same_slug))
      ]

-- The loop ends: it returns a slug, after at most one round more than there are thinkers and one for
-- the plain slug. No thinker has the slug, and it is the slug of the name or that with a number from 2 on.
pub unique_thinker_slug-IsFree :
    (ts : List Thinker) (name : String)
    → (slug : List ℕ) × (unique_thinker_slug ts name ≡ some slug)
      × (any (has_slug slug) ts ≡ false)
      × ((slug ≡ slugify name) ⊎ ((k : ℕ) × (2 ≤ k) × (slug ≡ numbered (slugify name) k)))
unfolding unique_thinker_slug
unique_thinker_slug-IsFree ts name =
    let base = slugify name in
    elim (Option-cases (free_slug (2 + length ts) ts base base 2)) [
      | inl e ↦
          let full =
            pigeonhole (λ k. numbered base (2 + k)) (suc (length ts)) ts
              (λ i j q.
                let same_number = numbered-injective base (2 + i) (2 + j) q in
                omega (arith, same_number))
              (λ k l. free_slug-tried ts base (2 + length ts) k 2 base e (omega (arith, l))) in
          absurd (omega (arith, full))
      | inr (slug, e) ↦
          let (free, found) = free_slug-found ts base (2 + length ts) base 2 slug e in
          (slug, e, free, found)
    ]
