-- ===== src/Prelude/Sorting.antt =====
-- `ORDER BY key` on lists: insertion sort, which keeps the order of equal keys; and what a LIMIT
-- keeps of a sorted list.
use Prim.Native.Nat.{ℕ, zero, suc, ◌≤◌}
use mathlib.Core.Path.{◌≡◌}
use mathlib.Core.Logic.{◌⊎◌, inl, inr}
use mathlib.Core.Bool.{Bool, true}
use mathlib.Core.List.{List, [], ◌∷◌}
use native.Mathlib.Omega.{arith}
use think_tank.Prelude.Tests.{leb, if◌then◌else◌, Bool-cases}
use think_tank.Prelude.Lists.{take, select, length, All, In, here, there, All-map, All-In}

module _ {ℓ} {A : Type ℓ} (key : A → ℕ) where
  insert_by : A → List A → List A
  insert_by x [] = x ∷ []
  insert_by x (y ∷ ys) =
      let rest = insert_by x ys in if leb (key x) (key y) then x ∷ y ∷ ys else y ∷ rest

  unfoldable pub order_by : List A → List A
  unfolding insert_by
  order_by [] = []
  order_by (x ∷ xs) = insert_by x (order_by xs)

module _ {ℓ κ} {A : Type ℓ} (key : A → ℕ) (P : A → Type κ) where
  insert_by-All : (x : A) (xs : List A) → P x → All P xs → All P (insert_by key x xs)
  unfolding insert_by
  insert_by-All x [] p h = (p, tt)
  insert_by-All x (y ∷ ys) p h = elim (Bool-cases (leb (key x) (key y))) [
    | inl e ↦ rw e (p, h)
    | inr e ↦ rw e (h.0, insert_by-All x ys p h.1)
  ]

module _ {ℓ} {A : Type ℓ} (key : A → ℕ) where
  abbrev pub Sorted : List A → Type ℓ
  Sorted [] = Unit
  Sorted (x ∷ xs) = All (λ y. key x ≤ key y) xs × Sorted xs

  insert_by-Sorted : (x : A) (xs : List A) → Sorted xs → Sorted (insert_by key x xs)
  unfolding insert_by
  insert_by-Sorted x [] h = (tt, tt)
  insert_by-Sorted x (y ∷ ys) h = elim (Bool-cases (leb (key x) (key y))) [
    | inl e ↦ rw e ((ground (arith, e), All-map (λ z l. ground (arith, e, l)) ys h.0), h)
    | inr e ↦ rw e (
      insert_by-All key (λ z. key y ≤ key z) x ys (ground (arith, e)) h.0,
      insert_by-Sorted x ys h.1,
    )
  ]

  pub order_by-Sorted : (xs : List A) → Sorted (order_by key xs)
  unfolding order_by
  order_by-Sorted [] = tt
  order_by-Sorted (x ∷ xs) = insert_by-Sorted x (order_by key xs) (order_by-Sorted xs)

  past :
      {z y x : A} {ys rest : List A}
      → (In z (x ∷ ys) → In z rest)
      → In z (x ∷ y ∷ ys)
      → In z (y ∷ rest)
  past f here = there (f here)
  past f (there here) = here
  past f (there (there m)) = there (f (there m))

  insert_by-In : (x z : A) (xs : List A) → In z (x ∷ xs) → In z (insert_by key x xs)
  unfolding insert_by
  insert_by-In x z [] m = m
  insert_by-In x z (y ∷ ys) m = elim (Bool-cases (leb (key x) (key y))) [
    | inl e ↦ rw e m
    | inr e ↦ rw e (past (insert_by-In x z ys) m)
  ]

  pub order_by-In : (z : A) (xs : List A) → In z xs → In z (order_by key xs)
  unfolding order_by
  order_by-In z [] m = m
  order_by-In z (x ∷ xs) here = insert_by-In x z (order_by key xs) here
  order_by-In z (x ∷ xs) (there m) = insert_by-In x z (order_by key xs) (there (order_by-In z xs m))

module _ {ℓ κ} {A : Type ℓ} (P : A → Type κ) where
  pub order_by-All : (key : A → ℕ) (xs : List A) → All P xs → All P (order_by key xs)
  unfolding order_by
  order_by-All key [] h = tt
  order_by-All key (x ∷ xs) h =
      insert_by-All key P x (order_by key xs) h.0 (order_by-All key xs h.1)

  pub take-All : (n : ℕ) (xs : List A) → All P xs → All P (take n xs)
  take-All zero xs h = tt
  take-All (suc n) [] h = tt
  take-All (suc n) (x ∷ xs) h = (h.0, take-All n xs h.1)

  pub select-All :
      (p : A → Bool) (xs : List A) → All P xs → All (λ x. P x × (p x ≡ true)) (select p xs)
  select-All p [] h = tt
  select-All p (x ∷ xs) h = elim (Bool-cases (p x)) [
    | inl e ↦ rw e ((h.0, e), select-All p xs h.1)
    | inr e ↦ rw e (select-All p xs h.1)
  ]

module _ {ℓ} {A : Type ℓ} where
  pub select-In : (p : A → Bool) (z : A) (xs : List A) → In z xs → p z ≡ true → In z (select p xs)
  select-In p z [] m h = m
  select-In p z (x ∷ xs) here h = rw h here
  select-In p z (x ∷ xs) (there m) h = elim (Bool-cases (p x)) [
    | inl e ↦ rw e (there (select-In p z xs m h))
    | inr e ↦ rw e (select-In p z xs m h)
  ]

  -- A selection from a sorted list is sorted.
  pub select-Sorted :
      (key : A → ℕ) (p : A → Bool) (xs : List A) → Sorted key xs → Sorted key (select p xs)
  select-Sorted key p [] h = tt
  select-Sorted key p (x ∷ xs) h = elim (Bool-cases (p x)) [
    | inl e ↦ rw e (
      All-map (λ y. λ k. k.0) _ (select-All (λ y. key x ≤ key y) p xs h.0),
      select-Sorted key p xs h.1,
    )
    | inr e ↦ rw e (select-Sorted key p xs h.1)
  ]

  -- An item of a sorted list is among the first n, or n items before it, none greater, are taken.
  pub take-cut :
      (key : A → ℕ) (n : ℕ) (z : A) (xs : List A)
      → Sorted key xs
      → In z xs
      → In z (take n xs) ⊎ (length (take n xs) ≡ n) × All (λ y. key y ≤ key z) (take n xs)
  take-cut key zero z xs s m = inr (omega arith, tt)
  take-cut key (suc n) z [] s m = inl m
  take-cut key (suc n) z (x ∷ xs) s here = inl here
  take-cut key (suc n) z (x ∷ xs) s (there m) = elim (take-cut key n z xs s.1 m) [
    | inl k ↦ inl (there k)
    | inr (l, h) ↦ inr (omega (arith, l), (All-In (λ y. key x ≤ key y) m s.0, h))
  ]
