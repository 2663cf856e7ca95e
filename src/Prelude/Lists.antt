-- ===== src/Prelude/Lists.antt =====
-- Lists measured by native numbers, under the library's names, and predicates on lists.
use Prim.Native.Nat.{ℕ, zero, suc, ◌+◌, ◌≤◌, min}
use mathlib.Core.Path.{◌≡◌, refl, subst}
use mathlib.Core.Bool.{Bool, true, false, ◌||◌}
use mathlib.Core.List.{List, [], ◌∷◌, ◌++◌}
use native.Mathlib.Omega.{arith}
use mathlib.Core.Option.{Option, none, some}
use think_tank.Prelude.Tests.{if◌then◌else◌, ◌==◌, ==_self, ==_iff, Bool-cases}
use mathlib.Core.Logic.{inl, inr}

module _ {ℓ} {A : Type ℓ} where
  abbrev pub length : List A → ℕ
  length [] = 0
  length (x ∷ xs) = suc (length xs)

  abbrev pub take : ℕ → List A → List A
  take zero xs = []
  take (suc n) [] = []
  take (suc n) (x ∷ xs) = x ∷ take n xs

  abbrev pub drop : ℕ → List A → List A
  drop zero xs = xs
  drop (suc n) [] = []
  drop (suc n) (x ∷ xs) = drop n xs

  -- The items that pass a Boolean test, in order.
  abbrev pub select : (A → Bool) → List A → List A
  select p [] = []
  select p (x ∷ xs) = let rest = select p xs in if p x then x ∷ rest else rest

  -- How many items pass.
  abbrev pub tally : (A → Bool) → List A → ℕ
  tally p [] = 0
  tally p (x ∷ xs) = let rest = tally p xs in if p x then suc rest else rest

  -- The row with this key, and the UPDATE of the rows with this key.
  abbrev pub find_by : (A → ℕ) → ℕ → List A → Option A
  find_by key i [] = none
  find_by key i (x ∷ xs) = let rest = find_by key i xs in if key x == i then some x else rest

  abbrev pub update_by : (A → ℕ) → ℕ → (A → A) → List A → List A
  update_by key i f [] = []
  update_by key i f (x ∷ xs) = (if key x == i then f x else x) ∷ update_by key i f xs

  abbrev pub any : (A → Bool) → List A → Bool
  any p [] = false
  any p (x ∷ xs) = p x || any p xs

  pub find_by-key :
      (key : A → ℕ) (i : ℕ) (xs : List A) (x : A) → find_by key i xs ≡ some x → key x ≡ i
  find_by-key key i [] x h = cc
  find_by-key key i (y ∷ ys) x h = elim (Bool-cases (key y == i)) [
    | inl e ↦ found e (ground (arith, e))
    | inr e ↦ find_by-key key i ys x (ground (arith, e))
  ]
    where
      found : (key y == i) ≡ true → y ≡ x → key x ≡ i
      found e p = subst (λ z. key z ≡ i) p ((==_iff (key y) i).0 e)

  pub find_by-update_by :
      (key : A → ℕ) (i : ℕ) (xs : List A) (x y : A)
      → key y ≡ i
      → find_by key i xs ≡ some x
      → find_by key i (update_by key i (λ _. y) xs) ≡ some y
  find_by-update_by key i [] x y k h = cc
  find_by-update_by key i (z ∷ zs) x y k h =
      ground (arith, ==_self i, k, find_by-update_by key i zs x y k)

  pub length-append : (xs ys : List A) → length (xs ++ ys) ≡ length xs + length ys
  length-append [] ys = omega arith
  length-append (x ∷ xs) ys = omega (arith, length-append xs ys)

  pub length-take : (n : ℕ) (xs : List A) → length (take n xs) ≡ min n (length xs)
  length-take zero xs = omega arith
  length-take (suc n) [] = omega arith
  length-take (suc n) (x ∷ xs) = omega (arith, length-take n xs)

  pub tally-append : (p : A → Bool) (xs ys : List A) → tally p (xs ++ ys) ≡ tally p xs + tally p ys
  tally-append p [] ys = omega arith
  tally-append p (x ∷ xs) ys = ground (arith, tally-append p xs ys)

  pub any-append : (p : A → Bool) (xs ys : List A) → any p (xs ++ ys) ≡ (any p xs || any p ys)
  any-append p [] ys = refl
  any-append p (x ∷ xs) ys = ground (arith, any-append p xs ys)

  -- What no item passes counts 0.
  pub tally-none : (p : A → Bool) (xs : List A) → any p xs ≡ false → tally p xs ≡ 0
  tally-none p [] h = refl
  tally-none p (x ∷ xs) h = ground (arith, tally-none p xs)

  -- An item that passes as the first one is the only one.
  pub tally-fresh :
      (p : A → Bool) (xs : List A) (x : A)
      → (p x ≡ true → any p xs ≡ false)
      → tally p xs ≤ 1
      → tally p (xs ++ x ∷ []) ≤ 1
  tally-fresh p xs x h k = elim (Bool-cases (p x)) [
    | inl e ↦ ground (arith, e, tally-append p xs (x ∷ []), tally-none p xs (h e))
    | inr e ↦ ground (arith, e, k, tally-append p xs (x ∷ []))
  ]

  pub tally-le-length : (p : A → Bool) (xs : List A) → tally p xs ≤ length xs
  tally-le-length p [] = omega arith
  tally-le-length p (x ∷ xs) = ground (arith, tally-le-length p xs)

module _ {ℓ κ} {A : Type ℓ} where
  -- Every item satisfies `P`.
  abbrev pub All : (A → Type κ) → List A → Type κ
  All P [] = Unit
  All P (x ∷ xs) = P x × All P xs

module _ {ℓ} {A : Type ℓ} where
  -- `x` stands in the list, with its place kept.
  pub data In (x : A) : List A → Type ℓ where
    here : {xs : List A} → In x (x ∷ xs)
    there : {y : A} {xs : List A} → In x xs → In x (y ∷ xs)

pub All-In {ℓ κ} : {A : Type ℓ} (P : A → Type κ) {x : A} {xs : List A} → In x xs → All P xs → P x
All-In P here h = h.0
All-In P (there m) h = All-In P m h.1

pub All-append {ℓ κ} :
    {A : Type ℓ} (P : A → Type κ) (xs ys : List A) → All P xs × All P ys → All P (xs ++ ys)
All-append P [] ys (h, k) = k
All-append P (x ∷ xs) ys ((p, h), k) = (p, All-append P xs ys (h, k))

pub All-of {ℓ κ} :
    {A : Type ℓ} (P : A → Type κ) (xs : List A) → ((x : A) → In x xs → P x) → All P xs
All-of P [] h = tt
All-of P (x ∷ xs) h = (h x here, All-of P xs (λ y m. h y (there m)))

pub All-map {ℓ κ μ} :
    {A : Type ℓ} {P : A → Type κ} {Q : A → Type μ}
    → ((x : A) → P x → Q x)
    → (xs : List A) → All P xs
    → All Q xs
All-map f [] h = tt
All-map f (x ∷ xs) h = (f x h.0, All-map f xs h.1)
