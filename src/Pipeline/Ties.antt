-- ===== src/Pipeline/Ties.antt =====
-- What the database answers to ORDER BY created_at DESC: one list only, when no two rows tie.
use mathlib.Core.List.{Permᴰ}
use mathlib.Core.List.Permᴰ
use think_tank.Prelude.{
  ℕ, suc, ◌≤◌, ◌≡◌, ◌≢◌, ◌⊎◌, refl, sym, ap, ◌∙◌, subst, inl, inr, List, [], ◌∷◌, length, In, here,
  there, All, All-In, All-of, arith,
}
use think_tank.Queue.Job.{Job}

abbrev pub Descending : List Job → Type 0
Descending [] = Unit
Descending (j ∷ js) = All (λ k. k.created_at ≤ j.created_at) js × Descending js

-- The same rows, newest first; rows of one time in any order.
abbrev pub Answers : List Job → List Job → Type 0
Answers rows out = Permᴰ rows out × Descending out

-- No two rows have the same `created_at`.
abbrev pub TieFree : List Job → Type 0
TieFree [] = Unit
TieFree (j ∷ js) = All (λ k. j.created_at ≢ k.created_at) js × TieFree js

All-perm : (P : Job → Type 0) {xs ys : List Job} → Permᴰ xs ys → All P xs → All P ys
All-perm P Permᴰ.nil h = tt
All-perm P (Permᴰ.cons e d) h = (subst P e h.0, All-perm P d h.1)
All-perm P (Permᴰ.swap e e') h = (subst P e' h.1.0, (subst P e h.0, h.1.1))
All-perm P (Permᴰ.trans d d') h = All-perm P d' (All-perm P d h)

pub length-perm : {xs ys : List Job} → Permᴰ xs ys → length xs ≡ length ys
length-perm Permᴰ.nil = refl
length-perm (Permᴰ.cons e d) = ap suc (length-perm d)
length-perm (Permᴰ.swap e e') = refl
length-perm (Permᴰ.trans d d') = length-perm d ∙ length-perm d'

abbrev Apart : Job → List Job → Type 0
Apart j = All (λ k. j.created_at ≢ k.created_at)

abbrev created : Job → ℕ
created j = j.created_at

TieFree-perm : {xs ys : List Job} → Permᴰ xs ys → TieFree xs → TieFree ys
TieFree-perm Permᴰ.nil h = tt
TieFree-perm (Permᴰ.cons {l₂ = l₂} e d) h =
    (subst (λ j. Apart j l₂) e (All-perm _ d h.0), TieFree-perm d h.1)
TieFree-perm (Permᴰ.swap {l = l} e e') h = (
  (λ p. h.0.0 (ap created e ∙ sym p ∙ sym (ap created e')), subst (λ j. Apart j l) e' h.1.0),
  (subst (λ j. Apart j l) e h.0.1, h.1.1),
)
TieFree-perm (Permᴰ.trans d d') h = TieFree-perm d' (TieFree-perm d h)

In-cases : {x y : Job} {ys : List Job} → In x (y ∷ ys) → (x ≡ y) ⊎ In x ys
In-cases here = inl refl
In-cases (there m) = inr m

-- The members of a permutation.
In-perm : (xs ys : List Job) → Permᴰ xs ys → All (λ y. In y xs) ys
In-perm xs ys d = All-perm (λ y. In y xs) d (All-of (λ y. In y xs) xs (λ x m. m))

-- A row of the tail is not the head.
tail-In :
    (x : Job) (xs ys : List Job) → Apart x xs → All (λ z. In z (x ∷ ys)) xs → All (λ z. In z ys) xs
tail-In x [] ys a h = tt
tail-In x (z ∷ zs) ys a h = (
  elim (In-cases h.0) [ inl e ↦ absurd (a.0 (ap created (sym e))) | inr m ↦ m ],
  tail-In x zs ys a.1 h.1,
)

module _ (x y : Job) (xs ys : List Job) where
  -- Two such lists of the same rows begin with the same row.
  heads :
      Descending (x ∷ xs)
      → Descending (y ∷ ys)
      → TieFree (y ∷ ys)
      → In x (y ∷ ys)
      → In y (x ∷ xs)
      → x ≡ y
  heads d d' t m n = elim (In-cases m) [
    | inl e ↦ e
    | inr i ↦ elim (In-cases n) [
      | inl e ↦ sym e
      | inr j ↦ absurd (
          All-In (λ k. y.created_at ≢ k.created_at) i t.0
            (omega (
              arith,
              All-In (λ k. k.created_at ≤ y.created_at) i d'.0,
              All-In (λ k. k.created_at ≤ x.created_at) j d.0,
            )))
    ]
  ]

ordered_unique :
    (xs ys : List Job)
    → Descending xs
    → Descending ys
    → TieFree xs
    → TieFree ys
    → All (λ x. In x ys) xs
    → All (λ y. In y xs) ys
    → xs ≡ ys
ordered_unique [] [] d d' t t' h k = refl
ordered_unique [] (y ∷ ys) d d' t t' h k = elim k.0 [ ]
ordered_unique (x ∷ xs) [] d d' t t' h k = elim h.0 [ ]
ordered_unique (x ∷ xs) (y ∷ ys) d d' t t' h k =
    let e = heads x y xs ys d d' t' h.0 k.0 in
    let h' = tail-In x xs ys t.0 (subst (λ z. All (λ x. In x (z ∷ ys)) xs) (sym e) h.1) in
    let k' = tail-In y ys xs t'.0 (subst (λ z. All (λ x. In x (z ∷ xs)) ys) e k.1) in
    ap (λ z. z ∷ xs) e ∙ ap (λ zs. y ∷ zs) (ordered_unique xs ys d.1 d'.1 t.1 t'.1 h' k')

-- Without ties two answers to one query are the same list.
pub Answers-unique :
    (rows xs ys : List Job) → TieFree rows → Answers rows xs → Answers rows ys → xs ≡ ys
Answers-unique rows xs ys t (p, d) (q, d') =
    ordered_unique xs ys d d' (TieFree-perm p t) (TieFree-perm q t)
      (In-perm ys xs (Permᴰ.trans (Permᴰ.symm q) p)) (In-perm xs ys (Permᴰ.trans (Permᴰ.symm p) q))
