-- ===== src/Episodes/Matcher/Reference.antt =====
-- The matches as a list, one thinker after the other.
use think_tank.Prelude.{
  ℕ, ◌≡◌, ◌≢◌, ◌⊎◌, refl, sym, ap, subst, ◌∙◌, inl, inr, String, Option, none, some, List, [], ◌∷◌,
  ◌++◌, ==_false, codes, Bool, true, false, ◌||◌, In, here, there, All, All-map, All-append,
  Bool-cases, arith, Option-cases,
}
use mathlib.Core.List.{append-nil, append_assoc}
use think_tank.Episodes.Matcher.{
  Named, Match, is_owner, search_name, match_thinker, put_match, match_from, match_thinkers_in_text,
}

-- No two thinkers have the same id.
abbrev pub DistinctIds : List Named → Type 0
DistinctIds [] = Unit
DistinctIds (t ∷ ts) = All (λ u. t.id ≢ u.id) ts × DistinctIds ts

abbrev pub found : Option Match → List Match → List Match
found none ms = ms
found (some m) ms = m ∷ ms

-- The thinkers that match, each once, in their order.
abbrev pub collect : (Named → Option Match) → List Named → List Match
collect f [] = []
collect f (t ∷ ts) = found (f t) (collect f ts)

put_match-new :
    (m : Match) (ms : List Match)
    → All (λ n. n.thinker_id ≢ m.thinker_id) ms
    → put_match m ms ≡ ms ++ m ∷ []
unfolding put_match
put_match-new m [] h = refl
put_match-new m (n ∷ ms) h =
    rw (==_false n.thinker_id m.thinker_id h.0) (ap (λ xs. n ∷ xs) (put_match-new m ms h.1))

module _ (owner : Option String) (title description : List ℕ) where
  -- The thinker that a match is of, and why it matches with this role and confidence.
  abbrev pub Grades : Match → Named → Type 0
  Grades m t =
      (m.thinker_id ≡ t.id)
      × (((is_owner owner t.name ≡ true) × (m.role ≡ "primary") × (m.confidence ≡ 10))
          ⊎ ((is_owner owner t.name ≡ false)
              × (m.role ≡ "guest")
              × (((search_name (codes t.name) none title ≡ true) × (m.confidence ≡ 9))
                  ⊎ ((search_name (codes t.name) none title ≡ false)
                      × (search_name (codes t.name) none description ≡ true)
                      × (m.confidence ≡ 6)))))

  -- The thinker owns the source, or the title or the description names it.
  abbrev pub is_mentioned : Named → Bool
  is_mentioned t =
      is_owner owner t.name
      || search_name (codes t.name) none title
      || search_name (codes t.name) none description

  abbrev Explains : Named → Option Match → Type 0
  Explains t none = is_mentioned t ≡ false
  Explains t (some m) = Grades m t

  match_thinker-Explains : (t : Named) → Explains t (match_thinker owner title description t)
  unfolding match_thinker
  match_thinker-Explains t = elim (Bool-cases (is_owner owner t.name)) [
    | inl e ↦ rw e (refl, inl (e, refl, refl))
    | inr e ↦ rw e (elim (Bool-cases (search_name (codes t.name) none title)) [
      | inl s ↦ rw s (refl, inr (e, refl, inl (s, refl)))
      | inr s ↦ rw s (elim (Bool-cases (search_name (codes t.name) none description)) [
        | inl d ↦ rw d (refl, inr (e, refl, inr (s, d, refl)))
        | inr d ↦ rw d (ground (arith, e, s, d))
      ])
    ])
  ]

  -- The results so far are of other thinkers.
  abbrev Apart : List Match → List Named → Type 0
  Apart ms ts = All (λ n. All (λ t. n.thinker_id ≢ t.id) ts) ms

  match_from-collect :
      (ts : List Named) (ms : List Match)
      → DistinctIds ts
      → Apart ms ts
      → match_from owner title description ts ms
        ≡ ms ++ collect (match_thinker owner title description) ts
  unfolding match_from
  match_from-collect [] ms d h = sym (append-nil ms)
  match_from-collect (t ∷ ts) ms d h =
      elim (Option-cases (match_thinker owner title description t)) [
        | inl e ↦ rw (e, match_from) (match_from-collect ts ms d.1 (All-map (λ n k. k.1) ms h))
        | inr (m, e) ↦
            let (same, _) = subst (Explains t) e (match_thinker-Explains t) in
            rw (e, match_from)
              (rw (put_match-new m ms (All-map (λ n k. rw same k.0) ms h)) (
                match_from-collect ts (ms ++ m ∷ []) d.1
                  (All-append _ ms (m ∷ []) (All-map (λ n k. k.1) ms h, (rw same d.0, tt)))
                ∙ append_assoc ms (m ∷ []) _))
      ]

  -- Each match is of a thinker of the list, and each mentioned thinker has a match.
  abbrev pub Graded : List Named → List Match → Type 0
  Graded ts ms =
      All (λ m. (t : Named) × In t ts × Grades m t) ms
      × All (λ t. is_mentioned t ≡ true → (m : Match) × In m ms × Grades m t) ts

  collect-Graded :
      (ts : List Named) → Graded ts (collect (match_thinker owner title description) ts)
  collect-Graded [] = (tt, tt)
  collect-Graded (t ∷ ts) =
      let f = match_thinker owner title description in
      let (sound, complete) = collect-Graded ts in
      let later =
        All-map {P = λ m. (u : Named) × In u ts × Grades m u}
          {Q = λ m. (u : Named) × In u (t ∷ ts) × Grades m u} (λ m (u, i, g). (u, there i, g)) _
          sound in
      let back = λ (o : Option Match). Graded (t ∷ ts) (found o (collect f ts)) in
      elim (Option-cases (f t)) [
        | inl e ↦
            let h = subst (Explains t) e (match_thinker-Explains t) in
            subst back (sym e) (later, ((λ k. (cc)), complete))
        | inr (m, e) ↦
            let g = subst (Explains t) e (match_thinker-Explains t) in
            subst back (sym e) (
              ((t, here, g), later),
              (
                (λ k. (m, here, g)),
                All-map
                    {P = λ u.
                      is_mentioned u ≡ true → (n : Match) × In n (collect f ts) × Grades n u}
                    {Q = λ u.
                      is_mentioned u ≡ true → (n : Match) × In n (m ∷ collect f ts) × Grades n u}
                    (λ u g k. let (n, i, h) = g k in (n, there i, h)) ts complete,
              ),
            )
      ]

-- For thinkers with different ids the dictionary that the matcher fills is the list of the matches
-- in the thinkers' order, one for each thinker that is the owner or is named in the title or in the
-- description, and no other. The owner's match has the role 'primary' and confidence 10; for any
-- other thinker the role is 'guest', and the confidence is 9 when the title names it and 6 when only
-- the description does.
pub match_thinkers_in_text-collect :
    (title description : String) (ts : List Named) (owner : Option String)
    → DistinctIds ts
    → (match_thinkers_in_text title description ts owner
        ≡ collect (match_thinker owner (codes title) (codes description)) ts)
      × Graded owner
          (codes title)
          (codes description)
          ts
          (match_thinkers_in_text title description ts owner)
unfolding match_thinkers_in_text
match_thinkers_in_text-collect title description ts owner d =
    let e = match_from-collect owner (codes title) (codes description) ts [] d tt in
    (e, rw e (collect-Graded owner (codes title) (codes description) ts))
