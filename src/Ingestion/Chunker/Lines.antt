-- ===== src/Ingestion/Chunker/Lines.antt =====
-- `split("\n")` and the lines that it finds.
use think_tank.Prelude.{
  ℕ, ◌+◌, ◌≡◌, refl, sym, ap, ◌∙◌, false, not, map, select, Bool-cases, inl, inr, List, [], ◌∷◌,
  ◌++◌, ◌==◌, ==_iff, length, All, is_blank,
}
use think_tank.Ingestion.Chunker.{split_lines, onto_first, spans_from}

-- `"\n".join(lines)`; 10 is the line feed.
unfoldable pub join_lines : List (List ℕ) → List ℕ
join_lines [] = []
join_lines (line ∷ []) = line
join_lines (line ∷ next ∷ lines) = line ++ (10 ∷ join_lines (next ∷ lines))

pub split_lines-cons : (s : List ℕ) → (l : List ℕ) × (ls : List (List ℕ)) × (split_lines s ≡ l ∷ ls)
unfolding split_lines
split_lines-cons [] = ([], [], refl)
split_lines-cons (c ∷ s) = elim (Bool-cases (c == 10)) [
  | inl e ↦ ([], split_lines s, rw e)
  | inr e ↦ let (l, ls, q) = split_lines-cons s in (c ∷ l, ls, rw (e, q))
]

join-onto_first :
    (c : ℕ) (l : List ℕ) (ls : List (List ℕ))
    → join_lines (onto_first c (l ∷ ls)) ≡ c ∷ join_lines (l ∷ ls)
unfolding join_lines
join-onto_first c l [] = refl
join-onto_first c l (m ∷ ls) = refl

join-blank_line :
    (l : List ℕ) (ls : List (List ℕ)) → join_lines ([] ∷ l ∷ ls) ≡ 10 ∷ join_lines (l ∷ ls)
unfolding join_lines
join-blank_line l ls = refl

pub join-split_lines : (s : List ℕ) → join_lines (split_lines s) ≡ s
unfolding split_lines
join-split_lines [] = unfold join_lines in refl
join-split_lines (c ∷ s) =
    let (l, ls, q) = split_lines-cons s in
    let ih : join_lines (l ∷ ls) ≡ s = sym (ap join_lines q) ∙ join-split_lines s in
    elim (Bool-cases (c == 10)) [
      | inl e ↦
          let n : 10 ≡ c = sym ((==_iff c 10).0 e) in rw (e, q) (join-blank_line l ls ∙ cc (ih, n))
      | inr e ↦ rw (e, q) (join-onto_first c l ls ∙ ap (λ r. c ∷ r) ih)
    ]

-- A text without a line feed.
abbrev pub IsOneLine : List ℕ → Type 0
IsOneLine line = All (λ c. (c == 10) ≡ false) line

onto_first-IsOneLine :
    (c : ℕ) (lines : List (List ℕ))
    → (c == 10) ≡ false
    → All IsOneLine lines
    → All IsOneLine (onto_first c lines)
onto_first-IsOneLine c [] e h = ((e, tt), tt)
onto_first-IsOneLine c (line ∷ lines) e h = ((e, h.0), h.1)

pub split_lines-IsOneLine : (s : List ℕ) → All IsOneLine (split_lines s)
unfolding split_lines
split_lines-IsOneLine [] = (tt, tt)
split_lines-IsOneLine (c ∷ s) = elim (Bool-cases (c == 10)) [
  | inl e ↦ rw e (tt, split_lines-IsOneLine s)
  | inr e ↦ rw e (onto_first-IsOneLine c (split_lines s) e (split_lines-IsOneLine s))
]

split_lines-line : (line : List ℕ) → IsOneLine line → split_lines line ≡ line ∷ []
unfolding split_lines
split_lines-line [] h = refl
split_lines-line (c ∷ line) h = rw h.0 (rw (split_lines-line line h.1) refl)

split_lines-append :
    (line s : List ℕ) → IsOneLine line → split_lines (line ++ (10 ∷ s)) ≡ line ∷ split_lines s
unfolding split_lines
split_lines-append [] s h = refl
split_lines-append (c ∷ line) s h = rw h.0 (rw (split_lines-append line s h.1) refl)

-- Lines that are put together are found again.
pub split-join_lines :
    (line : List ℕ) (lines : List (List ℕ))
    → All IsOneLine (line ∷ lines)
    → split_lines (join_lines (line ∷ lines)) ≡ line ∷ lines
unfolding join_lines
split-join_lines line [] h = split_lines-line line h.0
split-join_lines line (next ∷ lines) h =
    split_lines-append line (join_lines (next ∷ lines)) h.0
    ∙ ap (λ ls. line ∷ ls) (split-join_lines next lines h.1)

pub spans_from-lines :
    (at : ℕ) (lines : List (List ℕ))
    → map (λ s. s.line) (spans_from at lines) ≡ select (λ l. not (is_blank l)) lines
unfolding spans_from
spans_from-lines at [] = refl
spans_from-lines at (line ∷ lines) = elim (Bool-cases (is_blank line)) [
  | inl e ↦ rw e (spans_from-lines (at + length line + 1) lines)
  | inr e ↦ rw e (ap (λ ls. line ∷ ls) (spans_from-lines (at + length line + 1) lines))
]
