-- ===== src/Ingestion/Chunker/Spans.antt =====
-- The spans are where the lines stand in the text.
use think_tank.Prelude.{
  ℕ, ◌+◌, ◌-◌, ◌≡◌, ◌≤◌, ◌⊎◌, refl, sym, ap, subst, ◌∙◌, false, not, map, select, Bool-cases, inl,
  inr, List, [], ◌∷◌, ◌++◌, length, length-append, take, drop, All, arith, is_blank,
}
use mathlib.Core.List.{append_assoc, append-nil}
use think_tank.Ingestion.Chunker.{Span, slice, split_lines, spans_from, line_spans}
use think_tank.Ingestion.Chunker.Lines.{
  join_lines, IsOneLine, split_lines-cons, join-split_lines, split_lines-IsOneLine,
  split-join_lines, spans_from-lines,
}

drop-append : (pre post : List ℕ) → drop (length pre) (pre ++ post) ≡ post
drop-append [] post = refl
drop-append (c ∷ pre) post = drop-append pre post

take-append : (mid post : List ℕ) → take (length mid) (mid ++ post) ≡ mid
take-append [] post = refl
take-append (c ∷ mid) post = ap (λ r. c ∷ r) (take-append mid post)

slice-append :
    (pre mid post : List ℕ)
    → slice (pre ++ (mid ++ post)) (length pre) (length pre + length mid) ≡ mid
unfolding slice
slice-append pre mid post =
    let n : length pre + length mid - length pre ≡ length mid = omega arith in
    rw (drop-append pre (mid ++ post), n) (take-append mid post)

-- A line begins at the start of the text or behind a line feed, and ends before one or at the end.
abbrev pub Begins : List ℕ → ℕ → Type 0
Begins body at = (at ≡ 0) ⊎ (slice body (at - 1) at ≡ 10 ∷ [])

abbrev pub Ends : List ℕ → ℕ → Type 0
Ends body at = (at ≡ length body) ⊎ (slice body at (at + 1) ≡ 10 ∷ [])

-- The span of a whole line that is not blank, with its exact text.
pub record IsLine (body : List ℕ) (s : Span) : Type 0 where
  pub exact : slice body s.start s.end ≡ s.line
  pub has_text : is_blank s.line ≡ false
  pub measured : s.end ≡ s.start + length s.line
  pub one_line : IsOneLine s.line
  pub begins : Begins body s.start
  pub ends : Ends body s.end

-- The spans follow one another, with at least the newline between two of them.
abbrev pub InOrder : ℕ → List Span → Type 0
InOrder lo [] = Unit
InOrder lo (s ∷ spans) = (lo ≤ s.start) × InOrder (s.end + 1) spans

InOrder-weaken : (lo lo' : ℕ) (spans : List Span) → lo ≤ lo' → InOrder lo' spans → InOrder lo spans
InOrder-weaken lo lo' [] h o = tt
InOrder-weaken lo lo' (s ∷ spans) h o = (omega (arith, o.0), o.1)

spans_from-InOrder : (at : ℕ) (lines : List (List ℕ)) → InOrder at (spans_from at lines)
unfolding spans_from
spans_from-InOrder at [] = tt
spans_from-InOrder at (line ∷ lines) =
    let rest = spans_from-InOrder (at + length line + 1) lines in
    elim (Bool-cases (is_blank line)) [
      | inl e ↦ rw e (
          InOrder-weaken at (at + length line + 1) (spans_from (at + length line + 1) lines)
            (omega arith) rest)
      | inr e ↦ rw e (omega arith, rest)
    ]

-- The next line's text starts behind this line and its newline.
step_line :
    (pre line rest body : List ℕ)
    → body ≡ pre ++ (line ++ (10 ∷ rest))
    → (body ≡ (pre ++ (line ++ (10 ∷ []))) ++ rest)
      × (length (pre ++ (line ++ (10 ∷ []))) ≡ length pre + length line + 1)
step_line pre line rest body h = (
  h ∙ simp append_assoc,
  omega (arith, length-append pre (line ++ (10 ∷ [])), length-append line (10 ∷ [])),
)

first_line :
    (pre line rest body : List ℕ)
    → body ≡ pre ++ (line ++ rest)
    → slice body (length pre) (length pre + length line) ≡ line
first_line pre line rest body h = rw h (slice-append pre line rest)

-- What stands around the line feed behind a line.
around_newline :
    (pre line rest body : List ℕ)
    → body ≡ pre ++ (line ++ (10 ∷ rest))
    → slice body (length pre + length line) (length pre + length line + 1) ≡ 10 ∷ []
around_newline pre line rest body h =
    let e : body ≡ (pre ++ line) ++ ((10 ∷ []) ++ rest) =
      h ∙ sym (append_assoc pre line (10 ∷ rest)) in
    let n : length (pre ++ line) ≡ length pre + length line = length-append pre line in
    rw e (
      subst (λ k. slice ((pre ++ line) ++ ((10 ∷ []) ++ rest)) k (k + 1) ≡ 10 ∷ []) n
        (slice-append (pre ++ line) (10 ∷ []) rest))

last_line-Ends :
    (pre line body : List ℕ) → body ≡ pre ++ (line ++ []) → Ends body (length pre + length line)
last_line-Ends pre line body h =
    inl (rw h (omega (arith, length-append pre (line ++ []), length-append line [])))

spans_from-IsLine :
    (body pre : List ℕ) (at : ℕ) (lines : List (List ℕ))
    → at ≡ length pre
    → body ≡ pre ++ join_lines lines
    → Begins body at
    → All IsOneLine lines
    → All (IsLine body) (spans_from at lines)
unfolding spans_from join_lines
spans_from-IsLine body pre at [] a h begins one = tt
spans_from-IsLine body pre at (line ∷ []) a h begins one = elim (Bool-cases (is_blank line)) [
  | inl e ↦ rw e tt
  | inr e ↦
      let whole : body ≡ pre ++ (line ++ []) = rw append-nil h in
      rw e (
        record {
          exact = rw a (first_line pre line [] body whole);
          has_text = e;
          measured = refl;
          one_line = one.0;
          begins = begins;
          ends = rw a (last_line-Ends pre line body whole);
        },
        tt,
      )
]
spans_from-IsLine body pre at (line ∷ next ∷ lines) a h begins one =
    let (h', n) = step_line pre line (join_lines (next ∷ lines)) body h in
    let feed = around_newline pre line (join_lines (next ∷ lines)) body h in
    let ends : slice body (at + length line) (at + length line + 1) ≡ 10 ∷ [] = rw a feed in
    let back : at + length line + 1 - 1 ≡ at + length line = omega arith in
    let rest =
      spans_from-IsLine body (pre ++ (line ++ (10 ∷ []))) (at + length line + 1) (next ∷ lines)
        (omega (arith, a, n)) h' (inr (rw back ends)) one.1 in
    elim (Bool-cases (is_blank line)) [
      | inl e ↦ rw e rest
      | inr e ↦ rw e (
        record {
          exact = rw a (first_line pre line (10 ∷ join_lines (next ∷ lines)) body h);
          has_text = e;
          measured = refl;
          one_line = one.0;
          begins = begins;
          ends = inr ends;
        },
        rest,
      )
    ]

-- Each span is a whole line of the text that is not blank, from the start of the text or a line feed
-- to the next line feed or the end, at its exact offsets, and the spans follow one another in the
-- text without touching. None is left out: when the text is put together from lines without line
-- feeds, with a line feed between each two, the lines of the spans are those of them that are not
-- blank, in their order; and every text is put together from such lines.
pub line_spans-IsLine :
    (body : List ℕ)
    → All (IsLine body) (line_spans body)
      × InOrder 0 (line_spans body)
      × ((line : List ℕ) (lines : List (List ℕ))
          → All IsOneLine (line ∷ lines)
          → join_lines (line ∷ lines) ≡ body
          → map (λ s. s.line) (line_spans body) ≡ select (λ l. not (is_blank l)) (line ∷ lines))
      × ((line : List ℕ) × (lines : List (List ℕ)) × All IsOneLine (line ∷ lines)
          × (join_lines (line ∷ lines) ≡ body))
unfolding line_spans
line_spans-IsLine body =
    let (l, ls, q) = split_lines-cons body in
    (
      spans_from-IsLine body [] 0 (split_lines body) refl (sym (join-split_lines body)) (inl refl)
          (split_lines-IsOneLine body),
      spans_from-InOrder 0 (split_lines body),
      λ line lines one h.
          spans_from-lines 0 (split_lines body)
          ∙ ap (select (λ x. not (is_blank x)))
              (ap split_lines (sym h) ∙ split-join_lines line lines one),
      (
        l,
        ls,
        subst (All IsOneLine) q (split_lines-IsOneLine body),
        ap join_lines (sym q) ∙ join-split_lines body,
      ),
    )
