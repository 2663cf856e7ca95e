-- ===== src/Ingestion/Chunker.antt =====
-- ingestion/chunker.py: diarized transcripts are cut into chunks of whole lines, with offsets into
-- the original text.
pub mod Lines
pub mod Spans
pub mod Segments
use think_tank.Prelude.{
  ℕ, zero, suc, ◌+◌, ◌-◌, Bool, true, false, not, ◌&&◌, ◌||◌, Option, none, some, List, [], ◌∷◌,
  ltb, leb, ◌==◌, if◌then◌else◌, length, take, drop, codes, starts_with, same, word_count, is_blank,
}

abbrev pub target_words : ℕ
target_words = 350

abbrev pub min_turn_words : ℕ
min_turn_words = 25

pub record Chunk : Type 0 where
  pub index : ℕ
  pub speaker_label : Option (List ℕ)
  pub text : List ℕ
  pub char_start : ℕ
  pub char_end : ℕ

-- `s[a:b]` for 0 ≤ a ≤ b
unfoldable pub slice : List ℕ → ℕ → ℕ → List ℕ
slice s a b = take (b - a) (drop a s)

abbrev pub prefix_with : ℕ → Option (List ℕ) → Option (List ℕ)
prefix_with c none = none
prefix_with c (some p) = some (c ∷ p)

-- What stands before the first ": ", if there is one.
unfoldable pub before_colon : List ℕ → Option (List ℕ)
before_colon [] = none
before_colon (c ∷ s) =
    let rest = before_colon s in
    if c == b':' && starts_with (codes " ") s then some [] else prefix_with c rest

-- The label of `_split_line`.
unfoldable pub label_of : List ℕ → Option (List ℕ)
unfolding before_colon
label_of line = elim (before_colon line) [
  | none ↦ none
  | some p ↦ if starts_with (codes "Speaker ") p && leb (length p) 24 then some p else none
]

-- Nothing of the first line is lost: the character goes in front of it.
abbrev pub onto_first : ℕ → List (List ℕ) → List (List ℕ)
onto_first c [] = (c ∷ []) ∷ []
onto_first c (line ∷ lines) = (c ∷ line) ∷ lines

-- `text.split("\n")`
unfoldable pub split_lines : List ℕ → List (List ℕ)
split_lines [] = [] ∷ []
split_lines (c ∷ s) =
    let lines = split_lines s in if c == 10 then [] ∷ lines else onto_first c lines

pub record Span : Type 0 where
  pub start : ℕ
  pub end : ℕ
  pub label : Option (List ℕ)
  pub line : List ℕ

-- The spans of the lines that are not blank, from offset `at` on.
unfoldable pub spans_from : ℕ → List (List ℕ) → List Span
spans_from at [] = []
spans_from at (line ∷ lines) =
    let rest = spans_from (at + length line + 1) lines in
    if is_blank line
    then rest
    else record { start = at; end = at + length line; label = label_of line; line = line } ∷ rest

unfoldable pub line_spans : List ℕ → List Span
unfolding spans_from split_lines
line_spans body = spans_from 0 (split_lines body)

-- The chunk under construction: `cur_start`, `cur_end`, `cur_label` and `cur_words`.
pub record Open : Type 0 where
  pub start : ℕ
  pub end : ℕ
  pub label : Option (List ℕ)
  pub words : ℕ

unfoldable pub words_of : Span → ℕ
words_of s = word_count s.line

unfoldable pub open_at : Span → Open
open_at s = record { start = s.start; end = s.end; label = s.label; words = words_of s }

abbrev pub label_or : Option (List ℕ) → Option (List ℕ) → Option (List ℕ)
label_or none label = label
label_or (some l) label = some l

unfoldable pub extend : Open → Span → Open
extend o s = record {
  start = o.start;
  end = s.end;
  label = label_or o.label s.label;
  words = o.words + words_of s;
}

unfoldable pub same_label : Option (List ℕ) → Option (List ℕ) → Bool
same_label none none = true
same_label (some a) (some b) = same a b
same_label _ _ = false

-- `speaker_changed or over_budget`
unfoldable pub must_flush : Open → Span → Bool
unfolding same_label
must_flush o s =
    (not (same_label s.label o.label) && leb min_turn_words (words_of s))
    || (ltb target_words (o.words + words_of s) && ltb 0 o.words)

-- `_flush`; the index is the number of chunks so far.
unfoldable pub close : List ℕ → ℕ → Open → Chunk
close body index o = record {
  index = index;
  speaker_label = o.label;
  text = slice body o.start o.end;
  char_start = o.start;
  char_end = o.end;
}

-- The loop over the spans: the chunks from number `index` on.
unfoldable pub chunks_from : List ℕ → ℕ → Option Open → List Span → List Chunk
unfolding must_flush close open_at extend
chunks_from body index none [] = []
chunks_from body index (some o) [] = close body index o ∷ []
chunks_from body index none (s ∷ spans) = chunks_from body index (some (open_at s)) spans
chunks_from body index (some o) (s ∷ spans) = elim (must_flush o s) [
  | true ↦ close body index o ∷ chunks_from body (index + 1) (some (open_at s)) spans
  | false ↦ chunks_from body index (some (extend o s)) spans
]

unfoldable pub chunk_transcript : List ℕ → List Chunk
unfolding chunks_from line_spans
chunk_transcript body = if is_blank body then [] else chunks_from body 0 none (line_spans body)
