-- ===== src/Ingestion/Chunker/Segments.antt =====
-- The chunks cut the sequence of lines into runs: nothing is lost, doubled or reordered.
use think_tank.Prelude.{
  ℕ, ◌+◌, ◌≡◌, sym, subst, ◌≤◌, ◌<◌, refl, ◌⊎◌, inl, inr, true, false, Bool-cases, none, some, List,
  [], ◌∷◌, ◌++◌, arith, All, All-map, is_blank, words_from, word_count,
}
use mathlib.Core.List.{append_assoc}
use think_tank.Ingestion.Chunker.{
  Chunk, Span, Open, slice, target_words, words_of, open_at, extend, must_flush, close, chunks_from,
  chunk_transcript, line_spans,
}
use think_tank.Ingestion.Chunker.Spans.{line_spans-IsLine}

abbrev pub sum_words : List Span → ℕ
sum_words [] = 0
sum_words (s ∷ spans) = words_of s + sum_words spans

abbrev pub last_end : Span → List Span → ℕ
last_end s [] = s.end
last_end s (t ∷ spans) = last_end t spans

-- A chunk made of the lines `first ∷ rest`.
pub record IsRun (body : List ℕ) (index : ℕ) (first : Span) (rest : List Span) (c : Chunk)
    : Type 0 where
  pub numbered : c.index ≡ index
  pub starts : c.char_start ≡ first.start
  pub ends : c.char_end ≡ last_end first rest
  pub verbatim : c.text ≡ slice body c.char_start c.char_end
  pub budget : (sum_words (first ∷ rest) ≤ target_words) ⊎ (rest ≡ [])

-- The chunks from number `index` on, and the lines that they are made of.
pub data Segments (body : List ℕ) : ℕ → List Span → List Chunk → Type 0 where
  finished : (index : ℕ) → Segments body index [] []
  run :
      {index : ℕ} {spans later : List Span} {cs : List Chunk} (first : Span) (rest : List Span)
      (c : Chunk)
      → IsRun body index first rest c
      → spans ≡ first ∷ (rest ++ later)
      → Segments body (index + 1) later cs
      → Segments body index spans (c ∷ cs)

-- The open chunk holds these lines.
record Holds (first : Span) (rest : List Span) (o : Open) : Type 0 where
  starts : o.start ≡ first.start
  ends : o.end ≡ last_end first rest
  counted : o.words ≡ sum_words (first ∷ rest)
  budget : (sum_words (first ∷ rest) ≤ target_words) ⊎ (rest ≡ [])

open_at-Holds : (s : Span) → Holds s [] (open_at s)
unfolding open_at
open_at-Holds s = record { starts = refl; ends = refl; counted = omega arith; budget = inr refl }

last_end-snoc :
    (first : Span) (rest : List Span) (s : Span) → last_end first (rest ++ s ∷ []) ≡ s.end
last_end-snoc first [] s = refl
last_end-snoc first (t ∷ rest) s = last_end-snoc t rest s

sum_words-snoc :
    (spans : List Span) (s : Span) → sum_words (spans ++ s ∷ []) ≡ sum_words spans + words_of s
sum_words-snoc [] s = omega arith
sum_words-snoc (t ∷ spans) s = omega (arith, sum_words-snoc spans s)

not_over :
    (o : Open) (s : Span)
    → 0 < o.words
    → must_flush o s ≡ false
    → o.words + words_of s ≤ target_words
unfolding must_flush
not_over o s pos e = ground arith

extend-Holds :
    (first : Span) (rest : List Span) (o : Open) (s : Span)
    → Holds first rest o
    → 0 < o.words
    → must_flush o s ≡ false
    → Holds first (rest ++ s ∷ []) (extend o s)
unfolding extend
extend-Holds first rest o s h pos e = record {
  starts = h.starts;
  ends = sym (last_end-snoc first rest s);
  counted = omega (arith, h.counted, sum_words-snoc (first ∷ rest) s);
  budget = inl (omega (arith, h.counted, sum_words-snoc (first ∷ rest) s, not_over o s pos e));
}

close-IsRun :
    (body : List ℕ) (index : ℕ) (first : Span) (rest : List Span) (o : Open)
    → Holds first rest o
    → IsRun body index first rest (close body index o)
unfolding close
close-IsRun body index first rest o h = record {
  numbered = refl;
  starts = h.starts;
  ends = h.ends;
  verbatim = refl;
  budget = h.budget;
}

-- A line that is not blank has a word.
words_pos : (line : List ℕ) → is_blank line ≡ false → 0 < words_from false line
unfolding words_from is_blank
words_pos [] h = cc
words_pos (c ∷ line) h = ground (arith, words_pos line)

open_pos : (s : Span) → is_blank s.line ≡ false → 0 < (open_at s).words
unfolding open_at words_of word_count
open_pos s h = words_pos s.line h

extend_pos : (o : Open) (s : Span) → 0 < o.words → 0 < (extend o s).words
unfolding extend
extend_pos o s h = omega arith

abbrev HasText : Span → Type 0
HasText s = is_blank s.line ≡ false

chunks_from-Segments :
    (body : List ℕ) (index : ℕ) (first : Span) (rest : List Span) (o : Open) (spans : List Span)
    → Holds first rest o
    → 0 < o.words
    → All HasText spans
    → Segments body index (first ∷ (rest ++ spans)) (chunks_from body index (some o) spans)
unfolding chunks_from
chunks_from-Segments body index first rest o [] h pos t =
    run first rest (close body index o) (close-IsRun body index first rest o h) refl
      (finished (index + 1))
chunks_from-Segments body index first rest o (s ∷ spans) h pos t =
    elim (Bool-cases (must_flush o s)) [
      | inl e ↦
          rw (e, chunks_from)
            (run first rest (close body index o) (close-IsRun body index first rest o h) refl (
              chunks_from-Segments body (index + 1) s [] (open_at s) spans (open_at-Holds s)
                (open_pos s t.0) t.1))
      | inr e ↦
          rw (e, chunks_from)
            (subst
              (λ r.
                Segments body index (first ∷ r) (chunks_from body index (some (extend o s)) spans))
              (append_assoc rest (s ∷ []) spans)
              (chunks_from-Segments body index first (rest ++ s ∷ []) (extend o s) spans
                (extend-Holds first rest o s h pos e) (extend_pos o s pos) t.1))
    ]

All-Segments :
    (body : List ℕ) (spans : List Span)
    → All HasText spans
    → Segments body 0 spans (chunks_from body 0 none spans)
unfolding chunks_from
All-Segments body [] t = finished 0
All-Segments body (s ∷ spans) t =
    chunks_from-Segments body 0 s [] (open_at s) spans (open_at-Holds s) (open_pos s t.0) t.1

-- The chunks of a text that is not blank, in order and numbered from 0, are made of consecutive
-- lines: every line that is not blank lies in exactly one of them; each chunk is the text between
-- the start of its first line and the end of its last, verbatim; and it holds at most 350 words,
-- unless it is a single line. A blank text has no chunks.
pub chunk_transcript-Segments :
    (body : List ℕ)
    → (is_blank body ≡ false → Segments body 0 (line_spans body) (chunk_transcript body))
      × (is_blank body ≡ true → chunk_transcript body ≡ [])
unfolding chunk_transcript
chunk_transcript-Segments body = (
  λ e.
      rw (e, chunk_transcript)
        (All-Segments body (line_spans body)
          (All-map (λ s h. h.has_text) (line_spans body) (line_spans-IsLine body).0)),
  λ e. rw e refl,
)
