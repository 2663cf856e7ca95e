-- ===== src/Tests/Ingestion.antt =====
-- Tests of Ingestion.
use think_tank.Prelude.{
  ℕ, ◌≡◌, refl, true, false, List, [], ◌∷◌, map, All, codes, is_blank, starts_with, same,
  word_count, select, not,
}
use think_tank.Ingestion.Chunker.{label_of, words_of, line_spans, chunk_transcript}
use think_tank.Ingestion.Chunker.Lines.{IsOneLine, join_lines}
use think_tank.Ingestion.Chunker.Spans.{IsLine, InOrder, line_spans-IsLine}
use think_tank.Ingestion.Chunker.Segments.{Segments, chunk_transcript-Segments}

abbrev talk : List ℕ
talk = codes "Speaker A: hello there\n\nSpeaker B: hi"

talk_chunks : map (λ c. c.char_end) (chunk_transcript talk) ≡ 37 ∷ []
unfolding chunk_transcript is_blank label_of starts_with same words_of word_count
talk_chunks = refl

line_spans-IsLine_example :
    All (IsLine talk) (line_spans talk)
    × InOrder 0 (line_spans talk)
    × ((line : List ℕ) (lines : List (List ℕ))
        → All IsOneLine (line ∷ lines)
        → join_lines (line ∷ lines) ≡ talk
        → map (λ s. s.line) (line_spans talk) ≡ select (λ l. not (is_blank l)) (line ∷ lines))
    × ((line : List ℕ) × (lines : List (List ℕ)) × All IsOneLine (line ∷ lines)
        × (join_lines (line ∷ lines) ≡ talk))
line_spans-IsLine_example = line_spans-IsLine talk

chunk_transcript-Segments_example :
    (is_blank talk ≡ false → Segments talk 0 (line_spans talk) (chunk_transcript talk))
    × (is_blank talk ≡ true → chunk_transcript talk ≡ [])
chunk_transcript-Segments_example = chunk_transcript-Segments talk
