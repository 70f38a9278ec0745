-- ===== src/Chunking/Tests.antt =====
-- The theorems on the chunks at concrete inputs.
use postbrain.Prelude.{
  ℕ, ◌<◌, nat_eq, ◌≡◌, refl, List, [], ◌∷◌, map, some, length, concat, All, arith,
}
use postbrain.Chunking.{
  Text, split_sentences, split_by_runes, split_paragraph, slice_text, chunk, split_all,
  split_paragraphs, normalize_markdown, unix_newlines, split_from, add_sentence, trim_space,
  trim_left, trim_right, is_space, split_lines, onto_first, join, normalize_line,
  is_markdown_h_rule, h_rule_from, strip_markdown_header, hashes, trim_blanks, same_text,
  is_boundary,
}
use postbrain.Chunking.Pieces.{IsPiece, split_by_runes_pieces}
use postbrain.Chunking.Spans.{IsSpan, IsCovered, chunk_spans, chunk_total}
use postbrain.Chunking.Sentences.{solid, split_paragraph_lem}

-- "Ab. Cd. Ef."
abbrev three : Text
three = b'A' ∷ b'b' ∷ b'.' ∷ b' ' ∷ b'C' ∷ b'd' ∷ b'.' ∷ b' ' ∷ b'E' ∷ b'f' ∷ b'.' ∷ []

three_sentences : length (split_sentences three) ≡ 3
unfolding split_sentences split_all split_paragraphs normalize_markdown unix_newlines
    split_paragraph split_from add_sentence trim_space trim_left trim_right is_space split_lines
    onto_first join normalize_line is_markdown_h_rule h_rule_from strip_markdown_header hashes
    trim_blanks same_text is_boundary
three_sentences = refl

split_by_runes_pieces_example :
    (pieces : List Text) × (split_by_runes three 4 ≡ some pieces)
    × (concat pieces ≡ three)
    × All (IsPiece 4) pieces
split_by_runes_pieces_example = split_by_runes_pieces three 4 (omega arith)

chunk_spans_example :
    (spans : List (ℕ × ℕ)) × (chunk three 8 1
      ≡ some (map (slice_text (split_sentences three)) spans))
    × All (IsSpan (split_sentences three) 8 1) spans
    × ((i : ℕ) → i < length (split_sentences three) → IsCovered (split_sentences three) 8 1 i spans)
chunk_spans_example = chunk_spans three 8 1 (omega arith) (omega (arith, three_sentences))

chunk_total_example : (chunks : List Text) × (chunk three 8 1 ≡ some chunks)
chunk_total_example = chunk_total three 8 1 (omega arith)

split_paragraph_lem_example :
    All (λ s. 0 < length s) (split_paragraph three)
    × (solid (concat (split_paragraph three)) ≡ solid three)
split_paragraph_lem_example = split_paragraph_lem three
