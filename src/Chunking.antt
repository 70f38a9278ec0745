-- ===== src/Chunking.antt =====
-- internal/chunking/chunker.go: the cutting of a text into overlapping chunks. A text is the list of its
-- runes (Unicode code points): the functions of package strings that the code calls on it give the same
-- on runes as on UTF-8 bytes. The loops that the code does not bound by a range take fuel; `none` means
-- that it ran out. `maxRunes` and `overlap` are not negative.
pub mod Pieces
mod Tests
pub mod Spans
pub mod Sentences
use postbrain.Prelude.{
  ℕ, zero, suc, ◌+◌, ◌-◌, ◌*◌, nat_eq, Bool, true, false, ◌&&◌, ◌||◌, negb, List, [], ◌∷◌, ◌++◌,
  map, Option, none, some, ltb, leb, ◌==◌, if◌then◌else◌, length, take, drop, get_elem?,
}
use Prim.Native.Nat.{◌/◌}

abbrev pub Text : Type 0
Text = List ℕ

abbrev pub default_chunk_runes : ℕ
default_chunk_runes = 1000

abbrev pub default_overlap : ℕ
default_overlap = 2

abbrev pub min_content_runes : ℕ
min_content_runes = default_chunk_runes * 2

-- Package strings

-- `unicode.IsSpace`
unfoldable pub is_space : ℕ → Bool
is_space r =
    (leb 9 r && leb r 13)
    || r == 32
    || r == 133
    || r == 160
    || r == 5760
    || (leb 8192 r && leb r 8202)
    || r == 8232
    || r == 8233
    || r == 8239
    || r == 8287
    || r == 12288

unfoldable pub trim_left : Text → Text
unfolding is_space
trim_left [] = []
trim_left (r ∷ rs) = if is_space r then trim_left rs else r ∷ rs

unfoldable pub trim_right : Text → Text
unfolding is_space
trim_right [] = []
trim_right (r ∷ rs) = elim (trim_right rs) [
  | [] ↦ if is_space r then [] else r ∷ []
  | q ∷ qs ↦ r ∷ q ∷ qs
]

-- `strings.TrimSpace`
unfoldable pub trim_space : Text → Text
unfolding trim_left trim_right
trim_space s = trim_right (trim_left s)

-- `strings.ReplaceAll(s, "\r\n", "\n")`
unfoldable pub unix_newlines : Text → Text
unix_newlines [] = []
unix_newlines (a ∷ []) = a ∷ []
unix_newlines (a ∷ b ∷ s) =
    if a == b'\r' && b == b'\n' then b'\n' ∷ unix_newlines s else a ∷ unix_newlines (b ∷ s)

-- The first part of a split, with one rune more.
unfoldable pub onto_first : ℕ → List Text → List Text
onto_first r [] = (r ∷ []) ∷ []
onto_first r (part ∷ parts) = (r ∷ part) ∷ parts

-- `strings.Split(s, "\n")`
unfoldable pub split_lines : Text → List Text
unfolding onto_first
split_lines [] = [] ∷ []
split_lines (r ∷ s) = if r == b'\n' then [] ∷ split_lines s else onto_first r (split_lines s)

-- `strings.Split(s, "\n\n")`
unfoldable pub split_paragraphs : Text → List Text
unfolding onto_first
split_paragraphs [] = [] ∷ []
split_paragraphs (a ∷ []) = (a ∷ []) ∷ []
split_paragraphs (a ∷ b ∷ s) =
    if a == b'\n' && b == b'\n'
    then [] ∷ split_paragraphs s
    else onto_first a (split_paragraphs (b ∷ s))

-- `strings.Join(parts, sep)`
unfoldable pub join : Text → List Text → Text
join sep [] = []
join sep (part ∷ []) = part
join sep (part ∷ q ∷ parts) = part ++ (sep ++ join sep (q ∷ parts))

-- chunker.go

-- The loop of `isMarkdownHRule`; `none` is the marker 0, before the first.
unfoldable pub h_rule_from : Option ℕ → ℕ → Text → Bool
h_rule_from marker count [] = leb 3 count
h_rule_from marker count (r ∷ s) =
    if r == b' '
    then h_rule_from marker count s
    else if negb (r == b'-') && (negb (r == b'*') && negb (r == b'_'))
    then false
    else elim marker [
      | none ↦ h_rule_from (some r) (count + 1) s
      | some m ↦ if negb (r == m) then false else h_rule_from (some m) (count + 1) s
    ]

unfoldable pub is_markdown_h_rule : Text → Bool
unfolding h_rule_from
is_markdown_h_rule s = if ltb (length s) 3 then false else h_rule_from none 0 s

-- The number of leading `#`.
unfoldable pub hashes : Text → ℕ
hashes [] = 0
hashes (r ∷ s) = if r == b'#' then hashes s + 1 else 0

-- `strings.TrimLeft(s, " ")`
unfoldable pub trim_blanks : Text → Text
trim_blanks [] = []
trim_blanks (r ∷ s) = if r == b' ' then trim_blanks s else r ∷ s

unfoldable pub strip_markdown_header : Text → Text
unfolding hashes trim_blanks
strip_markdown_header s =
    let i = hashes s in
    if i == 0 || ltb 6 i
    then s
    else elim (drop i s) [ [] ↦ s | r ∷ rest ↦ if r == b' ' then trim_blanks (r ∷ rest) else s ]

-- `s == t`
unfoldable pub same_text : Text → Text → Bool
same_text [] [] = true
same_text [] (q ∷ t) = false
same_text (r ∷ s) [] = false
same_text (r ∷ s) (q ∷ t) = r == q && same_text s t

-- One round of the loop of `normalizeMarkdown`; a line that the header does not change stays untrimmed.
unfoldable pub normalize_line : Text → Text
unfolding trim_space is_markdown_h_rule strip_markdown_header same_text
normalize_line line =
    let trimmed = trim_space line in
    if is_markdown_h_rule trimmed
    then []
    else if negb (same_text (strip_markdown_header trimmed) trimmed)
    then strip_markdown_header trimmed
    else line

unfoldable pub normalize_markdown : Text → Text
unfolding normalize_line split_lines join
normalize_markdown text = join (b'\n' ∷ []) (map normalize_line (split_lines text))

-- `if s := strings.TrimSpace(buf.String()); s != "" { result = append(result, s) }`
unfoldable pub add_sentence : Text → List Text → List Text
unfolding trim_space
add_sentence buf rest = elim (trim_space buf) [ [] ↦ rest | r ∷ s ↦ (r ∷ s) ∷ rest ]

-- Whether a sentence ends before the runes that are left.
unfoldable pub is_boundary : Text → Bool
is_boundary [] = true
is_boundary (r ∷ rest) = r == b' ' || r == b'\n'

-- The loop of `splitParagraph`; `buf` holds the runes since the last boundary.
unfoldable pub split_from : Text → Text → List Text
unfolding add_sentence is_boundary
split_from buf [] = add_sentence buf []
split_from buf (r ∷ rest) =
    let ended = (r == b'.' || (r == b'!' || r == b'?')) && is_boundary rest in
    let closed = add_sentence (buf ++ r ∷ []) (split_from [] rest) in
    let open_ended = split_from (buf ++ r ∷ []) rest in if ended then closed else open_ended

unfoldable pub split_paragraph : Text → List Text
unfolding split_from
split_paragraph text = split_from [] text

-- The loop over the paragraphs.
unfoldable pub split_all : List Text → List Text
unfolding trim_space split_paragraph
split_all [] = []
split_all (para ∷ paras) = elim (trim_space para) [
  | [] ↦ split_all paras
  | r ∷ s ↦ split_paragraph (r ∷ s) ++ split_all paras
]

unfoldable pub split_sentences : Text → List Text
unfolding unix_newlines normalize_markdown split_paragraphs split_all
split_sentences text = split_all (split_paragraphs (normalize_markdown (unix_newlines text)))

-- `runes[end] == ' ' || runes[end] == '\n'`
unfoldable pub is_break : Option ℕ → Bool
is_break none = true
is_break (some r) = r == b' ' || r == b'\n'

-- The walk back of `splitByRunes`: `end` goes down to a break or to `half`. `end` is below the length.
unfoldable pub walk_back : ℕ → Text → ℕ → ℕ
unfolding is_break
walk_back half runes zero = zero
walk_back half runes (suc end) =
    if ltb half (suc end) && negb (is_break (get_elem? runes (suc end)))
    then walk_back half runes end
    else suc end

-- Where a piece ends.
unfoldable pub cut_end : Text → ℕ → ℕ
unfolding walk_back
cut_end runes max_runes =
    if leb (walk_back (max_runes / 2) runes max_runes) (max_runes / 2)
    then max_runes
    else walk_back (max_runes / 2) runes max_runes

-- The loop of `splitByRunes`.
unfoldable pub split_by_runes_from : ℕ → Text → ℕ → Option (List Text)
split_by_runes_from zero runes max_runes = none
split_by_runes_from (suc fuel) [] max_runes = some []
split_by_runes_from (suc fuel) (r ∷ rs) max_runes =
    if leb (length (r ∷ rs)) max_runes
    then some ((r ∷ rs) ∷ [])
    else elim (split_by_runes_from fuel (drop (cut_end (r ∷ rs) max_runes) (r ∷ rs)) max_runes) [
      | none ↦ none
      | some chunks ↦ some (take (cut_end (r ∷ rs) max_runes) (r ∷ rs) ∷ chunks)
    ]

-- Each round but the last drops a rune, when `maxRunes` is positive; otherwise the loop has no end.
unfoldable pub split_by_runes : Text → ℕ → Option (List Text)
unfolding split_by_runes_from
split_by_runes text max_runes = split_by_runes_from (length text + 1) text max_runes

-- The inner loop of `Chunk`: how many of the sentences from `start` on a chunk takes, given the `count`
-- and the `runes` taken so far.
unfoldable pub fill : ℕ → ℕ → ℕ → List Text → ℕ
fill max_runes runes count [] = count
fill max_runes runes count (s ∷ rest) =
    if ltb max_runes (runes + length s) && ltb 0 count
    then count
    else fill max_runes (runes + length s + 1) (count + 1) rest

-- `next := end - overlap; if next <= start { next = start + 1 }`
unfoldable pub next_start : ℕ → ℕ → ℕ → ℕ
next_start overlap start end = if leb (end - overlap) start then start + 1 else end - overlap

-- The bounds `start` and `end` of the chunks that the outer loop of `Chunk` appends.
unfoldable pub spans_from : ℕ → List Text → ℕ → ℕ → ℕ → Option (List (ℕ × ℕ))
spans_from zero sentences max_runes overlap start = none
spans_from (suc fuel) sentences max_runes overlap start =
    let end = start + fill max_runes 0 0 (drop start sentences) in
    let rest = spans_from fuel sentences max_runes overlap (next_start overlap start end) in
    if ltb start (length sentences)
    then if leb (length sentences) end
      then some ((start, end) ∷ [])
      else elim rest [ none ↦ none | some spans ↦ some ((start, end) ∷ spans) ]
    else some []

-- `strings.Join(sentences[start:end], " ")`
unfoldable pub slice_text : List Text → ℕ × ℕ → Text
unfolding join
slice_text sentences (start, end) = join (b' ' ∷ []) (take (end - start) (drop start sentences))

unfoldable pub chunk_sentences : List Text → ℕ → ℕ → Option (List Text)
unfolding spans_from slice_text
chunk_sentences sentences max_runes overlap =
    elim (spans_from (length sentences + 1) sentences max_runes overlap 0) [
      | none ↦ none
      | some spans ↦ some (map (slice_text sentences) spans)
    ]

unfoldable pub chunk : Text → ℕ → ℕ → Option (List Text)
unfolding split_sentences split_by_runes chunk_sentences
chunk text max_runes overlap =
    if leb (length text) max_runes
    then some (text ∷ [])
    else if leb (length (split_sentences text)) 1
    then split_by_runes text max_runes
    else chunk_sentences (split_sentences text) max_runes overlap
