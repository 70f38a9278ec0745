-- ===== src/Chunking/Spans.antt =====
-- chunker.go: the chunks of sentences that `Chunk` joins.
use postbrain.Prelude.{
  ℕ, zero, suc, ◌+◌, ◌-◌, ◌≤◌, ◌<◌, nat_eq, ◌≡◌, refl, ◌⊎◌, inl, inr, false, ◌&&◌, Bool-cases, List,
  [], ◌∷◌, ◌++◌, map, some, ltb, leb, leb-false_of_lt, lt_of_leb-false, length, length-append, take,
  drop, All, length-drop, arith,
}
use postbrain.Chunking.Pieces.{split_by_runes_pieces}
use postbrain.Chunking.{
  Text, join, fill, next_start, spans_from, slice_text, chunk_sentences, split_sentences, chunk,
}

-- The runes of the sentences, each with the space after it.
weight : List Text → ℕ
weight [] = 0
weight (s ∷ ss) = length s + 1 + weight ss

length-join : (s : Text) (ss : List Text) → length (join (b' ' ∷ []) (s ∷ ss)) + 1 ≡ weight (s ∷ ss)
unfolding join weight
length-join s [] = omega arith
length-join s (q ∷ ss) =
    omega (arith, length-append {0} s ((b' ' ∷ []) ++ join (b' ' ∷ []) (q ∷ ss)), length-join q ss)

fill-ge : (max_runes runes count : ℕ) (ss : List Text) → count ≤ fill max_runes runes count ss
unfolding fill
fill-ge max_runes runes count [] = omega arith
fill-ge max_runes runes count (s ∷ ss) =
    ground (arith, fill-ge max_runes (runes + length s + 1) (count + 1) ss)

fill-le :
    (max_runes runes count : ℕ) (ss : List Text) → fill max_runes runes count ss ≤ count + length ss
unfolding fill
fill-le max_runes runes count [] = omega arith
fill-le max_runes runes count (s ∷ ss) =
    ground (arith, fill-le max_runes (runes + length s + 1) (count + 1) ss)

-- The first sentence is always taken.
fill-pos : (max_runes : ℕ) (ss : List Text) → 0 < length ss → 0 < fill max_runes 0 0 ss
unfolding fill
fill-pos max_runes [] h = absurd (omega arith)
fill-pos max_runes (s ∷ ss) h = ground (arith, fill-ge max_runes (0 + length s + 1) (0 + 1) ss)

-- What is taken after the first fits.
fill-weight :
    (max_runes runes count : ℕ) (ss : List Text)
    → 0 < count
    → (fill max_runes runes count ss ≡ count)
      ⊎ (runes + weight (take (fill max_runes runes count ss - count) ss) ≤ max_runes + 1)
unfolding fill weight
fill-weight max_runes runes count [] h = inl refl
fill-weight max_runes runes count (s ∷ ss) h =
    elim (Bool-cases (ltb max_runes (runes + length s) && ltb 0 count)) [
      | inl full ↦ inl (rw full refl)
      | inr room ↦
          let more = fill-weight max_runes (runes + length s + 1) (count + 1) ss (omega arith) in
          let rest = fill max_runes (runes + length s + 1) (count + 1) ss in
          let grown = fill-ge max_runes (runes + length s + 1) (count + 1) ss in
          let first : rest - count ≡ suc (rest - (count + 1)) = omega arith in
          inr (
            rw (room, first)
              (elim more [
                | inl stop ↦
                    let none_left : rest - (count + 1) ≡ 0 = omega arith in
                    rw none_left (ground arith)
                | inr fits ↦ omega arith
              ]))
    ]

-- A chunk has one sentence, or its joined text has at most `max_runes` runes.
fill-fits :
    (max_runes : ℕ) (ss : List Text)
    → 0 < length ss
    → (fill max_runes 0 0 ss ≡ 1)
      ⊎ (length (join (b' ' ∷ []) (take (fill max_runes 0 0 ss) ss)) ≤ max_runes)
unfolding fill weight
fill-fits max_runes [] h = absurd (omega arith)
fill-fits max_runes (s ∷ ss) h = elim (Bool-cases (ltb max_runes (0 + length s) && ltb 0 0)) [
  | inl full ↦ absurd (ground arith)
  | inr room ↦
      let rest = fill max_runes (0 + length s + 1) (0 + 1) ss in
      let grown = fill-ge max_runes (0 + length s + 1) (0 + 1) ss in
      let first : rest ≡ suc (rest - (0 + 1)) = omega arith in
      rw room (elim (fill-weight max_runes (0 + length s + 1) (0 + 1) ss (omega arith)) [
        | inl stop ↦ inl (omega arith)
        | inr fits ↦ inr (rw first (omega (arith, length-join s (take (rest - (0 + 1)) ss))))
      ])
]

module _ (sentences : List Text) (max_runes overlap : ℕ) where
  -- A chunk takes sentences from `start` up to `end`, and if more than one, their text fits.
  abbrev pub IsSpan : ℕ × ℕ → Type 0
  IsSpan (start, end) =
      (start < end)
      × (end ≤ length sentences)
      × ((end ≡ start + 1) ⊎ (length (slice_text sentences (start, end)) ≤ max_runes))

  -- Some chunk has the sentence with the index.
  abbrev pub IsCovered : ℕ → List (ℕ × ℕ) → Type 0
  IsCovered i [] = ⊥
  IsCovered i ((start, end) ∷ spans) = ((start ≤ i) × (i < end)) ⊎ IsCovered i spans

  next_start_bounds :
      (start end : ℕ)
      → start < end
      → (start < next_start overlap start end) × (next_start overlap start end ≤ end)
  unfolding next_start
  next_start_bounds start end h = ground arith

  first-IsSpan :
      (start : ℕ)
      → start < length sentences
      → IsSpan (start, start + fill max_runes 0 0 (drop start sentences))
  unfolding slice_text
  first-IsSpan start h =
      let ss = drop start sentences in
      let n = fill max_runes 0 0 ss in
      let left : length ss ≡ length sentences - start = length-drop start sentences in
      let some_left : 0 < length ss = omega arith in
      let size : start + n - start ≡ n = omega arith in
      (
        omega (arith, fill-pos max_runes ss some_left),
        omega (arith, fill-le max_runes 0 0 ss),
        elim (fill-fits max_runes ss some_left) [
          | inl one ↦ inl (omega arith)
          | inr fits ↦ inr (rw size fits)
        ],
      )

  spans_from_lem :
      (fuel start : ℕ)
      → start ≤ length sentences
      → length sentences < fuel + start
      → (spans : List (ℕ × ℕ)) × (spans_from fuel sentences max_runes overlap start ≡ some spans)
        × All IsSpan spans
        × ((i : ℕ) → start ≤ i → i < length sentences → IsCovered i spans)
  unfolding spans_from
  spans_from_lem zero start low h = absurd (omega arith)
  spans_from_lem (suc fuel) start low h = elim (Bool-cases (ltb start (length sentences))) [
    | inr done ↦ rw done ([], refl, tt, λ i above below. absurd (ground arith))
    | inl more ↦
        let end = start + fill max_runes 0 0 (drop start sentences) in
        let span = first-IsSpan start (ground arith) in
        elim (Bool-cases (leb (length sentences) end)) [
          | inl last ↦
              rw (more, last)
                ((start, end) ∷ [], refl, (span, tt), λ i above below. inl (above, ground arith))
          | inr on ↦
              let (ahead, within) = next_start_bounds start end span.0 in
              let (spans, e, each, covered) =
                spans_from_lem fuel (next_start overlap start end) (omega (arith, span.1))
                  (omega arith) in
              rw (more, on, e)
                (
                  (start, end) ∷ spans,
                  refl,
                  (span, each),
                  λ i above below. elim (Bool-cases (ltb i end)) [
                    | inl here ↦ inl (above, ground arith)
                    | inr later ↦ inr (covered i (ground arith) below)
                  ],
                )
        ]
  ]

-- A text over the limit with more than one sentence: `Chunk` ends, and each chunk is the text of
-- neighbouring sentences, every sentence is in some chunk, and a chunk of more than one sentence has at
-- most `max_runes` runes.
pub chunk_spans :
    (text : Text) (max_runes overlap : ℕ)
    → max_runes < length text
    → 1 < length (split_sentences text)
    → (spans : List (ℕ × ℕ)) × (chunk text max_runes overlap
        ≡ some (map (slice_text (split_sentences text)) spans))
      × All (IsSpan (split_sentences text) max_runes overlap) spans
      × ((i : ℕ)
          → i < length (split_sentences text)
          → IsCovered (split_sentences text) max_runes overlap i spans)
unfolding chunk chunk_sentences
chunk_spans text max_runes overlap long several =
    let sentences = split_sentences text in
    let (spans, e, each, covered) =
      spans_from_lem sentences max_runes overlap (length sentences + 1) 0 (omega arith)
        (omega arith) in
    let over : leb (length text) max_runes ≡ false = leb-false_of_lt (length text) max_runes long in
    let many : leb (length sentences) 1 ≡ false = leb-false_of_lt (length sentences) 1 several in
    rw (over, many, chunk_sentences, e)
      (spans, refl, each, λ i below. covered i (omega arith) below)

-- For a positive limit `Chunk` ends on every text.
pub chunk_total :
    (text : Text) (max_runes overlap : ℕ)
    → 0 < max_runes
    → (chunks : List Text) × (chunk text max_runes overlap ≡ some chunks)
unfolding chunk
chunk_total text max_runes overlap h = elim (Bool-cases (leb (length text) max_runes)) [
  | inl fits ↦ rw fits (text ∷ [], refl)
  | inr long ↦ elim (Bool-cases (leb (length (split_sentences text)) 1)) [
    | inl one ↦
        let (pieces, e, _, _) = split_by_runes_pieces text max_runes h in
        rw (long, one, e) (pieces, refl)
    | inr several ↦
        let (spans, e, _, _) =
          chunk_spans text max_runes overlap (lt_of_leb-false _ _ long)
            (lt_of_leb-false _ _ several) in
        (map (slice_text (split_sentences text)) spans, e)
  ]
]
