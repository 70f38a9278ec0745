-- ===== src/Knowledge/Summarize/Laws.antt =====
-- summarize.go: what a summary is.
use postbrain.Prelude.{
  ℕ, zero, suc, ◌+◌, ◌≤◌, ◌<◌, ◌≡◌, refl, ap, ◌∙◌, ◌⊎◌, inl, inr, true, false, Bool-cases,
  Option-cases, List, [], ◌∷◌, Option, none, some, leb, if◌then◌else◌, length, take, length-take,
  get_elem?, leb-false_of_lt, arith,
}
use postbrain.Chunking.{Text, join}
use postbrain.Knowledge.Summarize.{fields, fields_from, ends_sentence, last_sentence, summarize}

-- Where the loop has found a sentence's end, that is the last of the words with one.
pub last_sentence_lem :
    (ws : List Text) (i : ℕ) (found : Option ℕ) {j : ℕ}
    → last_sentence i found ws ≡ some j
    → (found ≡ some j)
      ⊎ ((k : ℕ) × (j ≡ i + k) × (w : Text) × (get_elem? ws k ≡ some w) × (ends_sentence w ≡ true))
unfolding last_sentence
last_sentence_lem [] i found h = inl h
last_sentence_lem (w ∷ ws) i found {j} h =
    elim (last_sentence_lem ws (suc i) (if ends_sentence w then some i else found) h) [
      | inl e ↦ elim (Bool-cases (ends_sentence w)) [
        | inl ends ↦ inr (0, ground (arith, e, ends), w, refl, ends)
        | inr open_word ↦ inl (ground (arith, e, open_word))
      ]
      | inr (k, e, v, at, ends) ↦ inr (suc k, omega (arith, e), v, at, ends)
    ]

take-take : {A : Type 0} (n m : ℕ) (xs : List A) → n ≤ m → take n (take m xs) ≡ take n xs
take-take zero m xs h = refl
take-take (suc n) zero xs h = absurd (omega arith)
take-take (suc n) (suc m) [] h = refl
take-take (suc n) (suc m) (x ∷ xs) h = ap (λ l. x ∷ l) (take-take n m xs (omega arith))

get_elem?-lt : {A : Type 0} (xs : List A) (k : ℕ) {a : A} → get_elem? xs k ≡ some a → k < length xs
get_elem?-lt [] k h = absurd (ground arith)
get_elem?-lt (x ∷ xs) zero h = omega arith
get_elem?-lt (x ∷ xs) (suc k) h = omega (arith, get_elem?-lt xs k h)

-- The words that a summary keeps: a prefix of at most so many, all of them or up to a sentence's end.
abbrev pub IsPrefix : Text → ℕ → Text → Type 0
IsPrefix text max_words summary =
    (k : ℕ) × (k ≤ max_words)
    × (summary ≡ join (32 ∷ []) (take k (fields text)))
    × ((k ≡ max_words)
        ⊎ ((i : ℕ) × (k ≡ suc i)
            × (w : Text) × (get_elem? (take max_words (fields text)) i ≡ some w)
            × (ends_sentence w ≡ true)))

summarize-IsPrefix :
    (text : Text) (max_words : ℕ)
    → max_words < length (fields text)
    → IsPrefix text max_words (summarize text max_words)
unfolding summarize fields fields_from
summarize-IsPrefix [] max_words h = absurd (ground (arith, h))
summarize-IsPrefix (r ∷ rs) max_words h =
    let words = fields (r ∷ rs) in
    let many : leb (length words) max_words ≡ false = leb-false_of_lt _ _ h in
    let full = length-take max_words words (omega (arith, h)) in
    elim (Option-cases (last_sentence 0 none (take max_words words))) [
      | inl no_end ↦ (max_words, omega arith, rw (many, no_end) refl, inl refl)
      | inr (i, found) ↦ elim (last_sentence_lem (take max_words words) 0 none found) [
        | inl clash ↦ absurd (ground arith)
        | inr (k, e, w, at, ends) ↦
            let short = get_elem?-lt (take max_words words) k at in
            let same : i ≡ k = omega (arith, e) in
            let next : i + 1 ≡ suc i = omega arith in
            (
              suc i,
              omega (arith, short, full, same),
              rw (many, found)
                  (ap (λ l. join (32 ∷ []) l)
                    (ap (λ n. take n (take max_words words)) next
                      ∙ take-take (suc i) max_words words (omega (arith, short, full, same)))),
              inr (i, refl, w, ap (λ n. get_elem? (take max_words words) n) same ∙ at, ends),
            )
      ]
    ]

summarize-short :
    (text : Text) (max_words : ℕ)
    → length (fields text) ≤ max_words
    → summarize text max_words ≡ text
unfolding summarize
summarize-short [] max_words h = refl
summarize-short (r ∷ rs) max_words h =
    let few : leb (length (fields (r ∷ rs))) max_words ≡ true = ground (arith, h) in rw few refl

-- A text of at most so many words is its own summary. Of a longer one the summary is the text of its
-- first words, joined by spaces, at most so many, and where they are fewer the last ends a sentence.
pub summarize_lem :
    (text : Text) (max_words : ℕ)
    → (length (fields text) ≤ max_words → summarize text max_words ≡ text)
      × (max_words < length (fields text) → IsPrefix text max_words (summarize text max_words))
summarize_lem text max_words = (summarize-short text max_words, summarize-IsPrefix text max_words)
