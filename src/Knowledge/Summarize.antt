-- ===== src/Knowledge/Summarize.antt =====
-- internal/knowledge/summarize.go: the extractive summary. A text is the list of its runes; its last
-- byte is one of the three marks exactly when its last rune is. `max_words` is not negative.
pub mod Laws
use postbrain.Prelude.{
  ℕ, zero, suc, ◌+◌, nat_eq, Bool, true, false, ◌||◌, List, [], ◌∷◌, ◌++◌, Option, none, some, leb,
  ◌==◌, if◌then◌else◌, length, take,
}
use postbrain.Chunking.{Text, is_space, join}

-- `strings.Fields`; `word` is what was read of the current word.
unfoldable pub fields_from : Text → Text → List Text
unfolding is_space
fields_from [] [] = []
fields_from (w ∷ word) [] = (w ∷ word) ∷ []
fields_from [] (r ∷ rs) = if is_space r then fields_from [] rs else fields_from (r ∷ []) rs
fields_from (w ∷ word) (r ∷ rs) =
    if is_space r then (w ∷ word) ∷ fields_from [] rs else fields_from (w ∷ (word ++ (r ∷ []))) rs

unfoldable pub fields : Text → List Text
unfolding fields_from
fields text = fields_from [] text

-- `last == '.' || last == '!' || last == '?'`
unfoldable pub ends_sentence : Text → Bool
ends_sentence [] = false
ends_sentence (r ∷ []) = (r == 46) || (r == 33) || (r == 63)
ends_sentence (r ∷ q ∷ rs) = ends_sentence (q ∷ rs)

-- The loop: `i` is the index of the next word; `none` stands for -1.
unfoldable pub last_sentence : ℕ → Option ℕ → List Text → Option ℕ
unfolding ends_sentence
last_sentence i found [] = found
last_sentence i found (w ∷ ws) =
    last_sentence (suc i) (if ends_sentence w then some i else found) ws

-- `Summarize`
unfoldable pub summarize : Text → ℕ → Text
unfolding fields last_sentence join
summarize [] max_words = []
summarize (r ∷ rs) max_words =
    let words = fields (r ∷ rs) in
    if leb (length words) max_words
    then r ∷ rs
    else elim (last_sentence 0 none (take max_words words)) [
      | some i ↦ join (32 ∷ []) (take (i + 1) (take max_words words))
      | none ↦ join (32 ∷ []) (take max_words words)
    ]
