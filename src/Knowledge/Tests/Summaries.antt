-- ===== src/Knowledge/Tests/Summaries.antt =====
-- The theorem on summaries at a concrete text.
use postbrain.Prelude.{◌≤◌, ◌<◌, ◌≡◌, [], ◌∷◌, length}
use postbrain.Chunking.{Text}
use postbrain.Knowledge.Summarize.{fields, summarize}
use postbrain.Knowledge.Summarize.Laws.{IsPrefix, summarize_lem}

-- "a. b c"
abbrev letters : Text
letters = 97 ∷ 46 ∷ 32 ∷ 98 ∷ 32 ∷ 99 ∷ []

summarize_lem_example :
    (length (fields letters) ≤ 2 → summarize letters 2 ≡ letters)
    × (2 < length (fields letters) → IsPrefix letters 2 (summarize letters 2))
summarize_lem_example = summarize_lem letters 2
