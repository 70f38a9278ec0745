-- ===== src/Chunking/Sentences.antt =====
-- chunker.go: the sentences of a paragraph.
use mathlib.Core.List.{append_assoc}
use postbrain.Prelude.{
  ℕ, ◌<◌, nat_eq, ◌≡◌, refl, sym, ap, ◌∙◌, inl, inr, ◌&&◌, ◌||◌, negb, Bool-cases, List, [], ◌∷◌,
  ◌++◌, ◌==◌, length, concat, select, All, arith,
}
use postbrain.Chunking.{
  Text, is_space, trim_left, trim_right, trim_space, add_sentence, is_boundary, split_from,
  split_paragraph,
}

-- The runes that are no white space, in order.
abbrev pub solid : Text → Text
solid s = select (λ r. negb (is_space r)) s

solid-append : (s t : Text) → solid (s ++ t) ≡ solid s ++ solid t
solid-append [] t = refl
solid-append (r ∷ s) t = ground (arith, solid-append s t)

solid-trim_left : (s : Text) → solid (trim_left s) ≡ solid s
unfolding trim_left
solid-trim_left [] = refl
solid-trim_left (r ∷ s) = ground (arith, solid-trim_left s)

solid-trim_right : (s : Text) → solid (trim_right s) ≡ solid s
unfolding trim_right
solid-trim_right [] = refl
solid-trim_right (r ∷ s) = ground (arith, solid-trim_right s)

solid-trim_space : (s : Text) → solid (trim_space s) ≡ solid s
unfolding trim_space
solid-trim_space s = solid-trim_right (trim_left s) ∙ solid-trim_left s

-- The sentence is there, or nothing but white space was left out.
solid-add_sentence :
    (buf : Text) (rest : List Text)
    → solid (concat (add_sentence buf rest)) ≡ solid buf ++ solid (concat rest)
unfolding add_sentence
solid-add_sentence buf rest =
    ground (arith, solid-trim_space buf, solid-append (trim_space buf) (concat rest))

solid-shift :
    (r : ℕ) (buf rest : Text) → solid (buf ++ r ∷ []) ++ solid rest ≡ solid buf ++ solid (r ∷ rest)
solid-shift r buf rest =
    sym (solid-append (buf ++ r ∷ []) rest)
    ∙ ap (λ t. solid t) (append_assoc buf (r ∷ []) rest)
    ∙ solid-append buf (r ∷ rest)

solid-split_from :
    (buf rest : Text) → solid (concat (split_from buf rest)) ≡ solid buf ++ solid rest
unfolding split_from
solid-split_from buf [] = solid-add_sentence buf []
solid-split_from buf (r ∷ rest) =
    elim (Bool-cases ((r == b'.' || (r == b'!' || r == b'?')) && is_boundary rest)) [
      | inl ended ↦ rw ended (
          solid-add_sentence (buf ++ r ∷ []) (split_from [] rest)
          ∙ ap (λ t. solid (buf ++ r ∷ []) ++ t) (solid-split_from [] rest)
          ∙ solid-shift r buf rest)
      | inr on ↦ rw on (solid-split_from (buf ++ r ∷ []) rest ∙ solid-shift r buf rest)
    ]

nonempty-add_sentence :
    (buf : Text) (rest : List Text)
    → All (λ s. 0 < length s) rest
    → All (λ s. 0 < length s) (add_sentence buf rest)
unfolding add_sentence
nonempty-add_sentence buf rest h =
    elim (trim_space buf)
      as (λ t. All (λ s. 0 < length s) (elim t [ [] ↦ rest | r ∷ s ↦ (r ∷ s) ∷ rest ])) [
        | [] ↦ h
        | r ∷ s ↦ (omega arith, h)
      ]

nonempty-split_from : (buf rest : Text) → All (λ s. 0 < length s) (split_from buf rest)
unfolding split_from
nonempty-split_from buf [] = nonempty-add_sentence buf [] tt
nonempty-split_from buf (r ∷ rest) =
    elim (Bool-cases ((r == b'.' || (r == b'!' || r == b'?')) && is_boundary rest)) [
      | inl ended ↦
          rw ended (
            nonempty-add_sentence (buf ++ r ∷ []) (split_from [] rest)
              (nonempty-split_from [] rest))
      | inr on ↦ rw on (nonempty-split_from (buf ++ r ∷ []) rest)
    ]

-- No sentence of a paragraph is empty, and the sentences in order hold the paragraph's runes in order,
-- white space left out on both sides.
pub split_paragraph_lem :
    (text : Text)
    → All (λ s. 0 < length s) (split_paragraph text)
      × (solid (concat (split_paragraph text)) ≡ solid text)
unfolding split_paragraph
split_paragraph_lem text = (nonempty-split_from [] text, solid-split_from [] text)
