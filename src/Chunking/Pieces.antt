-- ===== src/Chunking/Pieces.antt =====
-- chunker.go: the pieces of a text that `splitByRunes` cuts.
use postbrain.Prelude.{
  ℕ, zero, suc, ◌+◌, ◌≤◌, ◌<◌, nat_eq, ◌≡◌, refl, inl, inr, Bool-cases, List, [], ◌∷◌, some, leb,
  length, take, drop, concat, All, length-take, length-drop, take-append-drop, arith,
}
use Prim.Native.Nat.{◌/◌}
use mathlib.Core.List.{append-nil}
use postbrain.Chunking.{Text, walk_back, cut_end, split_by_runes_from, split_by_runes}

walk_back-le : (half : ℕ) (runes : Text) (end : ℕ) → walk_back half runes end ≤ end
unfolding walk_back
walk_back-le half runes zero = omega arith
walk_back-le half runes (suc end) = ground (arith, walk_back-le half runes end)

-- A piece is not empty and not longer than the limit.
cut_end_bounds :
    (runes : Text) (max_runes : ℕ)
    → 0 < max_runes
    → (0 < cut_end runes max_runes) × (cut_end runes max_runes ≤ max_runes)
unfolding cut_end
cut_end_bounds runes max_runes h = ground (arith, walk_back-le (max_runes / 2) runes max_runes)

-- What the code promises of the pieces: they are the text, and each has at least one rune and at most
-- `max_runes`.
abbrev pub IsPiece : ℕ → Text → Type 0
IsPiece max_runes piece = (0 < length piece) × (length piece ≤ max_runes)

split_by_runes_from_lem :
    (fuel : ℕ) (text : Text) (max_runes : ℕ)
    → 0 < max_runes
    → length text < fuel
    → (pieces : List Text) × (split_by_runes_from fuel text max_runes ≡ some pieces)
      × (concat pieces ≡ text)
      × All (IsPiece max_runes) pieces
unfolding split_by_runes_from
split_by_runes_from_lem zero text max_runes h k = absurd (omega arith)
split_by_runes_from_lem (suc fuel) [] max_runes h k = ([], refl, refl, tt)
split_by_runes_from_lem (suc fuel) (r ∷ rs) max_runes h k =
    elim (Bool-cases (leb (length (r ∷ rs)) max_runes)) [
      | inl fits ↦
          rw fits
            ((r ∷ rs) ∷ [], refl, append-nil (r ∷ rs), ((omega arith, ground (arith, fits)), tt))
      | inr long ↦
          let (some_rune, within) = cut_end_bounds (r ∷ rs) max_runes h in
          let rest = drop (cut_end (r ∷ rs) max_runes) (r ∷ rs) in
          let (pieces, e, joined, each) =
            split_by_runes_from_lem fuel rest max_runes h
              (omega (arith, length-drop (cut_end (r ∷ rs) max_runes) (r ∷ rs))) in
          let cut : length (take (cut_end (r ∷ rs) max_runes) (r ∷ rs))
              ≡ cut_end (r ∷ rs) max_runes =
            length-take (cut_end (r ∷ rs) max_runes) (r ∷ rs) (ground arith) in
          rw (long, e)
            (
              take (cut_end (r ∷ rs) max_runes) (r ∷ rs) ∷ pieces,
              refl,
              rw joined (take-append-drop (cut_end (r ∷ rs) max_runes) (r ∷ rs)),
              ((omega arith, omega arith), each),
            )
    ]

-- For a positive limit `splitByRunes` ends; its pieces put together are the text, and each has at least
-- one rune and at most the limit.
pub split_by_runes_pieces :
    (text : Text) (max_runes : ℕ)
    → 0 < max_runes
    → (pieces : List Text) × (split_by_runes text max_runes ≡ some pieces)
      × (concat pieces ≡ text)
      × All (IsPiece max_runes) pieces
unfolding split_by_runes
split_by_runes_pieces text max_runes h =
    split_by_runes_from_lem (length text + 1) text max_runes h (omega arith)
