-- ===== src/Retrieval/Tests.antt =====
-- The theorem on merging at concrete results.
use postbrain.Prelude.{
  ℕ, ◌≤◌, nat_eq, string_eq, ◌≡◌, ◌⊎◌, false, [], ◌∷◌, none, some, ltb, length, In,
}
use postbrain.Retrieval.{
  Result, layer_memory, layer_knowledge, knowledge_ids, is_superseded, filter_results,
  limit_or_default, merge,
}
use postbrain.Retrieval.Laws.{Sorted, Kept, merge_lem}

abbrev article : Result ℕ
article = record { layer = layer_knowledge; id = 1; score = 7; promoted_to = none }

abbrev note : Result ℕ
note = record { layer = layer_memory; id = 2; score = 9; promoted_to = some 1 }

-- The memory is superseded; one result is left to sort.
merge_lem_example :
    (length (merge ltb (λ l. l) (note ∷ article ∷ []) 1 5) ≤ limit_or_default 1)
    × Sorted ltb 5 (merge ltb (λ l. l) (note ∷ article ∷ []) 1 5)
    × ((r : Result ℕ)
        → In r (merge ltb (λ l. l) (note ∷ article ∷ []) 1 5)
        → Kept ltb 5 (note ∷ article ∷ []) r)
    × ((q : Result ℕ)
        → Kept ltb 5 (note ∷ article ∷ []) q
        → In q (merge ltb (λ l. l) (note ∷ article ∷ []) 1 5)
          ⊎ ((length (merge ltb (λ l. l) (note ∷ article ∷ []) 1 5) ≡ limit_or_default 1)
              × ((r : Result ℕ)
                  → In r (merge ltb (λ l. l) (note ∷ article ∷ []) 1 5)
                  → ltb r.score q.score ≡ false)))
unfolding knowledge_ids is_superseded filter_results
merge_lem_example =
    merge_lem ltb 5 (λ l. l) (note ∷ article ∷ []) 1 ((tt, tt), λ r. (λ i. i, λ i. i))
