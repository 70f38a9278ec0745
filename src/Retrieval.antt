-- ===== src/Retrieval.antt =====
-- internal/retrieval/merge.go: `Merge`. A score is a value of any type with a test `lt`, the `<` of
-- float64; `sort_by_score` is the call of sort.Slice, which leaves the order of equal scores open. The
-- fields of a result that `Merge` does not read are left out. `limit` is not negative.
pub mod Laws
mod Tests
use postbrain.Prelude.{
  ℕ, nat_eq, String, string_eq, Bool, true, false, ◌&&◌, negb, List, [], ◌∷◌, map, Option, none,
  some, ltb, ◌==◌, if◌then◌else◌, length, take, elem, select,
}

abbrev pub Layer : Type 0
Layer = String

abbrev pub layer_memory : Layer
layer_memory = "memory"

abbrev pub layer_knowledge : Layer
layer_knowledge = "knowledge"

abbrev pub layer_skill : Layer
layer_skill = "skill"

pub record Result (Score : Type 0) : Type 0 where
  pub layer : Layer
  pub id : ℕ
  pub score : Score
  pub promoted_to : Option ℕ

unfoldable pub limit_or_default : ℕ → ℕ
limit_or_default limit = if limit == 0 then 10 else limit

module _ {Score : Type 0} where
  -- The first loop: the ids of the knowledge artifacts.
  unfoldable pub knowledge_ids : List (Result Score) → List ℕ
  knowledge_ids results =
      map (λ (r : Result Score). r.id)
        (select (λ (r : Result Score). r.layer == layer_knowledge) results)

  -- A memory whose knowledge artifact is among the ids.
  unfoldable pub is_superseded : List ℕ → Result Score → Bool
  is_superseded ids r =
      r.layer == layer_memory && elim (r.promoted_to) [ none ↦ false | some id ↦ elem id ids ]

  -- The second loop.
  unfoldable pub filter_results :
      (Score → Score → Bool) → Score → List ℕ → List (Result Score) → List (Result Score)
  unfolding is_superseded
  filter_results lt min_score ids results =
      select (λ (r : Result Score). negb (is_superseded ids r) && negb (lt r.score min_score))
        results

  -- `Merge`
  unfoldable pub merge :
      (Score → Score → Bool)
      → (List (Result Score) → List (Result Score))
      → List (Result Score)
      → ℕ
      → Score
      → List (Result Score)
  unfolding knowledge_ids filter_results limit_or_default
  merge lt sort_by_score results limit min_score =
      let sorted = sort_by_score (filter_results lt min_score (knowledge_ids results) results) in
      if ltb (limit_or_default limit) (length sorted)
      then take (limit_or_default limit) sorted
      else sorted
