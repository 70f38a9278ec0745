-- ===== src/Jobs/Tests.antt =====
-- The theorems on internal/jobs at concrete inputs.
use postbrain.Prelude.{
  ℕ, nat_eq, ◌≡◌, refl, List, [], ◌∷◌, Option, none, some, length, take, drop, select, arith,
}
use postbrain.Jobs.{
  Artifact, Store, is_unsummarised, run_paginated_batch, process_all, backfill_summaries,
}
use postbrain.Jobs.Batch.{run_paginated_batch_lem}
use postbrain.Jobs.Summaries.{backfill_summaries-skips}

abbrev numbers : List ℕ
numbers = 4 ∷ 5 ∷ 6 ∷ []

abbrev page_of : ℕ → ℕ → List ℕ → Option (List ℕ) × List ℕ
page_of n o seen = (some (take n (drop o numbers)), seen)

run_paginated_batch_lem_example :
    run_paginated_batch page_of (λ x seen. x ∷ seen) 4 2 []
    ≡ some (
      record { total = length numbers; error = none },
      process_all page_of (λ x seen. x ∷ seen) numbers [],
    )
run_paginated_batch_lem_example =
    run_paginated_batch_lem page_of (λ x seen. x ∷ seen) numbers (λ n o s. refl) 4 2 []
      (omega arith) (omega arith)

abbrev row : ℕ → Artifact
row n = record { id = n; content = 65 ∷ 46 ∷ []; summary = none }

abbrev rows : List Artifact
rows = row 1 ∷ row 2 ∷ row 3 ∷ []

backfill_summaries-skips_example :
    (s : Store) × (backfill_summaries none 2 2 (record { artifacts = rows; outages = [] })
      ≡ some (record { total = 2; error = none }, s))
    × (select is_unsummarised s.artifacts ≡ drop 2 (select is_unsummarised rows))
unfolding is_unsummarised
backfill_summaries-skips_example =
    backfill_summaries-skips none 2 2 rows ((refl, (refl, tt)), ((refl, tt), (tt, tt)))
      (omega arith) (omega arith) (omega arith) (omega arith)
