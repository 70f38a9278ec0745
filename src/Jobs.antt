-- ===== src/Jobs.antt =====
-- internal/jobs: the batch loop (batch.go) and the job that fills missing summaries
-- (backfill_summaries.go), with the queries it uses. Logging is left out.
pub mod Batch
pub mod Summaries
mod Tests
use postbrain.Prelude.{
  ℕ, zero, suc, ◌+◌, nat_eq, Bool, true, false, List, [], ◌∷◌, map, Option, none, some, ltb, ◌==◌,
  if◌then◌else◌, Result, ok, err, length, take, drop, select,
}
use postbrain.Chunking.{Text}
use postbrain.Knowledge.Summarize.{summarize}

-- `fmt.Errorf`s of the loop: a batch size that is not positive, and a failed fetch with its offset.
pub data BatchError : Type 0 where
  bad_batch_size : BatchError
  fetch_failed : ℕ → BatchError

-- The two values the loop returns: the total and the error.
pub record Outcome : Type 0 where
  pub total : ℕ
  pub error : Option BatchError

module _ {S T : Type 0} (fetch : ℕ → ℕ → S → Option (List T) × S) (process : T → S → S) where
  -- `for _, item := range batch { process(ctx, item) }`
  unfoldable pub process_all : List T → S → S
  process_all [] s = s
  process_all (item ∷ batch) s = process_all batch (process item s)

  -- The loop; `none` inside is a fetch that fails, `none` outside means that the fuel ran out.
  unfoldable pub batches_from : ℕ → ℕ → ℕ → ℕ → S → Option (Outcome × S)
  unfolding process_all
  batches_from zero batch_size offset total s = none
  batches_from (suc fuel) batch_size offset total s =
      let (page, fetched) = fetch batch_size offset s in
      elim page [
        | none ↦ some (record { total = total; error = some (fetch_failed offset) }, fetched)
        | some batch ↦
            let after = process_all batch fetched in
            let sum = total + length batch in
            let rest = batches_from fuel batch_size (offset + batch_size) sum after in
            if length batch == 0
            then some (record { total = total; error = none }, fetched)
            else if ltb (length batch) batch_size
            then some (record { total = sum; error = none }, after)
            else rest
      ]

  -- `RunPaginatedBatch`; a batch size below 0 is refused as 0 is.
  unfoldable pub run_paginated_batch : ℕ → ℕ → S → Option (Outcome × S)
  unfolding batches_from
  run_paginated_batch fuel zero s = some (record { total = 0; error = some bad_batch_size }, s)
  run_paginated_batch fuel (suc n) s = batches_from fuel (suc n) 0 0 s

-- The columns of knowledge_artifacts that the job uses; the rows stand in the order of `created_at`.
pub record Artifact : Type 0 where
  pub id : ℕ
  pub content : Text
  pub summary : Option Text

pub record Store : Type 0 where
  pub artifacts : List Artifact
  pub outages : List Bool

unfoldable pub is_unsummarised : Artifact → Bool
is_unsummarised a = elim (a.summary) [ none ↦ true | some s ↦ false ]

-- Whether the next query fails; with no entry left, none does.
unfoldable pub is_down : List Bool → Bool
is_down [] = false
is_down (b ∷ rest) = b

unfoldable pub answered : List Bool → List Bool
answered [] = []
answered (b ∷ rest) = rest

-- `fetchUnsummarised`: `WHERE summary IS NULL ORDER BY created_at LIMIT $1 OFFSET $2`
unfoldable pub fetch_unsummarised : ℕ → ℕ → Store → Option (List Artifact) × Store
unfolding is_unsummarised is_down answered
fetch_unsummarised batch_size offset s =
    if is_down s.outages then (none, record s { outages = answered s.outages }) else (
      some (take batch_size (drop offset (select is_unsummarised s.artifacts))),
      record s { outages = answered s.outages },
    )

-- `UPDATE knowledge_artifacts SET summary=$2 WHERE id=$1`
unfoldable pub put_summary : ℕ → Text → List Artifact → List Artifact
put_summary id summary artifacts =
    map (λ (a : Artifact). if a.id == id then record a { summary = some summary } else a) artifacts

-- `setSummary`; its error is logged and the loop goes on.
unfoldable pub set_summary : ℕ → Text → Store → Store
unfolding put_summary is_down answered
set_summary id summary s =
    if is_down s.outages
    then record s { outages = answered s.outages }
    else record s { artifacts = put_summary id summary s.artifacts; outages = answered s.outages }

-- `generateSummary`: the summarizer is an external service, and may be missing, fail or answer nothing.
unfoldable pub generate_summary : Option (Text → Option Text) → Text → Text
unfolding summarize
generate_summary none content = summarize content 150
generate_summary (some service) content = elim (service content) [
  | none ↦ summarize content 150
  | some [] ↦ summarize content 150
  | some (r ∷ rs) ↦ r ∷ rs
]

-- `BackfillSummariesJob.Run`
unfoldable pub backfill_summaries :
    Option (Text → Option Text) → ℕ → ℕ → Store → Option (Outcome × Store)
unfolding run_paginated_batch fetch_unsummarised set_summary generate_summary
backfill_summaries summarizer fuel batch_size s =
    run_paginated_batch fetch_unsummarised
      (λ (a : Artifact). set_summary a.id (generate_summary summarizer a.content)) fuel batch_size s
