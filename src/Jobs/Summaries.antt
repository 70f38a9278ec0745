-- ===== src/Jobs/Summaries.antt =====
-- backfill_summaries.go: what one run of the job leaves.
use postbrain.Prelude.{
  ℕ, zero, suc, ◌+◌, ◌≤◌, nat_eq, ◌≡◌, refl, ap, ◌∙◌, inl, inr, Bool, false, Bool-cases, List, [],
  ◌∷◌, Option, none, some, ◌==◌, beq_self, beq_comm, length, take, drop, select, length-take,
  length-drop, All, arith,
}
use postbrain.Chunking.{Text}
use postbrain.Jobs.Batch.{full_round, last_round}
use postbrain.Jobs.{
  Artifact, Store, is_unsummarised, is_down, answered, put_summary, set_summary, generate_summary,
  fetch_unsummarised, process_all, batches_from, run_paginated_batch, backfill_summaries,
}

-- No two rows have the same id.
abbrev pub DistinctIds : List Artifact → Type 0
DistinctIds [] = Unit
DistinctIds (r ∷ rows) = All (λ (a : Artifact). (r.id == a.id) ≡ false) rows × DistinctIds rows

All-select :
    {A : Type 0} (P : A → Type 0) (p : A → Bool) (xs : List A) → All P xs → All P (select p xs)
All-select P p [] h = tt
All-select P p (x ∷ xs) (a, h) = elim (Bool-cases (p x)) [
  | inl kept ↦ rw kept (a, All-select P p xs h)
  | inr gone ↦ rw gone (All-select P p xs h)
]

All-take : {A : Type 0} (P : A → Type 0) (n : ℕ) (xs : List A) → All P xs → All P (take n xs)
All-take P zero xs h = tt
All-take P (suc n) [] h = tt
All-take P (suc n) (x ∷ xs) (a, h) = (a, All-take P n xs h)

module _ (summarizer : Option (Text → Option Text)) where
  abbrev process : Artifact → Store → Store
  process a = set_summary a.id (generate_summary summarizer a.content)

  -- The updates of a page, one after the other.
  abbrev fill : List Artifact → List Artifact → List Artifact
  fill [] rows = rows
  fill (a ∷ page) rows = fill page (put_summary a.id (generate_summary summarizer a.content) rows)

  process_all-fill :
      (page rows : List Artifact)
      → process_all fetch_unsummarised process page (record { artifacts = rows; outages = [] })
        ≡ record { artifacts = fill page rows; outages = [] }
  unfolding process_all set_summary
  process_all-fill [] rows = refl
  process_all-fill (a ∷ page) rows =
      process_all-fill page (put_summary a.id (generate_summary summarizer a.content) rows)

  put_summary-absent :
      (id : ℕ) (summary : Text) (rows : List Artifact)
      → All (λ (a : Artifact). (id == a.id) ≡ false) rows
      → put_summary id summary rows ≡ rows
  unfolding put_summary
  put_summary-absent id summary [] h = refl
  put_summary-absent id summary (r ∷ rows) (e, h) =
      rw (beq_comm r.id id, e) (ap (λ l. r ∷ l) (put_summary-absent id summary rows h))

  fill-cons :
      (page : List Artifact) (r : Artifact) (rows : List Artifact)
      → All (λ (a : Artifact). (r.id == a.id) ≡ false) page
      → fill page (r ∷ rows) ≡ r ∷ fill page rows
  unfolding put_summary
  fill-cons [] r rows h = refl
  fill-cons (a ∷ page) r rows (e, h) =
      rw e (fill-cons page r (put_summary a.id (generate_summary summarizer a.content) rows) h)

  select-skip :
      (r : Artifact) (rows : List Artifact)
      → is_unsummarised r ≡ false
      → select is_unsummarised (r ∷ rows) ≡ select is_unsummarised rows
  select-skip r rows h = rw h refl

  -- What is left without a summary after the first rows of the query were given one.
  select-fill :
      (k : ℕ) (rows : List Artifact)
      → DistinctIds rows
      → select is_unsummarised (fill (take k (select is_unsummarised rows)) rows)
        ≡ drop k (select is_unsummarised rows)
  unfolding is_unsummarised put_summary
  select-fill zero rows h = refl
  select-fill (suc k) [] h = refl
  select-fill (suc k) (r ∷ rows) (new, h) =
      let S = select is_unsummarised rows in
      elim (Bool-cases (is_unsummarised r)) [
        | inl missing ↦
            let text = generate_summary summarizer r.content in
            let given : Artifact = record r { summary = some text } in
            rw (missing, beq_self r.id, put_summary-absent r.id text rows new)
              (ap (λ l. select is_unsummarised l)
                  (fill-cons (take k S) given rows
                    (All-take _ k S (All-select _ is_unsummarised rows new)))
                ∙ select-fill k rows h)
        | inr there ↦ rw there (
            ap (λ l. select is_unsummarised l)
              (fill-cons (take (suc k) S) r rows
                (All-take _ (suc k) S (All-select _ is_unsummarised rows new)))
            ∙ select-skip r (fill (take (suc k) S) rows) there
            ∙ select-fill (suc k) rows h)
      ]

  fetched :
      (n o : ℕ) (rows : List Artifact)
      → fetch_unsummarised n o (record { artifacts = rows; outages = [] }) ≡ (
        some (take n (drop o (select is_unsummarised rows))),
        record { artifacts = rows; outages = [] },
      )
  unfolding fetch_unsummarised is_down answered
  fetched n o rows = refl

  drop-nothing : {A : Type 0} (n : ℕ) (xs : List A) → length xs ≤ n → drop n xs ≡ []
  drop-nothing zero [] h = refl
  drop-nothing zero (x ∷ xs) h = absurd (omega (arith, h))
  drop-nothing (suc n) [] h = refl
  drop-nothing (suc n) (x ∷ xs) h = drop-nothing n xs (omega (arith, h))

  -- A run over rows with distinct ids and no failing query, where the rows without a summary are at
  -- least one page and at most two, gives a summary to the first page of them and to no other row: the
  -- second page is skipped, the run ends without error, and what it leaves without a summary is
  -- everything after the first page.
  pub backfill_summaries-skips :
      (fuel batch_size : ℕ) (rows : List Artifact)
      → DistinctIds rows
      → 1 ≤ batch_size
      → 2 ≤ fuel
      → batch_size ≤ length (select is_unsummarised rows)
      → length (select is_unsummarised rows) ≤ batch_size + batch_size
      → (s : Store) × (backfill_summaries summarizer fuel batch_size
            (record { artifacts = rows; outages = [] })
          ≡ some (record { total = batch_size; error = none }, s))
        × (select is_unsummarised s.artifacts ≡ drop batch_size (select is_unsummarised rows))
  unfolding backfill_summaries run_paginated_batch
  backfill_summaries-skips fuel zero rows h one two b n = absurd (omega (arith, one))
  backfill_summaries-skips zero (suc m) rows h one two b n = absurd (omega (arith, two))
  backfill_summaries-skips (suc zero) (suc m) rows h one two b n = absurd (omega (arith, two))
  backfill_summaries-skips (suc (suc fuel)) (suc m) rows h one two b n =
      let S = select is_unsummarised rows in
      let filled = fill (take (suc m) S) rows in
      let left = select-fill (suc m) rows h in
      let few : length (drop (suc m) S) ≤ suc m = omega (arith, n, length-drop (suc m) S) in
      let gone : drop (suc m) (select is_unsummarised filled) ≡ [] =
        ap (λ l. drop (suc m) l) left ∙ drop-nothing (suc m) (drop (suc m) S) few in
      let start : Store = record { artifacts = rows; outages = [] } in
      let end : Store = record { artifacts = filled; outages = [] } in
      let size : 0 + suc m ≡ suc m = omega arith in
      (
        record { artifacts = filled; outages = [] },
        full_round fetch_unsummarised process (suc fuel) (suc m) 0 0 start
              (record { artifacts = rows; outages = [] }) (take (suc m) S) (fetched (suc m) 0 rows)
              one (length-take (suc m) S b)
            ∙ ap
                (λ s.
                  batches_from fetch_unsummarised process (suc fuel) (suc m) (0 + suc m) (0 + suc m)
                    s)
                (process_all-fill (take (suc m) S) rows)
            ∙ last_round fetch_unsummarised process fuel (suc m) (0 + suc m) (0 + suc m) end end (
                ap (λ o. fetch_unsummarised (suc m) o end) size
                ∙ fetched (suc m) (suc m) filled
                ∙ ap (λ l. (some (take (suc m) l), record { artifacts = filled; outages = [] }))
                    gone)
            ∙ ap (λ n. some (record { total = n; error = none }, end)) size,
        left,
      )
