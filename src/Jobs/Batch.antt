-- ===== src/Jobs/Batch.antt =====
-- batch.go: the loop over a table that the processing leaves alone.
use postbrain.Prelude.{
  ℕ, zero, suc, ◌+◌, ◌-◌, ◌≤◌, ◌<◌, ◌≡◌, refl, sym, ap, ◌∙◌, inl, inr, false, Bool-cases, List, [],
  ◌∷◌, ◌++◌, Option, none, some, ltb, ◌==◌, eq_of_beq, nat_eq, length, take, drop, length-drop,
  length-take-le, take-append-drop, drop-drop, arith,
}
use postbrain.Jobs.{Outcome, process_all, batches_from, run_paginated_batch}

nothing : {A : Type 0} (xs : List A) → length xs ≡ 0 → xs ≡ []
nothing [] h = refl
nothing (x ∷ xs) h = absurd (omega (arith, h))

take-empty : {A : Type 0} (n : ℕ) (xs : List A) → 1 ≤ n → take n xs ≡ [] → xs ≡ []
take-empty zero xs h e = absurd (omega arith)
take-empty (suc n) [] h e = refl
take-empty (suc n) (x ∷ xs) h e = absurd (ground arith)

full_page :
    {A : Type 0} (n : ℕ) (xs : List A) → ltb (length (take n xs)) n ≡ false → length (take n xs) ≡ n
full_page n xs h = ground (arith, h, length-take-le n xs)

at_least : {A : Type 0} (n : ℕ) (xs : List A) → length (take n xs) ≡ n → n ≤ length xs
at_least zero xs h = omega arith
at_least (suc n) [] h = absurd (omega (arith, h))
at_least (suc n) (x ∷ xs) h = omega (arith, at_least n xs (omega (arith, h)))

-- One round of the loop: the last one, and one that a next follows.
module _ {S T : Type 0} (fetch : ℕ → ℕ → S → Option (List T) × S) (process : T → S → S) where
  pub last_round :
      (fuel b o total : ℕ) (s t : S)
      → fetch b o s ≡ (some [], t)
      → batches_from fetch process (suc fuel) b o total s
        ≡ some (record { total = total; error = none }, t)
  unfolding batches_from
  last_round fuel b o total s t e = rw (e, batches_from, e) refl

  pub full_round :
      (fuel b o total : ℕ) (s t : S) (page : List T)
      → fetch b o s ≡ (some page, t)
      → 1 ≤ b
      → length page ≡ b
      → batches_from fetch process (suc fuel) b o total s
        ≡ batches_from fetch process fuel b (o + b) (total + b) (process_all fetch process page t)
  unfolding batches_from
  full_round fuel b o total s t page e h k =
      let some_rows : (length page == 0) ≡ false = ground (arith, h, k) in
      let whole : ltb (length page) b ≡ false = ground (arith, k) in
      rw (e, batches_from, some_rows, whole, e, k) refl

module _ {S T : Type 0} (fetch : ℕ → ℕ → S → Option (List T) × S) (process : T → S → S)
    (rows : List T)
    (paged : (n o : ℕ) (s : S) → fetch n o s ≡ (some (take n (drop o rows)), s)) where
  process_all-append :
      (xs ys : List T) (s : S)
      → process_all fetch process (xs ++ ys) s
        ≡ process_all fetch process ys (process_all fetch process xs s)
  unfolding process_all
  process_all-append [] ys s = refl
  process_all-append (x ∷ xs) ys s = process_all-append xs ys (process x s)

  take-all : (n : ℕ) (xs : List T) → length (take n xs) < n → take n xs ≡ xs
  take-all zero xs h = absurd (omega arith)
  take-all (suc n) [] h = refl
  take-all (suc n) (x ∷ xs) h = ap (λ l. x ∷ l) (take-all n xs (omega (arith, h)))

  same_end :
      (n m : ℕ) (s t : S)
      → n ≡ m
      → s ≡ t
      → ◌≡◌ {A = Option (Outcome × S)}
          (some (record { total = n; error = none }, s))
          (some (record { total = m; error = none }, t))
  same_end n m s t e f = rw (e, f) refl

  take-drop_split : (n o : ℕ) → take n (drop o rows) ++ drop (o + n) rows ≡ drop o rows
  take-drop_split n o =
      ap (λ l. take n (drop o rows) ++ l) (sym (drop-drop o n rows))
      ∙ take-append-drop n (drop o rows)

  -- From an offset on, the loop processes the rows there, each once, and counts them.
  batches_from_lem :
      (fuel b o total : ℕ) (s : S)
      → 1 ≤ b
      → length rows - o < fuel
      → batches_from fetch process fuel b o total s
        ≡ some (
          record { total = total + (length rows - o); error = none },
          process_all fetch process (drop o rows) s,
        )
  unfolding batches_from
  batches_from_lem zero b o total s h k = absurd (omega arith)
  batches_from_lem (suc fuel) b o total s h k =
      let page = take b (drop o rows) in
      let size = length-drop o rows in
      elim (Bool-cases (length page == 0)) [
        | inl empty ↦
            let gone =
              take-empty b (drop o rows) h (nothing page (eq_of_beq (length page) 0 empty)) in
            let no_rows : length (drop o rows) ≡ 0 = ap length gone in
            rw (paged b o s, batches_from, empty, paged b o s)
              (same_end total (total + (length rows - o)) s
                (process_all fetch process (drop o rows) s) (omega (arith, size, no_rows))
                (rw gone refl))
        | inr found ↦ elim (Bool-cases (ltb (length page) b)) [
          | inl last ↦
              let all_rows = take-all b (drop o rows) (ground (arith, last)) in
              let count : length page ≡ length (drop o rows) = ap length all_rows in
              rw (paged b o s, batches_from, found, last, paged b o s)
                (same_end (total + length page) (total + (length rows - o)) _ _
                  (omega (arith, size, count)) (ap (λ l. process_all fetch process l s) all_rows))
          | inr full ↦
              let count : length page ≡ b = full_page b (drop o rows) full in
              let enough = length-take-le b (drop o rows) in
              let after = process_all fetch process page s in
              rw (paged b o s, batches_from, found, full, paged b o s)
                (batches_from_lem fuel b (o + b) (total + length page) after h
                    (omega (arith, k, size, count, h, at_least b (drop o rows) count))
                  ∙ same_end (total + length page + (length rows - (o + b)))
                      (total + (length rows - o)) _ _
                      (omega (arith, size, count, at_least b (drop o rows) count))
                      (sym (process_all-append page (drop (o + b) rows) s)
                        ∙ ap (λ l. process_all fetch process l s) (take-drop_split b o)))
        ]
      ]

  -- Where every fetch returns that page of the same rows and changes nothing, the loop, with a positive
  -- batch size and one round more than there are rows, ends without error, has processed all rows in
  -- their order, each once, and returns their number.
  pub run_paginated_batch_lem :
      (fuel batch_size : ℕ) (s : S)
      → length rows < fuel
      → 1 ≤ batch_size
      → run_paginated_batch fetch process fuel batch_size s
        ≡ some (record { total = length rows; error = none }, process_all fetch process rows s)
  unfolding run_paginated_batch
  run_paginated_batch_lem fuel zero s h k = absurd (omega arith)
  run_paginated_batch_lem fuel (suc n) s h k =
      batches_from_lem fuel (suc n) 0 0 s k (omega (arith, h))
      ∙ same_end (0 + (length rows - 0)) (length rows) _ _ (omega arith) refl
