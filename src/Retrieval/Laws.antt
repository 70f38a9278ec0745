-- ===== src/Retrieval/Laws.antt =====
-- merge.go: what a merge keeps.
use postbrain.Prelude.{
  ℕ, zero, suc, ◌≤◌, nat_eq, string_eq, ◌≡◌, refl, sym, ap, subst, ◌∙◌, ◌⊎◌, ◌↔◌, inl, inr, Bool,
  true, false, ◌&&◌, negb, Bool-cases, Option-cases, List, [], ◌∷◌, some, ltb, ◌==◌, eq_of_beq,
  length, take, drop, length-take-le, elem, elem_iff, select, In, In-select, In-map, of_In-map, All,
  All-of_In, In_of_All, arith,
}
use postbrain.Retrieval.{
  layer_memory, layer_knowledge, Result, knowledge_ids, is_superseded, filter_results,
  limit_or_default, merge,
}

In-drop : {A : Type 0} (n : ℕ) (xs : List A) (x : A) → In x (drop n xs) → In x xs
In-drop zero xs x i = i
In-drop (suc n) [] x i = absurd i
In-drop (suc n) (y ∷ xs) x i = inr (In-drop n xs x i)

In-take : {A : Type 0} (n : ℕ) (xs : List A) (x : A) → In x (take n xs) → In x xs
In-take zero xs x i = absurd i
In-take (suc n) [] x i = absurd i
In-take (suc n) (y ∷ xs) x i = elim i [
  | inl here ↦ inl here
  | inr there ↦ inr (In-take n xs x there)
]

In-take_or_drop :
    {A : Type 0} (n : ℕ) (xs : List A) (x : A) → In x xs → In x (take n xs) ⊎ In x (drop n xs)
In-take_or_drop zero xs x i = inr i
In-take_or_drop (suc n) [] x i = absurd i
In-take_or_drop (suc n) (y ∷ xs) x i = elim i [
  | inl here ↦ inl (inl here)
  | inr there ↦ elim (In-take_or_drop n xs x there) [ inl j ↦ inl (inr j) | inr j ↦ inr j ]
]

length-take_of_drop :
    {A : Type 0} (n : ℕ) (xs : List A) (x : A) → In x (drop n xs) → length (take n xs) ≡ n
length-take_of_drop zero xs x i = refl
length-take_of_drop (suc n) [] x i = absurd i
length-take_of_drop (suc n) (y ∷ xs) x i = ap suc (length-take_of_drop n xs x i)

take-all : {A : Type 0} (n : ℕ) (xs : List A) → length xs ≤ n → take n xs ≡ xs
take-all zero [] h = refl
take-all zero (x ∷ xs) h = absurd (omega (arith, h))
take-all (suc n) [] h = refl
take-all (suc n) (x ∷ xs) h = ap (λ l. x ∷ l) (take-all n xs (omega (arith, h)))

module _ {Score : Type 0} where
  -- The artifact that the memory was promoted to is among the results.
  abbrev pub IsSuperseded : List (Result Score) → Result Score → Type 0
  IsSuperseded results r =
      (r.layer ≡ layer_memory)
      × ((k : Result Score) × In k results
          × (k.layer ≡ layer_knowledge)
          × (r.promoted_to ≡ some k.id))

  superseded_iff :
      (ids : List ℕ) (r : Result Score)
      → (is_superseded ids r ≡ true)
        ↔ ((k : ℕ) × (r.layer ≡ layer_memory) × (r.promoted_to ≡ some k) × In k ids)
  unfolding is_superseded
  superseded_iff ids r = (
    λ h. elim (Bool-cases (r.layer == layer_memory)) [
      | inr other ↦ absurd (ground (arith, other))
      | inl its ↦ elim (Option-cases (r.promoted_to)) [
        | inl nowhere ↦ absurd (ground (arith, its, nowhere))
        | inr (k, to) ↦
            let there : elem k ids ≡ true = ground (arith, its, to, h) in
            (k, eq_of_beq r.layer layer_memory its, to, (elem_iff k ids).0 there)
      ]
    ],
    λ h.
        let (k, its, to, at) = h in
        let there : elem k ids ≡ true = (elem_iff k ids).1 at in rw (its, to) there,
  )

  IsSuperseded-iff :
      (results : List (Result Score)) (r : Result Score)
      → (is_superseded (knowledge_ids results) r ≡ true) ↔ IsSuperseded results r
  unfolding knowledge_ids
  IsSuperseded-iff results r =
      let test = λ (r : Result Score). r.layer == layer_knowledge in
      let id = λ (r : Result Score). r.id in
      (
        λ h.
            let (k, its, to, at) = (superseded_iff (knowledge_ids results) r).0 h in
            let (q, there, e) = of_In-map id (select test results) k at in
            let (i, layer) = (In-select test q results).0 there in
            (its, (q, i, eq_of_beq q.layer layer_knowledge layer, to ∙ ap (λ n. some n) e)),
        λ h.
            let (its, found) = h in
            let (q, i, layer, to) = found in
            let is_knowledge : test q ≡ true = ap (λ l. l == layer_knowledge) layer in
            (superseded_iff (knowledge_ids results) r).1 (
              q.id,
              its,
              to,
              In-map id (select test results) q ((In-select test q results).1 (i, is_knowledge)),
            ),
      )

module _ {Score : Type 0} (lt : Score → Score → Bool) (min_score : Score) where
  -- What may be kept: a result of at least the minimal score that is not superseded.
  abbrev pub Kept : List (Result Score) → Result Score → Type 0
  Kept results r = In r results × (IsSuperseded results r → ⊥) × (lt r.score min_score ≡ false)

  In-filter_results :
      (results : List (Result Score)) (r : Result Score)
      → In r (filter_results lt min_score (knowledge_ids results) results) ↔ Kept results r
  unfolding filter_results
  In-filter_results results r =
      let ids = knowledge_ids results in
      let test = λ (r : Result Score). negb (is_superseded ids r) && negb (lt r.score min_score) in
      (
        λ h.
            let (i, e) = (In-select test r results).0 h in
            (
              i,
              λ s. let yes_it = (IsSuperseded-iff results r).1 s in ground (arith, yes_it, e),
              ground (arith, e),
            ),
        λ h.
            let (i, not_s, high) = h in
            elim (Bool-cases (is_superseded ids r)) [
              | inl s ↦ absurd (not_s ((IsSuperseded-iff results r).0 s))
              | inr fine ↦ (In-select test r results).1 (i, ground (arith, fine, high))
            ],
      )

  -- No result is followed by one with a higher score.
  abbrev pub Sorted : List (Result Score) → Type 0
  Sorted [] = Unit
  Sorted (r ∷ rs) = All (λ (q : Result Score). lt r.score q.score ≡ false) rs × Sorted rs

  Sorted-split :
      (n : ℕ) (rows : List (Result Score)) (r q : Result Score)
      → Sorted rows
      → In r (take n rows)
      → In q (drop n rows)
      → lt r.score q.score ≡ false
  Sorted-split zero rows r q s i j = absurd i
  Sorted-split (suc n) [] r q s i j = absurd i
  Sorted-split (suc n) (x ∷ rows) r q (first, s) i j = elim i [
    | inl here ↦
        let at : In q rows = In-drop n rows q j in
        subst (λ (x : Result Score). lt x.score q.score ≡ false) (sym here)
          (In_of_All _ rows q first at)
    | inr there ↦ Sorted-split n rows r q s there j
  ]

  -- What sort.Slice promises of one call: the same results, sorted.
  abbrev pub IsSortOf : List (Result Score) → List (Result Score) → Type 0
  IsSortOf rows sorted = Sorted sorted × ((r : Result Score) → In r sorted ↔ In r rows)

  Sorted-take : (n : ℕ) (rows : List (Result Score)) → Sorted rows → Sorted (take n rows)
  Sorted-take zero rows s = tt
  Sorted-take (suc n) [] s = tt
  Sorted-take (suc n) (r ∷ rows) (first, s) = (
    All-of_In _ (take n rows) λ q i. In_of_All _ rows q first (In-take n rows q i),
    Sorted-take n rows s,
  )

  merge-take :
      (sort_by_score : List (Result Score) → List (Result Score)) (results : List (Result Score))
      (limit : ℕ)
      → merge lt sort_by_score results limit min_score
        ≡ take
            (limit_or_default limit)
            (sort_by_score (filter_results lt min_score (knowledge_ids results) results))
  unfolding merge
  merge-take sort_by_score results limit =
      let sorted = sort_by_score (filter_results lt min_score (knowledge_ids results) results) in
      let n = limit_or_default limit in
      elim (Bool-cases (ltb n (length sorted))) [
        | inl more ↦ rw more refl
        | inr fits ↦ rw fits (sym (take-all n sorted (ground (arith, fits))))
      ]

  -- Where the call of sort.Slice returned the same results sorted, a merge returns at most `limit`
  -- results (10 for the limit 0), sorted by falling score. Each was given, has at least the minimal
  -- score, and is no memory whose knowledge artifact was given too. One that fits this and is left out
  -- has no higher score than any result returned, and none is left out below the limit.
  pub merge_lem :
      (sort_by_score : List (Result Score) → List (Result Score)) (results : List (Result Score))
      (limit : ℕ)
      → IsSortOf
          (filter_results lt min_score (knowledge_ids results) results)
          (sort_by_score (filter_results lt min_score (knowledge_ids results) results))
      → (length (merge lt sort_by_score results limit min_score) ≤ limit_or_default limit)
        × Sorted (merge lt sort_by_score results limit min_score)
        × ((r : Result Score)
            → In r (merge lt sort_by_score results limit min_score)
            → Kept results r)
        × ((q : Result Score)
            → Kept results q
            → In q (merge lt sort_by_score results limit min_score)
              ⊎ ((length (merge lt sort_by_score results limit min_score) ≡ limit_or_default limit)
                  × ((r : Result Score)
                      → In r (merge lt sort_by_score results limit min_score)
                      → lt r.score q.score ≡ false)))
  merge_lem sort_by_score results limit (in_order, same) =
      let rows = filter_results lt min_score (knowledge_ids results) results in
      let sorted = sort_by_score rows in
      let n = limit_or_default limit in
      rw (merge-take sort_by_score results limit) (
        length-take-le n sorted,
        Sorted-take n sorted in_order,
        λ r i. (In-filter_results results r).0 ((same r).0 (In-take n sorted r i)),
        λ q k.
            let at : In q sorted = (same q).1 ((In-filter_results results q).1 k) in
            elim (In-take_or_drop n sorted q at) [
              | inl i ↦ inl i
              | inr j ↦
                  inr (
                    length-take_of_drop n sorted q j,
                    λ r i. Sorted-split n sorted r q in_order i j,
                  )
            ],
      )
