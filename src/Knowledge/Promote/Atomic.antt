-- ===== src/Knowledge/Promote/Atomic.antt =====
-- promote.go: `Approve` publishes everything or nothing.
use postbrain.Prelude.{
  ℕ, nat_eq, String, string_eq, ◌≡◌, refl, sym, ap, subst, ◌∙◌, ◌⊎◌, inl, inr, ◌∷◌, Option,
  Result-cases, some, Result, ok, err, get?, modify,
}
use postbrain.Prelude.Stateful.{M, ◌>>◌, then_do, then_do-cases, return}
use postbrain.Knowledge.Promote.{PromotionRequest, Memory, Artifact, Db, Error}
use postbrain.Knowledge.Promote.Approval.{
  draft_of, select_request, select_memory, insert_artifact, update_request, update_memory,
  transaction_point, Tx, in_tx, commit, rollback, embed, approve_steps, approve,
}
use postbrain.Knowledge.Promote.Laws.{IsDraftOf, draft_of-IsDraftOf, approved_by, promoted_as}
use postbrain.Knowledge.Promote.Statements.{
  Rows, rows_of, select_request-ok, select_memory-ok, transaction_point-ok, insert_artifact-ok,
  update_request-ok, update_memory-ok, transaction_point-rows, in_tx-outside, in_tx-inside,
  embed-same,
}

module _ (new_id request_id reviewer_id : ℕ) (d : Db) where
  -- The tables after an approval that made the artifact.
  abbrev Landed : Artifact → Rows → Type 0
  Landed a rows =
      (req : PromotionRequest) × (mem : Memory) × (get? request_id d.requests ≡ some req)
      × (get? req.memory_id d.memories ≡ some mem)
      × (a ≡ draft_of req mem)
      × (rows ≡ (
        modify request_id (approved_by new_id reviewer_id) d.requests,
        modify req.memory_id (promoted_as new_id) d.memories,
        (new_id, a) ∷ d.artifacts,
      ))

  -- What everybody reads after a transaction: the tables of before, or those after the approval.
  abbrev Settled : Result Error Artifact × Tx → Type 0
  Settled (ok a, t) = Landed a (rows_of t.outside)
  Settled (err e, t) = rows_of t.outside ≡ rows_of d

  -- A step that publishes nothing, whatever it returns, and what follows it.
  then_do-Settled {ℓ} :
      {A : Type ℓ} (r : Result Error A × Tx) (f : A → M Tx Error Artifact)
      → r.1.outside ≡ d
      → ((a : A) (t : Tx) → r ≡ (ok a, t) → t.outside ≡ d → Settled (f a t))
      → Settled (then_do r f)
  then_do-Settled r f kept next =
      then_do-cases Settled r f (λ e t h. ap (λ s. rows_of s.1.outside) (sym h) ∙ ap rows_of kept)
        λ a t h. next a t h (ap (λ s. s.1.outside) (sym h) ∙ kept)

  commit-Settled :
      (a : Artifact) (t : Tx)
      → t.outside ≡ d
      → Landed a (rows_of t.inside)
      → Settled (then_do (commit t) λ _. return a)
  unfolding commit
  commit-Settled a t kept made = elim (Result-cases ((transaction_point t.inside).0)) [
    | inl (u, fine) ↦
        rw (commit, fine) (subst (Landed a) (sym (transaction_point-rows t.inside)) made)
    | inr (e, down) ↦ rw (commit, down) (ap rows_of kept)
  ]

  -- The statements of the transaction that write, on tables that are still those of the start.
  approve_writes-Settled :
      (svc : Option (String → Result Error (Unit {0}))) (req : PromotionRequest) (mem : Memory)
      (t : Tx)
      → t.outside ≡ d
      → get? request_id d.requests ≡ some req
      → get? req.memory_id d.memories ≡ some mem
      → rows_of t.inside ≡ rows_of d
      → Settled (
          then_do (embed svc mem.content t) λ _.
            in_tx (insert_artifact new_id (draft_of req mem))
            >> (in_tx (update_request request_id new_id reviewer_id)
                >> (in_tx (update_memory req.memory_id new_id)
                    >> (commit >> return (draft_of req mem)))))
  approve_writes-Settled svc req mem t k row memory r =
      let a = draft_of req mem in
      then_do-Settled (embed svc mem.content t) _
        (ap (λ (s : Tx). s.outside) (embed-same svc mem.content t) ∙ k)
        λ _ t3 h3 k3.
          let r3 : rows_of t3.inside ≡ rows_of d =
            ap (λ s. rows_of s.1.inside) (sym h3)
            ∙ (ap (λ (s : Tx). rows_of s.inside) (embed-same svc mem.content t) ∙ r) in
          then_do-Settled (in_tx (insert_artifact new_id a) t3) _
            (in_tx-outside (insert_artifact new_id a) t3 ∙ k3)
            λ _ t4 h4 k4.
              let r4 =
                insert_artifact-ok new_id a t3.inside t4.inside
                  (in_tx-inside (insert_artifact new_id a) t3 t4 h4)
                ∙ ap (λ (r : Rows). (r.0, r.1, (new_id, a) ∷ r.2)) r3 in
              then_do-Settled (in_tx (update_request request_id new_id reviewer_id) t4) _
                (in_tx-outside (update_request request_id new_id reviewer_id) t4 ∙ k4)
                λ _ t5 h5 k5.
                  let r5 =
                    update_request-ok request_id new_id reviewer_id t4.inside t5.inside
                      (in_tx-inside (update_request request_id new_id reviewer_id) t4 t5 h5)
                    ∙ ap
                        (λ (r : Rows).
                          (modify request_id (approved_by new_id reviewer_id) r.0, r.1, r.2))
                        r4 in
                  then_do-Settled (in_tx (update_memory req.memory_id new_id) t5) _
                    (in_tx-outside (update_memory req.memory_id new_id) t5 ∙ k5)
                    λ _ t6 h6 k6.
                      let r6 =
                        update_memory-ok req.memory_id new_id t5.inside t6.inside
                          (in_tx-inside (update_memory req.memory_id new_id) t5 t6 h6)
                        ∙ ap
                            (λ (r : Rows).
                              (r.0, modify req.memory_id (promoted_as new_id) r.1, r.2))
                            r5 in
                      commit-Settled a t6 k6 (req, mem, row, memory, refl, r6)

  approve_steps-Settled :
      (svc : Option (String → Result Error (Unit {0})))
      → Settled
          (approve_steps svc new_id request_id reviewer_id (record { outside = d; inside = d }))
  unfolding approve_steps
  approve_steps-Settled svc =
      let start : Tx = record { outside = d; inside = d } in
      then_do-Settled (in_tx transaction_point start) _ (in_tx-outside transaction_point start)
        λ _ t0 h0 k0.
          let r0 : rows_of t0.inside ≡ rows_of d =
            transaction_point-ok d t0.inside (in_tx-inside transaction_point start t0 h0) in
          then_do-Settled (in_tx (select_request request_id) t0) _
            (in_tx-outside (select_request request_id) t0 ∙ k0)
            λ req t1 h1 k1.
              let (found, r1) =
                select_request-ok request_id t0.inside t1.inside
                  (in_tx-inside (select_request request_id) t0 t1 h1) in
              then_do-Settled (in_tx (select_memory req.memory_id) t1) _
                (in_tx-outside (select_memory req.memory_id) t1 ∙ k1)
                λ mem t2 h2 k2.
                  let (there, r2) =
                    select_memory-ok req.memory_id t1.inside t2.inside
                      (in_tx-inside (select_memory req.memory_id) t1 t2 h2) in
                  approve_writes-Settled svc req mem t2 k2
                    (ap (λ (r : Rows). get? request_id r.0) (sym r0) ∙ found)
                    (ap (λ (r : Rows). get? req.memory_id r.1) (sym (r1 ∙ r0)) ∙ there)
                    (r2 ∙ (r1 ∙ r0))

  -- An approval with this answer was done as a whole or not at all.
  abbrev pub AllOrNothing : Result Error Artifact × Db → Type 0
  AllOrNothing (result, d') =
      ((e : Error) × (result ≡ err e)
        × (d'.requests ≡ d.requests)
        × (d'.memories ≡ d.memories)
        × (d'.artifacts ≡ d.artifacts))
      ⊎ ((req : PromotionRequest) × (mem : Memory) × (a : Artifact) × (get? request_id d.requests
            ≡ some req)
          × (get? req.memory_id d.memories ≡ some mem)
          × (result ≡ ok a)
          × IsDraftOf req mem a
          × (d'.artifacts ≡ (new_id, a) ∷ d.artifacts)
          × (d'.requests ≡ modify request_id (approved_by new_id reviewer_id) d.requests)
          × (d'.memories ≡ modify req.memory_id (promoted_as new_id) d.memories))

  rollback-AllOrNothing : (r : Result Error Artifact × Tx) → Settled r → AllOrNothing (rollback r)
  unfolding rollback
  rollback-AllOrNothing (err e, t) same = inl (
    e,
    refl,
    ap (λ (r : Rows). r.0) same,
    ap (λ (r : Rows). r.1) same,
    ap (λ (r : Rows). r.2) same,
  )
  rollback-AllOrNothing (ok a, t) (req, mem, row, memory, made, rows) = inr (
    req,
    mem,
    a,
    row,
    memory,
    refl,
    subst (IsDraftOf req mem) (sym made) (draft_of-IsDraftOf req mem),
    ap (λ (r : Rows). r.2) rows,
    ap (λ (r : Rows). r.0) rows,
    ap (λ (r : Rows). r.1) rows,
  )

  -- Whichever queries fail, and whatever the embedding service answers, an approval is done as a whole
  -- or not at all. Either it fails, and the requests, the memories and the artifacts are as before; or
  -- the request and its memory were there, the result is a draft of the memory for the request, and the
  -- tables are those of before with the draft put before the other artifacts, the request approved by
  -- the reviewer and naming it, and the memory promoted to it.
  pub approve_atomic :
      (svc : Option (String → Result Error (Unit {0})))
      → AllOrNothing (approve svc new_id request_id reviewer_id d)
  unfolding approve
  approve_atomic svc =
      rollback-AllOrNothing
        (approve_steps svc new_id request_id reviewer_id (record { outside = d; inside = d }))
        (approve_steps-Settled svc)
