-- ===== src/Knowledge/Lifecycle/Deleting.antt =====
-- lifecycle.go: `Delete`, query by query.
use postbrain.Prelude.{
  ℕ, nat_eq, ◌≡◌, refl, sym, ap, ◌∙◌, ◌⊎◌, inl, inr, true, Option, none, some, ◌==◌, Result, ok,
  err, get?, get?-remove, String, arith,
}
use postbrain.Prelude.Stateful.{◌>>◌, then_do, then_do-cases}
use postbrain.LifecycleCore.{MembershipChecker, is_effective_admin}
use postbrain.Knowledge.Tables.{
  Artifact, Db, Error, get_artifact, flag_digests_staleness, delete_artifact_entity_links,
  null_previous_version_refs, null_promotion_request_artifact_ref, reset_promoted_memory_status,
  delete_artifact, null_ref,
}
use postbrain.Knowledge.Tables.Laws.{
  status?, status_of, get?-map_rows, get_artifact-result, get_artifact-error,
}
use postbrain.Knowledge.Lifecycle.{existing, admin_only, delete}
use postbrain.Knowledge.Lifecycle.Endorsing.{existing-state, existing-ok}

module _ (b id : ℕ) (s : Db) where
  status_of-flag_digests_staleness :
      (signal : String) → status_of b (flag_digests_staleness id signal s).1 ≡ status_of b s
  unfolding flag_digests_staleness
  status_of-flag_digests_staleness signal = ground arith

  status_of-delete_artifact_entity_links :
      status_of b (delete_artifact_entity_links id s).1 ≡ status_of b s
  unfolding delete_artifact_entity_links
  status_of-delete_artifact_entity_links = ground arith

  status_of-null_previous_version_refs :
      status_of b (null_previous_version_refs id s).1 ≡ status_of b s
  unfolding null_previous_version_refs
  status_of-null_previous_version_refs = ground (
    arith,
    get?-map_rows b (λ a. record a { previous_version = null_ref id a.previous_version })
        s.artifacts,
  )

  status_of-null_promotion_request_artifact_ref :
      status_of b (null_promotion_request_artifact_ref id s).1 ≡ status_of b s
  unfolding null_promotion_request_artifact_ref
  status_of-null_promotion_request_artifact_ref = ground arith

  status_of-reset_promoted_memory_status :
      status_of b (reset_promoted_memory_status id s).1 ≡ status_of b s
  unfolding reset_promoted_memory_status
  status_of-reset_promoted_memory_status = ground arith

  status_of-delete_artifact :
      (status_of b (delete_artifact id s).1 ≡ status_of b s)
      ⊎ ((b ≡ id) × (status_of b (delete_artifact id s).1 ≡ none))
  unfolding delete_artifact
  status_of-delete_artifact = ground (arith, get?-remove (λ k. k == id) b s.artifacts)

-- What a query leaves alone, it leaves alone on the way to its result.
by_result {ℓ κ} :
    {E : Type ℓ} {A : Type κ} (b : ℕ) (r : Result E A × Db) (m : Result E A) (s s' : Db)
    → r ≡ (m, s')
    → status_of b r.1 ≡ status_of b s
    → status_of b s' ≡ status_of b s
by_result b r m s s' h k = ap (λ t. status_of b t.1) (sym h) ∙ k

admin_only-result :
    (membership : Option MembershipChecker) (caller_id : ℕ) (a : Artifact) (s : Db)
    (r : Result Error (Unit {0})) (s' : Db)
    → admin_only membership caller_id a s ≡ (r, s')
    → (s' ≡ s) × ((r ≡ ok tt) → is_effective_admin membership caller_id a.owner_scope_id ≡ ok true)
unfolding admin_only
admin_only-result membership caller_id a s r s' h = (ground arith, λ e. ground arith)

module _ (membership : Option MembershipChecker) (artifact_id caller_id b : ℕ) (d : Db) where
  -- The status of `b` stays, or the artifact is deleted by an effective admin of its scope.
  abbrev pub Deleted : Db → Type 0
  Deleted s =
      (status_of b s ≡ status_of b d)
      ⊎ ((a : Artifact) × (b ≡ artifact_id)
          × (get? artifact_id d.artifacts ≡ some a)
          × (is_effective_admin membership caller_id a.owner_scope_id ≡ ok true)
          × (status_of b s ≡ none))

  after_links-Deleted :
      (a : Artifact) (s : Db)
      → status_of b s ≡ status_of b d
      → get? artifact_id d.artifacts ≡ some a
      → is_effective_admin membership caller_id a.owner_scope_id ≡ ok true
      → Deleted
          (then_do (null_previous_version_refs artifact_id s) λ _.
            null_promotion_request_artifact_ref artifact_id
            >> (reset_promoted_memory_status artifact_id >> delete_artifact artifact_id)).1
  after_links-Deleted a s kept row admin =
      then_do-cases (λ r. Deleted r.1) (null_previous_version_refs artifact_id s) _
        (λ e s1 h1. inl (
          by_result b _ (err e) s s1 h1 (status_of-null_previous_version_refs b artifact_id s)
          ∙ kept))
        λ t s1 h1.
          let kept1 =
            by_result b _ (ok t) s s1 h1 (status_of-null_previous_version_refs b artifact_id s)
            ∙ kept in
          then_do-cases (λ r. Deleted r.1) (null_promotion_request_artifact_ref artifact_id s1) _
            (λ e s2 h2. inl (
              by_result b _ (err e) s1 s2 h2
                (status_of-null_promotion_request_artifact_ref b artifact_id s1)
              ∙ kept1))
            λ t2 s2 h2.
              let kept2 =
                by_result b _ (ok t2) s1 s2 h2
                  (status_of-null_promotion_request_artifact_ref b artifact_id s1)
                ∙ kept1 in
              then_do-cases (λ r. Deleted r.1) (reset_promoted_memory_status artifact_id s2) _
                (λ e s3 h3. inl (
                  by_result b _ (err e) s2 s3 h3
                    (status_of-reset_promoted_memory_status b artifact_id s2)
                  ∙ kept2))
                λ t3 s3 h3.
                  let kept3 =
                    by_result b _ (ok t3) s2 s3 h3
                      (status_of-reset_promoted_memory_status b artifact_id s2)
                    ∙ kept2 in
                  elim (status_of-delete_artifact b artifact_id s3) [
                    | inl stays ↦ inl (stays ∙ kept3)
                    | inr (target, gone) ↦ inr (a, target, row, admin, gone)
                  ]

  pub delete-Deleted : Deleted (delete membership artifact_id caller_id d).1
  unfolding delete
  delete-Deleted =
      then_do-cases (λ r. Deleted r.1) (get_artifact artifact_id d) _
        (λ e s h.
          inl (ap (λ rows. status? (get? b rows)) (get_artifact-error artifact_id d s e h).0))
        λ found s h.
          let (is_row, rows, _) = get_artifact-result artifact_id d s found h in
          let kept : status_of b s ≡ status_of b d = ap (λ rows. status? (get? b rows)) rows in
          then_do-cases (λ r. Deleted r.1) (existing found s) _
            (λ e s1 h1. inl (ap (status_of b) (existing-state found s (err e) s1 h1) ∙ kept))
            λ a s1 h1.
              let kept1 = ap (status_of b) (existing-state found s (ok a) s1 h1) ∙ kept in
              then_do-cases (λ r. Deleted r.1) (admin_only membership caller_id a s1) _
                (λ e s2 h2. inl (
                  ap (status_of b) (admin_only-result membership caller_id a s1 (err e) s2 h2).0
                  ∙ kept1))
                λ t s2 h2.
                  let (same, admin) = admin_only-result membership caller_id a s1 (ok t) s2 h2 in
                  let kept2 = ap (status_of b) same ∙ kept1 in
                  let flagged = (flag_digests_staleness artifact_id "source_deleted" s2).1 in
                  after_links-Deleted a (delete_artifact_entity_links artifact_id flagged).1
                    (status_of-delete_artifact_entity_links b artifact_id flagged
                      ∙ (status_of-flag_digests_staleness b artifact_id s2 "source_deleted"
                          ∙ kept2))
                    (sym is_row ∙ existing-ok found s a s1 h1) (admin refl)
