-- ===== src/Knowledge/Lifecycle/Removal.antt =====
-- lifecycle.go: what `Delete` does on a database that answers.
use postbrain.Prelude.{
  ℕ, nat_eq, ◌≡◌, ◌≢◌, refl, ap, ◌∙◌, inl, inr, Bool-cases, true, false, ◌&&◌, List, [], ◌∷◌,
  Option, Option-cases, none, some, ◌==◌, negb, any, any_iff, In, ok, err, get?, get?-remove,
  remove, map, eq_of_beq, beq_self, arith,
}
use postbrain.LifecycleCore.{MembershipChecker, is_effective_admin}
use postbrain.Knowledge.Tables.{
  Artifact, Memory, Db, not_null, get_artifact, flag_digests_staleness,
  delete_artifact_entity_links, null_previous_version_refs, null_promotion_request_artifact_ref,
  reset_promoted_memory_status, delete_artifact, null_ref, refers_to, is_promoted_to,
}
use postbrain.Knowledge.Tables.Laws.{get?-map_rows}
use postbrain.Knowledge.Lifecycle.{delete}

-- A reference that was set to NULL refers to nothing.
any-null_refs :
    (id : ℕ) (rows : List (ℕ × Option ℕ))
    → any
        (λ (row : ℕ × Option ℕ). refers_to id row.1)
        (map (λ (row : ℕ × Option ℕ). (row.0, null_ref id row.1)) rows)
      ≡ false
any-null_refs id [] = refl
any-null_refs id ((k, none) ∷ rows) = any-null_refs id rows
any-null_refs id ((k, some r) ∷ rows) = ground (arith, any-null_refs id rows)

any-null_versions :
    (id : ℕ) (rows : List (ℕ × Artifact))
    → any
        (λ (row : ℕ × Artifact). negb (row.0 == id) && refers_to id row.1.previous_version)
        (map
          (λ (row : ℕ × Artifact). (
            row.0,
            let a = row.1 in record a { previous_version = null_ref id a.previous_version },
          ))
          rows)
      ≡ false
any-null_versions id [] = refl
any-null_versions id ((k, a) ∷ rows) = ground (arith, any-null_versions id rows)

-- The tables before the query for the memories.
abbrev cleared : ℕ → Db → Db
cleared id d = record d {
  outages = [];
  staleness_flags = (flag_digests_staleness id "source_deleted" d).1.staleness_flags;
  artifact_entities = remove (λ k. k == id) d.artifact_entities;
  artifacts =
      map
        (λ (row : ℕ × Artifact).
          (row.0, let a = row.1 in record a { previous_version = null_ref id a.previous_version }))
        d.artifacts;
  promotion_requests =
      map (λ (row : ℕ × Option ℕ). (row.0, null_ref id row.1)) d.promotion_requests;
}

delete_artifact-cleared :
    (id : ℕ) (d : Db)
    → let (result, d') = delete_artifact id (cleared id d) in
      (result ≡ ok tt)
      × (get? id d'.artifacts ≡ none)
      × (get? id d'.endorsements ≡ none)
      × (get? id d'.artifact_entities ≡ none)
unfolding delete_artifact
delete_artifact-cleared id d = ground (
  arith,
  any-null_refs id d.promotion_requests,
  any-null_versions id d.artifacts,
  get?-remove (λ k. k == id) id (cleared id d).artifacts,
  get?-remove (λ k. k == id) id d.endorsements,
  get?-remove (λ k. k == id) id (remove (λ k. k == id) d.artifact_entities),
)

-- A memory that was promoted to the artifact is found by the query, and only such a memory is.
any-is_promoted_to :
    (id : ℕ) (rows : List (ℕ × Memory))
    → ((k : ℕ) (m : Memory) → In (k, m) rows → m.promoted_to ≢ some id)
    → any (is_promoted_to id) rows ≡ false
any-is_promoted_to id rows apart = elim (Bool-cases (any (is_promoted_to id) rows)) [
  | inr off ↦ off
  | inl on ↦
      let ((k, m), i, hit) = (any_iff (is_promoted_to id) rows).0 on in
      elim (Option-cases (m.promoted_to)) [
        | inl absent ↦ absurd (ground (arith, absent, hit))
        | inr (r, there) ↦
            let same : (r == id) ≡ true = ground (arith, there, hit) in
            absurd (apart k m i (there ∙ ap (λ n. some n) (eq_of_beq r id same)))
      ]
]

is_promoted_to-any :
    (id k : ℕ) (m : Memory) (rows : List (ℕ × Memory))
    → In (k, m) rows
    → m.promoted_to ≡ some id
    → any (is_promoted_to id) rows ≡ true
is_promoted_to-any id k m rows i there =
    (any_iff (is_promoted_to id) rows).1 ((k, m), i, ground (arith, there, beq_self id))

module _ (membership : Option MembershipChecker) (artifact_id caller_id : ℕ) (d : Db)
    (a : Artifact) where
  delete-cleared :
      d.outages ≡ []
      → get? artifact_id d.artifacts ≡ some a
      → is_effective_admin membership caller_id a.owner_scope_id ≡ ok true
      → any (is_promoted_to artifact_id) d.memories ≡ false
      → delete membership artifact_id caller_id d
        ≡ delete_artifact artifact_id (cleared artifact_id d)
  unfolding delete get_artifact flag_digests_staleness delete_artifact_entity_links
      null_previous_version_refs null_promotion_request_artifact_ref reset_promoted_memory_status
  delete-cleared works row admin apart = ground arith

  delete-refused :
      d.outages ≡ []
      → get? artifact_id d.artifacts ≡ some a
      → is_effective_admin membership caller_id a.owner_scope_id ≡ ok true
      → any (is_promoted_to artifact_id) d.memories ≡ true
      → delete membership artifact_id caller_id d ≡ (err not_null, cleared artifact_id d)
  unfolding delete get_artifact flag_digests_staleness delete_artifact_entity_links
      null_previous_version_refs null_promotion_request_artifact_ref reset_promoted_memory_status
  delete-refused works row admin found = ground arith

  -- On a database that answers, an effective admin deletes an artifact to which no memory was promoted,
  -- whatever versions and promotion requests refer to it: no foreign key stands in the way, and
  -- afterwards the artifact, its endorsements and its entity links are gone.
  pub delete_succeeds :
      d.outages ≡ []
      → get? artifact_id d.artifacts ≡ some a
      → is_effective_admin membership caller_id a.owner_scope_id ≡ ok true
      → ((k : ℕ) (m : Memory) → In (k, m) d.memories → m.promoted_to ≢ some artifact_id)
      → let (result, d') = delete membership artifact_id caller_id d in
        (result ≡ ok tt)
        × (get? artifact_id d'.artifacts ≡ none)
        × (get? artifact_id d'.endorsements ≡ none)
        × (get? artifact_id d'.artifact_entities ≡ none)
  delete_succeeds works row admin apart = ground (
    arith,
    delete-cleared works row admin (any-is_promoted_to artifact_id d.memories apart),
    delete_artifact-cleared artifact_id d,
  )

  -- An artifact to which a memory was promoted cannot be deleted: on a database that answers, the call
  -- of an effective admin fails on the constraint of the memories, which stay as they were. The artifact
  -- keeps its row but for a reference to itself as its previous version; its entity links and the
  -- references of promotion requests to it are gone all the same.
  pub delete_promoted :
      (k : ℕ) (m : Memory)
      → d.outages ≡ []
      → get? artifact_id d.artifacts ≡ some a
      → is_effective_admin membership caller_id a.owner_scope_id ≡ ok true
      → In (k, m) d.memories
      → m.promoted_to ≡ some artifact_id
      → let (result, d') = delete membership artifact_id caller_id d in
        (result ≡ err not_null)
        × (d'.memories ≡ d.memories)
        × (get? artifact_id d'.artifacts
            ≡ some (record a { previous_version = null_ref artifact_id a.previous_version }))
        × (get? artifact_id d'.artifact_entities ≡ none)
        × (any (λ (row : ℕ × Option ℕ). refers_to artifact_id row.1) d'.promotion_requests ≡ false)
  delete_promoted k m works row admin i there =
      rw (delete-refused works row admin (is_promoted_to-any artifact_id k m d.memories i there)) (
        refl,
        refl,
        ground (
          arith,
          get?-map_rows artifact_id
              (λ a. record a { previous_version = null_ref artifact_id a.previous_version })
              d.artifacts,
          row,
        ),
        ground (arith, get?-remove (λ k. k == artifact_id) artifact_id d.artifact_entities),
        any-null_refs artifact_id d.promotion_requests,
      )
