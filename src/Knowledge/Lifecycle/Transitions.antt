-- ===== src/Knowledge/Lifecycle/Transitions.antt =====
-- lifecycle.go: which statuses follow which, and who moves an artifact.
use postbrain.Prelude.{ℕ, nat_eq, pair_eq, ◌≡◌, ◌⊎◌, true, Option, none, some, ok, get?, arith}
use postbrain.LifecycleCore.{
  MembershipChecker, is_effective_admin, Status, draft, in_review, published, deprecated,
}
use postbrain.Knowledge.Tables.{
  Artifact, Db, update, get_artifact, update_artifact_status, flag_digests_staleness,
  delete_artifact_entity_links,
}
use postbrain.Knowledge.Lifecycle.{
  submit_for_review, retract_to_draft, deprecate, republish, emergency_rollback,
}

-- The row with a new status and new times.
abbrev pub moved : Status → Option ℕ → Option ℕ → Artifact → Artifact
moved status published_at deprecated_at a = record a {
  status = status;
  published_at = published_at;
  deprecated_at = deprecated_at;
}

module _ (membership : Option MembershipChecker) (artifact_id caller_id : ℕ) (d : Db) where
  abbrev pub IsAdmin : Artifact → Type 0
  IsAdmin a = is_effective_admin membership caller_id a.owner_scope_id ≡ ok true

  pub submit-artifacts :
      ((submit_for_review membership artifact_id caller_id d).1.artifacts ≡ d.artifacts)
      ⊎ ((a : Artifact) × (get? artifact_id d.artifacts ≡ some a)
          × (a.status ≡ draft)
          × ((a.author_id ≡ caller_id) ⊎ IsAdmin a)
          × ((submit_for_review membership artifact_id caller_id d).1.artifacts
              ≡ update artifact_id (moved in_review none none) d.artifacts))
  unfolding submit_for_review get_artifact update_artifact_status
  submit-artifacts = ground arith

  pub retract-artifacts :
      ((retract_to_draft membership artifact_id caller_id d).1.artifacts ≡ d.artifacts)
      ⊎ ((a : Artifact) × (get? artifact_id d.artifacts ≡ some a)
          × (a.status ≡ in_review)
          × ((a.author_id ≡ caller_id) ⊎ IsAdmin a)
          × ((retract_to_draft membership artifact_id caller_id d).1.artifacts
              ≡ update artifact_id (moved draft none none) d.artifacts))
  unfolding retract_to_draft get_artifact update_artifact_status
  retract-artifacts = ground arith

  pub deprecate-artifacts :
      (now : ℕ)
      → ((deprecate membership now artifact_id caller_id d).1.artifacts ≡ d.artifacts)
        ⊎ ((a : Artifact) × (get? artifact_id d.artifacts ≡ some a)
            × (a.status ≡ published)
            × IsAdmin a
            × ((deprecate membership now artifact_id caller_id d).1.artifacts
                ≡ update artifact_id (moved deprecated none (some now)) d.artifacts))
  unfolding deprecate get_artifact update_artifact_status delete_artifact_entity_links
      flag_digests_staleness
  deprecate-artifacts now = ground arith

  pub republish-artifacts :
      ((republish membership artifact_id caller_id d).1.artifacts ≡ d.artifacts)
      ⊎ ((a : Artifact) × (get? artifact_id d.artifacts ≡ some a)
          × (a.status ≡ deprecated)
          × IsAdmin a
          × ((republish membership artifact_id caller_id d).1.artifacts
              ≡ update artifact_id (moved published a.published_at none) d.artifacts))
  unfolding republish get_artifact update_artifact_status
  republish-artifacts = ground arith

  pub rollback-artifacts :
      ((emergency_rollback membership artifact_id caller_id d).1.artifacts ≡ d.artifacts)
      ⊎ ((a : Artifact) × (get? artifact_id d.artifacts ≡ some a)
          × IsAdmin a
          × ((emergency_rollback membership artifact_id caller_id d).1.artifacts
              ≡ update artifact_id (moved draft none none) d.artifacts))
  unfolding emergency_rollback get_artifact update_artifact_status
  rollback-artifacts = ground arith
