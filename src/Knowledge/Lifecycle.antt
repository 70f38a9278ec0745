-- ===== src/Knowledge/Lifecycle.antt =====
-- internal/knowledge/lifecycle.go: the life of a knowledge artifact. A method is a call on the database;
-- its `*Lifecycle` receiver is the section's membership checker, and `now` is what `time.Now` returns.

pub mod Transitions
pub mod Machine
pub mod Effects
pub mod Removal
pub mod Endorsing
pub mod Deleting
use postbrain.Prelude.{
  ℕ, nat_eq, String, Bool, true, false, Option, none, some, ◌==◌, leb, negb, if◌then◌else◌, Result,
  ok, err,
}
use postbrain.Prelude.Stateful.{M, ◌>>=◌, ◌>>◌, return, throw, ignore_error}
use postbrain.LifecycleCore.{
  MembershipChecker, is_effective_admin, Status, draft, in_review, published, deprecated, status_eq,
  EndorseResult,
}
use postbrain.Knowledge.Tables.{
  Artifact, Db, Error, self_endorsement, not_reviewable, forbidden, invalid_transition,
  duplicate_endorsement, foreign_key, not_null, failed, get_artifact, update_artifact_status,
  create_endorsement, increment_endorsement_count, snapshot_artifact_version,
  flag_digests_staleness, delete_artifact_entity_links, null_previous_version_refs,
  null_promotion_request_artifact_ref, reset_promoted_memory_status, delete_artifact,
}

-- `if err != nil { return err }` and `if artifact == nil { return ErrInvalidTransition }`
unfoldable pub existing : Option Artifact → M Db Error Artifact
existing none = throw invalid_transition
existing (some a) = return a

-- `if !b { return e }`
unfoldable pub require : Bool → Error → M Db Error (Unit {0})
require true e = return tt
require false e = throw e

-- The result of `createEndorsement`: whether a row was created. A duplicate is no error.
unfoldable pub was_created : Result Error (Unit {0}) × Db → Result Error Bool × Db
was_created (ok t, d) = (ok true, d)
was_created (err duplicate_endorsement, d) = (ok false, d)
was_created (err self_endorsement, d) = (err self_endorsement, d)
was_created (err not_reviewable, d) = (err not_reviewable, d)
was_created (err forbidden, d) = (err forbidden, d)
was_created (err invalid_transition, d) = (err invalid_transition, d)
was_created (err foreign_key, d) = (err foreign_key, d)
was_created (err not_null, d) = (err not_null, d)
was_created (err (failed m), d) = (err (failed m), d)

unfoldable pub auto_publish : ℕ → ℕ → Artifact → M Db Error (Unit {0})
auto_publish now artifact_id artifact = do
  snapshot_artifact_version artifact_id artifact.version (record {
    content = artifact.content;
    summary = artifact.summary;
    changed_by = artifact.author_id;
  })
  update_artifact_status artifact_id published (some now) none

-- The guards of `Endorse` for a caller that is no admin.
unfoldable pub endorse_guard : Bool → ℕ → Artifact → M Db Error (Unit {0})
unfolding require
endorse_guard true endorser_id artifact = return tt
endorse_guard false endorser_id artifact = do
  require (negb (artifact.author_id == endorser_id)) self_endorsement
  require (status_eq artifact.status in_review) not_reviewable

-- The row, and the count when the row is new.
unfoldable pub record_endorsement : ℕ → ℕ → M Db Error (Unit {0})
unfolding was_created
record_endorsement artifact_id endorser_id = do
  created ← λ d. was_created (create_endorsement artifact_id endorser_id d)
  if created then increment_endorsement_count artifact_id else return tt

-- The rest of `Endorse`, with the row that was read again (or the first one, if it is gone).
unfoldable pub publish_if_enough : ℕ → ℕ → Artifact → M Db Error EndorseResult
unfolding auto_publish
publish_if_enough now artifact_id fresh =
    if leb fresh.review_required fresh.endorsement_count
    then (do
      auto_publish now artifact_id fresh
      return (record {
        endorsement_count = fresh.endorsement_count;
        status = published;
        auto_published = true;
      }))
    else return (record {
      endorsement_count = fresh.endorsement_count;
      status = fresh.status;
      auto_published = false;
    })

-- `if fresh == nil { fresh = artifact }`
unfoldable pub or_first : Option Artifact → Artifact → Artifact
or_first none artifact = artifact
or_first (some fresh) artifact = fresh

module _ (membership : Option MembershipChecker) where
  unfoldable pub is_admin : ℕ → ℕ → M Db Error Bool
  is_admin principal_id scope_id d = elim (is_effective_admin membership principal_id scope_id) [
    | ok b ↦ (ok b, d)
    | err e ↦ (err (failed e), d)
  ]

  -- The author, or an effective admin.
  unfoldable pub author_or_admin : ℕ → Artifact → M Db Error (Unit {0})
  unfolding is_admin require
  author_or_admin caller_id a =
      if a.author_id == caller_id
      then return tt
      else do ok_admin ← is_admin caller_id a.owner_scope_id; require ok_admin forbidden

  unfoldable pub admin_only : ℕ → Artifact → M Db Error (Unit {0})
  unfolding is_admin require
  admin_only caller_id a = do
    ok_admin ← is_admin caller_id a.owner_scope_id
    require ok_admin forbidden

  unfoldable pub submit_for_review : ℕ → ℕ → M Db Error (Unit {0})
  unfolding existing require author_or_admin
  submit_for_review artifact_id caller_id = do
    found ← get_artifact artifact_id
    artifact ← existing found
    require (status_eq artifact.status draft) invalid_transition
    author_or_admin caller_id artifact
    update_artifact_status artifact_id in_review none none

  unfoldable pub retract_to_draft : ℕ → ℕ → M Db Error (Unit {0})
  unfolding existing require author_or_admin
  retract_to_draft artifact_id caller_id = do
    found ← get_artifact artifact_id
    artifact ← existing found
    require (status_eq artifact.status in_review) invalid_transition
    author_or_admin caller_id artifact
    update_artifact_status artifact_id draft none none

  unfoldable pub endorse : ℕ → ℕ → ℕ → M Db Error EndorseResult
  unfolding existing is_admin endorse_guard record_endorsement publish_if_enough or_first
  endorse now artifact_id endorser_id = do
    found ← get_artifact artifact_id
    artifact ← existing found
    admin ← is_admin endorser_id artifact.owner_scope_id
    endorse_guard admin endorser_id artifact
    record_endorsement artifact_id endorser_id
    again ← get_artifact artifact_id
    publish_if_enough now artifact_id (or_first again artifact)

  unfoldable pub deprecate : ℕ → ℕ → ℕ → M Db Error (Unit {0})
  unfolding existing require admin_only
  deprecate now artifact_id caller_id = do
    found ← get_artifact artifact_id
    artifact ← existing found
    require (status_eq artifact.status published) invalid_transition
    admin_only caller_id artifact
    update_artifact_status artifact_id deprecated none (some now)
    ignore_error (delete_artifact_entity_links artifact_id)
    ignore_error (flag_digests_staleness artifact_id "source_modified")

  unfoldable pub republish : ℕ → ℕ → M Db Error (Unit {0})
  unfolding existing require admin_only
  republish artifact_id caller_id = do
    found ← get_artifact artifact_id
    artifact ← existing found
    require (status_eq artifact.status deprecated) invalid_transition
    admin_only caller_id artifact
    update_artifact_status artifact_id published artifact.published_at none

  unfoldable pub delete : ℕ → ℕ → M Db Error (Unit {0})
  unfolding existing admin_only
  delete artifact_id caller_id = do
    found ← get_artifact artifact_id
    artifact ← existing found
    admin_only caller_id artifact
    ignore_error (flag_digests_staleness artifact_id "source_deleted")
    ignore_error (delete_artifact_entity_links artifact_id)
    null_previous_version_refs artifact_id
    null_promotion_request_artifact_ref artifact_id
    reset_promoted_memory_status artifact_id
    delete_artifact artifact_id

  unfoldable pub emergency_rollback : ℕ → ℕ → M Db Error (Unit {0})
  unfolding existing admin_only
  emergency_rollback artifact_id caller_id = do
    found ← get_artifact artifact_id
    artifact ← existing found
    admin_only caller_id artifact
    update_artifact_status artifact_id draft none none
