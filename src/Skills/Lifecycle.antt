-- ===== src/Skills/Lifecycle.antt =====
-- internal/skills/lifecycle.go: the life of a skill. A method is a call on the database; its
-- `*Lifecycle` receiver is the section's membership checker, and `now` is what `time.Now` returns. The
-- caller of `SubmitForReview` and `RetractToDraft`, which the code does not read, stays an argument.
pub mod Machine
pub mod Effects
use postbrain.Prelude.{
  ℕ, nat_eq, String, Bool, true, false, Option, none, some, ◌==◌, leb, negb, if◌then◌else◌, Result,
  ok, err,
}
use postbrain.Prelude.Stateful.{M, ◌>>=◌, ◌>>◌, return, throw}
use postbrain.LifecycleCore.{
  MembershipChecker, is_effective_admin, Status, draft, in_review, published, deprecated, status_eq,
  EndorseResult,
}
use postbrain.Skills.Tables.{
  Skill, Db, Error, self_endorsement, not_reviewable, forbidden, invalid_transition, failed,
  get_skill, update_skill_status, create_skill_endorsement, count_skill_endorsements,
}

-- `if err != nil { return err }` and `if skill == nil { return ErrInvalidTransition }`
unfoldable pub existing : Option Skill → M Db Error Skill
existing none = throw invalid_transition
existing (some s) = return s

-- `if !b { return e }`
unfoldable pub require : Bool → Error → M Db Error (Unit {0})
require true e = return tt
require false e = throw e

unfoldable pub submit_for_review : ℕ → ℕ → M Db Error (Unit {0})
unfolding existing require
submit_for_review skill_id caller_id = do
  found ← get_skill skill_id
  skill ← existing found
  require (status_eq skill.status draft) invalid_transition
  update_skill_status skill_id in_review none none

unfoldable pub retract_to_draft : ℕ → ℕ → M Db Error (Unit {0})
unfolding existing require
retract_to_draft skill_id caller_id = do
  found ← get_skill skill_id
  skill ← existing found
  require (status_eq skill.status in_review) invalid_transition
  update_skill_status skill_id draft none none

-- The end of `Endorse`, from the count on.
unfoldable pub publish_if_enough : ℕ → ℕ → Skill → ℕ → M Db Error EndorseResult
publish_if_enough now skill_id skill count =
    if leb skill.review_required count
    then (do
      update_skill_status skill_id published (some now) none
      return (record { endorsement_count = count; status = published; auto_published = true }))
    else return
        (record { endorsement_count = count; status = skill.status; auto_published = false })

unfoldable pub endorse : ℕ → ℕ → ℕ → M Db Error EndorseResult
unfolding existing require
endorse now skill_id endorser_id = do
  found ← get_skill skill_id
  skill ← existing found
  require (negb (skill.author_id == endorser_id)) self_endorsement
  require (status_eq skill.status in_review) not_reviewable
  create_skill_endorsement skill_id endorser_id
  count ← count_skill_endorsements skill_id
  publish_if_enough now skill_id skill count

module _ (membership : Option MembershipChecker) where
  unfoldable pub is_admin : ℕ → ℕ → M Db Error Bool
  is_admin principal_id scope_id d = elim (is_effective_admin membership principal_id scope_id) [
    | ok b ↦ (ok b, d)
    | err e ↦ (err (failed e), d)
  ]

  unfoldable pub admin_only : ℕ → Skill → M Db Error (Unit {0})
  unfolding is_admin require
  admin_only caller_id skill = do
    ok_admin ← is_admin caller_id skill.scope_id
    require ok_admin forbidden

  unfoldable pub deprecate : ℕ → ℕ → ℕ → M Db Error (Unit {0})
  unfolding existing require admin_only
  deprecate now skill_id caller_id = do
    found ← get_skill skill_id
    skill ← existing found
    require (status_eq skill.status published) invalid_transition
    admin_only caller_id skill
    update_skill_status skill_id deprecated none (some now)

  unfoldable pub republish : ℕ → ℕ → ℕ → M Db Error (Unit {0})
  unfolding existing require admin_only
  republish now skill_id caller_id = do
    found ← get_skill skill_id
    skill ← existing found
    require (status_eq skill.status deprecated) invalid_transition
    admin_only caller_id skill
    update_skill_status skill_id published (some now) none

  unfoldable pub emergency_rollback : ℕ → ℕ → M Db Error (Unit {0})
  unfolding existing require admin_only
  emergency_rollback skill_id caller_id = do
    found ← get_skill skill_id
    skill ← existing found
    require (negb (status_eq skill.status draft)) invalid_transition
    admin_only caller_id skill
    update_skill_status skill_id draft none none
