-- ===== src/Skills/Lifecycle/Effects.antt =====
-- lifecycle.go of the skills: what an endorsement does on a database that answers, and after a failure.
use postbrain.Prelude.{
  ℕ, ◌+◌, ◌≤◌, nat_eq, pair_eq, ◌≡◌, ◌≢◌, refl, true, false, [], ◌∷◌, none, some, =ℕ_iff, leb,
  if◌then◌else◌, ok, err, elem, get?, get?-modify, arith,
}
use postbrain.LifecycleCore.{in_review, published}
use postbrain.Skills.Tables.{
  Skill, Db, unique_violation, failed, get_skill, update_skill_status, create_skill_endorsement,
  count_skill_endorsements, endorsements_of,
}
use postbrain.Skills.Lifecycle.{endorse, publish_if_enough}
use postbrain.Skills.Lifecycle.Machine.{moved}

module _ (now skill_id caller_id : ℕ) (d : Db) (s : Skill) where
  -- On a database that answers, the first endorsement of a skill in review by one who is not its author
  -- is stored and counted with the others, and publishes the skill exactly when the count has reached
  -- the number required; the result tells which.
  pub skill-endorse_counts :
      d.outages ≡ []
      → get? skill_id d.skills ≡ some s
      → s.status ≡ in_review
      → s.author_id ≢ caller_id
      → elem (skill_id, caller_id) d.endorsements ≡ false
      → let (result, d') = endorse now skill_id caller_id d in
        let count = endorsements_of skill_id d.endorsements + 1 in
        let enough = leb s.review_required count in
        (result
          ≡ ok (record {
            endorsement_count = count;
            status = if enough then published else in_review;
            auto_published = enough;
          }))
        × (get? skill_id d'.skills ≡ some (if enough then moved published (some now) none s else s))
        × (d'.endorsements ≡ (skill_id, caller_id) ∷ d.endorsements)
  unfolding endorse publish_if_enough get_skill update_skill_status create_skill_endorsement
      count_skill_endorsements
  skill-endorse_counts answers row reviewed other fresh =
      ground (arith, get?-modify skill_id skill_id (moved published (some now) none) d.skills)

  -- The tables with the endorsement stored and no failure ahead.
  abbrev with_endorsement : Db
  with_endorsement = record d {
    endorsements = (skill_id, caller_id) ∷ d.endorsements;
    outages = [];
  }

  publish-fails :
      d.outages ≡ false ∷ false ∷ false ∷ true ∷ []
      → get? skill_id d.skills ≡ some s
      → s.status ≡ in_review
      → s.author_id ≢ caller_id
      → elem (skill_id, caller_id) d.endorsements ≡ false
      → s.review_required ≤ endorsements_of skill_id d.endorsements + 1
      → endorse now skill_id caller_id d ≡ (err (failed "db"), with_endorsement)
  unfolding endorse publish_if_enough get_skill update_skill_status create_skill_endorsement
      count_skill_endorsements
  publish-fails failing row reviewed other fresh enough = ground arith

  again-refused :
      get? skill_id d.skills ≡ some s
      → s.status ≡ in_review
      → s.author_id ≢ caller_id
      → endorse now skill_id caller_id with_endorsement ≡ (err unique_violation, with_endorsement)
  unfolding endorse get_skill create_skill_endorsement
  again-refused row reviewed other =
      ground (arith, =ℕ_iff skill_id skill_id, =ℕ_iff caller_id caller_id)

  -- If the database fails the update after it has stored the endorsement that suffices, the call reports
  -- the failure, and a second call of the same caller on a database that answers is refused as a
  -- duplicate and changes nothing: the skill stays in review with enough endorsements.
  pub endorse_stuck :
      d.outages ≡ false ∷ false ∷ false ∷ true ∷ []
      → get? skill_id d.skills ≡ some s
      → s.status ≡ in_review
      → s.author_id ≢ caller_id
      → elem (skill_id, caller_id) d.endorsements ≡ false
      → s.review_required ≤ endorsements_of skill_id d.endorsements + 1
      → let (first, d') = endorse now skill_id caller_id d in
        let (second, d'') = endorse now skill_id caller_id d' in
        (first ≡ err (failed "db"))
        × (second ≡ err unique_violation)
        × (d'' ≡ d')
        × (get? skill_id d''.skills ≡ some s)
        × (s.review_required ≤ endorsements_of skill_id d''.endorsements)
  endorse_stuck failing row reviewed other fresh enough =
      rw (publish-fails failing row reviewed other fresh enough, again-refused row reviewed other)
        (refl, refl, refl, row, ground (arith, =ℕ_iff skill_id skill_id))
