-- ===== src/Skills/Lifecycle/Machine.antt =====
-- lifecycle.go of the skills as a state machine: every operation, from any database, with any failures of
-- its queries.
use postbrain.Prelude.{
  ℕ, ◌≤◌, nat_eq, pair_eq, ◌≡◌, ◌≢◌, refl, sym, ap, ◌∙◌, ◌⊎◌, inl, inr, Bool, true, false, List, [],
  ◌∷◌, Option, none, some, Bool-cases, Option-cases, ◌==◌, eq_of_beq, ok, get?, modify, get?-modify,
  arith,
}
use postbrain.Prelude.Stateful.{◌>>=◌, ◌>>◌}
use postbrain.LifecycleCore.{
  MembershipChecker, is_effective_admin, Status, draft, in_review, published, deprecated,
}
use postbrain.Skills.Tables.{
  Skill, Db, get_skill, update_skill_status, create_skill_endorsement, count_skill_endorsements,
  endorsements_of,
}
use postbrain.Skills.Lifecycle.{
  submit_for_review, retract_to_draft, endorse, publish_if_enough, deprecate, republish,
  emergency_rollback,
}

pub data Op : Type 0 where
  submits retracts endorses deprecates republishes rolls_back : Op

-- The database after an operation of `caller_id` on a skill; `now` is its time.
unfoldable pub after : Option MembershipChecker → ℕ → Op → ℕ → ℕ → Db → Db
after membership now submits skill_id caller_id d = (submit_for_review skill_id caller_id d).1
after membership now retracts skill_id caller_id d = (retract_to_draft skill_id caller_id d).1
after membership now endorses skill_id caller_id d = (endorse now skill_id caller_id d).1
after membership now deprecates skill_id caller_id d =
    (deprecate membership now skill_id caller_id d).1
after membership now republishes skill_id caller_id d =
    (republish membership now skill_id caller_id d).1
after membership now rolls_back skill_id caller_id d =
    (emergency_rollback membership skill_id caller_id d).1

-- The row with a new status and new times.
abbrev pub moved : Status → Option ℕ → Option ℕ → Skill → Skill
moved status published_at deprecated_at s = record s {
  status = status;
  published_at = published_at;
  deprecated_at = deprecated_at;
}

-- The diagram: what an operation of the caller may make of a skill; `count` is the number of its
-- endorsements afterwards.
pub data Edge (membership : Option MembershipChecker) (now caller_id count : ℕ) (s : Skill)
    : Op → Skill → Type 0 where
  submitted :
      s.status ≡ draft → Edge membership now caller_id count s submits (moved in_review none none s)
  retracted :
      s.status ≡ in_review
      → Edge membership now caller_id count s retracts (moved draft none none s)
  endorsed :
      s.status ≡ in_review
      → s.author_id ≢ caller_id
      → s.review_required ≤ count
      → Edge membership now caller_id count s endorses (moved published (some now) none s)
  retired :
      s.status ≡ published
      → is_effective_admin membership caller_id s.scope_id ≡ ok true
      → Edge membership now caller_id count s deprecates (moved deprecated none (some now) s)
  revived :
      s.status ≡ deprecated
      → is_effective_admin membership caller_id s.scope_id ≡ ok true
      → Edge membership now caller_id count s republishes (moved published (some now) none s)
  reset :
      s.status ≢ draft
      → is_effective_admin membership caller_id s.scope_id ≡ ok true
      → Edge membership now caller_id count s rolls_back (moved draft none none s)

module _ (membership : Option MembershipChecker) (now skill_id caller_id : ℕ) (d : Db) where
  submit-skills :
      ((submit_for_review skill_id caller_id d).1.skills ≡ d.skills)
      ⊎ ((s : Skill) × (get? skill_id d.skills ≡ some s)
          × (s.status ≡ draft)
          × ((submit_for_review skill_id caller_id d).1.skills
              ≡ modify skill_id (moved in_review none none) d.skills))
  unfolding submit_for_review get_skill update_skill_status
  submit-skills = ground arith

  retract-skills :
      ((retract_to_draft skill_id caller_id d).1.skills ≡ d.skills)
      ⊎ ((s : Skill) × (get? skill_id d.skills ≡ some s)
          × (s.status ≡ in_review)
          × ((retract_to_draft skill_id caller_id d).1.skills
              ≡ modify skill_id (moved draft none none) d.skills))
  unfolding retract_to_draft get_skill update_skill_status
  retract-skills = ground arith

  -- The end of `Endorse`, from the insert on.
  stored-skills :
      (s : Skill) (t : Db)
      → let r =
          (create_skill_endorsement skill_id caller_id
              >> (count_skill_endorsements skill_id >>= λ count.
                  publish_if_enough now skill_id s count))
            t in
        (r.1.skills ≡ t.skills)
        ⊎ ((s.review_required ≤ endorsements_of skill_id r.1.endorsements)
            × (r.1.skills ≡ modify skill_id (moved published (some now) none) t.skills))
  unfolding create_skill_endorsement count_skill_endorsements publish_if_enough update_skill_status
  stored-skills s t = ground arith

  abbrev Endorsed : Skill → Type 0
  Endorsed s =
      (s.status ≡ in_review)
      × (s.author_id ≢ caller_id)
      × (s.review_required
          ≤ endorsements_of skill_id (endorse now skill_id caller_id d).1.endorsements)
      × ((endorse now skill_id caller_id d).1.skills
          ≡ modify skill_id (moved published (some now) none) d.skills)

  endorse-row :
      (s : Skill) (outages : List Bool)
      → get? skill_id d.skills ≡ some s
      → d.outages ≡ outages
      → ((endorse now skill_id caller_id d).1.skills ≡ d.skills) ⊎ Endorsed s
  unfolding endorse get_skill
  endorse-row s [] row e = ground (arith, stored-skills s d)
  endorse-row s (true ∷ rest) row e = ground arith
  endorse-row s (false ∷ rest) row e = ground (arith, stored-skills s (record d { outages = rest }))

  endorse-skills :
      ((endorse now skill_id caller_id d).1.skills ≡ d.skills)
      ⊎ ((s : Skill) × (get? skill_id d.skills ≡ some s) × Endorsed s)
  unfolding endorse get_skill
  endorse-skills = elim (Option-cases (get? skill_id d.skills)) [
    | inl missing ↦ inl (ground arith)
    | inr (s, row) ↦ elim (endorse-row s d.outages row refl) [
      | inl stays ↦ inl stays
      | inr moves ↦ inr (s, row, moves)
    ]
  ]

  deprecate-skills :
      ((deprecate membership now skill_id caller_id d).1.skills ≡ d.skills)
      ⊎ ((s : Skill) × (get? skill_id d.skills ≡ some s)
          × (s.status ≡ published)
          × (is_effective_admin membership caller_id s.scope_id ≡ ok true)
          × ((deprecate membership now skill_id caller_id d).1.skills
              ≡ modify skill_id (moved deprecated none (some now)) d.skills))
  unfolding deprecate get_skill update_skill_status
  deprecate-skills = ground arith

  republish-skills :
      ((republish membership now skill_id caller_id d).1.skills ≡ d.skills)
      ⊎ ((s : Skill) × (get? skill_id d.skills ≡ some s)
          × (s.status ≡ deprecated)
          × (is_effective_admin membership caller_id s.scope_id ≡ ok true)
          × ((republish membership now skill_id caller_id d).1.skills
              ≡ modify skill_id (moved published (some now) none) d.skills))
  unfolding republish get_skill update_skill_status
  republish-skills = ground arith

  rollback-skills :
      ((emergency_rollback membership skill_id caller_id d).1.skills ≡ d.skills)
      ⊎ ((s : Skill) × (get? skill_id d.skills ≡ some s)
          × (s.status ≢ draft)
          × (is_effective_admin membership caller_id s.scope_id ≡ ok true)
          × ((emergency_rollback membership skill_id caller_id d).1.skills
              ≡ modify skill_id (moved draft none none) d.skills))
  unfolding emergency_rollback get_skill update_skill_status
  rollback-skills = ground arith

  -- What an operation may make of the row of `b`.
  abbrev pub Follows : ℕ → Op → Db → Type 0
  Follows b op t =
      (get? b t.skills ≡ get? b d.skills)
      ⊎ ((s : Skill) × (s' : Skill) × (b ≡ skill_id)
          × (get? b d.skills ≡ some s)
          × (get? b t.skills ≡ some s')
          × Edge membership now caller_id (endorsements_of skill_id t.endorsements) s op s')

  stay-Follows : (b : ℕ) (op : Op) (t : Db) → t.skills ≡ d.skills → Follows b op t
  stay-Follows b op t stays = inl (ap (λ rows. get? b rows) stays)

  move-Follows :
      (b : ℕ) (op : Op) (t : Db) (s : Skill) (f : Skill → Skill)
      → get? skill_id d.skills ≡ some s
      → t.skills ≡ modify skill_id f d.skills
      → Edge membership now caller_id (endorsements_of skill_id t.endorsements) s op (f s)
      → Follows b op t
  move-Follows b op t s f row changed edge = elim (Bool-cases (skill_id == b)) [
    | inl same ↦
        let target = sym (eq_of_beq skill_id b same) in
        let row_b : get? b d.skills ≡ some s = ap (λ k. get? k d.skills) target ∙ row in
        inr (
          s,
          f s,
          target,
          row_b,
          ap (λ rows. get? b rows) changed
              ∙ ground (arith, get?-modify skill_id b f d.skills, same, row_b),
          edge,
        )
    | inr other ↦ inl (
        ap (λ rows. get? b rows) changed ∙ ground (arith, get?-modify skill_id b f d.skills, other))
  ]

  -- Every operation, whatever the state of the database and whichever of its queries fail, leaves the
  -- row of every skill as it was, except that of its own skill, which it may move along an edge of the
  -- diagram: from `draft` to `in_review` and back by anyone, from `in_review` to `published` by an
  -- endorsement of one who is not the author once at least as many endorsements are stored as the
  -- skill requires, from `published` to `deprecated` and back and from any status but `draft` to
  -- `draft` by an effective admin.
  pub skill-Follows :
      (b : ℕ) (op : Op) → Follows b op (after membership now op skill_id caller_id d)
  unfolding after
  skill-Follows b submits = elim submit-skills [
    | inl stays ↦ stay-Follows b submits (submit_for_review skill_id caller_id d).1 stays
    | inr (s, row, was, changed) ↦
        move-Follows b submits (submit_for_review skill_id caller_id d).1 s
          (moved in_review none none) row changed (submitted was)
  ]
  skill-Follows b retracts = elim retract-skills [
    | inl stays ↦ stay-Follows b retracts (retract_to_draft skill_id caller_id d).1 stays
    | inr (s, row, was, changed) ↦
        move-Follows b retracts (retract_to_draft skill_id caller_id d).1 s (moved draft none none)
          row changed (retracted was)
  ]
  skill-Follows b endorses = elim endorse-skills [
    | inl stays ↦ stay-Follows b endorses (endorse now skill_id caller_id d).1 stays
    | inr (s, row, (was, other, enough, changed)) ↦
        move-Follows b endorses (endorse now skill_id caller_id d).1 s
          (moved published (some now) none) row changed (endorsed was other enough)
  ]
  skill-Follows b deprecates = elim deprecate-skills [
    | inl stays ↦ stay-Follows b deprecates (deprecate membership now skill_id caller_id d).1 stays
    | inr (s, row, was, admin, changed) ↦
        move-Follows b deprecates (deprecate membership now skill_id caller_id d).1 s
          (moved deprecated none (some now)) row changed (retired was admin)
  ]
  skill-Follows b republishes = elim republish-skills [
    | inl stays ↦ stay-Follows b republishes (republish membership now skill_id caller_id d).1 stays
    | inr (s, row, was, admin, changed) ↦
        move-Follows b republishes (republish membership now skill_id caller_id d).1 s
          (moved published (some now) none) row changed (revived was admin)
  ]
  skill-Follows b rolls_back = elim rollback-skills [
    | inl stays ↦
        stay-Follows b rolls_back (emergency_rollback membership skill_id caller_id d).1 stays
    | inr (s, row, was, admin, changed) ↦
        move-Follows b rolls_back (emergency_rollback membership skill_id caller_id d).1 s
          (moved draft none none) row changed (reset was admin)
  ]
