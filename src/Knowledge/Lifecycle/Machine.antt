-- ===== src/Knowledge/Lifecycle/Machine.antt =====
-- lifecycle.go as a state machine: every operation, from any database, with any failures of its queries.
use postbrain.Prelude.{
  ℕ, nat_eq, ◌≡◌, sym, ap, ◌∙◌, ◌⊎◌, inl, inr, true, Option, none, some, Bool-cases, ◌==◌,
  eq_of_beq, ok, get?, arith,
}
use postbrain.LifecycleCore.{
  MembershipChecker, is_effective_admin, Status, draft, in_review, published, deprecated,
}
use postbrain.Knowledge.Tables.{Artifact, Db, update}
use postbrain.Knowledge.Tables.Laws.{status?, status_of, get?-update}
use postbrain.Knowledge.Lifecycle.{
  submit_for_review, retract_to_draft, endorse, deprecate, republish, delete, emergency_rollback,
}
use postbrain.Knowledge.Lifecycle.Transitions.{
  moved, submit-artifacts, retract-artifacts, deprecate-artifacts, republish-artifacts,
  rollback-artifacts,
}
use postbrain.Knowledge.Lifecycle.Endorsing.{MayEndorse, endorse-Published}
use postbrain.Knowledge.Lifecycle.Deleting.{delete-Deleted}

pub data Op : Type 0 where
  submits retracts endorses deprecates republishes deletes rolls_back : Op

-- The database after an operation of `caller_id` on an artifact; `now` is its time.
unfoldable pub after : Option MembershipChecker → ℕ → Op → ℕ → ℕ → Db → Db
after membership now submits artifact_id caller_id d =
    (submit_for_review membership artifact_id caller_id d).1
after membership now retracts artifact_id caller_id d =
    (retract_to_draft membership artifact_id caller_id d).1
after membership now endorses artifact_id caller_id d =
    (endorse membership now artifact_id caller_id d).1
after membership now deprecates artifact_id caller_id d =
    (deprecate membership now artifact_id caller_id d).1
after membership now republishes artifact_id caller_id d =
    (republish membership artifact_id caller_id d).1
after membership now deletes artifact_id caller_id d = (delete membership artifact_id caller_id d).1
after membership now rolls_back artifact_id caller_id d =
    (emergency_rollback membership artifact_id caller_id d).1

-- The diagram: what an operation of the caller may make of an artifact; `none` is its removal.
pub data Edge (membership : Option MembershipChecker) (caller_id : ℕ) (a : Artifact)
    : Op → Option Status → Type 0 where
  submitted :
      a.status ≡ draft
      → (a.author_id ≡ caller_id)
        ⊎ (is_effective_admin membership caller_id a.owner_scope_id ≡ ok true)
      → Edge membership caller_id a submits (some in_review)
  retracted :
      a.status ≡ in_review
      → (a.author_id ≡ caller_id)
        ⊎ (is_effective_admin membership caller_id a.owner_scope_id ≡ ok true)
      → Edge membership caller_id a retracts (some draft)
  endorsed :
      MayEndorse membership caller_id a → Edge membership caller_id a endorses (some published)
  retired :
      a.status ≡ published
      → is_effective_admin membership caller_id a.owner_scope_id ≡ ok true
      → Edge membership caller_id a deprecates (some deprecated)
  revived :
      a.status ≡ deprecated
      → is_effective_admin membership caller_id a.owner_scope_id ≡ ok true
      → Edge membership caller_id a republishes (some published)
  removed :
      is_effective_admin membership caller_id a.owner_scope_id ≡ ok true
      → Edge membership caller_id a deletes none
  reset :
      is_effective_admin membership caller_id a.owner_scope_id ≡ ok true
      → Edge membership caller_id a rolls_back (some draft)

module _ (membership : Option MembershipChecker) (now artifact_id caller_id b : ℕ) (d : Db) where
  -- The status of `b` stays, or it moves along an edge of the operation, and then `b` is its artifact.
  abbrev pub Follows : Op → Db → Type 0
  Follows op s =
      (status_of b s ≡ status_of b d)
      ⊎ ((a : Artifact) × (b ≡ artifact_id)
          × (get? artifact_id d.artifacts ≡ some a)
          × Edge membership caller_id a op (status_of b s))

  -- An update of the one row.
  by_update :
      (op : Op) (s : Db) (a : Artifact) (st : Status) (published_at deprecated_at : Option ℕ)
      → get? artifact_id d.artifacts ≡ some a
      → s.artifacts ≡ update artifact_id (moved st published_at deprecated_at) d.artifacts
      → Edge membership caller_id a op (some st)
      → Follows op s
  by_update op s a st published_at deprecated_at row changed edge =
      elim (Bool-cases (artifact_id == b)) [
        | inl same ↦
            let target = eq_of_beq artifact_id b same in
            let now_there : status_of b s ≡ some st =
              ap (λ rows. status? (get? b rows)) changed
              ∙ ground (
                arith,
                same,
                get?-update artifact_id b (moved st published_at deprecated_at) d.artifacts,
                ap (λ k. get? k d.artifacts) target,
                row,
              ) in
            inr (a, sym target, row, rw now_there edge)
        | inr other ↦ inl (
            ap (λ rows. status? (get? b rows)) changed
            ∙ ground (
              arith,
              other,
              get?-update artifact_id b (moved st published_at deprecated_at) d.artifacts,
            ))
      ]

  -- Every operation, whatever the state of the database and whichever of its queries fail, leaves the
  -- status of every artifact as it was, except that of its own artifact, which it may move along an
  -- edge of the diagram: to `in_review` from `draft` and back by the author or an effective admin, to
  -- `published` by an endorsement of an effective admin or, from `in_review`, of one who is not the
  -- author, from `published` to `deprecated` and back, to `draft` from any status and to removal by an
  -- effective admin.
  pub after-Follows : (op : Op) → Follows op (after membership now op artifact_id caller_id d)
  unfolding after
  after-Follows submits = elim (submit-artifacts membership artifact_id caller_id d) [
    | inl stays ↦ inl (ap (λ rows. status? (get? b rows)) stays)
    | inr (a, row, was, who, changed) ↦
        by_update submits (submit_for_review membership artifact_id caller_id d).1 a in_review none
          none row changed (submitted was who)
  ]
  after-Follows retracts = elim (retract-artifacts membership artifact_id caller_id d) [
    | inl stays ↦ inl (ap (λ rows. status? (get? b rows)) stays)
    | inr (a, row, was, who, changed) ↦
        by_update retracts (retract_to_draft membership artifact_id caller_id d).1 a draft none none
          row changed (retracted was who)
  ]
  after-Follows endorses = elim (endorse-Published membership now artifact_id caller_id b d) [
    | inl stays ↦ inl stays
    | inr (a, target, row, may, done) ↦ inr (a, target, row, rw done (endorsed may))
  ]
  after-Follows deprecates = elim (deprecate-artifacts membership artifact_id caller_id d now) [
    | inl stays ↦ inl (ap (λ rows. status? (get? b rows)) stays)
    | inr (a, row, was, who, changed) ↦
        by_update deprecates (deprecate membership now artifact_id caller_id d).1 a deprecated none
          (some now) row changed (retired was who)
  ]
  after-Follows republishes = elim (republish-artifacts membership artifact_id caller_id d) [
    | inl stays ↦ inl (ap (λ rows. status? (get? b rows)) stays)
    | inr (a, row, was, who, changed) ↦
        by_update republishes (republish membership artifact_id caller_id d).1 a published
          a.published_at none row changed (revived was who)
  ]
  after-Follows deletes = elim (delete-Deleted membership artifact_id caller_id b d) [
    | inl stays ↦ inl stays
    | inr (a, target, row, who, gone) ↦ inr (a, target, row, rw gone (removed who))
  ]
  after-Follows rolls_back = elim (rollback-artifacts membership artifact_id caller_id d) [
    | inl stays ↦ inl (ap (λ rows. status? (get? b rows)) stays)
    | inr (a, row, who, changed) ↦
        by_update rolls_back (emergency_rollback membership artifact_id caller_id d).1 a draft none
          none row changed (reset who)
  ]
