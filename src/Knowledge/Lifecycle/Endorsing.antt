-- ===== src/Knowledge/Lifecycle/Endorsing.antt =====
-- lifecycle.go: `Endorse` and `Delete`, part by part.
use postbrain.Prelude.{
  ℕ, ◌+◌, nat_eq, pair_eq, ◌≡◌, ◌≢◌, sym, ap, ◌∙◌, ◌⊎◌, inl, inr, Bool, true, false, Option, none,
  some, Result, ok, err, get?, arith,
}
use postbrain.Prelude.Stateful.{◌>>=◌, then_do, then_do-cases}
use postbrain.LifecycleCore.{MembershipChecker, is_effective_admin, in_review, published}
use postbrain.Knowledge.Tables.{
  Artifact, Db, Error, get_artifact, update_artifact_status, create_endorsement,
  increment_endorsement_count, snapshot_artifact_version,
}
use postbrain.Knowledge.Tables.Laws.{
  status?, status_of, get?-update, get_artifact-result, get_artifact-error,
}
use postbrain.Knowledge.Lifecycle.{
  existing, is_admin, endorse_guard, record_endorsement, publish_if_enough, or_first, endorse,
}

-- Recording an endorsement moves no artifact.
status_of-record_endorsement :
    (b artifact_id endorser_id : ℕ) (d : Db)
    → status_of b (record_endorsement artifact_id endorser_id d).1 ≡ status_of b d
unfolding record_endorsement create_endorsement increment_endorsement_count
status_of-record_endorsement b artifact_id endorser_id d = ground (
  arith,
  get?-update artifact_id b (λ a. record a { endorsement_count = a.endorsement_count + 1 })
      d.artifacts,
)

status_of-publish_if_enough :
    (b now artifact_id : ℕ) (fresh : Artifact) (d : Db)
    → (status_of b (publish_if_enough now artifact_id fresh d).1 ≡ status_of b d)
      ⊎ ((b ≡ artifact_id)
          × (status_of b (publish_if_enough now artifact_id fresh d).1 ≡ some published))
unfolding publish_if_enough snapshot_artifact_version update_artifact_status
status_of-publish_if_enough b now artifact_id fresh d = ground (
  arith,
  get?-update artifact_id b
      (λ a. record a { status = published; published_at = some now; deprecated_at = none })
      d.artifacts,
)

pub existing-state :
    (found : Option Artifact) (s : Db) (r : Result Error Artifact) (s' : Db)
    → existing found s ≡ (r, s')
    → s' ≡ s
unfolding existing
existing-state none s r s' h = ground arith
existing-state (some a) s r s' h = ground arith

pub existing-ok :
    (found : Option Artifact) (s : Db) (a : Artifact) (s' : Db)
    → existing found s ≡ (ok a, s')
    → found ≡ some a
unfolding existing
existing-ok none s a s' h = ground arith
existing-ok (some b) s a s' h = ground arith

is_admin-state :
    (membership : Option MembershipChecker) (principal_id scope_id : ℕ) (s : Db)
    (r : Result Error Bool) (s' : Db)
    → is_admin membership principal_id scope_id s ≡ (r, s')
    → s' ≡ s
unfolding is_admin
is_admin-state membership principal_id scope_id s r s' h = ground arith

guard-state :
    (admin : Bool) (endorser_id : ℕ) (a : Artifact) (s : Db) (r : Result Error (Unit {0})) (s' : Db)
    → endorse_guard admin endorser_id a s ≡ (r, s')
    → s' ≡ s
unfolding endorse_guard
guard-state true endorser_id a s r s' h = ground arith
guard-state false endorser_id a s r s' h = ground arith

record-state :
    (b artifact_id endorser_id : ℕ) (s : Db) (r : Result Error (Unit {0})) (s' : Db)
    → record_endorsement artifact_id endorser_id s ≡ (r, s')
    → status_of b s' ≡ status_of b s
record-state b artifact_id endorser_id s r s' h =
    ap (λ (t : Result Error (Unit {0}) × Db). status_of b t.1) (sym h)
    ∙ status_of-record_endorsement b artifact_id endorser_id s

-- How an endorsement may publish an artifact: an admin's from any status, another's only from
-- `in_review`, and not the author's.
abbrev pub MayEndorse : Option MembershipChecker → ℕ → Artifact → Type 0
MayEndorse membership endorser_id a =
    (is_effective_admin membership endorser_id a.owner_scope_id ≡ ok true)
    ⊎ ((a.status ≡ in_review) × (a.author_id ≢ endorser_id))

module _ (membership : Option MembershipChecker) (now artifact_id endorser_id b : ℕ) (d : Db) where
  -- The status of `b` stays, or the artifact is published by one who may endorse it.
  abbrev pub Published : Db → Type 0
  Published s =
      (status_of b s ≡ status_of b d)
      ⊎ ((a : Artifact) × (b ≡ artifact_id)
          × (get? artifact_id d.artifacts ≡ some a)
          × MayEndorse membership endorser_id a
          × (status_of b s ≡ some published))

  guard-MayEndorse :
      (a : Artifact) (admin : Bool) (s s1 s2 s3 : Db) {t : Unit {0}}
      → is_admin membership endorser_id a.owner_scope_id s ≡ (ok admin, s1)
      → endorse_guard admin endorser_id a s2 ≡ (ok t, s3)
      → MayEndorse membership endorser_id a
  unfolding is_admin endorse_guard
  guard-MayEndorse a true s s1 s2 s3 h k = ground arith
  guard-MayEndorse a false s s1 s2 s3 h k = ground arith

  -- From the guards on: nothing was changed yet.
  after_guards-Published :
      (a : Artifact) (s : Db)
      → status_of b s ≡ status_of b d
      → get? artifact_id d.artifacts ≡ some a
      → MayEndorse membership endorser_id a
      → Published
          (then_do (record_endorsement artifact_id endorser_id s) λ _.
            get_artifact artifact_id >>= λ again.
            publish_if_enough now artifact_id (or_first again a)).1
  after_guards-Published a s same row may =
      then_do-cases (λ r. Published r.1) (record_endorsement artifact_id endorser_id s) _
        (λ e s1 h1. inl (record-state b artifact_id endorser_id s (err e) s1 h1 ∙ same))
        λ t s1 h1.
          let kept : status_of b s1 ≡ status_of b d =
            record-state b artifact_id endorser_id s (ok t) s1 h1 ∙ same in
          then_do-cases (λ r. Published r.1) (get_artifact artifact_id s1) _
            (λ e s2 h2. inl (
              ap (λ rows. status? (get? b rows)) (get_artifact-error artifact_id s1 s2 e h2).0
              ∙ kept))
            λ again s2 h2.
              let kept2 : status_of b s2 ≡ status_of b d =
                ap (λ rows. status? (get? b rows))
                  (get_artifact-result artifact_id s1 s2 again h2).1
                ∙ kept in
              elim (status_of-publish_if_enough b now artifact_id (or_first again a) s2) [
                | inl stays ↦ inl (stays ∙ kept2)
                | inr (target, done) ↦ inr (a, target, row, may, done)
              ]

  pub endorse-Published : Published (endorse membership now artifact_id endorser_id d).1
  unfolding endorse
  endorse-Published =
      then_do-cases (λ r. Published r.1) (get_artifact artifact_id d) _
        (λ e s h.
          inl (ap (λ rows. status? (get? b rows)) (get_artifact-error artifact_id d s e h).0))
        λ found s h.
          let (is_row, rows, _) = get_artifact-result artifact_id d s found h in
          let kept : status_of b s ≡ status_of b d = ap (λ rows. status? (get? b rows)) rows in
          then_do-cases (λ r. Published r.1) (existing found s) _
            (λ e s1 h1. inl (ap (status_of b) (existing-state found s (err e) s1 h1) ∙ kept))
            λ a s1 h1.
              let kept1 = ap (status_of b) (existing-state found s (ok a) s1 h1) ∙ kept in
              then_do-cases (λ r. Published r.1)
                (is_admin membership endorser_id a.owner_scope_id s1) _
                (λ e s2 h2. inl (
                  ap (status_of b)
                    (is_admin-state membership endorser_id a.owner_scope_id s1 (err e) s2 h2)
                  ∙ kept1))
                λ admin s2 h2.
                  let kept2 =
                    ap (status_of b)
                      (is_admin-state membership endorser_id a.owner_scope_id s1 (ok admin) s2 h2)
                    ∙ kept1 in
                  then_do-cases (λ r. Published r.1) (endorse_guard admin endorser_id a s2) _
                    (λ e s3 h3.
                      inl (
                        ap (status_of b) (guard-state admin endorser_id a s2 (err e) s3 h3)
                        ∙ kept2))
                    λ t s3 h3.
                      let kept3 =
                        ap (status_of b) (guard-state admin endorser_id a s2 (ok t) s3 h3)
                        ∙ kept2 in
                      after_guards-Published a s3 kept3 (sym is_row ∙ existing-ok found s a s1 h1)
                        (guard-MayEndorse a admin s1 s2 s2 s3 h2 h3)
