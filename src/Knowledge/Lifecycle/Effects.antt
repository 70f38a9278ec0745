-- ===== src/Knowledge/Lifecycle/Effects.antt =====
-- lifecycle.go: what the operations do on a database that answers, and after one that failed once.
use postbrain.Prelude.{
  ℕ, ◌+◌, nat_eq, pair_eq, ◌≡◌, ◌≢◌, ◌⊎◌, true, false, List, [], ◌∷◌, Option, none, some, =ℕ_iff,
  leb, if◌then◌else◌, ok, elem, get?, arith,
}
use postbrain.LifecycleCore.{
  MembershipChecker, is_effective_admin, draft, in_review, published, deprecated,
}
use postbrain.Knowledge.Tables.{
  Artifact, Db, update, get_artifact, update_artifact_status, create_endorsement,
  increment_endorsement_count, snapshot_artifact_version, flag_digests_staleness,
  delete_artifact_entity_links,
}
use postbrain.Knowledge.Tables.Laws.{get?-update}
use postbrain.Knowledge.Lifecycle.{
  submit_for_review, endorse, record_endorsement, publish_if_enough, deprecate, republish,
}
use postbrain.Knowledge.Lifecycle.Transitions.{moved}

get?-update_self :
    (id : ℕ) (f : Artifact → Artifact) (rows : List (ℕ × Artifact)) (a : Artifact)
    → get? id rows ≡ some a
    → get? id (update id f rows) ≡ some (f a)
get?-update_self id f rows a row = ground (arith, get?-update id id f rows, row)

-- The row with one endorsement more.
abbrev pub counted : Artifact → Artifact
counted a = record a { endorsement_count = a.endorsement_count + 1 }

-- The tables with the endorsement stored and counted.
abbrev stored : ℕ → ℕ → Db → Db
stored artifact_id endorser_id d = record d {
  endorsements = (artifact_id, endorser_id) ∷ d.endorsements;
  artifacts = update artifact_id counted d.artifacts;
}

record_endorsement-stored :
    (artifact_id endorser_id : ℕ) (d : Db)
    → d.outages ≡ []
    → elem (artifact_id, endorser_id) d.endorsements ≡ false
    → record_endorsement artifact_id endorser_id d ≡ (ok tt, stored artifact_id endorser_id d)
unfolding record_endorsement create_endorsement increment_endorsement_count
record_endorsement-stored artifact_id endorser_id d works first = ground arith

stored-elem :
    (artifact_id endorser_id : ℕ) (d : Db)
    → elem (artifact_id, endorser_id) (stored artifact_id endorser_id d).endorsements ≡ true
stored-elem artifact_id endorser_id d =
    ground (arith, =ℕ_iff artifact_id artifact_id, =ℕ_iff endorser_id endorser_id)

publish_if_enough-result :
    (now artifact_id : ℕ) (fresh : Artifact) (s : Db)
    → s.outages ≡ []
    → get? artifact_id s.artifacts ≡ some fresh
    → let (result, s') = publish_if_enough now artifact_id fresh s in
      let enough = leb fresh.review_required fresh.endorsement_count in
      (result
        ≡ ok (record {
          endorsement_count = fresh.endorsement_count;
          status = if enough then published else fresh.status;
          auto_published = enough;
        }))
      × (get? artifact_id s'.artifacts
          ≡ some (if enough then moved published (some now) none fresh else fresh))
      × (s'.endorsements ≡ s.endorsements)
unfolding publish_if_enough snapshot_artifact_version update_artifact_status
publish_if_enough-result now artifact_id fresh s works row =
    ground
      (arith, get?-update_self artifact_id (moved published (some now) none) s.artifacts fresh row)

module _ (membership : Option MembershipChecker) (now artifact_id caller_id : ℕ) (d : Db)
    (a : Artifact) where
  -- On a database that answers, an effective admin's `Deprecate` followed by `Republish` succeeds, and
  -- leaves the artifact published with no publication time, whatever time it had.
  pub deprecate-republish :
      d.outages ≡ []
      → get? artifact_id d.artifacts ≡ some a
      → a.status ≡ published
      → is_effective_admin membership caller_id a.owner_scope_id ≡ ok true
      → let (retired, d') = deprecate membership now artifact_id caller_id d in
        let (revived, d'') = republish membership artifact_id caller_id d' in
        (retired ≡ ok tt)
        × (revived ≡ ok tt)
        × (get? artifact_id d''.artifacts ≡ some (moved published none none a))
  unfolding deprecate republish get_artifact update_artifact_status delete_artifact_entity_links
      flag_digests_staleness
  deprecate-republish works row was admin = ground (
    arith,
    get?-update_self artifact_id (moved deprecated none (some now)) d.artifacts a row,
    get?-update_self artifact_id (moved published none none)
        (update artifact_id (moved deprecated none (some now)) d.artifacts)
        (moved deprecated none (some now) a),
  )

  -- On a database that answers, the author of a draft or an effective admin submits it with success.
  pub submit_for_review_succeeds :
      d.outages ≡ []
      → get? artifact_id d.artifacts ≡ some a
      → a.status ≡ draft
      → (a.author_id ≡ caller_id)
        ⊎ (is_effective_admin membership caller_id a.owner_scope_id ≡ ok true)
      → submit_for_review membership artifact_id caller_id d ≡ (
        ok tt,
        record d { artifacts = update artifact_id (moved in_review none none) d.artifacts },
      )
  unfolding submit_for_review get_artifact update_artifact_status
  submit_for_review_succeeds works row was who = ground arith

  -- On a database that answers, the first endorsement of an artifact in review by one who is neither
  -- its author nor an admin is counted, and publishes the artifact exactly when the count has reached
  -- the number required; the result tells which.
  pub endorse_counts :
      d.outages ≡ []
      → get? artifact_id d.artifacts ≡ some a
      → a.status ≡ in_review
      → a.author_id ≢ caller_id
      → is_effective_admin membership caller_id a.owner_scope_id ≡ ok false
      → elem (artifact_id, caller_id) d.endorsements ≡ false
      → let (result, d') = endorse membership now artifact_id caller_id d in
        let enough = leb a.review_required (a.endorsement_count + 1) in
        (result
          ≡ ok (record {
            endorsement_count = a.endorsement_count + 1;
            status = if enough then published else in_review;
            auto_published = enough;
          }))
        × (get? artifact_id d'.artifacts
            ≡ some (if enough then moved published (some now) none (counted a) else counted a))
        × (elem (artifact_id, caller_id) d'.endorsements ≡ true)
  unfolding endorse get_artifact
  endorse_counts works row was other admin first =
      let s = stored artifact_id caller_id d in
      ground (
        arith,
        record_endorsement-stored artifact_id caller_id d works first,
        get?-update_self artifact_id counted d.artifacts a row,
        publish_if_enough-result now artifact_id (counted a) s works
            (get?-update_self artifact_id counted d.artifacts a row),
        stored-elem artifact_id caller_id d,
      )
