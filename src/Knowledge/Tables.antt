-- ===== src/Knowledge/Tables.antt =====
-- The rows and the queries of internal/db/knowledge.sql.go, entities.sql.go and internal/db/compat/knowledge.go
-- that the knowledge lifecycle calls (`poolLifecycleDB` of internal/knowledge/lifecycle.go).
-- A table is the list of its rows. Every query first asks `outages` whether the database fails it: a
-- failed query changes nothing. The columns that the lifecycle neither reads nor writes are left out.

pub mod Laws
use postbrain.Prelude.{
  ℕ, suc, ◌+◌, nat_eq, pair_eq, String, string_eq, Bool, true, false, ◌&&◌, ◌||◌, negb, List, [],
  ◌∷◌, ◌++◌, map, Option, none, some, ◌==◌, if◌then◌else◌, Result, ok, err, elem, any, select, get?,
  put, remove,
}
use postbrain.Prelude.Stateful.{M, ◌>>=◌, ◌>>◌, return, throw}
use postbrain.LifecycleCore.{Status, published, status_eq}

pub record Artifact : Type 0 where
  pub owner_scope_id : ℕ
  pub author_id : ℕ
  pub status : Status
  pub published_at : Option ℕ
  pub deprecated_at : Option ℕ
  pub review_required : ℕ
  pub endorsement_count : ℕ
  pub content : String
  pub summary : Option String
  pub version : ℕ
  pub previous_version : Option ℕ

pub record KnowledgeHistory : Type 0 where
  pub content : String
  pub summary : Option String
  pub changed_by : ℕ

pub record StalenessFlag : Type 0 where
  pub artifact_id : ℕ
  pub signal : String
  pub is_open : Bool

pub record Memory : Type 0 where
  pub promoted_to : Option ℕ
  pub promotion_status : String

pub record Db : Type 0 where
  pub artifacts : List (ℕ × Artifact)
  pub endorsements : List (ℕ × ℕ)  -- artifact_id, endorser_id
  pub history : List ((ℕ × ℕ) × KnowledgeHistory)  -- artifact_id, version
  pub digest_sources : List (ℕ × ℕ)  -- digest_id, source_id
  pub staleness_flags : List StalenessFlag
  pub artifact_entities : List (ℕ × ℕ)  -- artifact_id, entity_id
  pub promotion_requests : List (ℕ × Option ℕ)  -- id, result_artifact_id
  pub memories : List (ℕ × Memory)
  pub outages : List Bool

pub data Error : Type 0 where
  self_endorsement not_reviewable forbidden invalid_transition : Error
  duplicate_endorsement : Error
  foreign_key not_null : Error
  failed : String → Error

-- Whether the next query fails; with no entry left, none does.
unfoldable pub query {ℓ} : {A : Type ℓ} → (Db → Result Error A × Db) → M Db Error A
query run d = elim (d.outages) [
  | [] ↦ run d
  | true ∷ rest ↦ (err (failed "db"), record d { outages = rest })
  | false ∷ rest ↦ run (record d { outages = rest })
]

-- `GetArtifact`: no row gives nil.
unfoldable pub get_artifact : ℕ → M Db Error (Option Artifact)
unfolding query
get_artifact id = query λ d. (ok (get? id d.artifacts), d)

-- `UPDATE knowledge_artifacts SET … WHERE id=$1`: no row with the id is no error.
unfoldable pub update : ℕ → (Artifact → Artifact) → List (ℕ × Artifact) → List (ℕ × Artifact)
update id f [] = []
update id f ((k, a) ∷ rows) = if k == id then (k, f a) ∷ rows else (k, a) ∷ update id f rows

unfoldable pub update_artifact_status : ℕ → Status → Option ℕ → Option ℕ → M Db Error (Unit {0})
unfolding query
update_artifact_status id status published_at deprecated_at = query λ d. (
  ok tt,
  record d {
    artifacts =
        update id
          (λ a. record a {
            status = status;
            published_at = published_at;
            deprecated_at = deprecated_at;
          })
          d.artifacts;
  },
)

-- `CreateEndorsement`: the pair is unique, and a second insert is the sentinel error.
unfoldable pub create_endorsement : ℕ → ℕ → M Db Error (Unit {0})
unfolding query
create_endorsement artifact_id endorser_id = query λ d.
    if elem (artifact_id, endorser_id) d.endorsements
    then (err duplicate_endorsement, d)
    else (ok tt, record d { endorsements = (artifact_id, endorser_id) ∷ d.endorsements })

unfoldable pub increment_endorsement_count : ℕ → M Db Error (Unit {0})
unfolding query
increment_endorsement_count id = query λ d. (
  ok tt,
  record d {
    artifacts =
        update id (λ a. record a { endorsement_count = a.endorsement_count + 1 }) d.artifacts;
  },
)

-- `SnapshotArtifactVersion`: `ON CONFLICT (artifact_id, version) DO NOTHING`.
unfoldable pub snapshot_artifact_version : ℕ → ℕ → KnowledgeHistory → M Db Error (Unit {0})
unfolding query
snapshot_artifact_version artifact_id version h = query λ d.
    elim (get? (artifact_id, version) d.history) [
      | some old ↦ (ok tt, d)
      | none ↦ (ok tt, record d { history = ((artifact_id, version), h) ∷ d.history })
    ]

-- A published digest of the source, with no open flag of the signal.
unfoldable pub wants_flag : Db → ℕ → String → ℕ × ℕ → Bool
wants_flag d source_id signal (digest_id, source) =
    source == source_id
    && (any (λ (row : ℕ × Artifact). row.0 == digest_id && status_eq row.1.status published)
        d.artifacts)
    && negb (
        any (λ f. f.artifact_id == digest_id && (f.signal == signal && f.is_open))
          d.staleness_flags)

-- `FlagDigestsStaleness`
unfoldable pub flag_digests_staleness : ℕ → String → M Db Error (Unit {0})
unfolding query wants_flag
flag_digests_staleness source_id signal = query λ d. (
  ok tt,
  record d {
    staleness_flags =
        map (λ (ads : ℕ × ℕ). record { artifact_id = ads.0; signal = signal; is_open = true })
          (select (wants_flag d source_id signal) d.digest_sources)
        ++ d.staleness_flags;
  },
)

unfoldable pub delete_artifact_entity_links : ℕ → M Db Error (Unit {0})
unfolding query
delete_artifact_entity_links artifact_id = query λ d.
    (ok tt, record d { artifact_entities = remove (λ k. k == artifact_id) d.artifact_entities })

-- A reference to the id becomes NULL.
abbrev pub null_ref : ℕ → Option ℕ → Option ℕ
null_ref id none = none
null_ref id (some k) = if k == id then none else some k

abbrev pub refers_to : ℕ → Option ℕ → Bool
refers_to id none = false
refers_to id (some k) = k == id

unfoldable pub null_previous_version_refs : ℕ → M Db Error (Unit {0})
unfolding query
null_previous_version_refs id = query λ d. (
  ok tt,
  record d {
    artifacts =
        map
          (λ (row : ℕ × Artifact). (
            row.0,
            let a = row.1 in record a { previous_version = null_ref id a.previous_version },
          ))
          d.artifacts;
  },
)

unfoldable pub null_promotion_request_artifact_ref : ℕ → M Db Error (Unit {0})
unfolding query
null_promotion_request_artifact_ref id = query λ d. (
  ok tt,
  record d {
    promotion_requests =
        map (λ (row : ℕ × Option ℕ). (row.0, null_ref id row.1)) d.promotion_requests;
  },
)

-- A memory that was promoted to the artifact.
abbrev pub is_promoted_to : ℕ → ℕ × Memory → Bool
is_promoted_to id row = refers_to id row.1.promoted_to

-- `UPDATE memories SET promotion_status = NULL WHERE promoted_to = $1`: the column is NOT NULL, so the
-- statement fails as soon as it has a row to update.
unfoldable pub reset_promoted_memory_status : ℕ → M Db Error (Unit {0})
unfolding query
reset_promoted_memory_status id =
    query λ d. if any (is_promoted_to id) d.memories then (err not_null, d) else (ok tt, d)

-- `DELETE FROM knowledge_artifacts WHERE id=$1`: it fails while a `NO ACTION` reference is left, and
-- takes with it the rows that reference the artifact with `ON DELETE CASCADE`.
unfoldable pub delete_artifact : ℕ → M Db Error (Unit {0})
unfolding query
delete_artifact id = query λ d.
    if any (λ (row : ℕ × Artifact). negb (row.0 == id) && refers_to id row.1.previous_version)
        d.artifacts
      || any (λ (row : ℕ × Option ℕ). refers_to id row.1) d.promotion_requests
    then (err foreign_key, d)
    else (
      ok tt,
      record d {
        artifacts = remove (λ k. k == id) d.artifacts;
        endorsements = remove (λ k. k == id) d.endorsements;
        history = remove (λ (k : ℕ × ℕ). k.0 == id) d.history;
        digest_sources =
            select (λ (ads : ℕ × ℕ). negb (ads.0 == id || ads.1 == id)) d.digest_sources;
        staleness_flags = select (λ f. negb (f.artifact_id == id)) d.staleness_flags;
        artifact_entities = remove (λ k. k == id) d.artifact_entities;
        memories =
            map
              (λ (row : ℕ × Memory).
                (row.0, let m = row.1 in record m { promoted_to = null_ref id m.promoted_to }))
              d.memories;
      },
    )
