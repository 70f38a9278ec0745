-- ===== src/Knowledge/Tables/Laws.antt =====
-- The statuses of the artifacts under the queries.
use mathlib.Core.Option
use postbrain.Prelude.{
  ℕ, nat_eq, ◌≡◌, refl, List, [], ◌∷◌, Option, none, some, ◌==◌, if◌then◌else◌, ok, err, get?, map,
  arith,
}
use postbrain.LifecycleCore.{Status}
use postbrain.Knowledge.Tables.{Artifact, Db, Error, update, get_artifact}

abbrev pub artifact_of : ℕ → Db → Option Artifact
artifact_of id d = get? id d.artifacts

abbrev pub status? : Option Artifact → Option Status
status? none = none
status? (some a) = some a.status

-- The status of the artifact with the id; `none` if there is no such row.
abbrev pub status_of : ℕ → Db → Option Status
status_of id d = status? (get? id d.artifacts)

pub get?-update :
    (id b : ℕ) (f : Artifact → Artifact) (rows : List (ℕ × Artifact))
    → get? b (update id f rows) ≡ (if id == b then Option.map f (get? b rows) else get? b rows)
unfolding update
get?-update id b f [] = ground arith
get?-update id b f ((k, a) ∷ rows) = ground (arith, get?-update id b f rows)

-- A map of every row that keeps the ids.
pub get?-map_rows :
    (b : ℕ) (f : Artifact → Artifact) (rows : List (ℕ × Artifact))
    → get? b (map (λ (row : ℕ × Artifact). (row.0, f row.1)) rows) ≡ Option.map f (get? b rows)
get?-map_rows b f [] = refl
get?-map_rows b f ((k, a) ∷ rows) = ground (arith, get?-map_rows b f rows)

-- A read changes no table.
pub get_artifact-result :
    (id : ℕ) (d s : Db) (found : Option Artifact)
    → get_artifact id d ≡ (ok found, s)
    → (found ≡ get? id d.artifacts)
      × (s.artifacts ≡ d.artifacts)
      × (s.endorsements ≡ d.endorsements)
unfolding get_artifact
get_artifact-result id d s found h = ground arith

pub get_artifact-error :
    (id : ℕ) (d s : Db) (e : Error)
    → get_artifact id d ≡ (err e, s)
    → (s.artifacts ≡ d.artifacts) × (s.endorsements ≡ d.endorsements)
unfolding get_artifact
get_artifact-error id d s e h = ground arith
