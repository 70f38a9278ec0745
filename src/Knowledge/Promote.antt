-- ===== src/Knowledge/Promote.antt =====
-- internal/knowledge/promote.go: the promotion of a memory to a knowledge artifact. The columns that the
-- promoter neither tests nor copies between the tables are left out. The id of an inserted row, which the
-- database draws, and the embedding service are arguments; an embedding is not stored in the model.
pub mod Approval
pub mod Atomic
pub mod Laws
pub mod Statements
use postbrain.Prelude.{
  ℕ, nat_eq, String, string_eq, Bool, true, false, ◌||◌, List, [], ◌∷◌, Option, none, some, ◌==◌,
  if◌then◌else◌, Result, ok, err, get?, put, modify, elem,
}
use postbrain.Prelude.Stateful.{M, ◌>>=◌, ◌>>◌, return, throw}
use postbrain.LifecycleCore.{Status, draft}

-- `status` of promotion_requests, by its CHECK constraint.
pub data RequestStatus : Type 0 where
  pending approved rejected merged : RequestStatus

pub data PromotionStatus : Type 0 where
  not_promoted nominated promoted : PromotionStatus

pub record PromotionRequest : Type 0 where
  pub memory_id : ℕ
  pub requested_by : ℕ
  pub target_scope_id : ℕ
  pub target_visibility : String
  pub proposed_title : Option String
  pub status : RequestStatus
  pub reviewer_id : Option ℕ
  pub result_artifact_id : Option ℕ

pub record Memory : Type 0 where
  pub memory_type : String
  pub author_id : ℕ
  pub content : String
  pub summary : Option String
  pub source_ref : Option String
  pub promotion_status : PromotionStatus
  pub promoted_to : Option ℕ

pub record Artifact : Type 0 where
  pub knowledge_type : String
  pub owner_scope_id : ℕ
  pub author_id : ℕ
  pub visibility : String
  pub status : Status
  pub review_required : ℕ
  pub title : String
  pub content : String
  pub summary : Option String
  pub source_ref : Option String
  pub version : ℕ
  pub source_memory_id : Option ℕ

pub record Db : Type 0 where
  pub requests : List (ℕ × PromotionRequest)
  pub memories : List (ℕ × Memory)
  pub artifacts : List (ℕ × Artifact)
  pub outages : List Bool

pub data Error : Type 0 where
  already_promoted memory_not_found : Error
  no_rows check_violation : Error
  failed : String → Error

-- Whether the next query fails; with no entry left, none does.
unfoldable pub query {ℓ} : {A : Type ℓ} → (Db → Result Error A × Db) → M Db Error A
query run d = elim (d.outages) [
  | [] ↦ run d
  | true ∷ rest ↦ (err (failed "db"), record d { outages = rest })
  | false ∷ rest ↦ run (record d { outages = rest })
]

-- `memory.PromotionStatus == "nominated" || memory.PromotionStatus == "promoted"`
unfoldable pub is_taken : PromotionStatus → Bool
is_taken not_promoted = false
is_taken nominated = true
is_taken promoted = true

unfoldable pub get_memory : ℕ → M Db Error (Option Memory)
unfolding query
get_memory id = query λ d. (ok (get? id d.memories), d)

-- `CreatePromotionRequest`; the request stands under the id that the database draws for it.
unfoldable pub create_promotion_request : ℕ → PromotionRequest → M Db Error (Unit {0})
unfolding query
create_promotion_request new_id req = query λ d. (
  ok tt,
  record d {
    requests =
        (new_id, record req { status = pending; reviewer_id = none; result_artifact_id = none })
        ∷ d.requests;
  },
)

unfoldable pub mark_memory_nominated : ℕ → M Db Error (Unit {0})
unfolding query
mark_memory_nominated id = query λ d. (
  ok tt,
  record d {
    memories = modify id (λ (m : Memory). record m { promotion_status = nominated }) d.memories;
  },
)

-- The guards of `CreateRequest`.
unfoldable pub free_memory : Option Memory → M Db Error (Unit {0})
unfolding is_taken
free_memory none = throw memory_not_found
free_memory (some m) = if is_taken m.promotion_status then throw already_promoted else return tt

-- `CreateRequest`
unfoldable pub create_request : ℕ → PromotionRequest → M Db Error (Unit {0})
unfolding free_memory
create_request new_id req = do
  memory ← get_memory req.memory_id
  free_memory memory
  create_promotion_request new_id req
  mark_memory_nominated req.memory_id

-- `Reject`
unfoldable pub reject : ℕ → ℕ → M Db Error (Unit {0})
unfolding query
reject request_id reviewer_id = query λ d. (
  ok tt,
  record d {
    requests =
        modify request_id
          (λ (r : PromotionRequest). record r { status = rejected; reviewer_id = some reviewer_id })
          d.requests;
  },
)
