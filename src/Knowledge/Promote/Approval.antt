-- ===== src/Knowledge/Promote/Approval.antt =====
-- internal/knowledge/promote.go: `Approve` and its transaction.
use postbrain.Prelude.{
  ℕ, nat_eq, String, string_eq, Bool, [], ◌∷◌, Option, none, some, if◌then◌else◌, Result, ok, err,
  get?, modify, elem,
}
use postbrain.Prelude.Stateful.{M, ◌>>=◌, ◌>>◌, return}
use postbrain.LifecycleCore.{draft}
use postbrain.Knowledge.Promote.{
  PromotionRequest, Memory, Artifact, Db, Error, query, approved, promoted, no_rows,
  check_violation,
}

-- `SELECT … WHERE id=$1` and `Scan`: no row is an error.
unfoldable pub select_request : ℕ → M Db Error PromotionRequest
unfolding query
select_request id =
    query λ d. elim (get? id d.requests) [ none ↦ (err no_rows, d) | some req ↦ (ok req, d) ]

unfoldable pub select_memory : ℕ → M Db Error Memory
unfolding query
select_memory id =
    query λ d. elim (get? id d.memories) [ none ↦ (err no_rows, d) | some mem ↦ (ok mem, d) ]

-- The CHECK constraint on `knowledge_type`.
unfoldable pub is_knowledge_type : String → Bool
is_knowledge_type t = elem t ("semantic" ∷ "episodic" ∷ "procedural" ∷ "reference" ∷ "digest" ∷ [])

-- The artifact that `Approve` inserts.
unfoldable pub draft_of : PromotionRequest → Memory → Artifact
draft_of req mem = record {
  knowledge_type = mem.memory_type;
  owner_scope_id = req.target_scope_id;
  author_id = mem.author_id;
  visibility = req.target_visibility;
  status = draft;
  review_required = 1;
  title = elim (req.proposed_title) [ none ↦ mem.content | some title ↦ title ];
  content = mem.content;
  summary = mem.summary;
  source_ref = mem.source_ref;
  version = 1;
  source_memory_id = some req.memory_id;
}

unfoldable pub insert_artifact : ℕ → Artifact → M Db Error (Unit {0})
unfolding query is_knowledge_type
insert_artifact new_id artifact = query λ d.
    if is_knowledge_type artifact.knowledge_type
    then (ok tt, record d { artifacts = (new_id, artifact) ∷ d.artifacts })
    else (err check_violation, d)

unfoldable pub update_request : ℕ → ℕ → ℕ → M Db Error (Unit {0})
unfolding query
update_request id artifact_id reviewer_id = query λ d. (
  ok tt,
  record d {
    requests =
        modify id
          (λ (r : PromotionRequest). record r {
            result_artifact_id = some artifact_id;
            status = approved;
            reviewer_id = some reviewer_id;
          })
          d.requests;
  },
)

unfoldable pub update_memory : ℕ → ℕ → M Db Error (Unit {0})
unfolding query
update_memory id artifact_id = query λ d. (
  ok tt,
  record d {
    memories =
        modify id
          (λ (m : Memory). record m { promoted_to = some artifact_id; promotion_status = promoted })
          d.memories;
  },
)

-- A connection in a transaction: the tables that everybody reads, and the tables as the transaction has
-- changed them, which it alone reads.
pub record Tx : Type 0 where
  pub outside : Db
  pub inside : Db

-- `tx.QueryRow` and `tx.Exec`
unfoldable pub in_tx {ℓ} : {A : Type ℓ} → M Db Error A → M Tx Error A
in_tx run t = let (result, d) = run t.inside in (result, record t { inside = d })

-- `BeginTx` and `Commit` as exchanges with the database: they may fail.
unfoldable pub transaction_point : M Db Error (Unit {0})
unfolding query
transaction_point = query λ d. (ok tt, d)

-- `tx.Commit`: if it succeeds, everybody reads what the transaction has made. (That the connection is
-- lost after the database has committed is left out.)
unfoldable pub commit : M Tx Error (Unit {0})
unfolding transaction_point
commit t =
    let (done, d) = transaction_point t.inside in
    elim done [
      | err e ↦ (err e, record t { inside = d })
      | ok u ↦ (ok u, record t { outside = d; inside = d })
    ]

-- The deferred `tx.Rollback`: what was not committed is dropped; after a commit it does nothing.
unfoldable pub rollback {ℓ} : {A : Type ℓ} → Result Error A × Tx → Result Error A × Db
rollback (result, t) = (result, record t.outside { outages = t.inside.outages })

-- `EmbedText`, if there is a service; its vector is not stored in the model.
unfoldable pub embed : Option (String → Result Error (Unit {0})) → String → M Tx Error (Unit {0})
embed none content t = (ok tt, t)
embed (some svc) content t = (svc content, t)

-- The transaction of `Approve`.
unfoldable pub approve_steps :
    Option (String → Result Error (Unit {0})) → ℕ → ℕ → ℕ → M Tx Error Artifact
unfolding in_tx embed commit
approve_steps svc new_id request_id reviewer_id = do
  in_tx transaction_point
  req ← in_tx (select_request request_id)
  mem ← in_tx (select_memory req.memory_id)
  embed svc mem.content
  in_tx (insert_artifact new_id (draft_of req mem))
  in_tx (update_request request_id new_id reviewer_id)
  in_tx (update_memory req.memory_id new_id)
  commit
  return (draft_of req mem)

-- `Approve`
unfoldable pub approve : Option (String → Result Error (Unit {0})) → ℕ → ℕ → ℕ → M Db Error Artifact
unfolding rollback approve_steps
approve svc new_id request_id reviewer_id d =
    rollback (approve_steps svc new_id request_id reviewer_id (record { outside = d; inside = d }))
