-- ===== src/Knowledge/Promote/Statements.antt =====
-- promote.go: what a statement of the transaction of `Approve` that succeeds has read or written.
use postbrain.Prelude.{
  ℕ, nat_eq, String, string_eq, ◌≡◌, refl, ap, List, ◌∷◌, Option, none, some, Result, ok, get?,
  modify, arith,
}
use postbrain.Prelude.Stateful.{M}
use postbrain.Knowledge.Promote.{PromotionRequest, Memory, Artifact, Db, Error, query}
use postbrain.Knowledge.Promote.Approval.{
  select_request, select_memory, insert_artifact, update_request, update_memory, transaction_point,
  Tx, in_tx, embed,
}
use postbrain.Knowledge.Promote.Laws.{approved_by, promoted_as}

-- The tables of a database, without the failures to come.
abbrev pub Rows : Type 0
Rows = List (ℕ × PromotionRequest) × List (ℕ × Memory) × List (ℕ × Artifact)

abbrev pub rows_of : Db → Rows
rows_of d = (d.requests, d.memories, d.artifacts)

pub select_request-ok :
    (id : ℕ) (d d2 : Db) {req : PromotionRequest}
    → select_request id d ≡ (ok req, d2)
    → (get? id d.requests ≡ some req) × (rows_of d2 ≡ rows_of d)
unfolding select_request query
select_request-ok id d d2 h = (ground arith, ground arith)

pub select_memory-ok :
    (id : ℕ) (d d2 : Db) {mem : Memory}
    → select_memory id d ≡ (ok mem, d2)
    → (get? id d.memories ≡ some mem) × (rows_of d2 ≡ rows_of d)
unfolding select_memory query
select_memory-ok id d d2 h = (ground arith, ground arith)

pub transaction_point-ok :
    (d d2 : Db) {u : Unit {0}} → transaction_point d ≡ (ok u, d2) → rows_of d2 ≡ rows_of d
unfolding transaction_point query
transaction_point-ok d d2 h = ground arith

pub insert_artifact-ok :
    (new_id : ℕ) (a : Artifact) (d d2 : Db) {u : Unit {0}}
    → insert_artifact new_id a d ≡ (ok u, d2)
    → rows_of d2 ≡ (d.requests, d.memories, (new_id, a) ∷ d.artifacts)
unfolding insert_artifact query
insert_artifact-ok new_id a d d2 h = ground arith

pub update_request-ok :
    (id new_id reviewer_id : ℕ) (d d2 : Db) {u : Unit {0}}
    → update_request id new_id reviewer_id d ≡ (ok u, d2)
    → rows_of d2 ≡ (modify id (approved_by new_id reviewer_id) d.requests, d.memories, d.artifacts)
unfolding update_request query
update_request-ok id new_id reviewer_id d d2 h = ground arith

pub update_memory-ok :
    (id new_id : ℕ) (d d2 : Db) {u : Unit {0}}
    → update_memory id new_id d ≡ (ok u, d2)
    → rows_of d2 ≡ (d.requests, modify id (promoted_as new_id) d.memories, d.artifacts)
unfolding update_memory query
update_memory-ok id new_id d d2 h = ground arith

pub transaction_point-rows : (d : Db) → rows_of (transaction_point d).1 ≡ rows_of d
unfolding transaction_point query
transaction_point-rows d = ground arith

pub in_tx-outside {ℓ} :
    {A : Type ℓ} (run : M Db Error A) (t : Tx) → (in_tx run t).1.outside ≡ t.outside
unfolding in_tx
in_tx-outside run t = refl

pub in_tx-inside {ℓ} :
    {A : Type ℓ} (run : M Db Error A) (t t2 : Tx) {a : A}
    → in_tx run t ≡ (ok a, t2)
    → run t.inside ≡ (ok a, t2.inside)
unfolding in_tx
in_tx-inside {A = A} run t t2 h = ap (λ (r : Result Error A × Tx). (r.0, r.1.inside)) h

pub embed-same :
    (svc : Option (String → Result Error (Unit {0}))) (content : String) (t : Tx)
    → (embed svc content t).1 ≡ t
unfolding embed
embed-same none content t = refl
embed-same (some svc) content t = refl
