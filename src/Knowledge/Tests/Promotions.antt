-- ===== src/Knowledge/Tests/Promotions.antt =====
-- The theorems on the promotion of memories at concrete inputs.
use postbrain.Prelude.{
  nat_eq, string_eq, ◌≡◌, refl, Bool, true, false, String, Result, List, [], ◌∷◌, none, some, ok,
  err, get?,
}
use postbrain.Knowledge.Promote.{
  PromotionRequest, Memory, Artifact, Db, Error, query, failed, pending, approved, rejected,
  nominated, promoted, already_promoted, create_request, reject,
}
use postbrain.Knowledge.Promote.Approval.{
  is_knowledge_type, draft_of, select_request, select_memory, insert_artifact, update_request,
  update_memory, transaction_point, in_tx, rollback, embed, approve_steps, approve,
}
use postbrain.Knowledge.Promote.Atomic.{AllOrNothing, approve_atomic}
use postbrain.Knowledge.Promote.Laws.{IsDraftOf, approve_succeeds, reject-create_request}

abbrev request : PromotionRequest
request = record {
  memory_id = 8;
  requested_by = 2;
  target_scope_id = 3;
  target_visibility = "team";
  proposed_title = none;
  status = pending;
  reviewer_id = none;
  result_artifact_id = none;
}

abbrev note : Memory
note = record {
  memory_type = "semantic";
  author_id = 1;
  content = "c";
  summary = none;
  source_ref = some "chat";
  promotion_status = nominated;
  promoted_to = none;
}

abbrev asked : List Bool → Db
asked outages = record {
  requests = (7, request) ∷ [];
  memories = (8, note) ∷ [];
  artifacts = [];
  outages = outages;
}

-- A service that embeds every text.
abbrev embeds_all : String → Result Error (Unit {0})
embeds_all content = ok tt

approve_succeeds_example :
    let (result, d') = approve (some embeds_all) 5 7 9 (asked []) in
    (a : Artifact) × (result ≡ ok a)
    × IsDraftOf request note a
    × (d'.artifacts ≡ (5, a) ∷ [])
    × (get? 7 d'.requests
        ≡ some (record request {
          result_artifact_id = some 5;
          status = approved;
          reviewer_id = some 9;
        }))
    × (get? 8 d'.memories
        ≡ some (record note { promoted_to = some 5; promotion_status = promoted }))
unfolding is_knowledge_type
approve_succeeds_example =
    approve_succeeds embeds_all 5 7 9 (asked []) request note refl refl refl refl refl

-- The last update fails.
abbrev dropped : List Bool
dropped = false ∷ false ∷ false ∷ false ∷ false ∷ true ∷ []

update_fails : approve (some embeds_all) 5 7 9 (asked dropped) ≡ (err (failed "db"), asked [])
unfolding approve approve_steps in_tx rollback transaction_point select_request select_memory embed
    insert_artifact update_request update_memory is_knowledge_type draft_of query
update_fails = refl

approve_atomic_example :
    AllOrNothing 5 7 9 (asked dropped) (approve (some embeds_all) 5 7 9 (asked dropped))
approve_atomic_example = approve_atomic 5 7 9 (asked dropped) (some embeds_all)

reject-create_request_example :
    let (done, d') = reject 7 9 (asked []) in
    (done ≡ ok tt)
    × (get? 7 d'.requests ≡ some (record request { status = rejected; reviewer_id = some 9 }))
    × (create_request 6 request d' ≡ (err already_promoted, d'))
reject-create_request_example =
    reject-create_request 6 7 9 (asked []) request request note refl refl refl refl
