-- ===== src/Knowledge/Promote/Laws.antt =====
-- promote.go: what a promotion does.
use postbrain.Prelude.{
  ℕ, nat_eq, String, string_eq, ◌≡◌, refl, ◌⊎◌, inl, inr, true, [], ◌∷◌, Option-cases, none, some,
  Result, ok, err, get?, modify, get?-modify, arith,
}
use postbrain.LifecycleCore.{draft}
use postbrain.Knowledge.Promote.{
  PromotionRequest, Memory, Artifact, Db, Error, rejected, approved, nominated, promoted,
  already_promoted, is_taken, get_memory, create_request, reject,
}
use postbrain.Knowledge.Promote.Approval.{
  is_knowledge_type, draft_of, select_request, select_memory, insert_artifact, update_request,
  update_memory, transaction_point, in_tx, commit, rollback, embed, approve_steps, approve,
}

-- The artifact is a draft in the first version that needs one review, with the content, summary, source,
-- type and author of the memory, for the scope and the readers that the request names; its title is the one of
-- the request, or the content if there is none.
abbrev pub IsDraftOf : PromotionRequest → Memory → Artifact → Type 0
IsDraftOf req mem a =
    (a.status ≡ draft)
    × (a.review_required ≡ 1)
    × (a.version ≡ 1)
    × (a.knowledge_type ≡ mem.memory_type)
    × (a.author_id ≡ mem.author_id)
    × (a.content ≡ mem.content)
    × (a.summary ≡ mem.summary)
    × (a.source_ref ≡ mem.source_ref)
    × (a.owner_scope_id ≡ req.target_scope_id)
    × (a.visibility ≡ req.target_visibility)
    × (a.source_memory_id ≡ some req.memory_id)
    × ((req.proposed_title ≡ some a.title)
        ⊎ ((req.proposed_title ≡ none) × (a.title ≡ mem.content)))

pub draft_of-IsDraftOf :
    (req : PromotionRequest) (mem : Memory) → IsDraftOf req mem (draft_of req mem)
unfolding draft_of
draft_of-IsDraftOf req mem = (
  refl,
  refl,
  refl,
  refl,
  refl,
  refl,
  refl,
  refl,
  refl,
  refl,
  refl,
  elim (Option-cases (req.proposed_title)) [
    | inl absent ↦ inr (absent, ground (arith, absent))
    | inr (title, given) ↦ inl (ground (arith, given))
  ],
)

-- The rows of a request and of a memory after an approval.
abbrev pub approved_by : ℕ → ℕ → PromotionRequest → PromotionRequest
approved_by new_id reviewer_id r = record r {
  result_artifact_id = some new_id;
  status = approved;
  reviewer_id = some reviewer_id;
}

abbrev pub promoted_as : ℕ → Memory → Memory
promoted_as new_id m = record m { promoted_to = some new_id; promotion_status = promoted }

module _ (svc : String → Result Error (Unit {0})) (new_id request_id reviewer_id : ℕ) (d : Db)
    (req : PromotionRequest) (mem : Memory) where
  -- The tables after an approval.
  abbrev after_approval : Db
  after_approval = record d {
    requests = modify request_id (approved_by new_id reviewer_id) d.requests;
    memories = modify req.memory_id (promoted_as new_id) d.memories;
    artifacts = (new_id, draft_of req mem) ∷ d.artifacts;
  }

  approve-after_approval :
      d.outages ≡ []
      → svc mem.content ≡ ok tt
      → get? request_id d.requests ≡ some req
      → get? req.memory_id d.memories ≡ some mem
      → is_knowledge_type mem.memory_type ≡ true
      → approve (some svc) new_id request_id reviewer_id d ≡ (ok (draft_of req mem), after_approval)
  unfolding approve select_request select_memory insert_artifact update_request update_memory
      transaction_point in_tx commit rollback approve_steps embed draft_of
  approve-after_approval answers embeds row memory type =
      rw (approve, answers, row, memory, embeds, type) refl

  -- On a database that answers, with an embedding service that embeds the content, a request is approved
  -- whatever its status is, if the memory is there and its type is one of the knowledge types: the
  -- result, which is stored before the other artifacts, is a draft of the memory for the request; the
  -- request is approved by the reviewer and names it; and the memory is promoted to it.
  pub approve_succeeds :
      d.outages ≡ []
      → svc mem.content ≡ ok tt
      → get? request_id d.requests ≡ some req
      → get? req.memory_id d.memories ≡ some mem
      → is_knowledge_type mem.memory_type ≡ true
      → let (result, d') = approve (some svc) new_id request_id reviewer_id d in
        (a : Artifact) × (result ≡ ok a)
        × IsDraftOf req mem a
        × (d'.artifacts ≡ (new_id, a) ∷ d.artifacts)
        × (get? request_id d'.requests
            ≡ some (record req {
              result_artifact_id = some new_id;
              status = approved;
              reviewer_id = some reviewer_id;
            }))
        × (get? req.memory_id d'.memories
            ≡ some (record mem { promoted_to = some new_id; promotion_status = promoted }))
  approve_succeeds answers embeds row memory type =
      rw (approve-after_approval answers embeds row memory type) (
        draft_of req mem,
        refl,
        draft_of-IsDraftOf req mem,
        refl,
        ground (
          arith,
          get?-modify request_id request_id (approved_by new_id reviewer_id) d.requests,
          row,
        ),
        ground (
          arith,
          get?-modify req.memory_id req.memory_id (promoted_as new_id) d.memories,
          memory,
        ),
      )

-- On a database that answers, a nominated memory stays nominated when its request is rejected, so that a
-- new request for it is refused.
pub reject-create_request :
    (new_id request_id reviewer_id : ℕ) (d : Db) (req again : PromotionRequest) (mem : Memory)
    → d.outages ≡ []
    → get? request_id d.requests ≡ some req
    → get? again.memory_id d.memories ≡ some mem
    → mem.promotion_status ≡ nominated
    → let (done, d') = reject request_id reviewer_id d in
      (done ≡ ok tt)
      × (get? request_id d'.requests
          ≡ some (record req { status = rejected; reviewer_id = some reviewer_id }))
      × (create_request new_id again d' ≡ (err already_promoted, d'))
unfolding reject create_request get_memory is_taken
reject-create_request new_id request_id reviewer_id d req again mem answers row memory held =
    ground (
      arith,
      get?-modify request_id request_id
          (λ (r : PromotionRequest). record r { status = rejected; reviewer_id = some reviewer_id })
          d.requests,
    )
