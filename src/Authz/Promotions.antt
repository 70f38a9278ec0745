-- ===== src/Authz/Promotions.antt =====
-- internal/authz/promotions.go: the path of a promotion.
pub mod Laws
use postbrain.Prelude.{ℕ, string_eq, ◌&&◌, if◌then◌else◌, Result, ok, err}
use postbrain.Authz.Permissions.{
  Error, cannot_promote, new_permission, resource_memories, resource_knowledge, resource_promotions,
  operation_write,
}
use postbrain.Authz.PermSet.{PermissionSet, contains}

pub data PromotionPathKind : Type 0 where
  direct review : PromotionPathKind

abbrev pub standard_review_required : ℕ
standard_review_required = 1

abbrev pub elevated_review_required : ℕ
elevated_review_required = 3

unfoldable pub promotion_access : PermissionSet → Result Error (PromotionPathKind × ℕ)
promotion_access caller =
    let has_knowledge_write = contains caller (new_permission resource_knowledge operation_write) in
    let has_memories_write = contains caller (new_permission resource_memories operation_write) in
    let has_promotions_write =
      contains caller (new_permission resource_promotions operation_write) in
    if has_memories_write && has_knowledge_write
    then ok (direct, standard_review_required)
    else if has_promotions_write
    then ok (review, elevated_review_required)
    else err cannot_promote
