-- ===== src/Authz/Promotions/Laws.antt =====
-- promotions.go: a token never widens the path of a promotion.
use postbrain.Prelude.{ℕ, string_eq, ◌≡◌, ok, arith}
use postbrain.Authz.Permissions.{
  new_permission, resource_memories, resource_knowledge, operation_write,
}
use postbrain.Authz.PermSet.{PermissionSet}
use postbrain.Authz.PermSet.Laws.{contains-intersect}
use postbrain.Authz.Tokens.{effective_token_permissions}
use postbrain.Authz.Promotions.{direct, promotion_access}

-- If what a token leaves of its principal's permissions allows a direct promotion, both the principal's
-- own permissions and the token's allow it, with the same number of reviews.
pub promotion_access-within_token :
    (principal_perms token_perms : PermissionSet) (n : ℕ)
    → promotion_access (effective_token_permissions principal_perms token_perms) ≡ ok (direct, n)
    → (promotion_access principal_perms ≡ ok (direct, n))
      × (promotion_access token_perms ≡ ok (direct, n))
unfolding promotion_access effective_token_permissions
promotion_access-within_token a b n h = ground (
  arith,
  contains-intersect a b (new_permission resource_memories operation_write),
  contains-intersect a b (new_permission resource_knowledge operation_write),
)
