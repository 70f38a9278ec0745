-- ===== src/Authz/Tests/Tokens.antt =====
-- The theorems on the tokens, the cache and the maps of grants at concrete inputs.
use postbrain.Prelude.{
  ℕ, ◌+◌, ◌≤◌, ◌<◌, string_eq, nat_eq, pair_eq, ◌≡◌, refl, ◌&&◌, ◌||◌, List, [], ◌∷◌, none, some,
  if◌then◌else◌, ltb, Result, ok, elem,
}
use postbrain.Authz.Permissions.{expand, shorthand?, ops?}
use postbrain.Authz.PermSet.{PermissionSet, new_permission_set, mark_all, mark, contains, intersect}
use postbrain.Authz.ReadOnly.{is_read}
use postbrain.Authz.Tokens.{
  parse_token_permissions, has_admin, effective_token_permissions as within_token,
}
use postbrain.Authz.Resolver.{ResolveError}
use postbrain.Authz.TokenResolver.{
  Token, Resolver, authorize_context_scope, is_revoked, is_expired, scope_check,
}
use postbrain.Authz.TokenResolver.Laws.{
  Entitled, authorize_context_scope-Entitled, Entitled-authorize_context_scope,
}
use postbrain.Authz.Cache.{CacheKey, State, Reach, start, next, tick, answer, finish, fresh?, store}
use postbrain.Authz.Cache.Laws.{Given, fresh?-Given}
use postbrain.Authz.Inheritance.{Grants, apply_upward_read}
use postbrain.Authz.Inheritance.Laws.{grants_on, grants_on-apply_upward_read}

abbrev reads : PermissionSet
reads = record { perms = "memories:read" ∷ [] }

abbrev resolver : Resolver
resolver = record {
  effective_permissions = λ p s. ok reads;
  scope_query = some (λ s allowed. ok (elem s allowed));
}

abbrev tok : Token
tok = record {
  principal_id = 1;
  scope_ids = 10 ∷ [];
  permissions = "read" ∷ [];
  revoked_at = none;
  expires_at = some 100;
}

passes : authorize_context_scope (some tok) (some resolver) 50 10 "memories:read" ≡ none
unfolding authorize_context_scope is_revoked is_expired parse_token_permissions has_admin
    new_permission_set expand shorthand? contains within_token intersect mark_all ops? mark
passes = refl

authorize_context_scope-Entitled_example : Entitled resolver 50 tok 10 "memories:read"
authorize_context_scope-Entitled_example =
    authorize_context_scope-Entitled resolver 50 tok 10 "memories:read" passes

abbrev narrow : Token
narrow = record tok { permissions = "memories:read" ∷ [] }

narrow-Entitled : Entitled resolver 50 narrow 10 "memories:read"
unfolding is_expired scope_check contains expand shorthand? ops?
narrow-Entitled = record {
  not_revoked = refl;
  not_expired = refl;
  in_scope = refl;
  principal_perms = reads;
  principal_answer = refl;
  principal_may = refl;
  declared = refl;
}

declared : parse_token_permissions ("memories:read" ∷ []) ≡ ok reads
unfolding parse_token_permissions has_admin new_permission_set expand shorthand? ops? mark_all mark
declared = refl

Entitled-authorize_context_scope_example :
    authorize_context_scope (some narrow) (some resolver) 50 10 "memories:read" ≡ none
Entitled-authorize_context_scope_example =
    Entitled-authorize_context_scope resolver 50 narrow 10 "memories:read" narrow-Entitled reads
      declared

abbrev wanted : CacheKey
wanted = (1, 10)

-- The inner resolver's answers: nothing from time 5 on.
abbrev inner : ℕ → CacheKey → Result ResolveError PermissionSet
inner now key = ok (if ltb now 5 then reads else record { perms = [] })

abbrev served : State
served = record {
  now = 7;
  cache = (wanted, record { perms = reads; expires_at = 30 }) ∷ [];
  pending = [];
}

served-Reach : Reach 30 inner served
unfolding store
served-Reach =
    next
      (next (next start (answer _ wanted reads refl))
        (finish _ (record { key = wanted; perms = reads }) [] refl))
      (tick _ 7)

fresh?-Given_example :
    (stored : ℕ) × (stored ≤ 7) × (7 < stored + 30) × Given 30 inner stored wanted reads
unfolding fresh?
fresh?-Given_example = fresh?-Given 30 inner wanted reads served-Reach refl

abbrev empty : State
empty = record { now = 0; cache = []; pending = [] }

abbrev grants : Grants
grants = (3, record { perms = "memories:read" ∷ "memories:write" ∷ [] }) ∷ []

abbrev ancestors : List ℕ
ancestors = 2 ∷ 1 ∷ []

abbrev on : ℕ
on = 1

grants_on-apply_upward_read_example :
    grants_on on "memories:write" (apply_upward_read grants 3 ancestors) ≡ (
      grants_on on "memories:write" grants
      || (elem on ancestors && (is_read "memories:write" && grants_on 3 "memories:write" grants)))
grants_on-apply_upward_read_example =
    grants_on-apply_upward_read grants 3 ancestors on "memories:write"
