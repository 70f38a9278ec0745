-- ===== src/Authz/Tables/Spec.antt =====
-- What the permissions are meant to be, read off the tables: who owns, belongs and was granted what on
-- which side of a scope.
use postbrain.Prelude.{
  ◌++◌, ◌≢◌, ◌<◌, Option, none, ℕ, String, ◌≡◌, ◌⊎◌, true, false, List, In, get?, nat_eq, some,
}
use postbrain.Authz.Permissions.{Permission}
use postbrain.Authz.Permissions.Expansion.{IsValid}
use postbrain.Authz.PermSet.{contains}
use postbrain.Authz.Roles.{role_owner, role_permissions}
use postbrain.Authz.ReadOnly.{is_read}
use postbrain.Authz.Resolver.Sources.{row_grants}
use postbrain.Principals.Membership.Laws.{Ancestor}
use postbrain.Authz.Tables.{Scope, ScopeGrant, Tables}

-- The scope is the target or above it: its path begins the path of the target.
abbrev pub Encloses : Scope → Scope → Type 0
Encloses s target = (rest : List ℕ) × (target.path ≡ s.path ++ rest)

-- The scope is strictly below the target.
abbrev pub Inside : Scope → Scope → Type 0
Inside s target = Encloses target s × (s.id ≢ target.id)

-- The grant has no time of expiry or a later one.
abbrev pub Unexpired : ℕ → Option ℕ → Type 0
Unexpired now expires_at =
    (expires_at ≡ none) ⊎ ((time : ℕ) × (expires_at ≡ some time) × (now < time))

module _ (t : Tables) (now principal_id target_id : ℕ) where
  -- The scope of a row stands in the relation to the target scope.
  abbrev pub IsRelated : (Scope → Scope → Type 0) → Scope → Type 0
  IsRelated rel s =
      (target : Scope) × In target t.scopes × (target.id ≡ target_id) × In s t.scopes × rel s target

  -- The principal owns such a scope.
  abbrev pub Owns : (Scope → Scope → Type 0) → Type 0
  Owns rel = (s : Scope) × IsRelated rel s × (s.principal_id ≡ principal_id)

  -- The principal or an ancestor of it is a member, with the role, of the owner of such a scope.
  abbrev pub HasRole : (Scope → Scope → Type 0) → String → Type 0
  HasRole rel role =
      (s : Scope) × (member : ℕ) × IsRelated rel s
      × In ((member, s.principal_id), role) t.memberships
      × Ancestor t.memberships principal_id member

  -- The principal has a grant of these texts, not expired, on such a scope.
  abbrev pub HasGrant : (Scope → Scope → Type 0) → List String → Type 0
  HasGrant rel permissions =
      (s : Scope) × (g : ScopeGrant) × IsRelated rel s
      × In g t.scope_grants
      × (g.scope_id ≡ s.id)
      × (g.principal_id ≡ principal_id)
      × Unexpired now g.expires_at
      × (permissions ≡ g.permissions)

  -- By ownership, by a role, or by a grant, at the target scope or above it.
  abbrev pub AllowedAbove : Permission → Type 0
  AllowedAbove p =
      (Owns Encloses × (contains (role_permissions role_owner) p ≡ true))
      ⊎ ((role : String) × HasRole Encloses role × (contains (role_permissions role) p ≡ true))
      ⊎ ((raw : List String) × HasGrant Encloses raw × (row_grants p raw ≡ true))

  -- The same strictly below it, where an owner may read everything.
  abbrev pub AllowedBelow : Permission → Type 0
  AllowedBelow p =
      Owns Inside
      ⊎ ((role : String) × HasRole Inside role × (contains (role_permissions role) p ≡ true))
      ⊎ ((raw : List String) × HasGrant Inside raw × (row_grants p raw ≡ true))

  -- A systemadmin has every valid permission, anyone else what holds above, and of what holds below the
  -- read permissions, on a scope that is there.
  abbrev pub Allowed : Permission → Type 0
  Allowed p =
      ((get? principal_id t.principals ≡ some true) × IsValid p)
      ⊎ ((get? principal_id t.principals ≡ some false)
          × ((s : Scope) × In s t.scopes × (s.id ≡ target_id))
          × (AllowedAbove p ⊎ ((is_read p ≡ true) × AllowedBelow p)))
