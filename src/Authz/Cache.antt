-- ===== src/Authz/Cache.antt =====
-- internal/authz/resolver_cache.go: the cache over a resolver. Each section of the code that holds the
-- mutex is one function on the map; `Step` lets the calls of several goroutines interleave between
-- those sections, while the answers of the resolver under the cache change with time.
pub mod Laws
use postbrain.Prelude.{
  ℕ, ◌+◌, ◌≤◌, ◌≡◌, nat_eq, pair_eq, Bool, true, false, List, [], ◌∷◌, ◌++◌, Option, none, some,
  ltb, ◌==◌, if◌then◌else◌, Result, ok, err, get?, put, remove,
}
use postbrain.Authz.PermSet.{PermissionSet}
use postbrain.Authz.Resolver.{ResolveError}

-- The principal and the scope.
abbrev pub CacheKey : Type 0
CacheKey = ℕ × ℕ

pub record CacheEntry : Type 0 where
  pub perms : PermissionSet
  pub expires_at : ℕ

abbrev pub Entries : Type 0
Entries = List (CacheKey × CacheEntry)

-- The first section: the entry's permissions, if the entry is fresh.
unfoldable pub fresh? : ℕ → CacheKey → Entries → Option PermissionSet
fresh? now key cache = elim (get? key cache) [
  | none ↦ none
  | some entry ↦ if ltb now entry.expires_at then some entry.perms else none
]

-- The last section: the answer is stored for `ttl`.
unfoldable pub store : ℕ → ℕ → CacheKey → PermissionSet → Entries → Entries
store ttl now key perms cache = put key (record { perms = perms; expires_at = now + ttl }) cache

unfoldable pub invalidate : CacheKey → Entries → Entries
invalidate key cache = remove (λ k. k == key) cache

unfoldable pub invalidate_scope : ℕ → Entries → Entries
invalidate_scope scope_id cache = remove (λ (k : CacheKey). k.1 == scope_id) cache

-- `CachedResolver.EffectivePermissions` of one goroutine alone, where the call of the inner resolver
-- returns `inner` and the clock moves from `now` to `later` meanwhile.
unfoldable pub effective_permissions :
    ℕ
    → ℕ
    → ℕ
    → (CacheKey → Result ResolveError PermissionSet)
    → CacheKey
    → Entries
    → Result ResolveError PermissionSet × Entries
effective_permissions ttl now later inner key cache = elim (fresh? now key cache) [
  | some perms ↦ (ok perms, cache)
  | none ↦ elim (inner key) [
    | err e ↦ (err e, cache)
    | ok perms ↦ (ok perms, store ttl later key perms cache)
  ]
]

-- A call that has the inner resolver's answer and has not stored it yet.
pub record Pending : Type 0 where
  pub key : CacheKey
  pub perms : PermissionSet

pub record State : Type 0 where
  pub now : ℕ
  pub cache : Entries
  pub pending : List Pending

module _ (ttl : ℕ) (inner : ℕ → CacheKey → Result ResolveError PermissionSet) where
  pub data Step : State → State → Type 0 where
    tick : (s : State) (d : ℕ) → Step s (record s { now = s.now + d })
    answer :
        (s : State) (key : CacheKey) (perms : PermissionSet)
        → inner s.now key ≡ ok perms
        → Step s (record s { pending = record { key = key; perms = perms } ∷ s.pending })
    finish :
        (s : State) (p : Pending) (rest : List Pending)
        → s.pending ≡ p ∷ rest
        → Step s (record s { cache = store ttl s.now p.key p.perms s.cache; pending = rest })
    requeue :
        (s : State) (p : Pending) (rest : List Pending)
        → s.pending ≡ p ∷ rest
        → Step s (record s { pending = rest ++ p ∷ [] })
    drop_key : (s : State) (key : CacheKey) → Step s (record s { cache = invalidate key s.cache })
    drop_scope :
        (s : State) (scope_id : ℕ) → Step s (record s { cache = invalidate_scope scope_id s.cache })

  pub data Reach : State → Type 0 where
    start : Reach (record { now = 0; cache = []; pending = [] })
    next : {s t : State} → Reach s → Step s t → Reach t
