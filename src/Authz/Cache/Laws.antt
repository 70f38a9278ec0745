-- ===== src/Authz/Cache/Laws.antt =====
-- resolver_cache.go: what the cache serves.
use postbrain.Prelude.{
  ℕ, ◌+◌, ◌≤◌, ◌<◌, ◌≡◌, refl, subst, inl, inr, nat_eq, pair_eq, Bool, List, [], ◌∷◌, ◌++◌, none,
  some, Bool-cases, Option-cases, ◌==◌, beq_self, if◌then◌else◌, Result, ok, get?, put, remove,
  get?-put, get?-remove, All, All-get?, arith,
}
use postbrain.Authz.PermSet.{PermissionSet}
use postbrain.Authz.Resolver.{ResolveError}
use postbrain.Authz.Cache.{
  CacheKey, CacheEntry, Entries, fresh?, store, invalidate, invalidate_scope, effective_permissions,
  Pending, State, Step, tick, answer, finish, requeue, drop_key, drop_scope, Reach, start, next,
}

module _ (ttl : ℕ) (inner : ℕ → CacheKey → Result ResolveError PermissionSet) where
  -- The resolver gave these permissions for the key at some time up to now.
  abbrev pub Given : ℕ → CacheKey → PermissionSet → Type 0
  Given now key perms = (t : ℕ) × (t ≤ now) × (inner t key ≡ ok perms)

  -- The permissions of an entry were given before the entry was stored, `ttl` before it expires.
  abbrev pub IsSound : ℕ → CacheKey × CacheEntry → Type 0
  IsSound now (key, entry) =
      (stored : ℕ) × (stored ≤ now)
      × (entry.expires_at ≡ stored + ttl)
      × Given stored key entry.perms

  abbrev pub PendingIsSound : ℕ → Pending → Type 0
  PendingIsSound now p = Given now p.key p.perms

  pub record Inv (s : State) : Type 0 where
    pub entries : All (IsSound s.now) s.cache
    pub calls : All (PendingIsSound s.now) s.pending

  Given-later :
      (t d : ℕ) {key : CacheKey} {perms : PermissionSet}
      → Given t key perms
      → Given (t + d) key perms
  Given-later t d (u, le, e) = (u, omega arith, e)

  entries-later : (now d : ℕ) (m : Entries) → All (IsSound now) m → All (IsSound (now + d)) m
  entries-later now d [] h = tt
  entries-later now d (e ∷ m) ((stored, le, expiry, given), h) =
      ((stored, omega arith, expiry, given), entries-later now d m h)

  calls-later :
      (now d : ℕ) (ps : List Pending)
      → All (PendingIsSound now) ps
      → All (PendingIsSound (now + d)) ps
  calls-later now d [] h = tt
  calls-later now d (p ∷ ps) (g, h) = (Given-later now d g, calls-later now d ps h)

  entries-put :
      (now : ℕ) (key : CacheKey) (entry : CacheEntry) (m : Entries)
      → All (IsSound now) m
      → IsSound now (key, entry)
      → All (IsSound now) (put key entry m)
  entries-put now key entry [] h e = (e, tt)
  entries-put now key entry ((k, w) ∷ m) (g, h) e = elim (Bool-cases (k == key)) [
    | inl same ↦ rw same (e, h)
    | inr other ↦ rw other (g, entries-put now key entry m h e)
  ]

  entries-remove :
      (now : ℕ) (p : CacheKey → Bool) (m : Entries)
      → All (IsSound now) m
      → All (IsSound now) (remove p m)
  entries-remove now p [] h = tt
  entries-remove now p ((k, w) ∷ m) (g, h) = elim (Bool-cases (p k)) [
    | inl hit ↦ rw hit (entries-remove now p m h)
    | inr other ↦ rw other (g, entries-remove now p m h)
  ]

  calls-append :
      (now : ℕ) (ps qs : List Pending)
      → All (PendingIsSound now) ps
      → All (PendingIsSound now) qs
      → All (PendingIsSound now) (ps ++ qs)
  calls-append now [] qs h k = k
  calls-append now (p ∷ ps) qs (g, h) k = (g, calls-append now ps qs h k)

  calls-head :
      (s : State) (p : Pending) (rest : List Pending)
      → s.pending ≡ p ∷ rest
      → All (PendingIsSound s.now) s.pending
      → PendingIsSound s.now p × All (PendingIsSound s.now) rest
  calls-head s p rest e h = subst (λ ps. All (PendingIsSound s.now) ps) e h

  Step-Inv : {s t : State} → Step ttl inner s t → Inv s → Inv t
  unfolding store invalidate invalidate_scope
  Step-Inv (tick s d) v = record {
    entries = entries-later s.now d s.cache v.entries;
    calls = calls-later s.now d s.pending v.calls;
  }
  Step-Inv (answer s key perms e) v = record {
    entries = v.entries;
    calls = ((s.now, omega arith, e), v.calls);
  }
  Step-Inv (finish s p rest e) v =
      let (given, others) = calls-head s p rest e v.calls in
      record {
        entries =
            entries-put s.now p.key (record { perms = p.perms; expires_at = s.now + ttl }) s.cache
              v.entries (s.now, omega arith, refl, given);
        calls = others;
      }
  Step-Inv (requeue s p rest e) v =
      let (given, others) = calls-head s p rest e v.calls in
      record { entries = v.entries; calls = calls-append s.now rest (p ∷ []) others (given, tt) }
  Step-Inv (drop_key s key) v = record {
    entries = entries-remove s.now (λ k. k == key) s.cache v.entries;
    calls = v.calls;
  }
  Step-Inv (drop_scope s scope_id) v = record {
    entries = entries-remove s.now (λ (k : CacheKey). k.1 == scope_id) s.cache v.entries;
    calls = v.calls;
  }

  Reach-Inv : {s : State} → Reach ttl inner s → Inv s
  Reach-Inv start = record { entries = tt; calls = tt }
  Reach-Inv (next r st) = Step-Inv st (Reach-Inv r)

  -- However the calls of the goroutines and the invalidations interleave, permissions that the cache
  -- serves for a principal and a scope were the inner resolver's answer for that pair at a past time,
  -- and were stored less than `ttl` ago.
  pub fresh?-Given :
      {s : State} (key : CacheKey) (perms : PermissionSet)
      → Reach ttl inner s
      → fresh? s.now key s.cache ≡ some perms
      → (stored : ℕ) × (stored ≤ s.now) × (s.now < stored + ttl) × Given stored key perms
  unfolding fresh?
  fresh?-Given {s} key perms r h = elim (Option-cases (get? key s.cache)) [
    | inl missing ↦ absurd (ground arith)
    | inr (entry, found) ↦
        let (stored, le, expiry, given) =
          All-get? (IsSound s.now) key s.cache (Reach-Inv r).entries found in
        let live : s.now < entry.expires_at = ground arith in
        let same : entry.perms ≡ perms = ground arith in
        (stored, le, omega (arith, expiry), subst (λ q. Given stored key q) same given)
  ]

-- After an invalidation the cache serves nothing for the pair, nor for any pair with the scope, and
-- what it serves for the others is unchanged.
pub fresh?-invalidate :
    (now scope_id : ℕ) (key other : CacheKey) (cache : Entries)
    → (fresh? now other (invalidate key cache)
        ≡ (if other == key then none else fresh? now other cache))
      × (fresh? now other (invalidate_scope scope_id cache)
          ≡ (if other.1 == scope_id then none else fresh? now other cache))
unfolding fresh? invalidate invalidate_scope
fresh?-invalidate now scope_id key other cache = (
  ground (arith, get?-remove (λ k. k == key) other cache),
  ground (arith, get?-remove (λ (k : CacheKey). k.1 == scope_id) other cache),
)

-- What has just been stored is served until `ttl` has passed.
fresh?-store :
    (ttl now later : ℕ) (key : CacheKey) (perms : PermissionSet) (cache : Entries)
    → later < now + ttl
    → fresh? later key (store ttl now key perms cache) ≡ some perms
unfolding fresh? store
fresh?-store ttl now later key perms cache h =
    rw
      (
        get?-put key key (record { perms = perms; expires_at = now + ttl }) cache,
        beq_self key,
        fresh?,
      )
      (ground arith)

-- A call that misses returns the inner resolver's answer and stores it, so that a second call before
-- `ttl` has passed since then returns the same permissions, whatever the inner resolver says by then.
pub effective_permissions_twice :
    (ttl now later again end : ℕ) (inner inner' : CacheKey → Result ResolveError PermissionSet)
    (key : CacheKey) (cache : Entries) (perms : PermissionSet)
    → fresh? now key cache ≡ none
    → inner key ≡ ok perms
    → again < later + ttl
    → let (first, cache') = effective_permissions ttl now later inner key cache in
      (first ≡ ok perms) × ((effective_permissions ttl again end inner' key cache').0 ≡ ok perms)
unfolding effective_permissions
effective_permissions_twice ttl now later again end inner inner' key cache perms miss answered h =
    ground (arith, fresh?-store ttl later again key perms cache h)
