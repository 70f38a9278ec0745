-- ===== src/Principals/Membership.antt =====
-- internal/principals/membership.go: who is a member of whom, and who is an admin. The table
-- `principal_memberships` is the state; what the other queries answer is the record `Queries`, and the
-- answer of `GetAllParentIDs`, a recursive query that the database runs, depends on the table. The
-- queries of one call are answered from the same tables.
pub mod Laws
use Prim.Native.String.{◌++◌ as ◌+++◌}
use postbrain.Prelude.{
  ℕ, nat_eq, pair_eq, String, string_eq, Bool, true, false, ◌||◌, List, [], ◌∷◌, Option, none, some,
  ◌==◌, if◌then◌else◌, Result, ok, err, ◌>>=◌, elem, get?, remove,
}
use postbrain.LifecycleCore.{MembershipChecker}

-- `principal_memberships`: the primary key (member_id, parent_id), and the role.
abbrev pub Memberships : Type 0
Memberships = List ((ℕ × ℕ) × String)

-- What the database answers to an insert that its constraints refuse.
pub data InsertError : Type 0 where
  primary_key self_membership : InsertError

-- The sentinels, a failed query with its text, and a refused insert (`principals: add membership: …`).
pub data Error : Type 0 where
  cycle_detected invalid_role : Error
  failed : String → Error
  add_failed : InsertError → Error

-- `fmt.Errorf("…: %w", err)`
unfoldable wrap {ℓ} : {A : Type ℓ} → String → Result String A → Result String A
wrap prefix (ok a) = ok a
wrap prefix (err e) = err (prefix +++ e)

-- `validRoles[role]`
unfoldable pub is_valid_role : String → Bool
is_valid_role role = elem role ("member" ∷ "owner" ∷ "admin" ∷ [])

-- `CreateMembership`, with the table's CHECK and its primary key.
unfoldable pub create_membership :
    ℕ → ℕ → String → Memberships → Result InsertError (Unit {0}) × Memberships
create_membership member_id parent_id role rows =
    if member_id == parent_id
    then (err self_membership, rows)
    else elim (get? (member_id, parent_id) rows) [
      | some old ↦ (err primary_key, rows)
      | none ↦ (ok tt, ((member_id, parent_id), role) ∷ rows)
    ]

-- The checks of `AddMembership`: the role, and that the member is no ancestor of the parent.
unfoldable pub check_membership : Result String (List ℕ) → ℕ → String → Result Error (Unit {0})
unfolding is_valid_role
check_membership ancestors member_id role =
    if is_valid_role role
    then elim ancestors [
      | err e ↦ err (failed ("principals: cycle check: " +++ e))
      | ok ids ↦ if elem member_id ids then err cycle_detected else ok tt
    ]
    else err invalid_role

-- `if err != nil { return fmt.Errorf("principals: add membership: %w", err) }`
unfoldable pub inserted :
    Result InsertError (Unit {0}) × Memberships → Result Error (Unit {0}) × Memberships
inserted (ok t, rows) = (ok t, rows)
inserted (err e, rows) = (err (add_failed e), rows)

-- `AddMembership`; `get_all_parent_ids` is the query `GetAllParentIDs`.
unfoldable pub add_membership :
    (Memberships → ℕ → Result String (List ℕ))
    → ℕ
    → ℕ
    → String
    → Memberships
    → Result Error (Unit {0}) × Memberships
unfolding check_membership create_membership inserted
add_membership get_all_parent_ids member_id parent_id role rows =
    elim (check_membership (get_all_parent_ids rows parent_id) member_id role) [
      | err e ↦ (err e, rows)
      | ok t ↦ inserted (create_membership member_id parent_id role rows)
    ]

-- `RemoveMembership`
unfoldable pub remove_membership : ℕ → ℕ → Memberships → Memberships
remove_membership member_id parent_id rows =
    remove (λ (k : ℕ × ℕ). k == (member_id, parent_id)) rows

pub data DbError : Type 0 where
  no_rows : DbError
  db_failed : String → DbError

pub record Queries : Type 0 where
  pub get_principal_is_system_admin : ℕ → Result DbError Bool
  pub get_all_parent_ids : ℕ → Result String (List ℕ)
  pub get_ancestor_scope_ids : ℕ → Result String (List ℕ)
  pub get_scopes_for_principals : List ℕ → Result String (List ℕ)
  pub scope_admin_exists : List ℕ → ℕ → Result String Bool
  pub principal_admin_exists : ℕ → List ℕ → Result String Bool
  pub has_any_admin_membership : ℕ → Result String Bool

module _ (q : Queries) where
  unfoldable pub effective_scope_ids : ℕ → Result String (List ℕ)
  unfolding wrap
  effective_scope_ids principal_id = do
    all_principal_ids ← wrap "principals: effective scope ids: " (q.get_all_parent_ids principal_id)
    wrap "principals: effective scope ids query: " (q.get_scopes_for_principals all_principal_ids)

  -- A principal that does not exist is no systemadmin.
  unfoldable pub is_system_admin : ℕ → Result String Bool
  is_system_admin principal_id = elim (q.get_principal_is_system_admin principal_id) [
    | ok b ↦ ok b
    | err no_rows ↦ ok false
    | err (db_failed e) ↦ err ("principals: is system admin: " +++ e)
  ]

  unfoldable pub is_scope_admin : ℕ → ℕ → Result String Bool
  unfolding is_system_admin wrap
  is_scope_admin principal_id scope_id = elim (is_system_admin principal_id) [
    | err e ↦ err ("principals: is scope admin system check: " +++ e)
    | ok true ↦ ok true
    | ok false ↦ do
      ancestor_scope_ids ← wrap "principals: is scope admin: " (q.get_ancestor_scope_ids scope_id)
      wrap "principals: is scope admin query: "
          (q.scope_admin_exists ancestor_scope_ids principal_id)
  ]

  unfoldable pub is_principal_admin : ℕ → ℕ → Result String Bool
  unfolding is_system_admin wrap
  is_principal_admin principal_id target_principal_id = elim (is_system_admin principal_id) [
    | err e ↦ err ("principals: is principal admin system check: " +++ e)
    | ok true ↦ ok true
    | ok false ↦ do
      ancestor_principal_ids ←
          wrap "principals: is principal admin: " (q.get_all_parent_ids target_principal_id)
      wrap "principals: is principal admin query: "
          (q.principal_admin_exists principal_id ancestor_principal_ids)
  ]

  unfoldable pub has_any_admin_role : ℕ → Result String Bool
  unfolding is_system_admin wrap
  has_any_admin_role principal_id = elim (is_system_admin principal_id) [
    | err e ↦ err ("principals: has any admin role system check: " +++ e)
    | ok true ↦ ok true
    | ok false ↦
        wrap "principals: has any admin role query: " (q.has_any_admin_membership principal_id)
  ]

  -- The store as the membership checker of the lifecycles.
  abbrev pub membership_store : MembershipChecker
  membership_store = record { is_scope_admin = is_scope_admin; is_system_admin = is_system_admin }
