-- ===== src/Authz/Tables/Ranks.antt =====
-- authz.sql.go: the one role that `ORDER BY … LIMIT 1` returns.
use postbrain.Prelude.{
  nat_eq, String, string_eq, ◌≡◌, refl, ◌⊎◌, inl, inr, true, false, Bool-cases, Option-cases, List,
  [], ◌∷◌, none, some, leb, ◌==◌, eq_of_beq, any, In, arith,
}
use postbrain.Authz.Permissions.{Permission}
use postbrain.Authz.PermSet.{contains}
use postbrain.Authz.Roles.{role_permissions, role_owner, role_admin, role_member}
use postbrain.Authz.Roles.Laws.{role_hierarchy, perms?-unknown, contains-role_permissions_unknown}
use postbrain.Authz.Tables.{role_rank, first_by_rank}

-- The rank of a role; one with no rank of its own gives nothing.
rank_cases :
    (r : String) (p : Permission)
    → ((r ≡ role_owner) × (role_rank r ≡ 1))
      ⊎ ((r ≡ role_admin) × (role_rank r ≡ 2))
      ⊎ ((r ≡ role_member) × (role_rank r ≡ 3))
      ⊎ ((role_rank r ≡ 4) × (contains (role_permissions r) p ≡ false))
unfolding role_rank
rank_cases r p = elim (Bool-cases (r == role_owner)) [
  | inl owner ↦ inl (eq_of_beq r role_owner owner, ground (arith, owner))
  | inr no_owner ↦ elim (Bool-cases (r == role_admin)) [
    | inl admin ↦ inr (inl (eq_of_beq r role_admin admin, ground (arith, no_owner, admin)))
    | inr no_admin ↦ elim (Bool-cases (r == role_member)) [
      | inl member ↦
          inr
            (inr (inl (eq_of_beq r role_member member, ground (arith, no_owner, no_admin, member))))
      | inr no_member ↦ inr (
          inr (
            inr (
              ground (arith, no_owner, no_admin, no_member),
              contains-role_permissions_unknown r p (perms?-unknown r no_owner no_admin no_member),
            )))
    ]
  ]
]

-- A role of a better rank gives what the other gives.
rank_gives :
    (r q : String) (p : Permission)
    → leb (role_rank r) (role_rank q) ≡ true
    → contains (role_permissions q) p ≡ true
    → contains (role_permissions r) p ≡ true
rank_gives r q p h m = elim (rank_cases r p) [
  | inl (er, nr) ↦ ground (arith, er, nr, rank_cases q p, role_hierarchy p)
  | inr (inl (er, nr)) ↦ ground (arith, er, nr, rank_cases q p, role_hierarchy p)
  | inr (inr (inl (er, nr))) ↦ ground (arith, er, nr, rank_cases q p, role_hierarchy p)
  | inr (inr (inr (nr, lacks))) ↦ ground (arith, nr, lacks, rank_cases q p)
]

-- The first role by rank gives exactly what any of the roles gives.
pub first_by_rank_gives :
    (roles : List String) (p : Permission)
    → (elim (first_by_rank roles) [ none ↦ false | some r ↦ contains (role_permissions r) p ])
      ≡ any (λ r. contains (role_permissions r) p) roles
unfolding first_by_rank
first_by_rank_gives [] p = refl
first_by_rank_gives (r ∷ rs) p = elim (Option-cases (first_by_rank rs)) [
  | inl none_left ↦ ground (arith, none_left, first_by_rank_gives rs p)
  | inr (q, found) ↦
      ground (arith, found, first_by_rank_gives rs p, rank_gives r q p, rank_gives q r p)
]

pub In-first_by_rank :
    (roles : List String) (r : String) → first_by_rank roles ≡ some r → In r roles
unfolding first_by_rank
In-first_by_rank [] r h = absurd (ground arith)
In-first_by_rank (q ∷ rs) r h = elim (Option-cases (first_by_rank rs)) [
  | inl none_left ↦ inl (ground arith)
  | inr (s, found) ↦ elim (Bool-cases (leb (role_rank q) (role_rank s))) [
    | inl better ↦ inl (ground (arith, found, better))
    | inr worse ↦ inr (In-first_by_rank rs r (ground (arith, found, worse)))
  ]
]
