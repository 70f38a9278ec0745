-- ===== src/Principals/Ancestry.antt =====
-- The recursive queries over `principal_memberships` with UNION: `principal_ancestry` of
-- internal/db/authz.sql.go. The database evaluates one in rounds: a round joins the rows that the last
-- one found with the table and keeps what is new, and the query ends with a round that finds nothing.
-- `none` means that the fuel ran out.
pub mod Laws
use postbrain.Prelude.{
  ℕ, zero, suc, ◌+◌, nat_eq, String, Bool, true, false, negb, List, [], ◌∷◌, ◌++◌, Option, none,
  some, ◌==◌, if◌then◌else◌, length, elem, for_each, when,
}
use postbrain.Principals.Membership.{Memberships}

-- The rows of a list that are not among the seen, each once.
unfoldable pub fresh : List ℕ → List ℕ → List ℕ
fresh seen [] = []
fresh seen (x ∷ xs) = if elem x seen then fresh seen xs else x ∷ fresh (x ∷ seen) xs

-- `SELECT pm.parent_id FROM principal_memberships pm JOIN principal_ancestry pa ON pm.member_id = pa.id`
unfoldable pub parents_of : List ℕ → Memberships → List ℕ
parents_of working rows =
    for_each rows (λ (row : (ℕ × ℕ) × String). when (elem row.0.0 working) row.0.1)

-- The rounds; `working` is what the last one found.
unfoldable pub ancestry_from : ℕ → Memberships → List ℕ → List ℕ → Option (List ℕ)
unfolding fresh parents_of
ancestry_from zero rows seen working = none
ancestry_from (suc fuel) rows seen [] = some seen
ancestry_from (suc fuel) rows seen (w ∷ working) =
    ancestry_from fuel rows (fresh seen (parents_of (w ∷ working) rows) ++ seen)
      (fresh seen (parents_of (w ∷ working) rows))

-- Each round but the last finds a new parent, and there are no more parents than rows.
unfoldable pub principal_ancestry : Memberships → ℕ → Option (List ℕ)
unfolding ancestry_from
principal_ancestry rows principal_id =
    ancestry_from (length rows + 2) rows (principal_id ∷ []) (principal_id ∷ [])
