-- ===== src/Authz/Permissions.antt =====
-- internal/authz/permissions.go: resources, operations, the permission strings and their expansion.
-- A Go string type over constants is `String`; a map literal is its list of entries, and the error
-- values keep the strings that the messages quote.
pub mod Parsing
pub mod Expansion
use Prim.Native.Char.{code}
use Prim.Native.String.{◌++◌ as ◌+++◌}
use mathlib.Core.Option
use postbrain.Prelude.{
  String, string_eq, Bool, true, false, Option, none, some, List, [], ◌∷◌, ◌++◌, ◌=ℕ◌, ◌==◌,
  if◌then◌else◌, Result, ok, err, ◌>>=◌, ◌>>◌, elem, get?, map,
}

abbrev pub Resource : Type 0
Resource = String

abbrev pub Operation : Type 0
Operation = String

abbrev pub Permission : Type 0
Permission = String

pub data Error : Type 0 where
  malformed : Permission → Error
  empty_permission : Error
  unknown_permission : String → Error
  unknown_resource : Resource → Permission → Error
  invalid_operation : Operation → Resource → Error
  unknown_role : String → Error
  empty_token_permissions : Error
  admin_not_valid : Error
  cannot_promote : Error

abbrev pub resource_memories : Resource
resource_memories = "memories"

abbrev pub resource_knowledge : Resource
resource_knowledge = "knowledge"

abbrev pub resource_collections : Resource
resource_collections = "collections"

abbrev pub resource_skills : Resource
resource_skills = "skills"

abbrev pub resource_sessions : Resource
resource_sessions = "sessions"

abbrev pub resource_graph : Resource
resource_graph = "graph"

abbrev pub resource_scopes : Resource
resource_scopes = "scopes"

abbrev pub resource_principals : Resource
resource_principals = "principals"

abbrev pub resource_tokens : Resource
resource_tokens = "tokens"

abbrev pub resource_sharing : Resource
resource_sharing = "sharing"

abbrev pub resource_promotions : Resource
resource_promotions = "promotions"

abbrev pub operation_read : Operation
operation_read = "read"

abbrev pub operation_write : Operation
operation_write = "write"

abbrev pub operation_edit : Operation
operation_edit = "edit"

abbrev pub operation_delete : Operation
operation_delete = "delete"

-- `validOps`
abbrev pub valid_ops : List (Resource × List Operation)
valid_ops =
    (resource_memories, operation_read ∷ operation_write ∷ operation_edit ∷ operation_delete ∷ [])
    ∷ (
      resource_knowledge,
      operation_read ∷ operation_write ∷ operation_edit ∷ operation_delete ∷ [],
    )
    ∷ (
      resource_collections,
      operation_read ∷ operation_write ∷ operation_edit ∷ operation_delete ∷ [],
    )
    ∷ (resource_skills, operation_read ∷ operation_write ∷ operation_edit ∷ operation_delete ∷ [])
    ∷ (resource_sessions, operation_read ∷ operation_write ∷ [])
    ∷ (resource_graph, operation_read ∷ [])
    ∷ (resource_scopes, operation_read ∷ operation_write ∷ operation_edit ∷ operation_delete ∷ [])
    ∷ (
      resource_principals,
      operation_read ∷ operation_write ∷ operation_edit ∷ operation_delete ∷ [],
    )
    ∷ (resource_tokens, operation_read ∷ operation_write ∷ operation_edit ∷ operation_delete ∷ [])
    ∷ (resource_sharing, operation_read ∷ operation_write ∷ operation_delete ∷ [])
    ∷ (
      resource_promotions,
      operation_read ∷ operation_write ∷ operation_edit ∷ operation_delete ∷ [],
    )
    ∷ []

-- `allResources`
abbrev pub all_resources : List Resource
all_resources =
    resource_memories ∷ resource_knowledge ∷ resource_collections ∷ resource_skills
    ∷ resource_sessions ∷ resource_graph ∷ resource_scopes ∷ resource_principals ∷ resource_tokens
    ∷ resource_sharing ∷ resource_promotions ∷ []

-- `shorthandOps`
abbrev pub shorthand_ops : List (String × Operation)
shorthand_ops =
    ("read", operation_read)
    ∷ ("write", operation_write)
    ∷ ("edit", operation_edit)
    ∷ ("delete", operation_delete)
    ∷ []

-- `ops, ok := validOps[r]`
unfoldable pub ops? : Resource → Option (List Operation)
ops? r = get? r valid_ops

-- `validOps[r]` where the code ranges over it: a missing key gives no operations.
unfoldable pub ops_of : Resource → List Operation
ops_of r = elim (ops? r) [ none ↦ [] | some ops ↦ ops ]

unfoldable pub new_permission : Resource → Operation → Permission
new_permission r op = r +++ (":" +++ op)

-- `strings.IndexByte(s, ':')` and the two slices around the index; `none` is the index -1. The
-- colon is one byte in UTF-8, so the slices of the bytes are the texts before and after it.
unfoldable pub cut : String → Option (String × String)
cut String.[] = none
cut (String.◌∷◌ c s) =
    if code c =ℕ b':'
    then some ("", s)
    else Option.map (λ (p : String × String). (String.◌∷◌ c p.0, p.1)) (cut s)

-- The checks that `Parse` and `Expand` share, once the text is split.
unfoldable pub check_operation :
    Permission → Resource → Operation → Result Error (Resource × Operation)
check_operation p r op = elim (ops? r) [
  | none ↦ err (unknown_resource r p)
  | some ops ↦ if elem op ops then ok (r, op) else err (invalid_operation op r)
]

unfoldable pub parse : Permission → Result Error (Resource × Operation)
unfolding cut check_operation
parse p = elim (cut p) [ none ↦ err (malformed p) | some (r, op) ↦ check_operation p r op ]

-- `AllResources` returns a copy of the canonical list.
unfoldable pub get_all_resources : List Resource
get_all_resources = all_resources

-- `ValidOperations`: `nil` for an unknown resource.
unfoldable pub valid_operations : Resource → List Operation
unfolding ops_of
valid_operations r = ops_of r

-- The loops of `AllPermissions`.
unfoldable pub permissions_from : List Resource → List Permission
unfolding ops_of new_permission
permissions_from [] = []
permissions_from (r ∷ rs) = map (new_permission r) (ops_of r) ++ permissions_from rs

unfoldable pub all_permissions : List Permission
unfolding permissions_from
all_permissions = permissions_from all_resources

-- `op, ok := shorthandOps[raw]`
unfoldable pub shorthand? : String → Option Operation
shorthand? raw = get? raw shorthand_ops

-- The loops of `Expand` for a shorthand; the inner one stops at the first match.
unfoldable pub expand_from : Operation → List Resource → List Permission
unfolding ops_of new_permission
expand_from op [] = []
expand_from op (r ∷ rs) =
    if elem op (ops_of r) then new_permission r op ∷ expand_from op rs else expand_from op rs

-- `Expand` for a text that is no shorthand.
unfoldable pub expand_scoped : String → Result Error (List Permission)
unfolding cut check_operation new_permission
expand_scoped raw = elim (cut raw) [
  | none ↦ err (unknown_permission raw)
  | some (r, op) ↦ do valid ← check_operation raw r op; ok (new_permission valid.0 valid.1 ∷ [])
]

unfoldable pub expand : String → Result Error (List Permission)
unfolding expand_from expand_scoped
expand raw = if raw == "" then err empty_permission else elim (shorthand? raw) [
  | some op ↦ ok (expand_from op all_resources)
  | none ↦ expand_scoped raw
]
