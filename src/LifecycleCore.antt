-- ===== src/LifecycleCore.antt =====
-- internal/lifecyclecore/lifecyclecore.go: what the two lifecycles share.
use postbrain.Prelude.{ℕ, Bool, true, false, Option, none, some, Result, ok, err, String}

-- `MembershipChecker`, an interface of the code; its answers may be errors of the database.
pub record MembershipChecker : Type 0 where
  pub is_scope_admin : ℕ → ℕ → Result String Bool
  pub is_system_admin : ℕ → Result String Bool

-- A nil checker answers no; a systemadmin is not looked up as scope admin.
unfoldable pub is_effective_admin : Option MembershipChecker → ℕ → ℕ → Result String Bool
is_effective_admin none principal_id scope_id = ok false
is_effective_admin (some m) principal_id scope_id = elim (m.is_system_admin principal_id) [
  | err e ↦ err e
  | ok true ↦ ok true
  | ok false ↦ m.is_scope_admin principal_id scope_id
]

-- The status of an artifact or a skill (the CHECK constraints admit no other text).
pub data Status : Type 0 where
  draft in_review published deprecated : Status

abbrev pub status_eq : Status → Status → Bool
status_eq draft draft = true
status_eq in_review in_review = true
status_eq published published = true
status_eq deprecated deprecated = true
status_eq _ _ = false

pub record EndorseResult : Type 0 where
  pub endorsement_count : ℕ
  pub status : Status
  pub auto_published : Bool
