-- ===== src/Skills/Tables.antt =====
-- The rows and the queries of internal/db/skills.sql.go and internal/db/compat/skills.go that the skill
-- lifecycle calls (`poolLifecycleDB` of internal/skills/lifecycle.go). Tables and failures are modelled
-- as those of the knowledge lifecycle; the columns that the lifecycle does not touch are left out.
use postbrain.Prelude.{
  ℕ, nat_eq, pair_eq, String, Bool, true, false, List, [], ◌∷◌, Option, ◌==◌, if◌then◌else◌, Result,
  ok, err, elem, select, length, get?, modify,
}
use postbrain.Prelude.Stateful.{M}
use postbrain.LifecycleCore.{Status}

pub record Skill : Type 0 where
  pub scope_id : ℕ
  pub author_id : ℕ
  pub status : Status
  pub published_at : Option ℕ
  pub deprecated_at : Option ℕ
  pub review_required : ℕ

pub record Db : Type 0 where
  pub skills : List (ℕ × Skill)
  pub endorsements : List (ℕ × ℕ)  -- skill_id, endorser_id
  pub outages : List Bool

pub data Error : Type 0 where
  self_endorsement not_reviewable forbidden invalid_transition : Error
  unique_violation : Error
  failed : String → Error

-- Whether the next query fails; with no entry left, none does.
unfoldable pub query {ℓ} : {A : Type ℓ} → (Db → Result Error A × Db) → M Db Error A
query run d = elim (d.outages) [
  | [] ↦ run d
  | true ∷ rest ↦ (err (failed "db"), record d { outages = rest })
  | false ∷ rest ↦ run (record d { outages = rest })
]

-- `GetSkill`: no row gives nil.
unfoldable pub get_skill : ℕ → M Db Error (Option Skill)
unfolding query
get_skill id = query λ d. (ok (get? id d.skills), d)

-- `UpdateSkillStatus`: no row with the id is no error.
unfoldable pub update_skill_status : ℕ → Status → Option ℕ → Option ℕ → M Db Error (Unit {0})
unfolding query
update_skill_status id status published_at deprecated_at = query λ d. (
  ok tt,
  record d {
    skills =
        modify id
          (λ (s : Skill). record s {
            status = status;
            published_at = published_at;
            deprecated_at = deprecated_at;
          })
          d.skills;
  },
)

-- `CreateSkillEndorsement`: the pair is unique.
unfoldable pub create_skill_endorsement : ℕ → ℕ → M Db Error (Unit {0})
unfolding query
create_skill_endorsement skill_id endorser_id = query λ d.
    if elem (skill_id, endorser_id) d.endorsements
    then (err unique_violation, d)
    else (ok tt, record d { endorsements = (skill_id, endorser_id) ∷ d.endorsements })

-- The rows of one skill.
abbrev pub endorsements_of : ℕ → List (ℕ × ℕ) → ℕ
endorsements_of skill_id rows = length (select (λ (row : ℕ × ℕ). row.0 == skill_id) rows)

-- `CountSkillEndorsements`
unfoldable pub count_skill_endorsements : ℕ → M Db Error ℕ
unfolding query
count_skill_endorsements skill_id = query λ d. (ok (endorsements_of skill_id d.endorsements), d)
