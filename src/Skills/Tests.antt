-- ===== src/Skills/Tests.antt =====
-- The theorems on the skill lifecycle at concrete inputs.
use postbrain.Prelude.{
  ◌≤◌, nat_eq, pair_eq, ◌≡◌, refl, Bool, true, false, List, [], ◌∷◌, none, some, ok, err, get?,
  arith,
}
use postbrain.LifecycleCore.{in_review, published}
use postbrain.Skills.Tables.{Skill, Db, failed, unique_violation, endorsements_of}
use postbrain.Skills.Lifecycle.{endorse}
use postbrain.Skills.Lifecycle.Machine.{Follows, after, endorses, moved, skill-Follows}
use postbrain.Skills.Lifecycle.Effects.{skill-endorse_counts, endorse_stuck}

-- Skill 5 of author 1, in review, with the one endorsement that it needs still to come.
abbrev skill : Skill
skill = record {
  scope_id = 3;
  author_id = 1;
  status = in_review;
  published_at = none;
  deprecated_at = none;
  review_required = 1;
}

abbrev with_skill : List Bool → Db
with_skill outages = record { skills = (5, skill) ∷ []; endorsements = []; outages = outages }

skill-Follows_example :
    Follows none 50 5 2 (with_skill []) 5 endorses (after none 50 endorses 5 2 (with_skill []))
skill-Follows_example = skill-Follows none 50 5 2 (with_skill []) 5 endorses

skill-endorse_counts_example :
    let (result, d') = endorse 50 5 2 (with_skill []) in
    (result ≡ ok (record { endorsement_count = 1; status = published; auto_published = true }))
    × (get? 5 d'.skills ≡ some (moved published (some 50) none skill))
    × (d'.endorsements ≡ (5, 2) ∷ [])
skill-endorse_counts_example =
    skill-endorse_counts 50 5 2 (with_skill []) skill refl refl refl (λ e. absurd (ground arith))
      refl

endorse_stuck_example :
    let (first, d') = endorse 50 5 2 (with_skill (false ∷ false ∷ false ∷ true ∷ [])) in
    let (second, d'') = endorse 50 5 2 d' in
    (first ≡ err (failed "db"))
    × (second ≡ err unique_violation)
    × (d'' ≡ d')
    × (get? 5 d''.skills ≡ some skill)
    × (1 ≤ endorsements_of 5 d''.endorsements)
endorse_stuck_example =
    endorse_stuck 50 5 2 (with_skill (false ∷ false ∷ false ∷ true ∷ [])) skill refl refl refl
      (λ e. absurd (ground arith)) refl (omega arith)
