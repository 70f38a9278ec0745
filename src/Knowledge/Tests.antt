-- ===== src/Knowledge/Tests.antt =====
-- The theorems on the knowledge lifecycle at concrete inputs.
mod Promotions
mod Summaries
use postbrain.Prelude.{
  ℕ, ◌==◌, nat_eq, pair_eq, ◌≡◌, refl, inl, Bool, true, false, List, [], ◌∷◌, Option, none, some,
  ok, err, elem, get?, arith, In, ap, any, ◌≢◌, inr,
}
use postbrain.LifecycleCore.{
  MembershipChecker, is_effective_admin, Status, draft, in_review, published,
}
use postbrain.Knowledge.Tables.{Artifact, Memory, Db, not_null, update, null_ref, refers_to}
use postbrain.Knowledge.Lifecycle.{submit_for_review, endorse, deprecate, republish, delete}
use postbrain.Knowledge.Lifecycle.Transitions.{moved}
use postbrain.Knowledge.Lifecycle.Machine.{Follows, after, submits, after-Follows}
use postbrain.Knowledge.Lifecycle.Effects.{
  counted, deprecate-republish, submit_for_review_succeeds, endorse_counts,
}
use postbrain.Knowledge.Lifecycle.Removal.{delete_succeeds, delete_promoted}

-- Principal 9 is a systemadmin, and nobody else is an admin.
abbrev membership : Option MembershipChecker
membership = some (record { is_scope_admin = λ p s. ok false; is_system_admin = λ p. ok (p == 9) })

-- Artifact 5 of author 1, in a scope 3; it needs two endorsements.
abbrev row : Status → Option ℕ → ℕ → Artifact
row status published_at endorsement_count = record {
  owner_scope_id = 3;
  author_id = 1;
  status = status;
  published_at = published_at;
  deprecated_at = none;
  review_required = 2;
  endorsement_count = endorsement_count;
  content = "c";
  summary = none;
  version = 1;
  previous_version = none;
}

abbrev with_row : Artifact → List Bool → Db
with_row a outages = record {
  artifacts = (5, a) ∷ [];
  endorsements = [];
  history = [];
  digest_sources = [];
  staleness_flags = [];
  artifact_entities = (5, 40) ∷ [];
  promotion_requests = (7, some 5) ∷ [];
  memories = (8, record { promoted_to = some 5; promotion_status = "promoted" }) ∷ [];
  outages = outages;
}

abbrev drafted : Artifact
drafted = row draft none 0

abbrev reviewed : Artifact
reviewed = row in_review none 1

abbrev live : Artifact
live = row published (some 4) 2

no_admin : is_effective_admin membership 2 3 ≡ ok false
unfolding is_effective_admin
no_admin = refl

admin : is_effective_admin membership 9 3 ≡ ok true
unfolding is_effective_admin
admin = refl

after-Follows_example :
    Follows membership 50 5 1 5
      (with_row drafted [])
      submits
      (after membership 50 submits 5 1 (with_row drafted []))
after-Follows_example = after-Follows membership 50 5 1 5 (with_row drafted []) submits

endorse_counts_example :
    let (result, d') = endorse membership 50 5 2 (with_row reviewed []) in
    (result ≡ ok (record { endorsement_count = 2; status = published; auto_published = true }))
    × (get? 5 d'.artifacts ≡ some (moved published (some 50) none (counted reviewed)))
    × (elem (5, 2) d'.endorsements ≡ true)
endorse_counts_example =
    endorse_counts membership 50 5 2 (with_row reviewed []) reviewed refl refl refl
      (λ e. absurd (ground arith)) no_admin refl

deprecate-republish_example :
    let (retired, d') = deprecate membership 50 5 9 (with_row live []) in
    let (revived, d'') = republish membership 5 9 d' in
    (retired ≡ ok tt)
    × (revived ≡ ok tt)
    × (get? 5 d''.artifacts ≡ some (moved published none none live))
deprecate-republish_example =
    deprecate-republish membership 50 5 9 (with_row live []) live refl refl refl admin

-- The artifact with a memory that was promoted to another one.
abbrev unreferenced : Db
unreferenced = record (with_row live []) {
  memories = (8, record { promoted_to = some 6; promotion_status = "promoted" }) ∷ [];
}

elsewhere : (k : ℕ) (m : Memory) → In (k, m) unreferenced.memories → m.promoted_to ≢ some 5
elsewhere k m (inl same) e =
    absurd (ground (arith, ap (λ (row : ℕ × Memory). row.1.promoted_to) same, e))
elsewhere k m (inr none_left) e = absurd none_left

delete_succeeds_example :
    let (result, d') = delete membership 5 9 unreferenced in
    (result ≡ ok tt)
    × (get? 5 d'.artifacts ≡ none)
    × (get? 5 d'.endorsements ≡ none)
    × (get? 5 d'.artifact_entities ≡ none)
delete_succeeds_example = delete_succeeds membership 5 9 unreferenced live refl refl admin elsewhere

delete_promoted_example :
    let (result, d') = delete membership 5 9 (with_row live []) in
    (result ≡ err not_null)
    × (d'.memories ≡ (with_row live []).memories)
    × (get? 5 d'.artifacts
        ≡ some (record live { previous_version = null_ref 5 live.previous_version }))
    × (get? 5 d'.artifact_entities ≡ none)
    × (any (λ (row : ℕ × Option ℕ). refers_to 5 row.1) d'.promotion_requests ≡ false)
delete_promoted_example =
    delete_promoted membership 5 9 (with_row live []) live 8
      (record { promoted_to = some 5; promotion_status = "promoted" }) refl refl admin (inl refl)
      refl
