-- ===== src/AutoMerge/Tests.antt =====
-- Inputs for the theorem about automatic merges.
use eka_ci.Prelude.{◌≡◌, ◌↔◌, true, false, none, some, [], ◌∷◌}
use eka_ci.Prelude.Text.{text}
use eka_ci.AutoMerge.{AutoMergeState, evaluate_eligibility, eligible}
use eka_ci.AutoMerge.Eligible.{IsMergeable, evaluate_eligibility_iff}

abbrev commented : AutoMergeState
commented = record {
  auto_merge_enabled = false;
  comment_merge = some (record { sha = text "abc123"; method = none });
  head_sha = text "abc123";
  build_succeeded = true;
  changed_packages = text "hello" ∷ [];
  missing = text "hello" ∷ [];
  merge_method = none;
  allowed_merge_methods = text "squash" ∷ text "merge" ∷ [];
}

evaluate_eligibility_iff_example :
    (evaluate_eligibility commented ≡ eligible (text "squash"))
    ↔ IsMergeable commented (text "squash")
evaluate_eligibility_iff_example = evaluate_eligibility_iff commented (text "squash")
