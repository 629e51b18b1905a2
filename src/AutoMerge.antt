-- ===== src/AutoMerge.antt =====
-- backend/server/src/auto_merge/mod.rs: when a pull request may be merged automatically.
use eka_ci.Prelude.{
  ◌≡◌, ◌↔◌, ◌⊎◌, inl, inr, refl, sym, ◌∙◌, Bool, true, false, not, ◌&&◌, Option, none, some, List,
  [], ◌∷◌, if◌then◌else◌, contains, is_empty, arith, Bool-cases, Option-cases, Eq,
}
use eka_ci.Prelude.Text.{Text, text, Text_eq}
pub mod Eligible
mod Tests

pub data MergeEligibility : Type 0 where
  eligible : Text → MergeEligibility
  build_in_progress not_found not_enabled no_changed_packages : MergeEligibility
  sha_drift : Text → Text → MergeEligibility
  missing_approvals : List Text → MergeEligibility
  method_not_allowed : Text → List Text → MergeEligibility

pub record CommentMergeRequest : Type 0 where
  pub sha : Text
  pub method : Option Text

pub record AutoMergeState : Type 0 where
  pub auto_merge_enabled : Bool
  pub comment_merge : Option CommentMergeRequest
  pub head_sha : Text
  pub build_succeeded : Bool
  pub changed_packages : List Text
  pub missing : List Text
  pub merge_method : Option Text
  pub allowed_merge_methods : List Text

abbrev pub is_none {ℓ} : {A : Type ℓ} → Option A → Bool
is_none none = true
is_none (some _) = false

-- `or_else` and `unwrap_or_else`.
abbrev or_else {ℓ} : {A : Type ℓ} → Option A → Option A → Option A
or_else none b = b
or_else (some x) b = some x

abbrev unwrap_or {ℓ} : {A : Type ℓ} → Option A → A → A
unwrap_or none d = d
unwrap_or (some x) d = x

abbrev asked_method : Option CommentMergeRequest → Option Text
asked_method none = none
asked_method (some cmr) = cmr.method

unfoldable pub chosen_method : AutoMergeState → Text
chosen_method st =
    unwrap_or (or_else (asked_method st.comment_merge) st.merge_method) (text "squash")

-- The pinned commit where it is not the head.
unfoldable pub drift : AutoMergeState → Option Text
drift st = elim st.comment_merge [
  | none ↦ none
  | some cmr ↦ if Text_eq.eq cmr.sha st.head_sha then none else some cmr.sha
]

-- The checks after the one for drift.
unfoldable pub evaluate_rest : AutoMergeState → MergeEligibility
evaluate_rest st =
    if not st.auto_merge_enabled && is_none st.comment_merge
    then not_enabled
    else (if is_empty st.changed_packages
        then no_changed_packages
        else (if is_none st.comment_merge && not (is_empty st.missing)
            then missing_approvals st.missing
            else (if not (is_empty st.allowed_merge_methods)
                  && not (contains st.allowed_merge_methods (chosen_method st))
                then method_not_allowed (chosen_method st) st.allowed_merge_methods
                else eligible (chosen_method st))))

unfoldable pub evaluate_eligibility : AutoMergeState → MergeEligibility
evaluate_eligibility st =
    if not st.build_succeeded
    then build_in_progress
    else elim (drift st) [ some sha ↦ sha_drift sha st.head_sha | none ↦ evaluate_rest st ]
