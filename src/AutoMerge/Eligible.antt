-- ===== src/AutoMerge/Eligible.antt =====
-- When backend/server/src/auto_merge/mod.rs calls a pull request eligible.
use eka_ci.Prelude.{
  ◌≡◌, ◌↔◌, ◌⊎◌, inl, inr, true, false, none, some, contains, is_empty, arith, Option-cases,
}
use eka_ci.Prelude.Text.{Text, Text_eq}
use eka_ci.AutoMerge.{
  eligible, AutoMergeState, chosen_method, drift, evaluate_rest, evaluate_eligibility,
}

-- Somebody with the authority asked for the merge: a comment pinned the commit that is still the
-- head, or the merge is enabled and no maintainer's approval is missing.
abbrev pub IsAuthorised : AutoMergeState → Type 0
IsAuthorised st = elim st.comment_merge [
  | none ↦ (st.auto_merge_enabled ≡ true) × (is_empty st.missing ≡ true)
  | some cmr ↦ cmr.sha ≡ st.head_sha
]

abbrev pub IsAllowed : AutoMergeState → Text → Type 0
IsAllowed st method =
    (is_empty st.allowed_merge_methods ≡ true) ⊎ (contains st.allowed_merge_methods method ≡ true)

abbrev pub IsMergeable : AutoMergeState → Text → Type 0
IsMergeable st method =
    (st.build_succeeded ≡ true)
    × IsAuthorised st
    × (is_empty st.changed_packages ≡ false)
    × (method ≡ chosen_method st)
    × IsAllowed st method

-- The verdict is that the request may be merged by a method just if the build succeeded, the merge
-- is authorised for the head commit, packages changed, and the method is the one that was chosen
-- and the repository allows it.
pub evaluate_eligibility_iff :
    (st : AutoMergeState) (method : Text)
    → (evaluate_eligibility st ≡ eligible method) ↔ IsMergeable st method
unfolding evaluate_eligibility evaluate_rest drift
evaluate_eligibility_iff st method = elim (Option-cases st.comment_merge) [
  | inl e ↦ rw (e, evaluate_eligibility, evaluate_rest, drift) (ground (arith, e))
  | inr (cmr, e) ↦
      rw (e, evaluate_eligibility, evaluate_rest, drift)
        (ground (arith, e, Text_eq.eq_iff cmr.sha st.head_sha))
]
