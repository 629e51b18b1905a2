-- ===== src/Permissions/Granted.antt =====
-- What backend/server/src/cache_permissions.rs grants.
use eka_ci.Prelude.{
  ◌≡◌, ◌↔◌, ◌⊎◌, inl, inr, refl, true, false, some, List, [], ◌∷◌, contains, is_empty, any, arith,
  Option-cases, Bool-cases,
}
use eka_ci.Prelude.Text.{Text, Text_eq}
use eka_ci.Permissions.{
  PermissionContext, repo_full_name, CachePermissions, matches_glob_pattern, repo_allowed,
  branch_allowed, check_cache_permission,
}

abbrev pub IsRepoAllowed : CachePermissions → PermissionContext → Type 0
IsRepoAllowed permissions context =
    (permissions.allowed_repos ≡ [])
    ⊎ (contains permissions.allowed_repos (repo_full_name context) ≡ true)

abbrev pub IsBranchAllowed : CachePermissions → PermissionContext → Type 0
IsBranchAllowed permissions context =
    (permissions.allowed_branches ≡ [])
    ⊎ ((branch : Text) × (context.branch ≡ some branch)
        × (any (matches_glob_pattern branch) permissions.allowed_branches ≡ true))

is_empty-cases : (xs : List Text) → (xs ≡ []) ⊎ (is_empty xs ≡ false)
is_empty-cases [] = inl refl
is_empty-cases (x ∷ xs) = inr refl

repo_allowed_iff :
    (permissions : CachePermissions) (context : PermissionContext)
    → (repo_allowed permissions context ≡ true) ↔ IsRepoAllowed permissions context
unfolding repo_allowed
repo_allowed_iff permissions context = elim (is_empty-cases permissions.allowed_repos) [
  | inl e ↦ (λ _. inl e, λ _. rw e refl)
  | inr e ↦ (λ h. inr (ground (arith, e, h)), λ h. ground (arith, e, h))
]

branch_allowed_iff :
    (permissions : CachePermissions) (context : PermissionContext)
    → (branch_allowed permissions context ≡ true) ↔ IsBranchAllowed permissions context
unfolding branch_allowed
branch_allowed_iff permissions context = elim (is_empty-cases permissions.allowed_branches) [
  | inl e ↦ (λ _. inl e, λ _. rw e refl)
  | inr e ↦ elim (Option-cases context.branch) [
    | inl f ↦ (λ h. ground (arith, e, f, h), λ h. ground (arith, e, f, h))
    | inr (b, f) ↦ (λ h. inr (b, f, ground (arith, e, f, h)), λ h. ground (arith, e, f, h))
  ]
]

-- A cache may be used just if it allows all, or both the repository and the branch are allowed:
-- each list allows what it names, and anything where it is empty. A list of branches that is not
-- empty refuses a request without a branch.
pub check_cache_permission_iff :
    (permissions : CachePermissions) (context : PermissionContext)
    → (check_cache_permission permissions context ≡ true) ↔ (
        (permissions.allow_all ≡ true)
        ⊎ (IsRepoAllowed permissions context × IsBranchAllowed permissions context))
unfolding check_cache_permission
check_cache_permission_iff permissions context =
    let repos = repo_allowed_iff permissions context in
    let branches = branch_allowed_iff permissions context in
    elim (Bool-cases permissions.allow_all) [
      | inl e ↦ (λ _. inl e, λ _. rw e refl)
      | inr e ↦ elim (Bool-cases (repo_allowed permissions context)) [
        | inl f ↦ (
          λ h. inr (repos.0 f, branches.0 (ground (arith, e, f, h))),
          λ h. elim h [
            | inl all ↦ ground (arith, all)
            | inr both ↦ ground (arith, e, f, branches.1 both.1)
          ],
        )
        | inr f ↦ (
          λ h. ground (arith, e, f, h),
          λ h. elim h [
            | inl all ↦ ground (arith, all)
            | inr both ↦ ground (arith, e, f, repos.1 both.0)
          ],
        )
      ]
    ]
