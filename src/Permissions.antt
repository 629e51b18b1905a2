-- ===== src/Permissions.antt =====
-- backend/server/src/cache_permissions.rs: which repositories and branches may use a cache.
use eka_ci.Prelude.{
  Bool, true, false, not, Option, none, some, List, [], ◌∷◌, ◌++◌, if◌then◌else◌, contains,
  is_empty, any,
}
use eka_ci.Prelude.Text.{Text, text, Text_eq, strip_prefix, strip_suffix, starts_with, ends_with}
pub mod Granted
pub mod Patterns
mod Tests

pub record PermissionContext : Type 0 where
  pub repo_owner : Text
  pub repo_name : Text
  pub branch : Option Text

abbrev pub repo_full_name : PermissionContext → Text
repo_full_name context = context.repo_owner ++ text "/" ++ context.repo_name

pub record CachePermissions : Type 0 where
  pub allow_all : Bool
  pub allowed_repos : List Text
  pub allowed_branches : List Text

unfoldable pub matches_glob_pattern : Text → Text → Bool
matches_glob_pattern value pattern =
    if Text_eq.eq pattern (text "*") then true else elim (strip_suffix pattern (text "/*")) [
      | some prefix ↦ starts_with value prefix
      | none ↦ elim (strip_prefix pattern (text "*/")) [
        | some suffix ↦ ends_with value suffix
        | none ↦ Text_eq.eq value pattern
      ]
    ]

unfoldable pub repo_allowed : CachePermissions → PermissionContext → Bool
repo_allowed permissions context =
    if not (is_empty permissions.allowed_repos)
    then contains permissions.allowed_repos (repo_full_name context)
    else true

unfoldable pub branch_allowed : CachePermissions → PermissionContext → Bool
branch_allowed permissions context =
    if not (is_empty permissions.allowed_branches)
    then elim context.branch [
      | some branch ↦ any (matches_glob_pattern branch) permissions.allowed_branches
      | none ↦ false
    ]
    else true

-- The result is true for `Ok`, and false for each of the three errors.
unfoldable pub check_cache_permission : CachePermissions → PermissionContext → Bool
check_cache_permission permissions context =
    if permissions.allow_all
    then true
    else (if repo_allowed permissions context then branch_allowed permissions context else false)
