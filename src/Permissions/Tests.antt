-- ===== src/Permissions/Tests.antt =====
-- Inputs for the theorems about the permissions of caches.
use eka_ci.Prelude.{◌≡◌, ◌↔◌, ◌⊎◌, true, false, some, [], ◌∷◌}
use eka_ci.Prelude.Text.{text}
use eka_ci.Permissions.{PermissionContext, CachePermissions, check_cache_permission}
use eka_ci.Permissions.Granted.{IsRepoAllowed, IsBranchAllowed, check_cache_permission_iff}

abbrev releases : CachePermissions
releases = record {
  allow_all = false;
  allowed_repos = text "org/repo" ∷ [];
  allowed_branches = text "main" ∷ text "release/*" ∷ [];
}

abbrev release : PermissionContext
release = record {
  repo_owner = text "org";
  repo_name = text "repo";
  branch = some (text "release/1.0");
}

check_cache_permission_iff_example : (check_cache_permission releases release ≡ true) ↔ (
    (releases.allow_all ≡ true)
    ⊎ (IsRepoAllowed releases release × IsBranchAllowed releases release))
check_cache_permission_iff_example = check_cache_permission_iff releases release
