-- ===== src/Changes/Render/Sections.antt =====
-- The sections of the rendered summary, from render.rs.
use eka_ci.Prelude.{
  ℕ, ◌+◌, ◌==◌, Bool, true, false, ◌&&◌, ◌||◌, List, [], ◌∷◌, ◌++◌, if◌then◌else◌, is_empty, ltb,
}
use eka_ci.Prelude.Text.{Text, text, join_with}
use eka_ci.Prelude.Bytes.{decimal}
use eka_ci.Drv.{DrvId}
use eka_ci.Changes.Classify.{
  PackageChange, added, removed, version_bump, renamed, rebuild_only, license_change,
  maintainer_change,
}
use eka_ci.Changes.Summary.{PerSystemImpact, ChangeSummary, ChangeSummaryRebuildImpact}
use eka_ci.Changes.Render.Rows.{concat, render_package_row, render_top_blast_radius}

pub record RenderTruncation : Type 0 where
  pub dropped_maintainers : Bool
  pub dropped_license : Bool
  pub dropped_rebuild_only : Bool
  pub collapsed_to_counts : Bool

-- `RenderTruncation::any`.
unfoldable pub is_any : RenderTruncation → Bool
is_any t =
    t.dropped_maintainers || t.dropped_license || t.dropped_rebuild_only || t.collapsed_to_counts

pub record RenderConfig : Type 0 where
  pub include_maintainers : Bool
  pub include_license : Bool
  pub include_rebuild_only_line : Bool
  pub collapse_table : Bool

pub record ChangeCounts : Type 0 where
  pub added_count : ℕ
  pub removed_count : ℕ
  pub bumped : ℕ
  pub renamed_count : ℕ
  pub rebuild_only_count : ℕ
  pub license : ℕ
  pub maintainers : ℕ

unfoldable pub count_change : ChangeCounts → PackageChange → ChangeCounts
count_change c (added _ _ _ _) = record c { added_count = c.added_count + 1 }
count_change c (removed _ _ _) = record c { removed_count = c.removed_count + 1 }
count_change c (version_bump _ _ _ _ _) = record c { bumped = c.bumped + 1 }
count_change c (renamed _ _ _ _ _) = record c { renamed_count = c.renamed_count + 1 }
count_change c (rebuild_only _ _ _ _) = record c { rebuild_only_count = c.rebuild_only_count + 1 }
count_change c (license_change _ _ _ _ _) = record c { license = c.license + 1 }
count_change c (maintainer_change _ _ _ _ _) = record c { maintainers = c.maintainers + 1 }

unfoldable pub count_changes : ChangeCounts → List PackageChange → ChangeCounts
count_changes c [] = c
count_changes c (change ∷ changes) = count_changes (count_change c change) changes

abbrev pub no_counts : ChangeCounts
no_counts = record {
  added_count = 0;
  removed_count = 0;
  bumped = 0;
  renamed_count = 0;
  rebuild_only_count = 0;
  license = 0;
  maintainers = 0;
}

unfoldable pub from_changes : List PackageChange → ChangeCounts
from_changes = count_changes no_counts

unfoldable pub total_visible : ChangeCounts → RenderConfig → ℕ
total_visible c config =
    let primary = c.added_count + c.removed_count + c.bumped + c.renamed_count in
    if config.collapse_table
    then primary
    else primary
      + (if config.include_license then c.license else 0)
      + (if config.include_maintainers then c.maintainers else 0)

-- The pieces of `summary_line`, of the counts that are not zero.
unfoldable pub count_pieces : List (ℕ × Text) → List Text
count_pieces [] = []
count_pieces ((n, label) ∷ parts) =
    let rest = count_pieces parts in
    if ltb 0 n
    then concat (decimal n ∷ text " " ∷ label ∷ (if n == 1 then [] else text "s") ∷ []) ∷ rest
    else rest

unfoldable pub summary_line : ChangeCounts → Text
summary_line c =
    let pieces = count_pieces (
      (c.bumped, text "bump")
      ∷ (c.added_count, text "added")
      ∷ (c.removed_count, text "removed")
      ∷ (c.renamed_count, text "renamed")
      ∷ (c.license, text "license change")
      ∷ (c.maintainers, text "maintainer change")
      ∷ []) in
    if is_empty pieces then text "no source changes" else join_with (text ", ") pieces

-- A change has a row unless the configuration hides it.
unfoldable pub is_row : RenderConfig → PackageChange → Bool
is_row config (rebuild_only _ _ _ _) = false
is_row config (license_change _ _ _ _ _) = config.include_license
is_row config (maintainer_change _ _ _ _ _) = config.include_maintainers
is_row config _ = true

unfoldable pub render_rows : RenderConfig → List PackageChange → Text
render_rows config [] = []
render_rows config (change ∷ changes) =
    let rest = render_rows config changes in
    if is_row config change then render_package_row change ++ (10 ∷ rest) else rest

unfoldable pub render_packages_section : ChangeSummary → RenderConfig → Text
render_packages_section summary config =
    let counts = from_changes summary.package_changes in
    let n = counts.rebuild_only_count in
    let has_line = config.include_rebuild_only_line && ltb 0 n in
    concat (
      text "### Packages changed ("
      ∷ decimal (total_visible counts config)
      ∷ text ")\n\n"
      ∷ (if config.collapse_table
          then concat (
              text "**Summary:** "
              ∷ summary_line counts
              ∷ text "\n"
              ∷ (if has_line
                  then concat (
                      text "\n_"
                      ∷ decimal n
                      ∷ text " packages will rebuild without source changes._\n"
                      ∷ [])
                  else [])
              ∷ [])
          else concat (
              text "| Status | Package | Change |\n|--------|---------|--------|\n"
              ∷ render_rows config summary.package_changes
              ∷ (if has_line
                  then concat (
                      text "\n**Plus "
                      ∷ decimal n
                      ∷ text " package"
                      ∷ (if n == 1 then [] else text "s")
                      ∷ text " will rebuild without source changes.**\n"
                      ∷ [])
                  else [])
              ∷ []))
      ∷ [])

module _ (path_of : DrvId → Text) where
  unfoldable pub render_systems : List PerSystemImpact → Text
  render_systems [] = []
  render_systems (sys ∷ systems) = concat (
      text "| `"
      ∷ sys.system
      ∷ text "` | "
      ∷ decimal sys.rebuild_count
      ∷ text " | "
      ∷ render_top_blast_radius path_of sys
      ∷ text " |\n"
      ∷ render_systems systems
      ∷ [])

  unfoldable pub render_impact_section : ChangeSummaryRebuildImpact → Text
  render_impact_section impact =
      text "### Rebuild impact\n\n"
      ++ (if is_empty impact.per_system
          then text "_No rebuild impact computed for this commit._\n"
          else concat (
              text
                "| System | Rebuilds | Top blast radius |\n|--------|----------|------------------|\n"
              ∷ render_systems impact.per_system
              ∷ text "\n**Total unique drvs that would rebuild somewhere:** "
              ∷ decimal impact.total_unique_drvs
              ∷ text "\n"
              ∷ []))

abbrev when : Bool → Text → List Text
when b s = if b then s ∷ [] else []

-- The names of what was dropped.
unfoldable pub dropped_names : RenderTruncation → List Text
dropped_names t =
    when t.dropped_maintainers (text "maintainer changes")
    ++ (when t.dropped_license (text "license changes")
        ++ (when t.dropped_rebuild_only (text "rebuild-only count")
            ++ when t.collapsed_to_counts (text "per-package table")))

unfoldable pub render_truncation_footer : RenderTruncation → Text → Text
render_truncation_footer truncation head_sha =
    let dropped = dropped_names truncation in
    concat (
      text "---\n\n_⚠ Output truncated to fit GitHub's check-summary limit._"
      ∷ (if is_empty dropped
          then []
          else concat (text " Dropped: " ∷ join_with (text ", ") dropped ∷ text "." ∷ []))
      ∷ text " Full payload: `/v1/commits/"
      ∷ head_sha
      ∷ text "/change-summary`.\n"
      ∷ [])
