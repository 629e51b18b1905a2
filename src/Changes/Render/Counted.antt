-- ===== src/Changes/Render/Counted.antt =====
-- The number in the heading of the packages section is the number of rows below it.
use eka_ci.Prelude.{
  ◌+◌, ◌≡◌, refl, ◌∙◌, false, List, [], ◌∷◌, ◌++◌, length, retain, arith, if◌then◌else◌,
}
use eka_ci.Prelude.Text.{Text}
use eka_ci.Changes.Classify.{
  PackageChange, added, removed, version_bump, renamed, rebuild_only, license_change,
  maintainer_change,
}
use eka_ci.Changes.Render.Sections.{
  RenderConfig, ChangeCounts, no_counts, count_change, count_changes, from_changes, total_visible,
  is_row, render_rows,
}
use eka_ci.Changes.Render.Rows.{render_package_row}

count_change-total_visible :
    (config : RenderConfig) (c : ChangeCounts) (change : PackageChange)
    → config.collapse_table ≡ false
    → total_visible (count_change c change) config
      ≡ total_visible c config + (if is_row config change then 1 else 0)
unfolding total_visible count_change is_row
count_change-total_visible config c (added _ _ _ _) h = ground (arith, h)
count_change-total_visible config c (removed _ _ _) h = ground (arith, h)
count_change-total_visible config c (version_bump _ _ _ _ _) h = ground (arith, h)
count_change-total_visible config c (renamed _ _ _ _ _) h = ground (arith, h)
count_change-total_visible config c (rebuild_only _ _ _ _) h = ground (arith, h)
count_change-total_visible config c (license_change _ _ _ _ _) h = ground (arith, h)
count_change-total_visible config c (maintainer_change _ _ _ _ _) h = ground (arith, h)

count_changes-total_visible :
    (config : RenderConfig) (c : ChangeCounts) (changes : List PackageChange)
    → config.collapse_table ≡ false
    → total_visible (count_changes c changes) config
      ≡ total_visible c config + length (retain (is_row config) changes)
unfolding count_changes retain
count_changes-total_visible config c [] h = omega arith
count_changes-total_visible config c (change ∷ changes) h = ground (
  arith,
  count_changes-total_visible config (count_change c change) changes h,
  count_change-total_visible config c change h,
)

-- The rows of some changes, each with its line break.
abbrev pub rows_of : List PackageChange → Text
rows_of [] = []
rows_of (change ∷ changes) = render_package_row change ++ (10 ∷ rows_of changes)

render_rows_lem :
    (config : RenderConfig) (changes : List PackageChange)
    → render_rows config changes ≡ rows_of (retain (is_row config) changes)
unfolding render_rows retain
render_rows_lem config [] = refl
render_rows_lem config (change ∷ changes) = ground (arith, render_rows_lem config changes)

no_counts_visible :
    (config : RenderConfig) → config.collapse_table ≡ false → total_visible no_counts config ≡ 0
unfolding total_visible
no_counts_visible config h = ground (arith, h)

-- Where the table is not collapsed, the rows are those of the changes that the configuration shows,
-- in the order of the summary, and the number in the heading is the number of these changes.
pub total_visible-render_rows :
    (config : RenderConfig) (changes : List PackageChange)
    → config.collapse_table ≡ false
    → (total_visible (from_changes changes) config ≡ length (retain (is_row config) changes))
      × (render_rows config changes ≡ rows_of (retain (is_row config) changes))
unfolding from_changes
total_visible-render_rows config changes h = (
  count_changes-total_visible config no_counts changes h
      ∙ ground (arith, no_counts_visible config h),
  render_rows_lem config changes,
)
