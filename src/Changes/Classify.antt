-- ===== src/Changes/Classify.antt =====
-- backend/change_summary/src/classify.rs: from the rows of two jobsets to the package changes.
-- A `BTreeMap` from attribute paths to rows is a list in ascending order of the paths.
pub mod Reports
pub mod ByAttr
pub mod Sequence
use eka_ci.Prelude.{
  ◌≡◌, refl, ◌==◌, Bool, true, false, not, ◌||◌, Option, none, some, List, [], ◌∷◌, ◌++◌,
  if◌then◌else◌, is_empty, any, HashMap, get, contains_key, eq_option,
}
use eka_ci.Prelude.Text.{Text, Text_eq}
use eka_ci.Prelude.Ordered.{Text_order}
use eka_ci.Prelude.Ordered.Maps.{map_insert}
use eka_ci.Drv.{DrvId}
use eka_ci.Changes.Names.{pname_from_name, version_from_name, unwrap_or}
use eka_ci.Changes.Labels.{LicenseEntryPartial, MaintainerPartial, diff_license, diff_maintainers}

pub record JobDrvRow : Type 0 where
  pub attr_path : Text
  pub drv_path : DrvId
  pub name : Text
  pub pname : Option Text
  pub version : Option Text
  pub license_json : Option Text
  pub maintainers_json : Option Text

pub data PackageChange : Type 0 where
  added : (attr_path : Text) (pname version : Option Text) (drv_path : DrvId) → PackageChange
  removed : (attr_path : Text) (pname version : Option Text) → PackageChange
  version_bump : (attr_path pname old new : Text) (drv_path : DrvId) → PackageChange
  renamed :
      (attr_path pname_old pname_new : Text) (version : Option Text) (drv_path : DrvId)
      → PackageChange
  rebuild_only : (attr_path : Text) (pname version : Option Text) (drv_path : DrvId) → PackageChange
  license_change : (attr_path pname : Text) (old new : List Text) (drv_path : DrvId) → PackageChange
  maintainer_change :
      (attr_path pname : Text) (added removed : List Text) (drv_path : DrvId) → PackageChange

unfoldable pub attr_path : PackageChange → Text
attr_path (added a _ _ _) = a
attr_path (removed a _ _) = a
attr_path (version_bump a _ _ _ _) = a
attr_path (renamed a _ _ _ _) = a
attr_path (rebuild_only a _ _ _) = a
attr_path (license_change a _ _ _ _) = a
attr_path (maintainer_change a _ _ _ _) = a

-- The stored text, unless it is empty.
unfoldable pub stored : Option Text → Option Text
stored none = none
stored (some s) = if is_empty s then none else some s

unfoldable pub pname_or_heuristic : JobDrvRow → Option Text
pname_or_heuristic r = elim (stored r.pname) [
  | some p ↦ some p
  | none ↦ if is_empty r.name then none else some (pname_from_name r.name)
]

unfoldable pub version_or_heuristic : JobDrvRow → Option Text
version_or_heuristic r = elim (stored r.version) [
  | some v ↦ some v
  | none ↦ if is_empty r.name then none else version_from_name r.name
]

unfoldable pub pname_changed : Option Text → Option Text → Bool
pname_changed (some h) (some b) = not (Text_eq.eq h b)
pname_changed _ _ = false

-- Steps 2 and 3 of `classify_changed`, with the package name and the versions of the head and base.
unfoldable pub bump_or_rebuild :
    JobDrvRow → Option Text → (head_version base_version : Option Text) → PackageChange
bump_or_rebuild head pname (some h) (some b) =
    if Text_eq.eq h b
    then rebuild_only head.attr_path pname (some h) head.drv_path
    else version_bump head.attr_path (unwrap_or pname head.attr_path) b h head.drv_path
bump_or_rebuild head pname head_version _ =
    rebuild_only head.attr_path pname head_version head.drv_path

-- Steps 1 to 3: the primary entry.
unfoldable pub primary :
    JobDrvRow → (head_pname base_pname head_version base_version : Option Text) → PackageChange
primary head (some h) (some b) head_version base_version =
    if pname_changed (some h) (some b)
    then renamed head.attr_path b h head_version head.drv_path
    else bump_or_rebuild head (some h) head_version base_version
primary head head_pname _ head_version base_version =
    bump_or_rebuild head head_pname head_version base_version

-- The rows that a jobset's map binds: a later row with the same path replaces an earlier one.
unfoldable pub by_attr : HashMap Text JobDrvRow → List JobDrvRow → HashMap Text JobDrvRow
by_attr m [] = m
by_attr m (row ∷ rows) = by_attr (map_insert row.attr_path row m) rows

unfoldable pub metadata_available : List JobDrvRow → Bool
metadata_available =
    any (λ r. not (eq_option Text_eq.eq r.pname none) || not (eq_option Text_eq.eq r.version none))

-- The loop over the base's map.
unfoldable pub removed_entries :
    HashMap Text JobDrvRow → HashMap Text JobDrvRow → List PackageChange
removed_entries head_by_attr [] = []
removed_entries head_by_attr ((attr, row) ∷ rows) =
    let rest = removed_entries head_by_attr rows in
    if contains_key head_by_attr attr
    then rest
    else removed row.attr_path (pname_or_heuristic row) (version_or_heuristic row) ∷ rest

-- The package name that steps 4 and 5 report: none where the primary entry is `Renamed`.
unfoldable pub kept_pname : Option Text → Option Text → Option Text
kept_pname head_pname base_pname = if pname_changed head_pname base_pname then none else head_pname

module _ (licenses : Text → Option (List LicenseEntryPartial))
    (maintainers : Text → Option (List MaintainerPartial)) where
  -- Step 4.
  unfoldable pub license_entries : JobDrvRow → JobDrvRow → Option Text → List PackageChange
  license_entries head base none = []
  license_entries head base (some pname) =
      if eq_option Text_eq.eq head.license_json base.license_json
      then []
      else elim (diff_license licenses head.license_json base.license_json) [
        | none ↦ []
        | some (old, new) ↦ license_change head.attr_path pname old new head.drv_path ∷ []
      ]

  -- Step 5.
  unfoldable pub maintainer_entries : JobDrvRow → JobDrvRow → Option Text → List PackageChange
  maintainer_entries head base none = []
  maintainer_entries head base (some pname) =
      if eq_option Text_eq.eq head.maintainers_json base.maintainers_json
      then []
      else elim (diff_maintainers maintainers head.maintainers_json base.maintainers_json) [
        | none ↦ []
        | some (more, fewer) ↦ maintainer_change head.attr_path pname more fewer head.drv_path ∷ []
      ]

  unfoldable pub classify_changed : JobDrvRow → JobDrvRow → List PackageChange
  classify_changed head base =
      let head_pname = pname_or_heuristic head in
      let base_pname = pname_or_heuristic base in
      let pname = kept_pname head_pname base_pname in
      primary head head_pname base_pname (version_or_heuristic head) (version_or_heuristic base)
      ∷ (license_entries head base pname ++ maintainer_entries head base pname)

  -- One round of the loop over the head's map.
  unfoldable pub head_entry : Option JobDrvRow → JobDrvRow → List PackageChange
  head_entry none head =
      added head.attr_path (pname_or_heuristic head) (version_or_heuristic head) head.drv_path ∷ []
  head_entry (some base) head =
      if head.drv_path == base.drv_path then [] else classify_changed head base

  unfoldable pub head_entries : HashMap Text JobDrvRow → HashMap Text JobDrvRow → List PackageChange
  head_entries base_by_attr [] = []
  head_entries base_by_attr ((attr, row) ∷ rows) =
      head_entry (get attr base_by_attr) row ++ head_entries base_by_attr rows

  unfoldable pub compute_package_changes :
      List JobDrvRow → List JobDrvRow → List PackageChange × Bool
  compute_package_changes head base =
      let head_by_attr = by_attr [] head in
      let base_by_attr = by_attr [] base in
      (
        head_entries base_by_attr head_by_attr ++ removed_entries head_by_attr base_by_attr,
        metadata_available (head ++ base),
      )
