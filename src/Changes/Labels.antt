-- ===== src/Changes/Labels.antt =====
-- The licenses and maintainers of a package: `diff_license`, `diff_maintainers` and their parsers in
-- backend/change_summary/src/classify.rs. `serde_json`, which reads the entries of the JSON text, is
-- a parameter; `none` is its error.
pub mod Diffs
use eka_ci.Prelude.{
  ◌≡◌, refl, Bool, true, false, Option, none, some, List, [], ◌∷◌, map, if◌then◌else◌, is_empty,
  eq_list, ◌&&◌,
}
use eka_ci.Prelude.Text.{Text, text, Text_eq}
use eka_ci.Prelude.Ordered.{Text_order, btree_collect, difference}
use eka_ci.Prelude.Ordered.Sorted.{sort, dedup}
use eka_ci.Changes.Names.{unwrap_or}

pub record LicenseEntryPartial : Type 0 where
  pub spdx_id : Option Text
  pub short_name : Option Text
  pub full_name : Option Text

pub record MaintainerPartial : Type 0 where
  pub github : Option Text
  pub name : Option Text
  pub email : Option Text

-- `Option::or`.
abbrev pub or {ℓ} : {A : Type ℓ} → Option A → Option A → Option A
or none b = b
or (some a) b = some a

unfoldable pub license_label : LicenseEntryPartial → Text
license_label e = unwrap_or (or (or e.spdx_id e.short_name) e.full_name) (text "<unknown license>")

unfoldable pub maintainer_label : MaintainerPartial → Option Text
maintainer_label m = or (or m.github m.name) m.email

-- `filter_map` of the labels, then the `filter` of those that are not empty.
unfoldable pub maintainer_labels : List MaintainerPartial → List Text
maintainer_labels [] = []
maintainer_labels (m ∷ ms) =
    let rest = maintainer_labels ms in
    elim (maintainer_label m) as (λ o. List Text) [
      | none ↦ rest
      | some label ↦ if is_empty label then rest else label ∷ rest
    ]

unfoldable pub parse_license_labels :
    (Text → Option (List LicenseEntryPartial)) → Option Text → List Text
parse_license_labels from_str none = []
parse_license_labels from_str (some json) =
    dedup (sort (map license_label (unwrap_or (from_str json) [])))

unfoldable pub parse_maintainer_labels :
    (Text → Option (List MaintainerPartial)) → Option Text → List Text
parse_maintainer_labels from_str none = []
parse_maintainer_labels from_str (some json) =
    btree_collect (maintainer_labels (unwrap_or (from_str json) []))

abbrev pub eq_labels : List Text → List Text → Bool
eq_labels = eq_list Text_eq.eq

unfoldable pub diff_license :
    (Text → Option (List LicenseEntryPartial))
    → Option Text
    → Option Text
    → Option (List Text × List Text)
diff_license from_str head base =
    let head_labels = parse_license_labels from_str head in
    let base_labels = parse_license_labels from_str base in
    if eq_labels head_labels base_labels then none else some (base_labels, head_labels)

unfoldable pub diff_maintainers :
    (Text → Option (List MaintainerPartial))
    → Option Text
    → Option Text
    → Option (List Text × List Text)
diff_maintainers from_str head base =
    let head_set = parse_maintainer_labels from_str head in
    let base_set = parse_maintainer_labels from_str base in
    let added = difference head_set base_set in
    let removed = difference base_set head_set in
    if eq_labels head_set base_set
    then none
    else if is_empty added && is_empty removed
    then none
    else some (sort added, sort removed)
