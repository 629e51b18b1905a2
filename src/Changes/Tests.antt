-- ===== src/Changes/Tests.antt =====
-- Inputs for the theorems about the change summary.
use eka_ci.Prelude.{
  true, false, refl, ℕ, ◌≡◌, Option, none, some, List, [], ◌∷◌, retain, contains, eq_list,
  eq_option, any, all, skip, if◌then◌else◌,
}
use eka_ci.Prelude.Text.{Text, text, Text_eq, join_with}
use eka_ci.Prelude.Bytes.{byte_len, len_utf8}
use eka_ci.Prelude.Ordered.{Text_order}
use eka_ci.Prelude.Ordered.Sorted.{sort, sort_insert, dedup}
use eka_ci.Scheduler.Features.{split}
use eka_ci.Changes.Names.{
  first_version_idx, panics_on, loop_panics, is_short, looks_like_version, is_ascii_digit,
  pname_from_name, version_from_name,
}
use eka_ci.Changes.Names.Parts.{put_together, pname_from_name-version_from_name}
use eka_ci.Changes.Labels.{
  LicenseEntryPartial, MaintainerPartial, parse_license_labels, license_label, maintainer_labels,
  diff_license, diff_maintainers,
}
use eka_ci.Changes.Labels.Diffs.{IsDiff, entries, diff_maintainers-IsDiff}
use eka_ci.Changes.Classify.{
  JobDrvRow, version_bump, license_change, classify_changed, primary, license_entries,
  maintainer_entries, pname_or_heuristic, version_or_heuristic, kept_pname, stored, pname_changed,
  bump_or_rebuild, compute_package_changes,
}
use eka_ci.Changes.Classify.Reports.{is_at, last_row}
use eka_ci.Changes.Classify.ByAttr.{changes_at, compute_package_changes-at}

abbrev row : Text → ℕ → Text → Option Text → JobDrvRow
row attr drv name license = record {
  attr_path = attr;
  drv_path = drv;
  name = name;
  pname = none;
  version = none;
  license_json = license;
  maintainers_json = none;
}

abbrev head_rows : List JobDrvRow
head_rows =
    row (text "hello") 1 (text "hello-2.13") (some (text "mit"))
    ∷ row (text "added") 2 (text "added-1.0") none
    ∷ []

abbrev base_rows : List JobDrvRow
base_rows =
    row (text "hello") 3 (text "hello-2.12") none ∷ row (text "gone") 4 (text "gone-1.0") none ∷ []

-- A parser that knows two texts.
abbrev read_licenses : Text → Option (List LicenseEntryPartial)
read_licenses json =
    if Text_eq.eq json (text "mit")
    then some (record { spdx_id = some (text "MIT"); short_name = none; full_name = none } ∷ [])
    else if Text_eq.eq json (text "mit twice")
    then some (
        record { spdx_id = some (text "MIT"); short_name = none; full_name = none }
        ∷ record { spdx_id = none; short_name = some (text "MIT"); full_name = none }
        ∷ [])
    else none

abbrev read_maintainers : Text → Option (List MaintainerPartial)
read_maintainers json = some (record { github = some json; name = none; email = none } ∷ [])

pname_from_name-version_from_name_example :
    (panics_on (text "hello-2.12.1") ≡ false)
    × (put_together
          (pname_from_name (text "hello-2.12.1"))
          (version_from_name (text "hello-2.12.1"))
        ≡ text "hello-2.12.1")
unfolding all
pname_from_name-version_from_name_example =
    pname_from_name-version_from_name (text "hello-2.12.1") refl

-- A part that is one character of two bytes.
short_part_panics : panics_on (text "é-12") ≡ true
unfolding panics_on loop_panics is_short looks_like_version split any all is_ascii_digit byte_len
    len_utf8
short_part_panics = refl

diff_maintainers-IsDiff_example :
    IsDiff
      (maintainer_labels (entries read_maintainers (some (text "alice"))))
      (maintainer_labels (entries read_maintainers (some (text "bob"))))
      (diff_maintainers read_maintainers (some (text "alice")) (some (text "bob")))
diff_maintainers-IsDiff_example =
    diff_maintainers-IsDiff read_maintainers (some (text "alice")) (some (text "bob"))

-- The version of the package changes, and its license with it.
compute_package_changes-at_example :
    retain
      (is_at (text "hello"))
      (compute_package_changes read_licenses read_maintainers head_rows base_rows).0
    ≡ version_bump (text "hello") (text "hello") (text "2.12") (text "2.13") 1
      ∷ license_change (text "hello") (text "hello") [] (text "MIT" ∷ []) 1
      ∷ []
unfolding changes_at last_row eq_list classify_changed primary license_entries pname_or_heuristic
    kept_pname stored pname_changed pname_from_name split first_version_idx looks_like_version any
    all join_with bump_or_rebuild eq_option version_or_heuristic diff_license version_from_name
    parse_license_labels skip dedup maintainer_entries license_label is_ascii_digit contains sort
    sort_insert byte_len len_utf8
compute_package_changes-at_example =
    compute_package_changes-at read_licenses read_maintainers head_rows base_rows (text "hello")
