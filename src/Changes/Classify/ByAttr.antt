-- ===== src/Changes/Classify/ByAttr.antt =====
-- What `compute_package_changes` reports of each attribute path, and in which order.
use eka_ci.Prelude.{
  ◌≡◌, refl, ap, ap₂, ◌==◌, Option, none, some, List, [], ◌∷◌, ◌++◌, if◌then◌else◌, HashMap, get,
  get-nil, contains_key, keys, arith, inl, inr, Option-cases, retain, retain-append, ◌∙◌,
}
use mathlib.Core.List.{append-nil}
use eka_ci.Prelude.Text.{Text, Text_eq}
use eka_ci.Prelude.Ordered.{Text_order}
use eka_ci.Changes.Labels.{LicenseEntryPartial, MaintainerPartial, or}
use eka_ci.Changes.Classify.{
  JobDrvRow, PackageChange, added, removed, attr_path, pname_or_heuristic, version_or_heuristic,
  by_attr, head_entry, head_entries, removed_entries, classify_changed, compute_package_changes,
}
use eka_ci.Changes.Classify.Reports.{
  last_row, get-by_attr, by_attr-IsKeyed, by_attr-IsAscending, contains_key_lem, is_at, Report,
  flat, on_row, IsAbout, retain-flat, head_entry-IsOf,
}

or_none : (o : Option JobDrvRow) → or o none ≡ o
or_none none = refl
or_none (some row) = refl

get_row : (a : Text) (rows : List JobDrvRow) → get a (by_attr [] rows) ≡ last_row a rows
get_row a rows = get-by_attr a [] rows ∙ rw (get-nil a) (or_none (last_row a rows))

abbrev pub report_removed : HashMap Text JobDrvRow → Report
report_removed head k row =
    if contains_key head k
    then []
    else removed row.attr_path (pname_or_heuristic row) (version_or_heuristic row) ∷ []

pub removed_entries-eq-flat :
    (head m : HashMap Text JobDrvRow) → removed_entries head m ≡ flat (report_removed head) m
unfolding removed_entries flat
removed_entries-eq-flat head [] = refl
removed_entries-eq-flat head ((k, row) ∷ m) = ground (arith, removed_entries-eq-flat head m)

pub report_removed-IsAbout : (head : HashMap Text JobDrvRow) → IsAbout (report_removed head)
unfolding attr_path
report_removed-IsAbout head k row = ground arith

module _ (licenses : Text → Option (List LicenseEntryPartial))
    (maintainers : Text → Option (List MaintainerPartial)) where
  abbrev pub report_head : HashMap Text JobDrvRow → Report
  report_head base k row = head_entry licenses maintainers (get k base) row

  pub head_entries-eq-flat :
      (base m : HashMap Text JobDrvRow)
      → head_entries licenses maintainers base m ≡ flat (report_head base) m
  unfolding head_entries flat
  head_entries-eq-flat base [] = refl
  head_entries-eq-flat base ((k, row) ∷ m) =
      ap (λ cs. head_entry licenses maintainers (get k base) row ++ cs)
        (head_entries-eq-flat base m)

  -- What a pull request changes at one attribute path, from the last rows of the head and of the base
  -- with this path.
  unfoldable pub changes_at : Option JobDrvRow → Option JobDrvRow → List PackageChange
  changes_at none none = []
  changes_at none (some base) =
      removed base.attr_path (pname_or_heuristic base) (version_or_heuristic base) ∷ []
  changes_at (some head) none =
      added head.attr_path (pname_or_heuristic head) (version_or_heuristic head) head.drv_path ∷ []
  changes_at (some head) (some base) =
      if head.drv_path == base.drv_path then [] else classify_changed licenses maintainers head base

  reports_at :
      (a : Text) (hm bm : HashMap Text JobDrvRow)
      → on_row (report_head bm a) (get a hm) ++ on_row (report_removed hm a) (get a bm)
        ≡ changes_at (get a hm) (get a bm)
  unfolding changes_at head_entry
  reports_at a hm bm = elim (Option-cases (get a hm)) [
    | inl out ↦ elim (Option-cases (get a bm)) [
      | inl out' ↦ rw (out, out') refl
      | inr (base, is_base) ↦ rw (is_base, contains_key_lem hm a, out) refl
    ]
    | inr (head, is_head) ↦ elim (Option-cases (get a bm)) [
      | inl out ↦ rw (is_head, out) refl
      | inr (base, is_base) ↦ rw (is_head, is_base, contains_key_lem hm a, is_head) (append-nil _)
    ]
  ]

  -- The entries for an attribute path are those that the last rows with this path in the two jobsets
  -- call for: `Removed` or `Added` where only one jobset has the path, none where both have the same
  -- derivation, and the entries of `classify_changed` for the two rows otherwise.
  pub compute_package_changes-at :
      (head base : List JobDrvRow) (a : Text)
      → retain (is_at a) (compute_package_changes licenses maintainers head base).0
        ≡ changes_at (last_row a head) (last_row a base)
  unfolding compute_package_changes keys
  compute_package_changes-at head base a =
      let hm = by_attr [] head in
      let bm = by_attr [] base in
      retain-append (is_at a) (head_entries licenses maintainers bm hm) (removed_entries hm bm)
      ∙ rw
          (
            head_entries-eq-flat bm hm,
            removed_entries-eq-flat hm bm,
            retain-flat a (report_head bm) hm
                (λ k row. head_entry-IsOf licenses maintainers (get k bm) row)
                (by_attr-IsAscending [] head tt) (by_attr-IsKeyed [] head tt),
            retain-flat a (report_removed hm) bm (report_removed-IsAbout hm)
                (by_attr-IsAscending [] base tt) (by_attr-IsKeyed [] base tt),
          )
          (reports_at a hm bm ∙ ap₂ changes_at (get_row a head) (get_row a base))
