-- ===== src/Changes/Classify/Reports.antt =====
-- The maps of rows by attribute path, and what the loops over them report of one path.
use eka_ci.Prelude.{
  ◌≡◌, refl, ap, subst, contains, ◌==◌, Bool, true, false, Option, none, some, List, [], ◌∷◌, ◌++◌,
  if◌then◌else◌, HashMap, get, contains_key, keys, arith, All, All-append, All-map, inl, inr,
  Bool-cases, retain, retain-append, retain-All, retain-nil, ◌∙◌,
}
use mathlib.Core.List.{append-nil}
use eka_ci.Prelude.Text.{Text, Text_eq}
use eka_ci.Prelude.Ordered.{Text_order, IsAscending, IsBelow-lacks}
use eka_ci.Prelude.Ordered.Maps.{map_insert, get-map_insert, map_insert-IsAscending, get_of_lacks}
use eka_ci.Changes.Labels.{
  LicenseEntryPartial, MaintainerPartial, or, diff_license, diff_maintainers,
}
use eka_ci.Changes.Classify.{
  JobDrvRow, PackageChange, attr_path, pname_or_heuristic, version_or_heuristic, primary,
  bump_or_rebuild, kept_pname, license_entries, maintainer_entries, by_attr, head_entry,
  classify_changed,
}

-- The last row of a jobset with an attribute path.
unfoldable pub last_row : Text → List JobDrvRow → Option JobDrvRow
last_row a [] = none
last_row a (row ∷ rows) =
    or (last_row a rows) (if Text_eq.eq row.attr_path a then some row else none)

pub get-by_attr :
    (a : Text) (m : HashMap Text JobDrvRow) (rows : List JobDrvRow)
    → get a (by_attr m rows) ≡ or (last_row a rows) (get a m)
unfolding by_attr last_row
get-by_attr a m [] = refl
get-by_attr a m (row ∷ rows) =
    get-by_attr a (map_insert row.attr_path row m) rows
    ∙ ground (arith, get-map_insert row.attr_path a row m)

-- The map binds rows to their own paths, in ascending order.
abbrev pub IsKeyed : HashMap Text JobDrvRow → Type 0
IsKeyed = All (λ (b : Text × JobDrvRow). b.1.attr_path ≡ b.0)

map_insert-IsKeyed :
    (row : JobDrvRow) (m : HashMap Text JobDrvRow)
    → IsKeyed m
    → IsKeyed (map_insert row.attr_path row m)
unfolding map_insert
map_insert-IsKeyed row [] h = (refl, tt)
map_insert-IsKeyed row ((j, w) ∷ m) h = ground (arith, h.0, h.1, map_insert-IsKeyed row m h.1)

pub by_attr-IsKeyed :
    (m : HashMap Text JobDrvRow) (rows : List JobDrvRow) → IsKeyed m → IsKeyed (by_attr m rows)
unfolding by_attr
by_attr-IsKeyed m [] h = h
by_attr-IsKeyed m (row ∷ rows) h =
    by_attr-IsKeyed (map_insert row.attr_path row m) rows (map_insert-IsKeyed row m h)

pub by_attr-IsAscending :
    (m : HashMap Text JobDrvRow) (rows : List JobDrvRow)
    → IsAscending (keys m)
    → IsAscending (keys (by_attr m rows))
unfolding by_attr
by_attr-IsAscending m [] h = h
by_attr-IsAscending m (row ∷ rows) h =
    by_attr-IsAscending (map_insert row.attr_path row m) rows
      (map_insert-IsAscending row.attr_path row m h)

pub contains_key_lem :
    (m : HashMap Text JobDrvRow) (a : Text)
    → contains_key m a ≡ (elim (get a m) as (λ o. Bool) [ none ↦ false | some row ↦ true ])
unfolding contains_key get
contains_key_lem [] a = refl
contains_key_lem ((j, w) ∷ m) a = ground (arith, contains_key_lem m a)

abbrev pub IsOf : Text → List PackageChange → Type 0
IsOf a = All (λ c. attr_path c ≡ a)

abbrev pub is_at : Text → PackageChange → Bool
is_at a c = Text_eq.eq (attr_path c) a

retain-IsOf :
    (a b : Text) (cs : List PackageChange)
    → IsOf b cs
    → retain (is_at a) cs ≡ (if Text_eq.eq b a then cs else [])
retain-IsOf a b cs h = elim (Bool-cases (Text_eq.eq b a)) [
  | inl same ↦ rw same (retain-All (is_at a) cs (All-map (λ c p. ground (arith, p, same)) cs h))
  | inr other ↦ rw other (retain-nil (is_at a) cs (All-map (λ c p. ground (arith, p, other)) cs h))
]

-- Both loops of `compute_package_changes` put what they report of one row in front of the rest.
abbrev pub Report : Type 0
Report = Text → JobDrvRow → List PackageChange

unfoldable pub flat : Report → HashMap Text JobDrvRow → List PackageChange
flat f [] = []
flat f ((k, row) ∷ m) = f k row ++ flat f m

abbrev pub on_row : (JobDrvRow → List PackageChange) → Option JobDrvRow → List PackageChange
on_row f none = []
on_row f (some row) = f row

-- A report on a row is about the row's attribute path.
abbrev pub IsAbout : Report → Type 0
IsAbout f = (k : Text) (row : JobDrvRow) → IsOf row.attr_path (f k row)

pub retain-flat :
    (a : Text) (f : Report) (m : HashMap Text JobDrvRow)
    → IsAbout f
    → IsAscending (keys m)
    → IsKeyed m
    → retain (is_at a) (flat f m) ≡ on_row (f a) (get a m)
unfolding flat get keys retain
retain-flat a f [] about h keyed = refl
retain-flat a f ((j, row) ∷ m) about h keyed =
    let of_j = subst (λ k. IsOf k (f j row)) keyed.0 (about j row) in
    let rest = retain-flat a f m about h.1 keyed.1 in
    retain-append (is_at a) (f j row) (flat f m)
    ∙ rw (retain-IsOf a j (f j row) of_j, rest)
        (elim (Bool-cases (Text_eq.eq j a)) [
          | inl same ↦
              let here : j ≡ a = (Text_eq.eq_iff j a).0 same in
              let lacks = IsBelow-lacks j (keys m) h.0 in
              let missing =
                get_of_lacks a m (subst (λ k. contains (keys m) k ≡ false) here lacks) in
              rw (same, missing) (append-nil (f j row) ∙ ap (λ k. f k row) here)
          | inr other ↦ rw other refl
        ])

bump_or_rebuild-attr_path :
    (head : JobDrvRow) (pname hv bv : Option Text)
    → attr_path (bump_or_rebuild head pname hv bv) ≡ head.attr_path
unfolding attr_path bump_or_rebuild
bump_or_rebuild-attr_path head pname none bv = refl
bump_or_rebuild-attr_path head pname (some h) none = refl
bump_or_rebuild-attr_path head pname (some h) (some b) = ground arith

primary-attr_path :
    (head : JobDrvRow) (hp bp hv bv : Option Text)
    → attr_path (primary head hp bp hv bv) ≡ head.attr_path
unfolding attr_path primary
primary-attr_path head none bp hv bv = bump_or_rebuild-attr_path head none hv bv
primary-attr_path head (some h) none hv bv = bump_or_rebuild-attr_path head (some h) hv bv
primary-attr_path head (some h) (some b) hv bv =
    ground (arith, bump_or_rebuild-attr_path head (some h) hv bv)

module _ (licenses : Text → Option (List LicenseEntryPartial))
    (maintainers : Text → Option (List MaintainerPartial)) where
  license_entries-IsOf :
      (head base : JobDrvRow) (pname : Option Text)
      → IsOf head.attr_path (license_entries licenses maintainers head base pname)
  unfolding attr_path license_entries
  license_entries-IsOf head base none = tt
  license_entries-IsOf head base (some pname) =
      ground (arith, diff_license licenses head.license_json base.license_json)

  maintainer_entries-IsOf :
      (head base : JobDrvRow) (pname : Option Text)
      → IsOf head.attr_path (maintainer_entries licenses maintainers head base pname)
  unfolding attr_path maintainer_entries
  maintainer_entries-IsOf head base none = tt
  maintainer_entries-IsOf head base (some pname) =
      ground (arith, diff_maintainers maintainers head.maintainers_json base.maintainers_json)

  pub classify_changed-IsOf :
      (head base : JobDrvRow)
      → IsOf head.attr_path (classify_changed licenses maintainers head base)
  unfolding classify_changed
  classify_changed-IsOf head base =
      let pname = kept_pname (pname_or_heuristic head) (pname_or_heuristic base) in
      (
        primary-attr_path head (pname_or_heuristic head) (pname_or_heuristic base)
            (version_or_heuristic head) (version_or_heuristic base),
        All-append (λ c. attr_path c ≡ head.attr_path)
            (license_entries licenses maintainers head base pname)
            (maintainer_entries licenses maintainers head base pname)
            (license_entries-IsOf head base pname) (maintainer_entries-IsOf head base pname),
      )

  pub head_entry-IsOf :
      (base : Option JobDrvRow) (head : JobDrvRow)
      → IsOf head.attr_path (head_entry licenses maintainers base head)
  unfolding head_entry attr_path
  head_entry-IsOf none head = (refl, tt)
  head_entry-IsOf (some base) head = elim (Bool-cases (head.drv_path == base.drv_path)) [
    | inl same ↦ rw same tt
    | inr other ↦ rw other (classify_changed-IsOf head base)
  ]
