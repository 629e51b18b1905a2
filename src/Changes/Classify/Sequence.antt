-- ===== src/Changes/Classify/Sequence.antt =====
-- The order of the entries that `compute_package_changes` returns.
use eka_ci.Prelude.{
  ◌≡◌, refl, subst, Bool, true, false, Option, none, some, List, [], ◌∷◌, ◌++◌, map, HashMap, get,
  keys, arith, inl, inr, Bool-cases, Option-cases, ap₂, All, All-map, All-append, ◌==◌,
}
use eka_ci.Prelude.Text.{Text, Text_eq}
use eka_ci.Prelude.Ordered.{Text_order, IsAscending, IsBelow}
use eka_ci.Prelude.Ordered.Sorted.{IsSorted, IsAtMost}
use eka_ci.Changes.Labels.{LicenseEntryPartial, MaintainerPartial, diff_license, diff_maintainers}
use eka_ci.Changes.Classify.{
  JobDrvRow, PackageChange, removed, attr_path, pname_or_heuristic, version_or_heuristic, by_attr,
  head_entry, classify_changed, compute_package_changes, license_entries, maintainer_entries,
  primary, bump_or_rebuild, kept_pname,
}
use eka_ci.Changes.Classify.Reports.{
  IsKeyed, by_attr-IsKeyed, by_attr-IsAscending, IsOf, Report, flat, IsAbout, head_entry-IsOf,
}
use eka_ci.Changes.Classify.ByAttr.{
  report_head, report_removed, removed_entries-eq-flat, head_entries-eq-flat,
  report_removed-IsAbout,
}

-- In ascending order of the attribute paths, where a path may have several entries.
abbrev pub IsByAttr : List PackageChange → Type 0
IsByAttr cs = IsSorted (map attr_path cs)

All-flat {κ} :
    (P : PackageChange → Type κ) (f : Report) (m : HashMap Text JobDrvRow)
    → ((k : Text) (row : JobDrvRow) → All P (f k row))
    → All P (flat f m)
unfolding flat
All-flat P f [] h = tt
All-flat P f ((k, row) ∷ m) h = All-append P (f k row) (flat f m) (h k row) (All-flat P f m h)

flat-above :
    (a : Text) (f : Report) (m : HashMap Text JobDrvRow)
    → IsAbout f
    → IsBelow a (keys m)
    → IsKeyed m
    → All (λ c. Text_order.lt a (attr_path c) ≡ true) (flat f m)
unfolding flat keys
flat-above a f [] about below keyed = tt
flat-above a f ((j, row) ∷ m) about below keyed =
    All-append (λ c. Text_order.lt a (attr_path c) ≡ true) (f j row) (flat f m)
      (All-map (λ c p. ground (arith, p, keyed.0, below.0)) (f j row) (about j row))
      (flat-above a f m about below.1 keyed.1)

same : (a b c : Text) → b ≡ a → c ≡ a → Text_order.lt b c ≡ false
same a b c p q = rw (p, q) (Text_order.irrefl a)

later : (a b c : Text) → Text_order.lt a b ≡ true → c ≡ a → Text_order.lt b c ≡ false
later a b c p q = rw q (ground (arith, p, Text_order.trans a b a, Text_order.irrefl a))

least :
    (a : Text) (cs : List PackageChange)
    → All (λ c. Text_order.lt (attr_path c) a ≡ false) cs
    → IsAtMost a (map attr_path cs)
least a [] h = tt
least a (c ∷ cs) h = (h.0, least a cs h.1)

-- Entries of one path in front of entries of later paths.
put_before :
    (a : Text) (cs ds : List PackageChange)
    → IsOf a cs
    → All (λ c. Text_order.lt a (attr_path c) ≡ true) ds
    → IsByAttr ds
    → IsByAttr (cs ++ ds)
put_before a [] ds of above h = h
put_before a (c ∷ cs) ds (c_of, of) above h = (
  least (attr_path c) (cs ++ ds) (
      All-append (λ d. Text_order.lt (attr_path d) (attr_path c) ≡ false) cs ds
        (All-map (λ d p. same a (attr_path d) (attr_path c) p c_of) cs of)
        (All-map (λ d p. later a (attr_path d) (attr_path c) p c_of) ds above)),
  put_before a cs ds of above h,
)

flat-IsByAttr :
    (f : Report) (m : HashMap Text JobDrvRow)
    → IsAbout f
    → IsAscending (keys m)
    → IsKeyed m
    → IsByAttr (flat f m)
unfolding flat keys
flat-IsByAttr f [] about h keyed = tt
flat-IsByAttr f ((j, row) ∷ m) about h keyed =
    put_before j (f j row) (flat f m) (subst (λ k. IsOf k (f j row)) keyed.0 (about j row))
      (flat-above j f m about h.0 keyed.1) (flat-IsByAttr f m about h.1 keyed.1)

unfoldable pub is_removed : PackageChange → Bool
is_removed (removed _ _ _) = true
is_removed _ = false

abbrev pub IsKept : List PackageChange → Type 0
IsKept = All (λ c. is_removed c ≡ false)

bump_or_rebuild-is_removed :
    (head : JobDrvRow) (pname hv bv : Option Text)
    → is_removed (bump_or_rebuild head pname hv bv) ≡ false
unfolding is_removed bump_or_rebuild
bump_or_rebuild-is_removed head pname none bv = refl
bump_or_rebuild-is_removed head pname (some h) none = refl
bump_or_rebuild-is_removed head pname (some h) (some b) = ground arith

primary-is_removed :
    (head : JobDrvRow) (hp bp hv bv : Option Text) → is_removed (primary head hp bp hv bv) ≡ false
unfolding is_removed primary
primary-is_removed head none bp hv bv = bump_or_rebuild-is_removed head none hv bv
primary-is_removed head (some h) none hv bv = bump_or_rebuild-is_removed head (some h) hv bv
primary-is_removed head (some h) (some b) hv bv =
    ground (arith, bump_or_rebuild-is_removed head (some h) hv bv)

report_removed-removed :
    (head : HashMap Text JobDrvRow) (k : Text) (row : JobDrvRow)
    → All (λ c. is_removed c ≡ true) (report_removed head k row)
unfolding is_removed
report_removed-removed head k row = ground arith

module _ (licenses : Text → Option (List LicenseEntryPartial))
    (maintainers : Text → Option (List MaintainerPartial)) where
  license_entries-IsKept :
      (head base : JobDrvRow) (pname : Option Text)
      → IsKept (license_entries licenses maintainers head base pname)
  unfolding is_removed license_entries
  license_entries-IsKept head base none = tt
  license_entries-IsKept head base (some pname) =
      ground (arith, diff_license licenses head.license_json base.license_json)

  maintainer_entries-IsKept :
      (head base : JobDrvRow) (pname : Option Text)
      → IsKept (maintainer_entries licenses maintainers head base pname)
  unfolding is_removed maintainer_entries
  maintainer_entries-IsKept head base none = tt
  maintainer_entries-IsKept head base (some pname) =
      ground (arith, diff_maintainers maintainers head.maintainers_json base.maintainers_json)

  classify_changed-IsKept :
      (head base : JobDrvRow) → IsKept (classify_changed licenses maintainers head base)
  unfolding classify_changed
  classify_changed-IsKept head base =
      let pname = kept_pname (pname_or_heuristic head) (pname_or_heuristic base) in
      (
        primary-is_removed head (pname_or_heuristic head) (pname_or_heuristic base)
            (version_or_heuristic head) (version_or_heuristic base),
        All-append (λ c. is_removed c ≡ false)
            (license_entries licenses maintainers head base pname)
            (maintainer_entries licenses maintainers head base pname)
            (license_entries-IsKept head base pname) (maintainer_entries-IsKept head base pname),
      )

  report_head-IsKept :
      (base : HashMap Text JobDrvRow) (k : Text) (row : JobDrvRow)
      → IsKept (report_head licenses maintainers base k row)
  unfolding head_entry is_removed
  report_head-IsKept base k row = elim (Option-cases (get k base)) [
    | inl missing ↦ rw missing (refl, tt)
    | inr (b, found) ↦ rw found (elim (Bool-cases (row.drv_path == b.drv_path)) [
      | inl same ↦ rw same tt
      | inr other ↦ rw other (classify_changed-IsKept row b)
    ])
  ]

  -- The result is a list of entries other than `Removed` in ascending order of the attribute paths,
  -- and behind it a list of `Removed` entries in ascending order of theirs.
  pub compute_package_changes-IsByAttr :
      (head base : List JobDrvRow)
      → (kept gone : List PackageChange) × ((compute_package_changes licenses maintainers head
            base).0
          ≡ kept ++ gone)
        × IsKept kept
        × IsByAttr kept
        × All (λ c. is_removed c ≡ true) gone
        × IsByAttr gone
  unfolding compute_package_changes keys
  compute_package_changes-IsByAttr head base =
      let hm = by_attr [] head in
      let bm = by_attr [] base in
      let about : IsAbout (report_head licenses maintainers bm) =
        λ k row. head_entry-IsOf licenses maintainers (get k bm) row in
      (
        flat (report_head licenses maintainers bm) hm,
        flat (report_removed hm) bm,
        ap₂ ◌++◌ (head_entries-eq-flat licenses maintainers bm hm) (removed_entries-eq-flat hm bm),
        All-flat (λ c. is_removed c ≡ false) (report_head licenses maintainers bm) hm
            (report_head-IsKept bm),
        flat-IsByAttr (report_head licenses maintainers bm) hm about
            (by_attr-IsAscending [] head tt) (by_attr-IsKeyed [] head tt),
        All-flat (λ c. is_removed c ≡ true) (report_removed hm) bm (report_removed-removed hm),
        flat-IsByAttr (report_removed hm) bm (report_removed-IsAbout hm)
            (by_attr-IsAscending [] base tt) (by_attr-IsKeyed [] base tt),
      )
