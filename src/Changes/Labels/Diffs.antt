-- ===== src/Changes/Labels/Diffs.antt =====
-- The differences of licenses and maintainers are those of the sets of labels.
use eka_ci.Prelude.{
  ◌≡◌, refl, ap, sym, ◌∙◌, ◌↔◌, Bool, true, false, not, ◌&&◌, Option, none, some, List, [], ◌∷◌,
  map, if◌then◌else◌, is_empty, arith, contains, inl, inr, Bool-cases, eq_list_iff,
}
use eka_ci.Prelude.Text.{Text, Text_eq}
use eka_ci.Prelude.Ordered.{
  Text_order, IsAscending-unique, btree_collect, btree_collect-contains, btree_collect-IsAscending,
  difference, difference-contains,
}
use eka_ci.Prelude.Ordered.Sorted.{sort, dedup-sort, sort-contains, sort-IsSorted, IsSorted}
use eka_ci.Changes.Names.{unwrap_or}
use eka_ci.Changes.Labels.{
  LicenseEntryPartial, MaintainerPartial, license_label, maintainer_labels, parse_license_labels,
  parse_maintainer_labels, eq_labels, diff_license, diff_maintainers,
}

-- The labels in a JSON text, in its order and with repetitions; none where it has no entries.
abbrev pub entries {ℓ} : {E : Type ℓ} → (Text → Option (List E)) → Option Text → List E
entries from_str none = []
entries from_str (some json) = unwrap_or (from_str json) []

abbrev pub SameLabels : List Text → List Text → Type 0
SameLabels xs ys = (a : Text) → contains xs a ≡ contains ys a

parse_license_labels_lem :
    (from_str : Text → Option (List LicenseEntryPartial)) (json : Option Text)
    → parse_license_labels from_str json ≡ btree_collect (map license_label (entries from_str json))
unfolding parse_license_labels btree_collect
parse_license_labels_lem from_str none = refl
parse_license_labels_lem from_str (some json) =
    dedup-sort (map license_label (unwrap_or (from_str json) []))

pub parse_maintainer_labels_lem :
    (from_str : Text → Option (List MaintainerPartial)) (json : Option Text)
    → parse_maintainer_labels from_str json
      ≡ btree_collect (maintainer_labels (entries from_str json))
unfolding parse_maintainer_labels btree_collect maintainer_labels
parse_maintainer_labels_lem from_str none = refl
parse_maintainer_labels_lem from_str (some json) = refl

btree_collect-eq_iff :
    (xs ys : List Text) → (btree_collect xs ≡ btree_collect ys) ↔ SameLabels xs ys
btree_collect-eq_iff xs ys = (
  λ h a. sym (btree_collect-contains a xs) ∙ ap (λ s. contains s a) h ∙ btree_collect-contains a ys,
  λ h.
      IsAscending-unique (btree_collect xs) (btree_collect ys) (btree_collect-IsAscending xs)
        (btree_collect-IsAscending ys)
        (λ a. btree_collect-contains a xs ∙ h a ∙ sym (btree_collect-contains a ys)),
)

-- The test of the parsers' results, on the labels that they parse.
none_iff_same {ℓ} :
    {B : Type ℓ} (xs ys head base : List Text) (b : B)
    → head ≡ btree_collect xs
    → base ≡ btree_collect ys
    → ((if eq_labels head base then none else some b) ≡ none) ↔ SameLabels xs ys
none_iff_same xs ys head base b is_head is_base =
    let iff = btree_collect-eq_iff xs ys in
    let test = eq_list_iff Text_eq (btree_collect xs) (btree_collect ys) in
    rw (is_head, is_base)
      (elim (Bool-cases (eq_labels (btree_collect xs) (btree_collect ys))) [
        | inl same ↦ (λ h. iff.0 (test.0 same), λ h. rw same refl)
        | inr other ↦ (
          λ h. absurd (ground (arith, other, h)),
          λ h. absurd (ground (arith, other, test.1 (iff.1 h))),
        )
      ])

-- A license change is reported just if the two JSON texts do not have the same set of labels; the
-- order of the entries and repetitions do not matter.
pub diff_license-eq-none_iff :
    (from_str : Text → Option (List LicenseEntryPartial)) (head base : Option Text)
    → (diff_license from_str head base ≡ none)
      ↔ SameLabels
          (map license_label (entries from_str head))
          (map license_label (entries from_str base))
unfolding diff_license
diff_license-eq-none_iff from_str head base =
    none_iff_same (map license_label (entries from_str head))
      (map license_label (entries from_str base)) (parse_license_labels from_str head)
      (parse_license_labels from_str base)
      (parse_license_labels from_str base, parse_license_labels from_str head)
      (parse_license_labels_lem from_str head) (parse_license_labels_lem from_str base)

-- What a maintainer change reports of the labels of the head and of the base.
abbrev pub IsDiff : List Text → List Text → Option (List Text × List Text) → Type 0
IsDiff head base none = SameLabels head base
IsDiff head base (some (added, removed)) =
    ((a : Text) → contains added a ≡ (contains head a && not (contains base a)))
    × ((a : Text) → contains removed a ≡ (contains base a && not (contains head a)))
    × IsSorted added
    × IsSorted removed
    × ¬ SameLabels head base

sort-difference :
    (xs ys : List Text) (a : Text)
    → contains (sort (difference (btree_collect xs) (btree_collect ys))) a
      ≡ (contains xs a && not (contains ys a))
sort-difference xs ys a =
    let head = btree_collect xs in
    let base = btree_collect ys in
    rw
      (
        sort-contains a (difference head base),
        difference-contains head base a,
        btree_collect-contains a xs,
        btree_collect-contains a ys,
      )
      refl

lacks_of_empty : (xs : List Text) (a : Text) → is_empty xs ≡ true → contains xs a ≡ false
unfolding contains
lacks_of_empty [] a h = refl
lacks_of_empty (x ∷ xs) a h = ground (arith, h)

both : (p q : Bool) → (p && q) ≡ true → (p ≡ true) × (q ≡ true)
both p q h = ground (arith, h)

-- The second guard: where nothing is added and nothing removed, the labels are the same.
same_of_empty :
    (xs ys : List Text)
    → is_empty (difference (btree_collect xs) (btree_collect ys)) ≡ true
    → is_empty (difference (btree_collect ys) (btree_collect xs)) ≡ true
    → SameLabels xs ys
same_of_empty xs ys h k a =
    let head = btree_collect xs in
    let base = btree_collect ys in
    ground (
      arith,
      lacks_of_empty (difference head base) a h,
      lacks_of_empty (difference base head) a k,
      difference-contains head base a,
      difference-contains base head a,
      btree_collect-contains a xs,
      btree_collect-contains a ys,
    )

-- A maintainer change is reported just if the sets of labels differ; it then has the labels that only
-- the head has as added and those that only the base has as removed, each in ascending order.
pub diff_maintainers-IsDiff :
    (from_str : Text → Option (List MaintainerPartial)) (head base : Option Text)
    → IsDiff
        (maintainer_labels (entries from_str head))
        (maintainer_labels (entries from_str base))
        (diff_maintainers from_str head base)
unfolding diff_maintainers
diff_maintainers-IsDiff from_str head base =
    let xs = maintainer_labels (entries from_str head) in
    let ys = maintainer_labels (entries from_str base) in
    let hs = btree_collect xs in
    let bs = btree_collect ys in
    rw (parse_maintainer_labels_lem from_str head, parse_maintainer_labels_lem from_str base)
      (elim (Bool-cases (eq_labels hs bs)) [
        | inl same ↦ rw same ((btree_collect-eq_iff xs ys).0 ((eq_list_iff Text_eq hs bs).0 same))
        | inr other ↦
            elim (Bool-cases (is_empty (difference hs bs) && is_empty (difference bs hs))) [
              | inl neither ↦
                  let (h, k) =
                    both (is_empty (difference hs bs)) (is_empty (difference bs hs)) neither in
                  rw (other, neither) (same_of_empty xs ys h k)
              | inr some_label ↦
                  rw (other, some_label)
                    (
                      sort-difference xs ys,
                      sort-difference ys xs,
                      sort-IsSorted (difference hs bs),
                      sort-IsSorted (difference bs hs),
                      λ same. ground (
                        arith,
                        other,
                        (eq_list_iff Text_eq hs bs).1 ((btree_collect-eq_iff xs ys).1 same),
                      ),
                    )
            ]
      ])
