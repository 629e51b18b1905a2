-- ===== src/Dependencies/Filtered.antt =====
-- Which dependencies are reported, and which are missed.
use eka_ci.Prelude.{
  ◌≡◌, refl, ◌∙◌, ap, ◌==◌, Bool, true, not, ◌&&◌, ◌||◌, Option, none, some, List, [], ◌∷◌, length,
  any, retain, contains, contains-retain, contains-set_insert, HashMap, keys, contains_key, insert,
  arith, Bool-cases, inl, inr, is_empty,
}
use eka_ci.Prelude.Text.{Text, Text_eq}
use eka_ci.Prelude.Ordered.{Text_order, difference, difference-contains}
use eka_ci.Dependencies.{
  extract_pname, to_set, by_pname, filter_version_changes, DependencyComparison, compare_output,
}

-- Some path has the package name.
unfoldable pub has_pname : List Text → Text → Bool
has_pname paths pname = any (λ path. Text_eq.eq (extract_pname path) pname) paths

contains_key-insert :
    (k j v : Text) (m : HashMap Text Text)
    → contains_key (insert k v m) j ≡ (Text_eq.eq k j || contains_key m j)
unfolding contains_key insert
contains_key-insert k j v [] = refl
contains_key-insert k j v ((i, w) ∷ m) =
    ground (
      arith,
      contains_key-insert k j v m,
      Text_eq.eq_iff i k,
      Text_eq.eq_iff i j,
      Text_eq.eq_iff k j,
    )

contains_key-by_pname :
    (p : Text) (m : HashMap Text Text) (paths : List Text)
    → contains_key (by_pname m paths) p ≡ (has_pname paths p || contains_key m p)
unfolding by_pname has_pname any
contains_key-by_pname p m [] = refl
contains_key-by_pname p m (path ∷ paths) =
    contains_key-by_pname p (insert (extract_pname path) path m) paths
    ∙ ground (arith, contains_key-insert (extract_pname path) p path m)

contains-keys : (m : HashMap Text Text) (p : Text) → contains (keys m) p ≡ contains_key m p
unfolding contains keys contains_key
contains-keys [] p = refl
contains-keys ((j, w) ∷ m) p = ground (arith, contains-keys m p)

-- The names that count as version changes.
contains-changed :
    (added removed : List Text) (p : Text)
    → contains (retain (contains_key (by_pname [] removed)) (keys (by_pname [] added))) p
      ≡ (has_pname added p && has_pname removed p)
unfolding contains_key
contains-changed added removed p =
    contains-retain (contains_key (by_pname [] removed)) (keys (by_pname [] added)) p
    ∙ rw
        (
          contains-keys (by_pname [] added) p,
          contains_key-by_pname p [] added,
          contains_key-by_pname p [] removed,
        )
        (ground arith)

has_pname-of_contains :
    (paths : List Text) (path : Text)
    → contains paths path ≡ true
    → has_pname paths (extract_pname path) ≡ true
unfolding contains has_pname any
has_pname-of_contains [] path h = ground (arith, h)
has_pname-of_contains (x ∷ paths) path h = elim (Bool-cases (Text_eq.eq x path)) [
  | inl same ↦
      let names : extract_pname x ≡ extract_pname path =
        ap extract_pname ((Text_eq.eq_iff x path).0 same) in
      ground (arith, (Text_eq.eq_iff (extract_pname x) (extract_pname path)).1 names)
  | inr other ↦ ground (arith, h, other, has_pname-of_contains paths path)
]

-- An added path is reported just if no removed path has its package name, and a removed path just if
-- no added path has its package name.
pub filter_version_changes_lem :
    (added removed : List Text) (path : Text)
    → (contains (filter_version_changes added removed).0 path
        ≡ (contains added path && not (has_pname removed (extract_pname path))))
      × (contains (filter_version_changes added removed).1 path
          ≡ (contains removed path && not (has_pname added (extract_pname path))))
unfolding filter_version_changes
filter_version_changes_lem added removed path =
    let p = extract_pname path in
    let changed = retain (contains_key (by_pname [] removed)) (keys (by_pname [] added)) in
    let is_true = λ (a : Text). not (contains changed (extract_pname a)) in
    (
      contains-retain is_true added path
          ∙ rw (contains-changed added removed p)
              (ground (arith, has_pname-of_contains added path)),
      contains-retain is_true removed path
          ∙ rw (contains-changed added removed p)
              (ground (arith, has_pname-of_contains removed path)),
    )

to_set-contains : (xs : List Text) (a : Text) → contains (to_set xs) a ≡ contains xs a
unfolding to_set contains
to_set-contains [] a = refl
to_set-contains (x ∷ xs) a =
    ground (arith, contains-set_insert x a (to_set xs), to_set-contains xs a)

-- The references of one side only.
abbrev pub only_in : List Text → List Text → List Text
only_in xs ys = difference (to_set xs) (to_set ys)

only_in-contains :
    (xs ys : List Text) (a : Text)
    → contains (only_in xs ys) a ≡ (contains xs a && not (contains ys a))
only_in-contains xs ys a =
    rw (difference-contains (to_set xs) (to_set ys) a, to_set-contains xs a, to_set-contains ys a)
      refl

-- What a comparison says of the references of an output in the base and in the head.
abbrev pub IsReport : List Text → List Text → Option DependencyComparison → Type 0
IsReport base head none = Unit
IsReport base head (some c) =
    ((path : Text)
      → contains c.added_deps path ≡ (
          contains head path
          && not (contains base path)
          && not (has_pname (only_in base head) (extract_pname path))))
    × ((path : Text)
        → contains c.removed_deps path ≡ (
            contains base path
            && not (contains head path)
            && not (has_pname (only_in head base) (extract_pname path))))
    × ¬ (length base ≡ length head)

-- A comparison that is reported lists as added the references of the head that the base lacks, and as
-- removed those of the base that the head lacks, both without the ones whose package name is among
-- the other side's; and it is reported only where the numbers of references differ.
pub compare_output-IsReport :
    (attr_path output_name : Text) (base head : List Text)
    → IsReport base head (compare_output attr_path output_name base head)
unfolding compare_output
compare_output-IsReport attr_path output_name base head =
    let added = only_in head base in
    let removed = only_in base head in
    let sides = filter_version_changes_lem added removed in
    elim (Bool-cases (is_empty base || is_empty head)) [
      | inl missing ↦ rw missing tt
      | inr known ↦ elim (Bool-cases (length base == length head)) [
        | inl same ↦ rw (known, same) tt
        | inr other ↦
            elim (Bool-cases (
              not (is_empty (filter_version_changes added removed).0)
              || not (is_empty (filter_version_changes added removed).1))) [
                | inr neither ↦ rw (known, other, neither) tt
                | inl changed ↦
                    rw (known, other, changed)
                      (
                        λ path.
                            (sides path).0 ∙ rw (only_in-contains head base path) (ground arith),
                        λ path.
                            (sides path).1 ∙ rw (only_in-contains base head path) (ground arith),
                        λ same. ground (arith, other, same),
                      )
              ]
      ]
    ]
