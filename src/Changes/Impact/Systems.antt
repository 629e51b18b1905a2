-- ===== src/Changes/Impact/Systems.antt =====
-- The systems of a rebuild impact: each with the rows of its own, in the order of their names.
use eka_ci.Prelude.{
  ℕ, ◌≡◌, refl, ap, ap₂, sym, subst, ◌∙◌, Bool, true, false, ◌||◌, List, [], ◌∷◌, ◌++◌, map, retain,
  retain-append, HashMap, get, insert, remove, keys, contains, get-insert, get-remove, get-nil,
  arith, Bool-cases, inl, inr, eq_refl,
}
use mathlib.Core.List.{append-nil, append_assoc}
use eka_ci.Prelude.Text.{Text, Text_eq}
use eka_ci.Prelude.Ordered.{
  Text_order, IsAscending-unique, btree_collect, btree_collect-contains, btree_collect-IsAscending,
}
use eka_ci.Prelude.Ordered.Sorted.{sort, IsUnique, IsUnique-of_IsAscending, sort-eq-btree_collect}
use eka_ci.Graph.Cache.{LruCache}
use eka_ci.Graph.State.{GraphNode, BuildGraph, or_empty}
use eka_ci.Changes.Summary.{PerSystemImpact}
use eka_ci.Changes.Impact.{
  ImpactRow, push_row, group_from, system_impact, system_impacts, build_rebuild_impact,
}

-- The rows of a system, and the systems of the rows.
abbrev pub rows_of_system : List ImpactRow → Text → List ImpactRow
rows_of_system rows system = retain (λ row. Text_eq.eq row.system system) rows

abbrev pub systems_of : List ImpactRow → List Text
systems_of rows = btree_collect (map (λ row. row.system) rows)

get-push_row :
    (s : Text) (row : ImpactRow) (m : HashMap Text (List ImpactRow))
    → or_empty (get s (push_row row m)) ≡ or_empty (get s m) ++ rows_of_system (row ∷ []) s
unfolding push_row retain
get-push_row s row m =
    let pushed = or_empty (get row.system m) ++ (row ∷ []) in
    elim (Bool-cases (Text_eq.eq row.system s)) [
      | inl same ↦
          rw (get-insert row.system s pushed m, same)
            (ap (λ k. or_empty (get k m) ++ (row ∷ [])) ((Text_eq.eq_iff row.system s).0 same))
      | inr other ↦
          rw (get-insert row.system s pushed m, other) (sym (append-nil (or_empty (get s m))))
    ]

get-group_from :
    (s : Text) (m : HashMap Text (List ImpactRow)) (rows : List ImpactRow)
    → or_empty (get s (group_from m rows)) ≡ or_empty (get s m) ++ rows_of_system rows s
unfolding group_from retain
get-group_from s m [] = sym (append-nil (or_empty (get s m)))
get-group_from s m (row ∷ rows) =
    get-group_from s (push_row row m) rows
    ∙ rw (get-push_row s row m) (
        append_assoc (or_empty (get s m)) (rows_of_system (row ∷ []) s) (rows_of_system rows s)
        ∙ ap (λ rs. or_empty (get s m) ++ rs)
            (sym (retain-append (λ r. Text_eq.eq r.system s) (row ∷ []) rows)))

keys-insert :
    (s t : Text) (v : List ImpactRow) (m : HashMap Text (List ImpactRow))
    → contains (keys (insert s v m)) t ≡ (Text_eq.eq s t || contains (keys m) t)
unfolding contains keys insert
keys-insert s t v [] = refl
keys-insert s t v ((j, w) ∷ m) =
    ground (arith, keys-insert s t v m, Text_eq.eq_iff j s, Text_eq.eq_iff j t, Text_eq.eq_iff s t)

keys-group_from :
    (t : Text) (m : HashMap Text (List ImpactRow)) (rows : List ImpactRow)
    → contains (keys (group_from m rows)) t
      ≡ (contains (map (λ row. row.system) rows) t || contains (keys m) t)
unfolding group_from contains push_row
keys-group_from t m [] = refl
keys-group_from t m (row ∷ rows) =
    keys-group_from t (push_row row m) rows
    ∙ ground (arith, keys-insert row.system t (or_empty (get row.system m) ++ (row ∷ [])) m)

insert-IsUnique :
    (s : Text) (v : List ImpactRow) (m : HashMap Text (List ImpactRow))
    → IsUnique (keys m)
    → IsUnique (keys (insert s v m))
unfolding keys insert contains
insert-IsUnique s v [] h = (refl, tt)
insert-IsUnique s v ((j, w) ∷ m) h = ground (
  arith,
  h.0,
  h.1,
  insert-IsUnique s v m h.1,
  keys-insert s j v m,
  Text_eq.eq_iff j s,
  Text_eq.eq_iff s j,
)

group_from-IsUnique :
    (m : HashMap Text (List ImpactRow)) (rows : List ImpactRow)
    → IsUnique (keys m)
    → IsUnique (keys (group_from m rows))
unfolding group_from push_row
group_from-IsUnique m [] h = h
group_from-IsUnique m (row ∷ rows) h =
    group_from-IsUnique (push_row row m) rows
      (insert-IsUnique row.system (or_empty (get row.system m) ++ (row ∷ [])) m h)

sorted_keys : (rows : List ImpactRow) → sort (keys (group_from [] rows)) ≡ systems_of rows
unfolding keys contains
sorted_keys rows =
    sort-eq-btree_collect (keys (group_from [] rows)) (group_from-IsUnique [] rows tt)
    ∙ IsAscending-unique (btree_collect (keys (group_from [] rows))) (systems_of rows)
        (btree_collect-IsAscending (keys (group_from [] rows)))
        (btree_collect-IsAscending (map (λ row. row.system) rows))
        (λ t.
          rw
            (
              btree_collect-contains t (keys (group_from [] rows)),
              btree_collect-contains t (map (λ row. row.system) rows),
            )
            (ground (arith, keys-group_from t [] rows)))

get-remove_other :
    (s t : Text) (m : HashMap Text (List ImpactRow)) (systems : List Text)
    → contains systems s ≡ false
    → contains systems t ≡ true
    → or_empty (get t (remove s m)) ≡ or_empty (get t m)
get-remove_other s t m systems absent present = elim (Bool-cases (Text_eq.eq s t)) [
  | inl same ↦
      let here = subst (λ k. contains systems k ≡ false) ((Text_eq.eq_iff s t).0 same) absent in
      absurd (ground (arith, here, present))
  | inr other ↦ rw (get-remove s t m, other) refl
]

module _ {C : Type 0} ⦃lru : LruCache GraphNode C⦄ where
  abbrev pub impacts_of :
      BuildGraph C → ℕ → Bool → (Text → List ImpactRow) → List Text → List PerSystemImpact
  impacts_of g max_top full rows = map (λ s. system_impact g max_top full s (rows s))

  -- Taking the rows of other systems out of the map does not change those of a system.
  system_impacts_lem :
      (g : BuildGraph C) (max_top : ℕ) (full : Bool) (m : HashMap Text (List ImpactRow))
      (systems : List Text) (rows : Text → List ImpactRow)
      → IsUnique systems
      → ((s : Text) → contains systems s ≡ true → or_empty (get s m) ≡ rows s)
      → system_impacts g max_top full m systems ≡ impacts_of g max_top full rows systems
  unfolding system_impacts contains
  system_impacts_lem g max_top full m [] rows h same = refl
  system_impacts_lem g max_top full m (s ∷ systems) rows h same =
      ap₂ ◌∷◌ (ap (system_impact g max_top full s) (same s (ground (arith, eq_refl Text_eq s)))) (
        system_impacts_lem g max_top full (remove s m) systems rows h.1
          (λ t p. get-remove_other s t m systems h.0 p ∙ same t (ground (arith, p))))

  -- The rebuild impact has one entry for each system of the rows, in the order of their names, and it
  -- is that of the system's own rows.
  pub build_rebuild_impact-per_system :
      (g : BuildGraph C) (max_top : ℕ) (full : Bool) (rows : List ImpactRow)
      → (build_rebuild_impact g max_top full rows).per_system
        ≡ impacts_of g max_top full (rows_of_system rows) (systems_of rows)
  unfolding build_rebuild_impact
  build_rebuild_impact-per_system g max_top full rows = rw (sorted_keys rows) (
      system_impacts_lem g max_top full (group_from [] rows) (systems_of rows) (rows_of_system rows)
        (IsUnique-of_IsAscending (systems_of rows)
          (btree_collect-IsAscending (map (λ row. row.system) rows)))
        (λ s _. get-group_from s [] rows ∙ rw (get-nil s) refl))
