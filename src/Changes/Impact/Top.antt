-- ===== src/Changes/Impact/Top.antt =====
-- The entries that a system's ranking keeps.
use eka_ci.Prelude.{
  ℕ, ◌≡◌, refl, ap, ◌∙◌, subst, Bool, true, false, List, [], ◌∷◌, ◌++◌, map, length, skip,
  take-skip, length-take, length-map, ℕ_eq, All, All-map, arith, min, contains, ==-refl,
}
use mathlib.Core.List.{Perm}
use eka_ci.Prelude.Text.{Text}
use eka_ci.Prelude.Ordered.SortBy.{
  sort_by, IsWeak, IsSortedBy, IsLeast, sort_by-Perm, length-sort_by, sort_by-IsSortedBy,
  take-IsSortedBy, take-IsLeast-skip,
}
use eka_ci.Drv.{DrvId}
use eka_ci.Graph.Cache.{LruCache}
use eka_ci.Graph.State.{GraphNode, BuildGraph}
use eka_ci.Graph.Search.{blast_radius, blast_radius_per_seed}
use eka_ci.Graph.Search.Radii.{get-blast_radius_per_seed}
use eka_ci.Changes.Summary.{TopBlastRadiusEntry}
use eka_ci.Changes.Impact.{
  ImpactRow, searched, entry_of, comes_before, at_least_one, all_entries, system_impact,
}

comes_before-asym : (a b : TopBlastRadiusEntry) → comes_before a b ≡ true → comes_before b a ≡ false
unfolding comes_before
comes_before-asym a b h = ground (arith, h)

comes_before-at_most_trans :
    (a b c : TopBlastRadiusEntry)
    → comes_before b a ≡ false
    → comes_before c b ≡ false
    → comes_before c a ≡ false
unfolding comes_before
comes_before-at_most_trans a b c p q = ground (arith, p, q)

pub comes_before-IsWeak : IsWeak comes_before
comes_before-IsWeak = record {
  asym = comes_before-asym;
  at_most_trans = comes_before-at_most_trans;
}

rows-contained :
    (rows : List ImpactRow)
    → All (λ row. contains (map (λ r. r.drv_path) rows) row.drv_path ≡ true) rows
unfolding contains
rows-contained [] = tt
rows-contained (row ∷ rows) = (
  ground (arith, ==-refl row.drv_path),
  All-map (λ r p. ground (arith, p)) rows (rows-contained rows),
)

module _ {C : Type 0} ⦃lru : LruCache GraphNode C⦄ where
  -- The entry of a row, with the radius that the graph gives.
  abbrev pub entry_in : BuildGraph C → ImpactRow → TopBlastRadiusEntry
  entry_in g row = record {
    pname = row.pname;
    drv_path = row.drv_path;
    blast_radius = blast_radius g row.drv_path;
  }

  radii_of_seeds :
      (g : BuildGraph C) (seeds : List DrvId) (row : ImpactRow)
      → contains seeds row.drv_path ≡ true
      → entry_of (blast_radius_per_seed g seeds) row ≡ entry_in g row
  unfolding entry_of
  radii_of_seeds g seeds row h = rw (get-blast_radius_per_seed g seeds row.drv_path, h) refl

  map-entry_of :
      (g : BuildGraph C) (seeds : List DrvId) (rows : List ImpactRow)
      → All (λ row. contains seeds row.drv_path ≡ true) rows
      → map (entry_of (blast_radius_per_seed g seeds)) rows ≡ map (entry_in g) rows
  map-entry_of g seeds [] h = refl
  map-entry_of g seeds (row ∷ rows) h =
      rw (radii_of_seeds g seeds row h.0, map-entry_of g seeds rows h.1) refl

  all_entries_lem :
      (g : BuildGraph C) (rows : List ImpactRow) → all_entries g rows ≡ map (entry_in g) rows
  unfolding all_entries
  all_entries_lem g rows =
      map-entry_of g (map (λ row. row.drv_path) rows) rows (rows-contained rows)

  -- The ranking of a system holds entries of the rows that are searched, each with the radius that the
  -- graph gives its derivation: as many as the cap, or one if that is zero, but no more than there are
  -- rows. It is sorted, the largest radius first and then by path, and no entry that is left out comes
  -- before one of them.
  pub system_impact-IsSortedBy :
      (g : BuildGraph C) (max_top : ℕ) (full : Bool) (system : Text) (rows : List ImpactRow)
      → (dropped : List TopBlastRadiusEntry) × Perm
          ((system_impact g max_top full system rows).top_blast_radius ++ dropped)
          (map (entry_in g) (searched full rows))
        × All
            (λ e. IsLeast comes_before e dropped)
            (system_impact g max_top full system rows).top_blast_radius
        × IsSortedBy comes_before (system_impact g max_top full system rows).top_blast_radius
        × (length (system_impact g max_top full system rows).top_blast_radius
            ≡ min (at_least_one max_top) (length (searched full rows)))
  unfolding system_impact
  system_impact-IsSortedBy g max_top full system rows =
      let seeds = searched full rows in
      let sorted = sort_by comes_before (all_entries g seeds) in
      let ordered = sort_by-IsSortedBy comes_before comes_before-IsWeak (all_entries g seeds) in
      let n = at_least_one max_top in
      let counted : length (all_entries g seeds) ≡ length seeds =
        rw (all_entries_lem g seeds) (length-map (entry_in g) seeds) in
      (
        skip n sorted,
        rw (take-skip n sorted) (
            subst (λ es. Perm sorted es) (all_entries_lem g seeds)
              (sort_by-Perm comes_before (all_entries g seeds))),
        take-IsLeast-skip comes_before n sorted ordered,
        take-IsSortedBy comes_before n sorted ordered,
        length-take n sorted
            ∙ ap (λ (k : ℕ). min n k) (length-sort_by comes_before (all_entries g seeds) ∙ counted),
      )
