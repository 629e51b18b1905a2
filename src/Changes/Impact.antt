-- ===== src/Changes/Impact.antt =====
-- backend/change_summary/src/impact.rs: the rebuild impact of the changed derivations of a jobset, and
-- the headline that cache.rs stores with it. The rows are those that the database returns.
mod Tests
pub mod Top
pub mod Systems
use eka_ci.Prelude.{
  ℕ, ◌+◌, Bool, not, ◌&&◌, ◌||◌, Option, none, some, List, [], ◌∷◌, ◌++◌, map, if◌then◌else◌, ltb,
  ◌==◌, length, take, HashMap, get, insert, remove, keys, ℕ_eq,
}
use eka_ci.Prelude.Text.{Text, Text_eq}
use eka_ci.Prelude.Ordered.{Text_order}
use eka_ci.Prelude.Ordered.Sorted.{sort}
use eka_ci.Prelude.Ordered.SortBy.{sort_by}
use eka_ci.Drv.{DrvId}
use eka_ci.Graph.Cache.{LruCache}
use eka_ci.Graph.State.{GraphNode, BuildGraph, or_empty}
use eka_ci.Graph.Search.{blast_radius_per_seed, reverse_reachable_from_set}
use eka_ci.Changes.Names.{unwrap_or}
use eka_ci.Changes.Summary.{TopBlastRadiusEntry, PerSystemImpact, ChangeSummaryRebuildImpact}

abbrev pub max_bfs_seeds : ℕ
max_bfs_seeds = 50

pub record ImpactRow : Type 0 where
  pub drv_path : DrvId
  pub pname : Option Text
  pub system : Text

-- `entry(system).or_default().push(row)`.
unfoldable pub push_row : ImpactRow → HashMap Text (List ImpactRow) → HashMap Text (List ImpactRow)
push_row row m = insert row.system (or_empty (get row.system m) ++ (row ∷ [])) m

unfoldable pub group_from :
    HashMap Text (List ImpactRow) → List ImpactRow → HashMap Text (List ImpactRow)
group_from m [] = m
group_from m (row ∷ rows) = group_from (push_row row m) rows

-- The rows that may be searched from: all of them, or the first ones by path in seeds-only mode.
unfoldable pub searched : Bool → List ImpactRow → List ImpactRow
searched full_blast_radius rows =
    if not full_blast_radius && ltb max_bfs_seeds (length rows)
    then take max_bfs_seeds (sort_by (λ a b. ltb a.drv_path b.drv_path) rows)
    else rows

unfoldable pub entry_of : HashMap DrvId ℕ → ImpactRow → TopBlastRadiusEntry
entry_of radii row = record {
  pname = row.pname;
  drv_path = row.drv_path;
  blast_radius = unwrap_or (get row.drv_path radii) 0;
}

-- The largest radius first, then by path.
unfoldable pub comes_before : TopBlastRadiusEntry → TopBlastRadiusEntry → Bool
comes_before a b =
    ltb b.blast_radius a.blast_radius
    || ((a.blast_radius == b.blast_radius) && ltb a.drv_path b.drv_path)

-- `max(1)`.
abbrev pub at_least_one : ℕ → ℕ
at_least_one n = if ltb n 1 then 1 else n

module _ {C : Type 0} ⦃lru : LruCache GraphNode C⦄ where
  unfoldable pub all_entries : BuildGraph C → List ImpactRow → List TopBlastRadiusEntry
  all_entries g rows =
      let radii = blast_radius_per_seed g (map (λ row. row.drv_path) rows) in
      map (entry_of radii) rows

  -- One round of the loop over the systems.
  unfoldable pub system_impact : BuildGraph C → ℕ → Bool → Text → List ImpactRow → PerSystemImpact
  system_impact g max_top_blast_radius full_blast_radius system rows = record {
    system = system;
    rebuild_count = length rows;
    top_blast_radius =
        take (at_least_one max_top_blast_radius)
          (sort_by comes_before (all_entries g (searched full_blast_radius rows)));
  }

  -- The loop over the sorted systems, which takes the rows of each out of the map.
  unfoldable pub system_impacts :
      BuildGraph C → ℕ → Bool → HashMap Text (List ImpactRow) → List Text → List PerSystemImpact
  system_impacts g max_top full seeds_by_system [] = []
  system_impacts g max_top full seeds_by_system (system ∷ systems) =
      system_impact g max_top full system (or_empty (get system seeds_by_system))
      ∷ system_impacts g max_top full (remove system seeds_by_system) systems

  unfoldable pub build_rebuild_impact :
      BuildGraph C → ℕ → Bool → List ImpactRow → ChangeSummaryRebuildImpact
  build_rebuild_impact g max_top full rows =
      let seeds_by_system = group_from [] rows in
      record {
        per_system = system_impacts g max_top full seeds_by_system (sort (keys seeds_by_system));
        total_unique_drvs = length (reverse_reachable_from_set g (map (λ row. row.drv_path) rows));
      }

-- The headline of `cache::upsert`: the number of rebuilds, and the largest radius with its path.
unfoldable pub rebuild_total : List PerSystemImpact → ℕ
rebuild_total [] = 0
rebuild_total (s ∷ systems) = s.rebuild_count + rebuild_total systems

unfoldable pub better : Option (DrvId × ℕ) → TopBlastRadiusEntry → Option (DrvId × ℕ)
better none entry = some (entry.drv_path, entry.blast_radius)
better (some (cur_drv, cur_radius)) entry =
    if ltb cur_radius entry.blast_radius
      || ((entry.blast_radius == cur_radius) && ltb entry.drv_path cur_drv)
    then some (entry.drv_path, entry.blast_radius)
    else some (cur_drv, cur_radius)

unfoldable pub best : Option (DrvId × ℕ) → List TopBlastRadiusEntry → Option (DrvId × ℕ)
best top [] = top
best top (entry ∷ entries) = best (better top entry) entries

unfoldable pub critical_path : Option (DrvId × ℕ) → List PerSystemImpact → Option (DrvId × ℕ)
critical_path top [] = top
critical_path top (s ∷ systems) = critical_path (best top s.top_blast_radius) systems
