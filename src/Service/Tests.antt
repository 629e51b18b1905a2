-- ===== src/Service/Tests.antt =====
-- Inputs for the theorems about the graph service.

use eka_ci.Prelude.{
  ◌*◌, ◌≤◌, HashMap, List, All, contains, true, map, ℕ, suc, ◌≡◌, refl, some, [], ◌∷◌, get, ℕ_eq,
}
use eka_ci.Graph.Candidates.{
  default_config, select_candidates, min_age_for_tier, age_at, target_state, state_of,
}
use eka_ci.Service.Startup.Evictable.{IsUnreferenced, select_candidates-IsUnreferenced}
use eka_ci.Drv.{DrvId, queued, building, completed, success}
use eka_ci.Graph.Cache.Listed.{list_cache}
use eka_ci.Graph.State.{BuildGraph, new, get_node, get_drvs_by_state}
use eka_ci.Graph.State as Graph
use eka_ci.Graph.Samples.{Cache, drv, small, broken}
use eka_ci.Service.Startup.{restore, start_service}
use eka_ci.Service.Startup.Restored.{IsSettled, start_service-Mirrors, restore-IsSettled}
use eka_ci.Service.State.{GraphService, GraphDatabase, ok, err, is_buildable}
use eka_ci.Service.Commands.{update_state, handle_command, insert_drvs}
use eka_ci.Service.Mirror.{Mirrors}
use eka_ci.Service.Mirror.Commands.{writes, handle_command-Mirrors, is_buildable_lem}

-- A database that counts the writes, and refuses those of transitive failures.
instance abbrev pub counting : GraphDatabase ℕ
counting = record {
  get_drv = λ d n. ok (some (drv d building));
  get_drv_refs = λ d n. ok [];
  get_drv_dependents = λ d n. ok [];
  update_drv_status = λ d s n. (suc n, ok tt);
  insert_transitive_failures = λ d ds n. (n, err);
  clear_transitive_failures = λ d n. (suc n, ok []);
}

abbrev a_day : ℕ
a_day = 24 * 60 * 60 * 1_000_000_000

abbrev pub idle : GraphService Cache
idle = record { graph = new 8; shared_view = []; last_accessed = []; ref_counts = [] }

idle-Mirrors : Mirrors idle
unfolding new get get_node
idle-Mirrors d = refl

abbrev filled : GraphService Cache
filled =
    (handle_command {D = ℕ} 3 (insert_drvs (drv 1 building ∷ drv 2 queued ∷ []) ((2, 1) ∷ []))
      (idle, 0)).0.0

filled-Mirrors : Mirrors filled
unfolding writes
filled-Mirrors =
    handle_command-Mirrors {D = ℕ} 3
      (insert_drvs (drv 1 building ∷ drv 2 queued ∷ []) ((2, 1) ∷ [])) idle 0 refl idle-Mirrors

handle_command-Mirrors_example :
    Mirrors (handle_command {D = ℕ} 4 (update_state 1 (completed success)) (filled, 0)).0.0
unfolding writes
handle_command-Mirrors_example =
    handle_command-Mirrors {D = ℕ} 4 (update_state 1 (completed success)) filled 0 refl
      filled-Mirrors

is_buildable_lem_example : is_buildable filled.shared_view 2 ≡ Graph.is_buildable filled.graph 2
is_buildable_lem_example = is_buildable_lem filled 2 filled-Mirrors

start_service-Mirrors_example : Mirrors (start_service 3 small)
start_service-Mirrors_example = start_service-Mirrors 3 small

restore-IsSettled_example :
    IsSettled (restore {C = Cache} 3 8 (drv 1 building ∷ drv 2 queued ∷ []) ((2, 1) ∷ []))
restore-IsSettled_example =
    restore-IsSettled Cache 3 8 (drv 1 building ∷ drv 2 queued ∷ []) ((2, 1) ∷ [])

-- By the counts of `broken`, 2 and 1 have a reference each.
select_candidates-IsUnreferenced_example :
    let accessed : HashMap DrvId ℕ = (1, 0) ∷ (2, 50) ∷ (3, 20) ∷ [] in
    All
      (λ c.
        (contains (get_drvs_by_state broken (state_of (target_state c.tier))) c.drv_id ≡ true)
        × IsUnreferenced (list_cache.entries broken.nodes) c.drv_id
        × (min_age_for_tier default_config c.tier ≤ age_at a_day accessed c.drv_id))
      (select_candidates default_config broken accessed (start_service 3 broken).ref_counts a_day 3)
select_candidates-IsUnreferenced_example =
    select_candidates-IsUnreferenced default_config broken 3 a_day ((1, 0) ∷ (2, 50) ∷ (3, 20) ∷ [])
      3

-- The candidate is 3, the only failure that nothing depends on.
broken_selects :
    map
      (λ c. c.drv_id)
      (select_candidates default_config broken
        ((1, 0) ∷ (2, 50) ∷ (3, 20) ∷ [])
        (start_service 3 broken).ref_counts
        a_day
        1)
    ≡ 3 ∷ []
unfolding select_candidates eka_ci.Graph.Candidates.select_from_tiers
    eka_ci.Graph.Candidates.select_from_tier eka_ci.Graph.Candidates.tier_candidates
    eka_ci.Graph.Candidates.sort_by_age eka_ci.Graph.Candidates.admit get_drvs_by_state get
    eka_ci.Drv.eq_state start_service eka_ci.Service.Startup.counts_of
    eka_ci.Service.Startup.count_all eka_ci.Service.Operations.count_up eka_ci.Prelude.insert
    eka_ci.Graph.Candidates.insert_by_age
broken_selects = refl
