-- ===== src/Graph/Tests.antt =====
-- Inputs for the theorems about the graph.
use eka_ci.Prelude.{
  ℕ, ◌≡◌, ◌≢◌, ◌↔◌, ◌≤◌, ◌*◌, ◌-◌, ◌^◌, ◌&&◌, refl, true, not, none, some, [], ◌∷◌, get, contains,
  arith, length, if◌then◌else◌, ℕ_eq,
}
use eka_ci.Drv.{
  DrvId, DrvBuildState, DrvBuildState_eq, queued, building, completed, failure, transitive_failure,
  eq_state,
}
use eka_ci.Graph.Cache.Listed.{list_cache}
use eka_ci.Graph.State.{
  BuildGraph, new, get_node, get_drvs_by_state, insert_node, update_state, set_state,
}
use eka_ci.Graph.Search.{Search, loop, fuel_for, search, get_all_transitive_dependents}
use eka_ci.Graph.Search.Ends.{search_returns}
use eka_ci.Graph.Search.Reachable.{IsDistinct, Reach, get_all_transitive_dependents_reach}
use eka_ci.Graph.Failures.{block, unblock, propagate_failure, clear_failure, evict_stale_failures}
use eka_ci.Graph.Failures.Spread.{is_free, propagate_failure_blocks, clear_failure_unblocks}
use eka_ci.Graph.Failures.Aging.{evict_stale_failures_strands}
use eka_ci.Graph.Index.{IsIndexed}
use eka_ci.Graph.Index.Steps.{Unlisted, inserts, updates, Run, start, next, run-IsIndexed}
use eka_ci.Graph.Candidates.{tier1, tier2, tier3, EvictionTier, target_state, state_of}
use eka_ci.Graph.Samples.{Cache, small, broken, full, node, drv}

get_all_transitive_dependents_reach_example :
    IsDistinct (get_all_transitive_dependents small 1)
    × ((v : DrvId)
        → (contains (get_all_transitive_dependents small 1) v ≡ true)
          ↔ ((v ≢ 1) × Reach small (1 ∷ []) v))
get_all_transitive_dependents_reach_example = get_all_transitive_dependents_reach small 1

abbrev from_one : Search
from_one = record { visited = 1 ∷ []; queue = 1 ∷ [] }

search_returns_example :
    loop small (fuel_for small from_one) from_one ≡ some (search small from_one)
search_returns_example = search_returns small from_one

propagate_failure_blocks_example :
    ((contains (propagate_failure 1 small).1 3 ≡ true)
      ↔ ((◌≢◌ {A = DrvId} 3 1) × Reach small (1 ∷ []) 3))
    × (get_node (propagate_failure 1 small).0 3
        ≡ some (
            if contains (propagate_failure 1 small).1 3
            then block 1 (node 3 queued (2 ∷ []) [] [])
            else node 3 queued (2 ∷ []) [] []))
    × (get 1 (propagate_failure 1 small).0.transitive_failure_map
        ≡ some (propagate_failure 1 small).1)
unfolding get_node get
propagate_failure_blocks_example =
    propagate_failure_blocks 1 3 small (node 3 queued (2 ∷ []) [] []) refl

clear_failure_unblocks_example :
    (contains (clear_failure 1 broken).1 3 ≡ (
      contains {A = DrvId} (2 ∷ 3 ∷ []) 3
      && is_free 1 (node 3 transitive_failure (2 ∷ []) [] (1 ∷ []))))
    × (get_node (clear_failure 1 broken).0 3
        ≡ some (
            if not (contains {A = DrvId} (2 ∷ 3 ∷ []) 3)
            then node 3 transitive_failure (2 ∷ []) [] (1 ∷ [])
            else if is_free 1 (node 3 transitive_failure (2 ∷ []) [] (1 ∷ []))
            then set_state queued (unblock 1 (node 3 transitive_failure (2 ∷ []) [] (1 ∷ [])))
            else unblock 1 (node 3 transitive_failure (2 ∷ []) [] (1 ∷ []))))
    × (clear_failure 1 (clear_failure 1 broken).0 ≡ ((clear_failure 1 broken).0, []))
unfolding get_node get
clear_failure_unblocks_example =
    clear_failure_unblocks 1 3 broken (node 3 transitive_failure (2 ∷ []) [] (1 ∷ [])) (2 ∷ 3 ∷ [])
      refl refl

abbrev two_days : ℕ
two_days = 2 * 24 * 60 * 60 * 1_000_000_000

evict_stale_failures_strands_example :
    (get 1 (evict_stale_failures two_days broken).0.failed_drvs ≡ none)
    × ((j : DrvId) → get_node (evict_stale_failures two_days broken).0 j ≡ get_node broken j)
    × (clear_failure 1 (evict_stale_failures two_days broken).0
        ≡ ((evict_stale_failures two_days broken).0, []))
unfolding get
evict_stale_failures_strands_example =
    evict_stale_failures_strands two_days broken 1 1000 refl (omega arith)

empty-Unlisted : (capacity : ℕ) (t : DrvBuildState) → Unlisted (new {C = Cache} capacity) (drv 1 t)
unfolding new get_drvs_by_state get contains
empty-Unlisted capacity t s h = ground (arith, h)

abbrev grown : BuildGraph Cache
grown = update_state 5 1 (completed failure) (insert_node 3 (drv 1 queued) (new 8)).0

grown-Run : Run (new {C = Cache} 8) grown
grown-Run =
    next (next start (inserts 3 (drv 1 queued) (empty-Unlisted 8 queued)))
      (updates 5 1 (completed failure))

run-IsIndexed_example : IsIndexed grown
run-IsIndexed_example = run-IsIndexed 8 grown grown-Run

abbrev a_day : ℕ
a_day = 24 * 60 * 60 * 1_000_000_000

broken_fits :
    (tier : EvictionTier)
    → length (get_drvs_by_state broken (state_of (target_state tier))) ≤ 2 ^ 64 - 1
unfolding get_drvs_by_state get eq_state
broken_fits tier1 = omega arith
broken_fits tier2 = omega arith
broken_fits tier3 = omega arith

full-Run : Run (new {C = Cache} 1) full
full-Run = next start (inserts 0 (drv 1 building) (empty-Unlisted 1 building))
