-- ===== src/Service/Commands.antt =====
-- backend/graph/src/service/commands.rs and mod.rs: the commands of the graph service.
use eka_ci.Prelude.{ℕ, suc, ◌%◌, ◌==◌, List, [], ◌∷◌, if◌then◌else◌, HashMap, ℕ_eq, retain}
use eka_ci.Drv.{DrvId, Drv, DrvBuildState, buildable, completed, failure}
use eka_ci.Graph.Cache.{LruCache}
use eka_ci.Graph.State.{
  GraphNode, BuildGraph, get_drvs_by_state, get_dependents, get_dependencies,
  get_failed_dependencies,
}
use eka_ci.Graph.Search.{is_present, reverse_reachable_from_set, blast_radius_per_seed}
use eka_ci.Graph.Failures.{evict_stale_failures}
use eka_ci.Service.State.{GraphService, Result, ok, err, GraphDatabase}
use eka_ci.Service.Operations as Operations

pub data GraphCommand : Type 0 where
  update_state : DrvId → DrvBuildState → GraphCommand
  insert_drvs : List Drv → List (DrvId × DrvId) → GraphCommand
  propagate_failure clear_failure : DrvId → GraphCommand
  get_buildable_drvs get_all_failed_drvs : GraphCommand
  dependents_of dependencies_of failed_dependencies_of : DrvId → GraphCommand
  reverse_reachable blast_radius : List DrvId → GraphCommand

-- What the caller receives: a payload, or an error since the sender was dropped.
pub data Response : Type 0 where
  done dropped : Response
  drvs : List DrvId → Response
  radii : HashMap DrvId ℕ → Response

abbrev pub respond : Result (List DrvId) → Response
respond (ok ds) = drvs ds
respond err = dropped

abbrev pub acknowledge : Result (Unit {0}) → Response
acknowledge (ok _) = done
acknowledge err = dropped

-- `retain` by the key.
retain_present :
    {C V : Type 0} ⦃lru : LruCache GraphNode C⦄ → BuildGraph C → HashMap DrvId V → HashMap DrvId V
retain_present g = retain λ e. is_present g e.0

unfoldable pub prune_stale_tracking_entries :
    {C : Type 0} ⦃lru : LruCache GraphNode C⦄ → GraphService C → GraphService C
unfolding retain_present
prune_stale_tracking_entries st = record st {
  last_accessed = retain_present st.graph st.last_accessed;
  ref_counts = retain_present st.graph st.ref_counts;
}

module _ {C D : Type 0} ⦃lru : LruCache GraphNode C⦄ ⦃db : GraphDatabase D⦄ where
  -- A query for one node, which is loaded first; an error gives the empty reply.
  unfoldable pub query :
      ℕ
      → DrvId
      → (BuildGraph C → DrvId → List DrvId)
      → GraphService C × D
      → (GraphService C × D) × Response
  query now d ask (st, database) =
      let (st', loaded) = Operations.ensure_loaded now d database st in
      ((st', database), elim loaded [ ok _ ↦ drvs (ask st'.graph d) | err ↦ drvs [] ])

  unfoldable pub ensure_all : ℕ → List DrvId → D → GraphService C → GraphService C
  ensure_all now [] database st = st
  ensure_all now (d ∷ ds) database st =
      ensure_all now ds database (Operations.ensure_loaded now d database st).0

  unfoldable pub handle_command :
      ℕ → GraphCommand → GraphService C × D → (GraphService C × D) × Response
  handle_command now (update_state d s) sys =
      let (sys', result) = Operations.update_state now d s sys in (sys', acknowledge result)
  handle_command now (insert_drvs ds refs) (st, database) =
      ((Operations.insert_drvs now ds refs st, database), done)
  handle_command now (propagate_failure f) sys =
      let (sys', result) = Operations.propagate_failure f sys in (sys', respond result)
  handle_command now (clear_failure f) sys =
      let (sys', result) = Operations.clear_failure f sys in (sys', respond result)
  handle_command now get_buildable_drvs (st, database) =
      ((st, database), drvs (get_drvs_by_state st.graph buildable))
  handle_command now get_all_failed_drvs (st, database) =
      ((st, database), drvs (get_drvs_by_state st.graph (completed failure)))
  handle_command now (dependents_of d) sys = query now d get_dependents sys
  handle_command now (dependencies_of d) sys = query now d get_dependencies sys
  handle_command now (failed_dependencies_of d) sys = query now d get_failed_dependencies sys
  handle_command now (reverse_reachable seeds) (st, database) =
      let st' = ensure_all now seeds database st in
      ((st', database), drvs (reverse_reachable_from_set st'.graph seeds))
  handle_command now (blast_radius seeds) (st, database) =
      let st' = ensure_all now seeds database st in
      ((st', database), radii (blast_radius_per_seed st'.graph seeds))

  -- One round of the loop of `run`: the number of commands so far is kept beside the state.
  unfoldable pub run_one : ℕ → GraphCommand → ℕ × GraphService C × D → ℕ × GraphService C × D
  run_one now command (count, st, database) =
      let ((st', database'), _) = handle_command now command (st, database) in
      if suc count % 5000 == 0
      then (let pruned = prune_stale_tracking_entries st' in
          (
            suc count,
            record pruned { graph = (evict_stale_failures now pruned.graph).0 },
            database',
          ))
      else (suc count, st', database')
