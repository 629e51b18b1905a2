-- ===== src/Service/Startup.antt =====
-- `BuildGraph::from_database` of backend/graph/src/graph.rs and `GraphService::new` of
-- backend/graph/src/service/mod.rs: the service at the start of the server.
pub mod Restored
pub mod Evictable
use eka_ci.Prelude.{ℕ, Bool, true, false, List, [], ◌∷◌, HashMap, get, insert, ℕ_eq, keys}
use eka_ci.Drv.{DrvId, Drv, DrvBuildState, queued, buildable, building}
use eka_ci.Graph.Cache.{LruCache}
use eka_ci.Graph.State.{GraphNode, BuildGraph, new, insert_node, add_edge}
use eka_ci.Graph.Failures.{propagate_failure}
use eka_ci.Service.State.{from_graph_node, SharedView, GraphService, Result, ok, err}
use eka_ci.Service.Operations.{count_up}

abbrev pub normalize_state : DrvBuildState → DrvBuildState
normalize_state building = queued
normalize_state buildable = queued
normalize_state s = s

abbrev pub normalize : Drv → Drv
normalize drv = record drv {
  build_state = normalize_state drv.build_state;
  prefer_local_build = false;
}

-- The loop over the dependencies of a node.
unfoldable pub count_all : List DrvId → HashMap DrvId ℕ → HashMap DrvId ℕ
count_all [] m = m
count_all (d ∷ ds) m = count_all ds (count_up d m)

-- The loop over the nodes, for the three maps. Each id is among the nodes once, so that their order
-- does not matter.
unfoldable pub view_of : List (DrvId × GraphNode) → SharedView
view_of [] = []
view_of ((d, n) ∷ nodes) = insert d (from_graph_node n) (view_of nodes)

unfoldable pub accessed_of : ℕ → List (DrvId × GraphNode) → HashMap DrvId ℕ
accessed_of now [] = []
accessed_of now ((d, n) ∷ nodes) = insert d now (accessed_of now nodes)

unfoldable pub counts_of : List (DrvId × GraphNode) → HashMap DrvId ℕ
counts_of [] = []
counts_of ((d, n) ∷ nodes) = count_all n.dependencies (counts_of nodes)

module _ {C : Type 0} ⦃lru : LruCache GraphNode C⦄ where
  unfoldable pub insert_nodes : ℕ → List Drv → BuildGraph C → BuildGraph C
  insert_nodes now [] g = g
  insert_nodes now (drv ∷ drvs) g = insert_nodes now drvs (insert_node now (normalize drv) g).0

  unfoldable pub add_edges : List (DrvId × DrvId) → BuildGraph C → BuildGraph C
  add_edges [] g = g
  add_edges ((referrer, reference) ∷ refs) g = add_edges refs (add_edge referrer reference g)

  unfoldable pub propagate_all : List DrvId → BuildGraph C → BuildGraph C
  propagate_all [] g = g
  propagate_all (f ∷ fs) g = propagate_all fs (propagate_failure f g).0

  unfoldable pub restore : ℕ → ℕ → List Drv → List (DrvId × DrvId) → BuildGraph C
  restore now capacity drvs refs =
      let g = add_edges refs (insert_nodes now drvs (new capacity)) in
      propagate_all (keys g.failed_drvs) g

  -- The two reads from the database are arguments.
  unfoldable pub from_database :
      ℕ → ℕ → Result (List Drv) → Result (List (DrvId × DrvId)) → Result (BuildGraph C)
  from_database now capacity err refs = err
  from_database now capacity (ok drvs) err = err
  from_database now capacity (ok drvs) (ok refs) = ok (restore now capacity drvs refs)

  unfoldable pub start_service : ℕ → BuildGraph C → GraphService C
  start_service now g = record {
    graph = g;
    shared_view = view_of (lru.entries g.nodes);
    last_accessed = accessed_of now (lru.entries g.nodes);
    ref_counts = counts_of (lru.entries g.nodes);
  }
