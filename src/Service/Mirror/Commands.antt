-- ===== src/Service/Mirror/Commands.antt =====
-- The commands of backend/graph/src/service that write, and what a reader of the mirror sees.

use eka_ci.Prelude.{
  ℕ, ◌≡◌, refl, Bool, true, false, List, [], ◌∷◌, all, Option-cases, inl, inr, arith,
}
use eka_ci.Drv.{DrvId}
use eka_ci.Graph.Cache.{LruCache}
use eka_ci.Graph.State.{GraphNode, BuildGraph, get_node}
use eka_ci.Graph.State as Graph
use eka_ci.Service.State.{CachedNode, from_graph_node, SharedView, GraphService, GraphDatabase}
use eka_ci.Service.State as State
use eka_ci.Service.Commands.{
  GraphCommand, update_state, insert_drvs, propagate_failure, clear_failure, handle_command,
}
use eka_ci.Service.Mirror.{
  Mirrors, update_state-Mirrors, propagate_failure-Mirrors, clear_failure-Mirrors,
}
use eka_ci.Service.Mirror.Loading.{insert_drvs-Mirrors}

-- The commands that change the graph for what they are asked to record.
unfoldable pub writes : GraphCommand → Bool
writes (update_state _ _) = true
writes (insert_drvs _ _) = true
writes (propagate_failure _) = true
writes (clear_failure _) = true
writes _ = false

module _ {C : Type 0} ⦃lru : LruCache GraphNode C⦄ where
  -- After a command that writes, the mirror still holds, for every id, the read-only part of the
  -- graph's node, and nothing where the graph has none. It holds for every outcome of the calls of
  -- the database, and for nodes that the cache evicts on the way.
  pub handle_command-Mirrors :
      {D : Type 0} ⦃db : GraphDatabase D⦄ (now : ℕ) (command : GraphCommand) (st : GraphService C)
      (database : D)
      → writes command ≡ true
      → Mirrors st
      → Mirrors (handle_command now command (st, database)).0.0
  unfolding handle_command writes
  handle_command-Mirrors now (update_state d s) st database w v =
      update_state-Mirrors database st v now d s
  handle_command-Mirrors now (insert_drvs ds refs) st database w v =
      insert_drvs-Mirrors now ds refs st v
  handle_command-Mirrors now (propagate_failure f) st database w v =
      propagate_failure-Mirrors database st v f
  handle_command-Mirrors now (clear_failure f) st database w v =
      clear_failure-Mirrors database st v f
  handle_command-Mirrors now _ st database w v = ground (arith, w)

  all-succeeded :
      (ds : List DrvId) (st : GraphService C)
      → Mirrors st
      → all (State.has_succeeded st.shared_view) ds ≡ all (Graph.succeeded st.graph) ds
  unfolding State.has_succeeded Graph.succeeded all from_graph_node get_node
  all-succeeded [] st v = refl
  all-succeeded (d ∷ ds) st v = elim (Option-cases (get_node st.graph d)) [
    | inl e ↦ ground (arith, v d, all-succeeded ds st v)
    | inr (n, e) ↦ ground (arith, v d, all-succeeded ds st v)
  ]

  -- Where the mirror is right, the reader that asks it whether a derivation may be built gets the
  -- answer that the graph gives.
  pub is_buildable_lem :
      (st : GraphService C) (d : DrvId)
      → Mirrors st
      → State.is_buildable st.shared_view d ≡ Graph.is_buildable st.graph d
  unfolding State.is_buildable Graph.is_buildable from_graph_node get_node
  is_buildable_lem st d v = elim (Option-cases (get_node st.graph d)) [
    | inl e ↦ ground (arith, v d)
    | inr (n, e) ↦ ground (arith, v d, all-succeeded n.dependencies st v)
  ]
