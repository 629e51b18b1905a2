-- ===== src/Graph/Eviction.antt =====
-- What becomes of a node that the cache of backend/graph/src/graph.rs gives up.
use eka_ci.Prelude.{ℕ, ◌≡◌, ◌≢◌, true, none, some, contains, contains-set_insert, ℕ_eq, arith}
use eka_ci.Drv.{DrvId, Drv, eq_state_iff}
use eka_ci.Graph.Cache.{LruCache}
use eka_ci.Graph.State.{GraphNode, BuildGraph, from_drv, get_node, get_drvs_by_state, insert_node}
use eka_ci.Graph.Index.{listed-index_insert, IsIndexed}

-- To insert a node may push out any other one, a pinned one too. The node is then gone from the
-- graph, while its id stays in the set of pinned ids and in the index under the state that it had.
pub insert_node_evicts :
    {C : Type 0} ⦃lru : LruCache GraphNode C⦄ (now : ℕ) (drv : Drv) (g : BuildGraph C) (d : DrvId)
    (n : GraphNode)
    → (insert_node now drv g).1 ≡ some (d, n)
    → drv.drv_path ≢ d
    → IsIndexed g
    → contains g.pinned d ≡ true
    → let g' = (insert_node now drv g).0 in
      (get_node g d ≡ some n)
      × (get_node g' d ≡ none)
      × (contains g'.pinned d ≡ true)
      × (contains (get_drvs_by_state g' n.build_state) d ≡ true)
unfolding insert_node get_node get_drvs_by_state
insert_node_evicts ⦃lru⦄ now drv g d n e ne v p =
    let id = drv.drv_path in
    ground (
      arith,
      lru.push-evicted id d (from_drv drv) n g.nodes e,
      lru.peek-push_evicted id d d (from_drv drv) n g.nodes e ne,
      contains-set_insert id d g.pinned,
      listed-index_insert drv.build_state n.build_state id d g.by_state,
      v d n n.build_state,
      eq_state_iff n.build_state n.build_state,
    )
