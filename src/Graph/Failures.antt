-- ===== src/Graph/Failures.antt =====
-- backend/graph/src/graph.rs: how failures spread to the dependents of a derivation, are cleared,
-- and are forgotten.
pub mod Spread
pub mod Aging
use eka_ci.Prelude.{
  ℕ, zero, suc, ◌+◌, Bool, true, false, Option, none, some, List, [], ◌∷◌, ◌++◌, if◌then◌else◌,
  HashMap, get, insert, remove, contains, set_insert, set_remove, ℕ_eq, length, ltb, is_empty,
}
use eka_ci.Drv.{DrvId, DrvBuildState, DrvBuildState_eq, queued, transitive_failure}
use eka_ci.Graph.Cache.{LruCache}
use eka_ci.Graph.State.{GraphNode, BuildGraph, StateIndex, set_state, index_insert, index_remove}
use eka_ci.Graph.Search.{get_all_transitive_dependents}

abbrev pub block : DrvId → GraphNode → GraphNode
block failed n = record n {
  build_state = transitive_failure;
  blocking_failures = set_insert failed n.blocking_failures;
}

abbrev pub unblock : DrvId → GraphNode → GraphNode
unblock failed n = record n { blocking_failures = set_remove failed n.blocking_failures }

-- The entries older than `failure_ttl`: their time is before `now - failure_ttl`.
unfoldable pub stale : ℕ → ℕ → HashMap DrvId ℕ → List DrvId
stale now ttl [] = []
stale now ttl ((d, ts) ∷ m) = if ltb (ts + ttl) now then d ∷ stale now ttl m else stale now ttl m

unfoldable pub remove_all {ℓ} : {V : Type ℓ} → List DrvId → HashMap DrvId V → HashMap DrvId V
remove_all [] m = m
remove_all (d ∷ ds) m = remove_all ds (remove d m)

module _ {C : Type 0} ⦃lru : LruCache GraphNode C⦄ where
  -- The body of the loop of `propagate_failure`.
  unfoldable pub mark_blocked : DrvId → DrvId → BuildGraph C → BuildGraph C
  mark_blocked failed d g = record g {
    nodes = lru.modify d (block failed) g.nodes;
    by_state = index_insert transitive_failure d (elim (lru.peek d g.nodes) [
      | none ↦ g.by_state
      | some node ↦ index_remove node.build_state d g.by_state
    ]);
  }

  unfoldable pub mark_all : DrvId → List DrvId → BuildGraph C → BuildGraph C
  mark_all failed [] g = g
  mark_all failed (d ∷ ds) g = mark_all failed ds (mark_blocked failed d g)

  unfoldable pub propagate_failure : DrvId → BuildGraph C → BuildGraph C × List DrvId
  propagate_failure failed g =
      let blocked = get_all_transitive_dependents g failed in
      let g' = mark_all failed blocked g in
      (
        record g' { transitive_failure_map = insert failed blocked g'.transitive_failure_map },
        blocked,
      )

  -- The body of the loop of `clear_failure`; what it pushes to `unblocked` comes second.
  unfoldable pub clear_one : DrvId → DrvId → BuildGraph C → BuildGraph C × List DrvId
  clear_one failed d g = elim (lru.peek d g.nodes) [
    | none ↦ (g, [])
    | some node ↦
        let nodes = lru.modify d (unblock failed) g.nodes in
        if is_empty (set_remove failed node.blocking_failures)
        then (
          record g {
            nodes = lru.modify d (set_state queued) nodes;
            by_state = index_insert queued d (index_remove node.build_state d g.by_state);
          },
          d ∷ [],
        )
        else (record g { nodes = nodes }, [])
  ]

  unfoldable pub clear_all : DrvId → List DrvId → BuildGraph C → BuildGraph C × List DrvId
  clear_all failed [] g = (g, [])
  clear_all failed (d ∷ ds) g =
      let (g', one) = clear_one failed d g in
      let (g'', more) = clear_all failed ds g' in (g'', one ++ more)

  unfoldable pub clear_failure : DrvId → BuildGraph C → BuildGraph C × List DrvId
  clear_failure failed g = elim (get failed g.transitive_failure_map) [
    | none ↦ (g, [])
    | some blocked ↦
        clear_all failed blocked
          (record g { transitive_failure_map = remove failed g.transitive_failure_map })
  ]

unfoldable pub evict_stale_failures : {C : Type 0} → ℕ → BuildGraph C → BuildGraph C × ℕ
evict_stale_failures now g =
    let old = stale now g.failure_ttl g.failed_drvs in
    (
      record g {
        failed_drvs = remove_all old g.failed_drvs;
        transitive_failure_map = remove_all old g.transitive_failure_map;
      },
      length old,
    )
