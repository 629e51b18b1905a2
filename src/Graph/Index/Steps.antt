-- ===== src/Graph/Index/Steps.antt =====
-- Every operation of backend/graph/src/graph.rs keeps the index by state.

use eka_ci.Prelude.{
  ℕ, ◌≡◌, refl, ap, true, List, [], ◌∷◌, get, contains, set_remove, is_empty, remove, ℕ_eq, arith,
  Option-cases, Bool-cases, inl, inr, ==_iff,
}
use eka_ci.Drv.{
  DrvId, Drv, DrvBuildState, DrvBuildState_eq, eq_state_iff, queued, transitive_failure,
}
use native.Mathlib.Decide.{ℕ_discrete}
use eka_ci.Graph.Cache.{LruCache, peek-push_before}
use eka_ci.Graph.State.{
  GraphNode, BuildGraph, from_drv, set_state, get_drvs_by_state, insert_node, add_edge,
  update_state, get_node, push_new, new,
}
use eka_ci.Graph.Failures.{
  block, unblock, mark_blocked, mark_all, propagate_failure, clear_one, clear_all, clear_failure,
  evict_stale_failures,
}
use eka_ci.Graph.Search.{get_all_transitive_dependents}
use eka_ci.Graph.Index.{listed, listed-index_insert, IsIndexed, move-IsIndexed}

module _ {C : Type 0} ⦃lru : LruCache GraphNode C⦄ where
  -- A write that leaves the state of the node alone.
  modify-IsIndexed :
      (d : DrvId) (f : GraphNode → GraphNode) (g : BuildGraph C)
      → ((n : GraphNode) → (f n).build_state ≡ n.build_state)
      → IsIndexed g
      → IsIndexed (record g { nodes = lru.modify d f g.nodes })
  unfolding get_node get_drvs_by_state
  modify-IsIndexed d f g same h e n s held = elim (Option-cases (lru.peek e g.nodes)) [
    | inl gone ↦ ground (arith, lru.peek-modify d e f g.nodes)
    | inr (m, there) ↦ ground (arith, lru.peek-modify d e f g.nodes, h e m s, same m)
  ]

  add_edge-IsIndexed : (a b : DrvId) (g : BuildGraph C) → IsIndexed g → IsIndexed (add_edge a b g)
  unfolding add_edge get_node get_drvs_by_state
  add_edge-IsIndexed a b g h =
      modify-IsIndexed b (λ n. record n { dependents = push_new a n.dependents })
        (record g {
          nodes = lru.modify a (λ n. record n { dependencies = push_new b n.dependencies }) g.nodes;
        })
        (λ _. refl)
        (modify-IsIndexed a (λ n. record n { dependencies = push_new b n.dependencies }) g
          (λ _. refl) h)

  update_state-IsIndexed :
      (now : ℕ) (d : DrvId) (s : DrvBuildState) (g : BuildGraph C)
      → IsIndexed g
      → IsIndexed (update_state now d s g)
  unfolding update_state get_node get_drvs_by_state
  update_state-IsIndexed now d s g h = elim (Option-cases (lru.peek d g.nodes)) [
    | inl e ↦ rw (e, update_state) h
    | inr (n, e) ↦ rw (e, update_state) (move-IsIndexed g d n (set_state s) s (λ _. refl) e h)
  ]

  mark_blocked-IsIndexed :
      (f d : DrvId) (g : BuildGraph C) → IsIndexed g → IsIndexed (mark_blocked f d g)
  unfolding mark_blocked get_node get_drvs_by_state
  mark_blocked-IsIndexed f d g h = elim (Option-cases (lru.peek d g.nodes)) [
    | inl e ↦
        rw (e, mark_blocked)
          λ j n s held. ground (
            arith,
            lru.peek-modify d j (block f) g.nodes,
            listed-index_insert transitive_failure s d j g.by_state,
            h j n s,
            ==_iff d j,
          )
    | inr (n, e) ↦
        rw (e, mark_blocked) (move-IsIndexed g d n (block f) transitive_failure (λ _. refl) e h)
  ]

  mark_all-IsIndexed :
      (f : DrvId) (ds : List DrvId) (g : BuildGraph C) → IsIndexed g → IsIndexed (mark_all f ds g)
  unfolding mark_all
  mark_all-IsIndexed f [] g h = h
  mark_all-IsIndexed f (d ∷ ds) g h =
      mark_all-IsIndexed f ds (mark_blocked f d g) (mark_blocked-IsIndexed f d g h)

  clear_one-IsIndexed :
      (f d : DrvId) (g : BuildGraph C) → IsIndexed g → IsIndexed (clear_one f d g).0
  unfolding clear_one get_node get_drvs_by_state
  clear_one-IsIndexed f d g h = elim (Option-cases (lru.peek d g.nodes)) [
    | inl e ↦ rw (e, clear_one) h
    | inr (n, e) ↦ elim (Bool-cases (is_empty (set_remove f n.blocking_failures))) [
      | inl free ↦
          rw (e, clear_one)
            (rw free (
              move-IsIndexed (record g { nodes = lru.modify d (unblock f) g.nodes }) d (unblock f n)
                (set_state queued) queued (λ _. refl)
                (ground (arith, lru.peek-modify d d (unblock f) g.nodes))
                (modify-IsIndexed d (unblock f) g (λ _. refl) h)))
      | inr held ↦ rw (e, clear_one) (rw held (modify-IsIndexed d (unblock f) g (λ _. refl) h))
    ]
  ]

  clear_all-IsIndexed :
      (f : DrvId) (ds : List DrvId) (g : BuildGraph C)
      → IsIndexed g
      → IsIndexed (clear_all f ds g).0
  unfolding clear_all
  clear_all-IsIndexed f [] g h = h
  clear_all-IsIndexed f (d ∷ ds) g h =
      clear_all-IsIndexed f ds (clear_one f d g).0 (clear_one-IsIndexed f d g h)

  propagate_failure-IsIndexed :
      (f : DrvId) (g : BuildGraph C) → IsIndexed g → IsIndexed (propagate_failure f g).0
  unfolding propagate_failure get_node get_drvs_by_state
  propagate_failure-IsIndexed f g h = mark_all-IsIndexed f (get_all_transitive_dependents g f) g h

  clear_failure-IsIndexed :
      (f : DrvId) (g : BuildGraph C) → IsIndexed g → IsIndexed (clear_failure f g).0
  unfolding clear_failure get_node get_drvs_by_state
  clear_failure-IsIndexed f g h = elim (Option-cases (get f g.transitive_failure_map)) [
    | inl e ↦ rw (e, clear_failure) h
    | inr (ds, e) ↦
        rw (e, clear_failure)
          (clear_all-IsIndexed f ds
            (record g { transitive_failure_map = remove f g.transitive_failure_map }) h)
  ]

  -- The id of the new node is listed under no other state.
  abbrev pub Unlisted : BuildGraph C → Drv → Type 0
  Unlisted g drv =
      (s : DrvBuildState)
      → contains (get_drvs_by_state g s) drv.drv_path ≡ true
      → s ≡ drv.build_state

  insert_node-IsIndexed :
      (now : ℕ) (drv : Drv) (g : BuildGraph C)
      → Unlisted g drv
      → IsIndexed g
      → IsIndexed (insert_node now drv g).0
  unfolding insert_node from_drv get_node get_drvs_by_state
  insert_node-IsIndexed now drv g fresh h d n s held =
      let id = drv.drv_path in
      let listing = listed-index_insert drv.build_state s id d g.by_state in
      elim (ℕ_discrete id d) [
        | yes same ↦ ground (
          arith,
          listing,
          lru.peek-push_self id (from_drv drv) g.nodes,
          fresh s,
          eq_state_iff drv.build_state s,
          ap (λ (k : ℕ). lru.peek k (lru.push id (from_drv drv) g.nodes).0) same,
          ap (λ (k : ℕ). listed g.by_state s k) same,
        )
        | no other ↦ ground (
          arith,
          listing,
          h d n s (peek-push_before id d (from_drv drv) n g.nodes other held),
          ==_iff id d,
        )
      ]

  -- The operations that change a graph, with the conditions under which they are considered.
  pub data Step (g : BuildGraph C) : BuildGraph C → Type 0 where
    inserts : (now : ℕ) (drv : Drv) → Unlisted g drv → Step g (insert_node now drv g).0
    links : (a b : DrvId) → Step g (add_edge a b g)
    updates : (now : ℕ) (d : DrvId) (s : DrvBuildState) → Step g (update_state now d s g)
    propagates : (f : DrvId) → Step g (propagate_failure f g).0
    clears : (f : DrvId) → Step g (clear_failure f g).0
    evicts : (now : ℕ) → Step g (evict_stale_failures now g).0

  pub data Run (g : BuildGraph C) : BuildGraph C → Type 0 where
    start : Run g g
    next : {h k : BuildGraph C} → Run g h → Step h k → Run g k

  Step-IsIndexed : {g h : BuildGraph C} → Step g h → IsIndexed g → IsIndexed h
  unfolding evict_stale_failures get_node get_drvs_by_state
  Step-IsIndexed {g} (inserts now drv fresh) v = insert_node-IsIndexed now drv g fresh v
  Step-IsIndexed {g} (links a b) v = add_edge-IsIndexed a b g v
  Step-IsIndexed {g} (updates now d s) v = update_state-IsIndexed now d s g v
  Step-IsIndexed {g} (propagates f) v = propagate_failure-IsIndexed f g v
  Step-IsIndexed {g} (clears f) v = clear_failure-IsIndexed f g v
  Step-IsIndexed {g} (evicts now) v = v

  Run-IsIndexed : {g h : BuildGraph C} → Run g h → IsIndexed g → IsIndexed h
  Run-IsIndexed start v = v
  Run-IsIndexed (next r s) v = Step-IsIndexed s (Run-IsIndexed r v)

new-IsIndexed :
    {C : Type 0} ⦃lru : LruCache GraphNode C⦄ (capacity : ℕ) (g : BuildGraph C)
    → g ≡ new capacity
    → IsIndexed g
unfolding new get_node
new-IsIndexed ⦃lru⦄ capacity g e d n s h = ground (arith, lru.peek-new capacity d)

-- In every graph that comes from an empty one by the graph's operations, where no id is inserted
-- that the index lists under another state, each node of the cache is listed under its state and
-- under no other.
pub run-IsIndexed :
    {C : Type 0} ⦃lru : LruCache GraphNode C⦄ (capacity : ℕ) (g : BuildGraph C)
    → Run (new capacity) g
    → IsIndexed g
run-IsIndexed capacity g r = Run-IsIndexed r (new-IsIndexed capacity _ refl)
