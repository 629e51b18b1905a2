-- ===== src/Service/Startup/Restored.antt =====
-- What backend/graph restores at the start of the server.
use mathlib.Core.Option
use native.Mathlib.Decide.{ℕ_discrete}
use eka_ci.Prelude.{
  ℕ, ◌≡◌, refl, ap, ◌∙◌, Bool, true, false, some, List, [], ◌∷◌, get, get-insert, ℕ_eq, arith,
  Option-cases, inl, inr,
}
use eka_ci.Drv.{DrvId, Drv, DrvBuildState, buildable, building}
use eka_ci.Graph.Cache.{LruCache, peek-push_before}
use eka_ci.Graph.State.{GraphNode, BuildGraph, new, from_drv, get_node, insert_node, add_edge}
use eka_ci.Graph.Search.{get_all_transitive_dependents}
use eka_ci.Graph.Failures.{propagate_failure}
use eka_ci.Graph.Failures.Spread.{peek-mark_all}
use eka_ci.Service.State.{from_graph_node}
use eka_ci.Service.Mirror.{Mirrors}
use eka_ci.Service.Mirror.Loading.{get_node-add_edge}
use eka_ci.Service.Startup.{
  normalize_state, normalize, view_of, insert_nodes, add_edges, propagate_all, restore,
  start_service,
}

get-view_of :
    (d : DrvId) (nodes : List (DrvId × GraphNode))
    → get d (view_of nodes) ≡ Option.map from_graph_node (get d nodes)
unfolding view_of get
get-view_of d [] = refl
get-view_of d ((k, n) ∷ nodes) =
    ground (arith, get-view_of d nodes, get-insert k d (from_graph_node n) (view_of nodes))

-- The state is one that only a running server gives.
abbrev pub is_transient : DrvBuildState → Bool
is_transient building = true
is_transient buildable = true
is_transient _ = false

normalize-is_transient : (s : DrvBuildState) → is_transient (normalize_state s) ≡ false
normalize-is_transient s = ground arith

module _ {C : Type 0} ⦃lru : LruCache GraphNode C⦄ where
  -- The service starts with a mirror that holds the read-only part of every node of the graph, and
  -- nothing else.
  pub start_service-Mirrors : (now : ℕ) (g : BuildGraph C) → Mirrors (start_service now g)
  unfolding start_service get_node
  start_service-Mirrors now g d =
      get-view_of d (lru.entries g.nodes)
      ∙ ap (Option.map from_graph_node) (lru.get-entries g.nodes d)

  abbrev pub IsSettled : BuildGraph C → Type 0
  IsSettled g =
      (d : DrvId) (n : GraphNode) → get_node g d ≡ some n → is_transient n.build_state ≡ false

  insert_node-IsSettled :
      (now : ℕ) (drv : Drv) (g : BuildGraph C)
      → IsSettled g
      → IsSettled (insert_node now (normalize drv) g).0
  unfolding insert_node from_drv get_node
  insert_node-IsSettled now drv g h d n held = elim (ℕ_discrete drv.drv_path d) [
    | yes same ↦ ground (
      arith,
      held,
      normalize-is_transient drv.build_state,
      lru.peek-push_self drv.drv_path (from_drv (normalize drv)) g.nodes,
      ap (λ (k : ℕ). lru.peek k (lru.push drv.drv_path (from_drv (normalize drv)) g.nodes).0) same,
    )
    | no other ↦
        h d n (peek-push_before drv.drv_path d (from_drv (normalize drv)) n g.nodes other held)
  ]

  insert_nodes-IsSettled :
      (now : ℕ) (drvs : List Drv) (g : BuildGraph C)
      → IsSettled g
      → IsSettled (insert_nodes now drvs g)
  unfolding insert_nodes
  insert_nodes-IsSettled now [] g h = h
  insert_nodes-IsSettled now (drv ∷ drvs) g h =
      insert_nodes-IsSettled now drvs (insert_node now (normalize drv) g).0
        (insert_node-IsSettled now drv g h)

  add_edge-IsSettled : (a b : DrvId) (g : BuildGraph C) → IsSettled g → IsSettled (add_edge a b g)
  add_edge-IsSettled a b g h d n held = elim (Option-cases (get_node g d)) [
    | inl e ↦ ground (arith, held, get_node-add_edge a b d g)
    | inr (m, e) ↦ ground (arith, held, get_node-add_edge a b d g, h d m e)
  ]

  add_edges-IsSettled :
      (refs : List (DrvId × DrvId)) (g : BuildGraph C) → IsSettled g → IsSettled (add_edges refs g)
  unfolding add_edges
  add_edges-IsSettled [] g h = h
  add_edges-IsSettled ((a, b) ∷ refs) g h =
      add_edges-IsSettled refs (add_edge a b g) (add_edge-IsSettled a b g h)

  propagate_failure-IsSettled :
      (f : DrvId) (g : BuildGraph C) → IsSettled g → IsSettled (propagate_failure f g).0
  unfolding propagate_failure get_node
  propagate_failure-IsSettled f g h d n held =
      let blocked = get_all_transitive_dependents g f in
      elim (Option-cases (get_node g d)) [
        | inl e ↦ ground (arith, held, peek-mark_all f blocked d g)
        | inr (m, e) ↦ ground (arith, held, peek-mark_all f blocked d g, h d m e)
      ]

  propagate_all-IsSettled :
      (fs : List DrvId) (g : BuildGraph C) → IsSettled g → IsSettled (propagate_all fs g)
  unfolding propagate_all
  propagate_all-IsSettled [] g h = h
  propagate_all-IsSettled (f ∷ fs) g h =
      propagate_all-IsSettled fs (propagate_failure f g).0 (propagate_failure-IsSettled f g h)

-- No node of the graph that is restored from a database is in a state that only a running server
-- gives, as building or buildable, whatever states the database holds.
pub restore-IsSettled :
    (C : Type 0) ⦃lru : LruCache GraphNode C⦄ (now capacity : ℕ) (drvs : List Drv)
    (refs : List (DrvId × DrvId))
    → IsSettled (restore {C = C} now capacity drvs refs)
unfolding restore new get_node
restore-IsSettled C ⦃lru⦄ now capacity drvs refs =
    propagate_all-IsSettled _ (add_edges refs (insert_nodes now drvs (new {C = C} capacity))) (
      add_edges-IsSettled refs (insert_nodes now drvs (new {C = C} capacity)) (
        insert_nodes-IsSettled now drvs (new {C = C} capacity)
          (λ d n held. ground (arith, held, lru.peek-new capacity d))))
