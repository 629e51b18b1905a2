-- ===== src/Service/Mirror.antt =====
-- The mirror that backend/graph/src/service keeps of the graph for other threads.
pub mod Loading
pub mod Commands
use mathlib.Core.Option
use eka_ci.Prelude.{
  ℕ, ◌≡◌, ◌≢◌, ◌∙◌, sym, refl, ap, Bool, true, false, not, ◌&&◌, ◌||◌, Option, none, some, List, [],
  ◌∷◌, if◌then◌else◌, get, insert, remove, is_empty, contains, ℕ_eq, arith, get-insert, get-remove,
  get-modify, Option-cases, Bool-cases, inl, inr, ==_iff, ◌==◌, ==-refl,
}
use eka_ci.Prelude as Prelude
use eka_ci.Drv.{DrvId, Drv, DrvBuildState, queued, transitive_failure}
use eka_ci.Graph.Cache.{LruCache}
use eka_ci.Graph.State.{
  GraphNode, BuildGraph, from_drv, get_node, insert_node, add_edge, set_state, push_new,
}
use eka_ci.Graph.State as Graph
use eka_ci.Graph.Search.{get_all_transitive_dependents}
use eka_ci.Graph.Failures as Failures
use eka_ci.Graph.Failures.{block}
use eka_ci.Graph.Failures.Spread as Spread
use eka_ci.Service.State.{
  CachedNode, from_graph_node, SharedView, GraphService, Result, ok, err, GraphDatabase,
}
use eka_ci.Service.Operations.{
  with_state, set_states, count_down, forget_evicted, load, refresh, insert_all, link, link_all,
  insert_drvs, update_state, propagate_failure, clear_failure,
}

pub get-set_states :
    (s : DrvBuildState) (ds : List DrvId) (j : DrvId) (view : SharedView)
    → get j (set_states s ds view)
      ≡ (if contains ds j then Option.map (with_state s) (get j view) else get j view)
unfolding set_states contains
get-set_states s [] j view = refl
get-set_states s (d ∷ ds) j view = elim (Option-cases (get j view)) [
  | inl e ↦ ground (
    arith,
    get-set_states s ds j (Prelude.modify d (with_state s) view),
    get-modify d j (with_state s) view,
  )
  | inr (c, e) ↦ ground (
    arith,
    get-set_states s ds j (Prelude.modify d (with_state s) view),
    get-modify d j (with_state s) view,
  )
]

module _ {C : Type 0} ⦃lru : LruCache GraphNode C⦄ where
  -- The mirror's entry of an id is the read-only part of its node in the graph, or missing with it.
  abbrev pub AgreesAt : SharedView → BuildGraph C → DrvId → Type 0
  AgreesAt view g d = get d view ≡ Option.map from_graph_node (get_node g d)

  abbrev pub Mirrors : GraphService C → Type 0
  Mirrors st = (d : DrvId) → AgreesAt st.shared_view st.graph d

  get_node-update_state :
      (now : ℕ) (d : DrvId) (s : DrvBuildState) (g : BuildGraph C) (j : DrvId)
      → get_node (Graph.update_state now d s g) j
        ≡ (if d == j then Option.map (set_state s) (get_node g j) else get_node g j)
  unfolding Graph.update_state get_node
  get_node-update_state now d s g j = elim (Option-cases (lru.peek d g.nodes)) [
    | inl e ↦
        rw (e, Graph.update_state)
          (ground (arith, λ (q : d ≡ j). ap (λ (k : ℕ). lru.peek k g.nodes) q, ==_iff d j))
    | inr (n, e) ↦ rw (e, Graph.update_state) (lru.peek-modify d j (set_state s) g.nodes)
  ]

  propagate_agrees :
      (f : DrvId) (ds : List DrvId) (j : DrvId) (g : BuildGraph C) (view : SharedView)
      → AgreesAt view g j
      → AgreesAt (set_states transitive_failure ds view) (Failures.mark_all f ds g) j
  unfolding from_graph_node
  propagate_agrees f ds j g view v =
      ground (arith, get-set_states transitive_failure ds j view, Spread.peek-mark_all f ds j g)

  clear_all_agrees :
      (f : DrvId) (ds : List DrvId) (j : DrvId) (g : BuildGraph C) (view : SharedView)
      → AgreesAt view g j
      → AgreesAt
          (set_states queued (Failures.clear_all f ds g).1 view)
          (Failures.clear_all f ds g).0
          j
  unfolding from_graph_node Spread.settle
  clear_all_agrees f ds j g view v = elim (Option-cases (get_node g j)) [
    | inl e ↦ ground (
      arith,
      get-set_states queued (Failures.clear_all f ds g).1 j view,
      Spread.peek-clear_all f ds j g,
    )
    | inr (n, e) ↦ ground (
      arith,
      get-set_states queued (Failures.clear_all f ds g).1 j view,
      Spread.peek-clear_all f ds j g,
      Spread.contains-clear_all f ds j g n e,
    )
  ]

  clear_failure_agrees :
      (f j : DrvId) (g : BuildGraph C) (view : SharedView)
      → AgreesAt view g j
      → AgreesAt
          (set_states queued (Failures.clear_failure f g).1 view)
          (Failures.clear_failure f g).0
          j
  unfolding Failures.clear_failure get_node set_states
  clear_failure_agrees f j g view v = elim (Option-cases (get f g.transitive_failure_map)) [
    | inl e ↦ rw (e, Failures.clear_failure) v
    | inr (ds, e) ↦
        rw (e, Failures.clear_failure)
          (clear_all_agrees f ds j
            (record g { transitive_failure_map = remove f g.transitive_failure_map }) view v)
  ]

  module _ {D : Type 0} ⦃db : GraphDatabase D⦄ (database : D) (st : GraphService C)
      (v : Mirrors st) where
    pub update_state-Mirrors :
        (now : ℕ) (d : DrvId) (s : DrvBuildState)
        → Mirrors (update_state now d s (st, database)).0.0
    unfolding update_state from_graph_node
    update_state-Mirrors now d s j = ground (
      arith,
      v j,
      get_node-update_state now d s st.graph j,
      get-modify d j (with_state s) st.shared_view,
    )

    pub propagate_failure-Mirrors : (f : DrvId) → Mirrors (propagate_failure f (st, database)).0.0
    unfolding propagate_failure Failures.propagate_failure get_node
    propagate_failure-Mirrors f j =
        let blocked = get_all_transitive_dependents st.graph f in
        elim (Bool-cases (is_empty blocked)) [
          | inl e ↦ rw e (propagate_agrees f blocked j st.graph st.shared_view (v j))
          | inr e ↦ rw e (propagate_agrees f blocked j st.graph st.shared_view (v j))
        ]

    pub clear_failure-Mirrors : (f : DrvId) → Mirrors (clear_failure f (st, database)).0.0
    unfolding clear_failure
    clear_failure-Mirrors f j = clear_failure_agrees f j st.graph st.shared_view (v j)
