-- ===== src/Service/Mirror/Loading.antt =====
-- The mirror of backend/graph/src/service while nodes and edges are inserted or loaded.
use mathlib.Core.Option
use native.Mathlib.Decide.{ℕ_discrete}
use eka_ci.Prelude.{
  ℕ, ◌≡◌, ◌≢◌, ◌∙◌, sym, subst, ap, some, List, [], ◌∷◌, if◌then◌else◌, ℕ_eq, arith, get-insert,
  get-remove, get-modify, Option-cases, inl, inr, ==_iff, ◌==◌, ==-refl,
}
use eka_ci.Drv.{DrvId, Drv}
use eka_ci.Graph.Cache.{LruCache}
use eka_ci.Graph.State.{GraphNode, BuildGraph, from_drv, get_node, insert_node, add_edge, push_new}
use eka_ci.Service.State.{from_graph_node, GraphService}
use eka_ci.Service.Operations.{
  forget_evicted, load, refresh, insert_all, link, link_all, insert_drvs,
}
use eka_ci.Service.Mirror.{AgreesAt, Mirrors}

abbrev pub needs : DrvId → GraphNode → GraphNode
needs b n = record n { dependencies = push_new b n.dependencies }

abbrev pub needed : DrvId → GraphNode → GraphNode
needed a n = record n { dependents = push_new a n.dependents }

module _ {C : Type 0} ⦃lru : LruCache GraphNode C⦄ where
  -- The mirror is right but for one id.
  abbrev MirrorsBut : DrvId → GraphService C → Type 0
  MirrorsBut d st = (j : DrvId) → d ≢ j → AgreesAt st.shared_view st.graph j

  load-MirrorsBut :
      (now : ℕ) (d : DrvId) (drv : Drv) (st : GraphService C)
      → MirrorsBut drv.drv_path st
      → MirrorsBut drv.drv_path (load now d drv st)
  unfolding load forget_evicted insert_node get_node
  load-MirrorsBut now d drv st v j ne =
      let id = drv.drv_path in
      elim (Option-cases (lru.push id (from_drv drv) st.graph.nodes).1) [
        | inl e ↦
            rw (e, forget_evicted)
              (ground (arith, v j ne, lru.peek-push_kept id j (from_drv drv) st.graph.nodes e ne))
        | inr ((i, w), e) ↦
            rw (e, forget_evicted)
              (ground (
                arith,
                v j ne,
                lru.peek-push_evicted id j i (from_drv drv) w st.graph.nodes e ne,
                get-remove i j st.shared_view,
              ))
      ]

  get_node-load :
      (now : ℕ) (d : DrvId) (drv : Drv) (st : GraphService C)
      → get_node (load now d drv st).graph drv.drv_path ≡ some (from_drv drv)
  unfolding load forget_evicted insert_node get_node
  get_node-load now d drv st =
      ground (arith, lru.peek-push_self drv.drv_path (from_drv drv) st.graph.nodes)

  refresh-Mirrors :
      (d : DrvId) (n : GraphNode) (st : GraphService C)
      → get_node st.graph d ≡ some n
      → MirrorsBut d st
      → Mirrors (refresh d st)
  unfolding refresh
  refresh-Mirrors d n st e v j = elim (ℕ_discrete d j) [
    | yes same ↦
        rw (e, refresh)
          (ground (
            arith,
            get-insert d j (from_graph_node n) st.shared_view,
            ap (λ (k : ℕ). get_node st.graph k) same,
            ==_iff d j,
          ))
    | no other ↦
        rw (e, refresh)
          (ground (arith, get-insert d j (from_graph_node n) st.shared_view, v j other, ==_iff d j))
  ]

  insert_all-Mirrors :
      (now : ℕ) (drvs : List Drv) (st : GraphService C)
      → Mirrors st
      → Mirrors (insert_all now drvs st)
  unfolding insert_all
  insert_all-Mirrors now [] st v = v
  insert_all-Mirrors now (drv ∷ drvs) st v =
      let loaded = load now drv.drv_path drv st in
      insert_all-Mirrors now drvs (refresh drv.drv_path loaded) (
        refresh-Mirrors drv.drv_path (from_drv drv) loaded (get_node-load now drv.drv_path drv st)
          (load-MirrorsBut now drv.drv_path drv st (λ j _. v j)))

  pub get_node-add_edge :
      (a b j : DrvId) (g : BuildGraph C)
      → get_node (add_edge a b g) j ≡ (
          if b == j
          then Option.map
              (needed a)
              (if a == j then Option.map (needs b) (get_node g j) else get_node g j)
          else (if a == j then Option.map (needs b) (get_node g j) else get_node g j))
  unfolding add_edge get_node
  get_node-add_edge a b j g = ground (
    arith,
    lru.peek-modify a j (needs b) g.nodes,
    lru.peek-modify b j (needed a) (lru.modify a (needs b) g.nodes),
  )

  -- An edge changes the mirrored part of its referrer alone.
  add_edge-other :
      (a b j : DrvId) (g : BuildGraph C)
      → a ≢ j
      → Option.map from_graph_node (get_node (add_edge a b g) j)
        ≡ Option.map from_graph_node (get_node g j)
  unfolding from_graph_node
  add_edge-other a b j g ne = elim (Option-cases (get_node g j)) [
    | inl e ↦ ground (arith, get_node-add_edge a b j g, ==_iff a j)
    | inr (n, e) ↦ ground (arith, get_node-add_edge a b j g, ==_iff a j)
  ]

  link_self :
      (a b : DrvId) (st : GraphService C)
      → AgreesAt st.shared_view st.graph a
      → AgreesAt (link (a, b) st).shared_view (link (a, b) st).graph a
  unfolding link from_graph_node
  link_self a b st v = elim (Option-cases (get_node st.graph a)) [
    | inl e ↦ ground (arith, v, get_node-add_edge a b a st.graph, ==-refl a)
    | inr (m, e) ↦ elim (Option-cases (get_node (add_edge a b st.graph) a)) [
      | inl e' ↦ ground (arith, v, get_node-add_edge a b a st.graph, ==-refl a)
      | inr (n, e') ↦
          rw (e', link)
            (ground (
              arith,
              v,
              get_node-add_edge a b a st.graph,
              ==-refl a,
              get-modify a a (λ c. record c { dependencies = n.dependencies }) st.shared_view,
            ))
    ]
  ]

  link_other :
      (a b j : DrvId) (st : GraphService C)
      → a ≢ j
      → AgreesAt st.shared_view st.graph j
      → AgreesAt (link (a, b) st).shared_view (link (a, b) st).graph j
  unfolding link
  link_other a b j st ne v = elim (Option-cases (get_node (add_edge a b st.graph) a)) [
    | inl e ↦ rw (e, link) (v ∙ sym (add_edge-other a b j st.graph ne))
    | inr (n, e) ↦
        rw (e, link)
          (ground (
            arith,
            v,
            add_edge-other a b j st.graph ne,
            ==_iff a j,
            get-modify a j (λ c. record c { dependencies = n.dependencies }) st.shared_view,
          ))
  ]

  link-Mirrors : (r : DrvId × DrvId) (st : GraphService C) → Mirrors st → Mirrors (link r st)
  link-Mirrors (a, b) st v j = elim (ℕ_discrete a j) [
    | yes same ↦
        subst (λ k. AgreesAt (link (a, b) st).shared_view (link (a, b) st).graph k) same
          (link_self a b st (v a))
    | no other ↦ link_other a b j st other (v j)
  ]

  link_all-Mirrors :
      (rs : List (DrvId × DrvId)) (st : GraphService C) → Mirrors st → Mirrors (link_all rs st)
  unfolding link_all
  link_all-Mirrors [] st v = v
  link_all-Mirrors (r ∷ rs) st v = link_all-Mirrors rs (link r st) (link-Mirrors r st v)

  pub insert_drvs-Mirrors :
      (now : ℕ) (drvs : List Drv) (refs : List (DrvId × DrvId)) (st : GraphService C)
      → Mirrors st
      → Mirrors (insert_drvs now drvs refs st)
  unfolding insert_drvs
  insert_drvs-Mirrors now drvs refs st v =
      link_all-Mirrors refs (insert_all now drvs st) (insert_all-Mirrors now drvs st v)
