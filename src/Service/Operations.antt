-- ===== src/Service/Operations.antt =====
-- backend/graph/src/service/operations.rs.
use eka_ci.Prelude.{
  ℕ, ◌+◌, ◌-◌, ◌==◌, Bool, true, false, not, ◌&&◌, Option, none, some, List, [], ◌∷◌, if◌then◌else◌,
  HashMap, get, insert, remove, ℕ_eq, is_empty,
}
use eka_ci.Prelude as Prelude
use eka_ci.Drv.{DrvId, Drv, DrvBuildState, queued, transitive_failure}
use eka_ci.Graph.Cache.{LruCache}
use eka_ci.Graph.State.{GraphNode, BuildGraph, get_node, insert_node, add_edge}
use eka_ci.Graph.State as Graph
use eka_ci.Graph.Search.{is_present}
use eka_ci.Graph.Failures as Failures
use eka_ci.Service.State.{
  CachedNode, from_graph_node, SharedView, GraphService, Result, ok, err, GraphDatabase,
}

abbrev pub with_state : DrvBuildState → CachedNode → CachedNode
with_state s c = record c { build_state = s }

-- `*ref_counts.entry(d).or_insert(0) += 1`.
unfoldable pub count_up : DrvId → HashMap DrvId ℕ → HashMap DrvId ℕ
count_up d m = elim (get d m) [ none ↦ insert d 1 m | some n ↦ insert d (n + 1) m ]

-- The loop over the blocked or unblocked ids that updates the mirror.
unfoldable pub set_states : DrvBuildState → List DrvId → SharedView → SharedView
set_states s [] view = view
set_states s (d ∷ ds) view = set_states s ds (Prelude.modify d (with_state s) view)

module _ {C : Type 0} ⦃lru : LruCache GraphNode C⦄ where
  -- The loop over the dependencies of an evicted node.
  unfoldable pub count_down : BuildGraph C → List DrvId → HashMap DrvId ℕ → HashMap DrvId ℕ
  count_down g [] m = m
  count_down g (d ∷ ds) m = count_down g ds (elim (get d m) [
    | none ↦ m
    | some n ↦ if n - 1 == 0 && not (is_present g d) then remove d m else insert d (n - 1) m
  ])

  unfoldable pub forget_evicted : Option (DrvId × GraphNode) → GraphService C → GraphService C
  forget_evicted none st = st
  forget_evicted (some (d, n)) st = record st {
    shared_view = remove d st.shared_view;
    last_accessed = remove d st.last_accessed;
    ref_counts = remove d (count_down st.graph n.dependencies st.ref_counts);
  }

  -- A push into the graph, with the cleaning up after an evicted node.
  unfoldable pub load : ℕ → DrvId → Drv → GraphService C → GraphService C
  load now d drv st =
      let (graph, evicted) = insert_node now drv st.graph in
      let st' = forget_evicted evicted (record st { graph = graph }) in
      record st' { last_accessed = insert d now st'.last_accessed }

  unfoldable pub refresh : DrvId → GraphService C → GraphService C
  refresh d st = elim (get_node st.graph d) [
    | none ↦ st
    | some n ↦ record st { shared_view = insert d (from_graph_node n) st.shared_view }
  ]

  unfoldable pub insert_all : ℕ → List Drv → GraphService C → GraphService C
  insert_all now [] st = st
  insert_all now (drv ∷ drvs) st =
      insert_all now drvs (refresh drv.drv_path (load now drv.drv_path drv st))

  -- An edge, its count, and the dependencies in the mirror's node of the referrer.
  unfoldable pub link : DrvId × DrvId → GraphService C → GraphService C
  link (referrer, reference) st =
      let graph = add_edge referrer reference st.graph in
      record st {
        graph = graph;
        ref_counts = count_up reference st.ref_counts;
        shared_view = elim (get_node graph referrer) [
          | none ↦ st.shared_view
          | some n ↦
              Prelude.modify referrer (λ c. record c { dependencies = n.dependencies })
                st.shared_view
        ];
      }

  unfoldable pub link_all : List (DrvId × DrvId) → GraphService C → GraphService C
  link_all [] st = st
  link_all (r ∷ rs) st = link_all rs (link r st)

  unfoldable pub insert_drvs : ℕ → List Drv → List (DrvId × DrvId) → GraphService C → GraphService C
  insert_drvs now drvs refs st = link_all refs (insert_all now drvs st)

  -- The loops of `ensure_loaded` over the edges of the database.
  unfoldable pub relink_dependencies : DrvId → List DrvId → GraphService C → GraphService C
  relink_dependencies d [] st = st
  relink_dependencies d (x ∷ xs) st =
      relink_dependencies d xs
        (record st { graph = add_edge d x st.graph; ref_counts = count_up x st.ref_counts })

  unfoldable pub relink_dependents : DrvId → List DrvId → GraphService C → GraphService C
  relink_dependents d [] st = st
  relink_dependents d (x ∷ xs) st =
      relink_dependents d xs
        (record st { graph = add_edge x d st.graph; ref_counts = count_up d st.ref_counts })

  -- The part of `ensure_loaded` after the reads from the database.
  unfoldable pub reload :
      ℕ → DrvId → Drv → List DrvId → List DrvId → GraphService C → GraphService C
  reload now d drv deps dependents st =
      refresh d (relink_dependents d dependents (relink_dependencies d deps (load now d drv st)))

module _ {C D : Type 0} ⦃lru : LruCache GraphNode C⦄ ⦃db : GraphDatabase D⦄ where
  -- Whether the node was loaded comes second.
  unfoldable pub ensure_loaded : ℕ → DrvId → D → GraphService C → GraphService C × Result Bool
  ensure_loaded now d database st =
      if is_present st.graph d then (st, ok false) else elim (db.get_drv d database) [
        | err ↦ (st, err)
        | ok none ↦ (st, err)
        | ok (some drv) ↦ elim (db.get_drv_refs d database) [
          | err ↦ (st, err)
          | ok deps ↦ elim (db.get_drv_dependents d database) [
            | err ↦ (st, err)
            | ok dependents ↦ (reload now d drv deps dependents st, ok true)
          ]
        ]
      ]

  unfoldable pub update_state :
      ℕ → DrvId → DrvBuildState → GraphService C × D → (GraphService C × D) × Result (Unit {0})
  update_state now d s (st, database) =
      let (database', result) = db.update_drv_status d s database in
      (
        (
          record st {
            graph = Graph.update_state now d s st.graph;
            shared_view = Prelude.modify d (with_state s) st.shared_view;
          },
          database',
        ),
        result,
      )

  unfoldable pub propagate_failure :
      DrvId → GraphService C × D → (GraphService C × D) × Result (List DrvId)
  propagate_failure f (st, database) =
      let (graph, blocked) = Failures.propagate_failure f st.graph in
      let st' = record st {
        graph = graph;
        shared_view = set_states transitive_failure blocked st.shared_view;
      } in
      if is_empty blocked
      then ((st', database), ok blocked)
      else (let (database', result) = db.insert_transitive_failures f blocked database in
          ((st', database'), elim result [ ok _ ↦ ok blocked | err ↦ err ]))

  unfoldable pub clear_failure :
      DrvId → GraphService C × D → (GraphService C × D) × Result (List DrvId)
  clear_failure f (st, database) =
      let (graph, unblocked) = Failures.clear_failure f st.graph in
      let st' = record st {
        graph = graph;
        shared_view = set_states queued unblocked st.shared_view;
      } in
      let (database', result) = db.clear_transitive_failures f database in
      ((st', database'), elim result [ ok _ ↦ ok unblocked | err ↦ err ])
