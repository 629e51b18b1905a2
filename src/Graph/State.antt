-- ===== src/Graph/State.antt =====
-- backend/graph/src/graph.rs: `GraphNode`, `BuildGraph`, and the operations on nodes, edges and
-- states.
use eka_ci.Prelude.{
  ℕ, ◌+◌, ◌*◌, Bool, true, false, not, Option, none, some, List, [], ◌∷◌, ◌++◌, if◌then◌else◌,
  HashMap, get, insert, remove, contains, set_insert, set_remove, ℕ_eq, length, all,
}
use eka_ci.Prelude as Prelude
use eka_ci.Prelude.Text.{Text}
use eka_ci.Drv.{
  DrvId, Drv, DrvBuildState, DrvBuildState_eq, completed, success, failure, transitive_failure,
  eq_state,
}
use eka_ci.Graph.Cache.{LruCache}

pub record GraphNode : Type 0 where
  pub drv_id : DrvId
  pub system : Text
  pub required_system_features : Option Text
  pub is_fod : Bool
  pub build_state : DrvBuildState
  pub dependencies : List DrvId
  pub dependents : List DrvId
  pub blocking_failures : List DrvId

unfoldable pub from_drv : Drv → GraphNode
from_drv drv = record {
  drv_id = drv.drv_path;
  system = drv.system;
  required_system_features = drv.required_system_features;
  is_fod = drv.is_fod;
  build_state = drv.build_state;
  dependencies = [];
  dependents = [];
  blocking_failures = [];
}

pub record BuildGraph (C : Type 0) : Type 0 where
  pub nodes : C
  pub by_state : HashMap DrvBuildState (List DrvId)
  pub failed_drvs : HashMap DrvId ℕ
  pub transitive_failure_map : HashMap DrvId (List DrvId)
  pub failure_ttl : ℕ
  pub pinned : List DrvId

-- 24 hours, in nanoseconds.
abbrev pub default_failure_ttl : ℕ
default_failure_ttl = 24 * 60 * 60 * 1_000_000_000

unfoldable pub is_terminal_state : DrvBuildState → Bool
is_terminal_state (completed _) = true
is_terminal_state transitive_failure = true
is_terminal_state _ = false

abbrev pub StateIndex : Type 0
StateIndex = HashMap DrvBuildState (List DrvId)

-- `or_default` and `unwrap_or_default` of a set or a vector.
abbrev pub or_empty {ℓ} : {A : Type ℓ} → Option (List A) → List A
or_empty none = []
or_empty (some xs) = xs

-- `self.by_state.entry(state).or_default().insert(id)`.
unfoldable pub index_insert : DrvBuildState → DrvId → StateIndex → StateIndex
index_insert s id m = insert s (set_insert id (or_empty (get s m))) m

-- `if let Some(old_set) = self.by_state.get_mut(state) { old_set.remove(id); }`.
unfoldable pub index_remove : DrvBuildState → DrvId → StateIndex → StateIndex
index_remove s id m = Prelude.modify s (set_remove id) m

-- `contains` of a vector that is then pushed to.
unfoldable pub push_new : DrvId → List DrvId → List DrvId
push_new d ds = if contains ds d then ds else ds ++ d ∷ []

-- `mem::replace` of the node's state.
abbrev pub set_state : DrvBuildState → GraphNode → GraphNode
set_state s n = record n { build_state = s }

unfoldable pub track_failure : ℕ → DrvId → DrvBuildState → HashMap DrvId ℕ → HashMap DrvId ℕ
track_failure now d (completed failure) m = insert d now m
track_failure now d (completed success) m = remove d m
track_failure now d _ m = m

module _ {C : Type 0} ⦃lru : LruCache GraphNode C⦄ where
  unfoldable pub new : ℕ → BuildGraph C
  new capacity = record {
    nodes = lru.new capacity;
    by_state = [];
    failed_drvs = [];
    transitive_failure_map = [];
    failure_ttl = default_failure_ttl;
    pinned = [];
  }

  unfoldable pub get_node : BuildGraph C → DrvId → Option GraphNode
  get_node g d = lru.peek d g.nodes

  unfoldable pub get_drvs_by_state : BuildGraph C → DrvBuildState → List DrvId
  get_drvs_by_state g s = or_empty (get s g.by_state)

  -- The entry that the cache gave up comes second.
  unfoldable pub insert_node : ℕ → Drv → BuildGraph C → BuildGraph C × Option (DrvId × GraphNode)
  insert_node now drv g =
      let id = drv.drv_path in
      let s = drv.build_state in
      let (nodes, evicted) = lru.push id (from_drv drv) g.nodes in
      (
        record g {
          nodes = nodes;
          by_state = index_insert s id g.by_state;
          failed_drvs =
              if eq_state s (completed failure) then insert id now g.failed_drvs else g.failed_drvs;
          pinned = if not (is_terminal_state s) then set_insert id g.pinned else g.pinned;
        },
        evicted,
      )

  unfoldable pub add_edge : DrvId → DrvId → BuildGraph C → BuildGraph C
  add_edge referrer reference g =
      let needs =
        λ (n : GraphNode). record n { dependencies = push_new reference n.dependencies } in
      let needed = λ (n : GraphNode). record n { dependents = push_new referrer n.dependents } in
      record g { nodes = lru.modify reference needed (lru.modify referrer needs g.nodes) }

  unfoldable pub update_state : ℕ → DrvId → DrvBuildState → BuildGraph C → BuildGraph C
  update_state now d s g = elim (lru.peek d g.nodes) [
    | none ↦ g
    | some node ↦ record g {
      nodes = lru.modify d (set_state s) g.nodes;
      by_state = index_insert s d (index_remove node.build_state d g.by_state);
      failed_drvs = track_failure now d s g.failed_drvs;
      pinned = if is_terminal_state s then set_remove d g.pinned else set_insert d g.pinned;
    }
  ]

  unfoldable pub get_dependencies : BuildGraph C → DrvId → List DrvId
  get_dependencies g d = elim (lru.peek d g.nodes) [ none ↦ [] | some n ↦ n.dependencies ]

  unfoldable pub get_dependents : BuildGraph C → DrvId → List DrvId
  get_dependents g d = elim (lru.peek d g.nodes) [ none ↦ [] | some n ↦ n.dependents ]

  unfoldable pub get_failed_dependencies : BuildGraph C → DrvId → List DrvId
  get_failed_dependencies g d = elim (lru.peek d g.nodes) [
    | none ↦ []
    | some n ↦ n.blocking_failures
  ]

  -- Compiled for the unit tests only; the service asks its mirror.
  unfoldable pub succeeded : BuildGraph C → DrvId → Bool
  succeeded g d = elim (lru.peek d g.nodes) [
    | none ↦ false
    | some dep ↦ eq_state dep.build_state (completed success)
  ]

  unfoldable pub is_buildable : BuildGraph C → DrvId → Bool
  unfolding succeeded
  is_buildable g d = elim (lru.peek d g.nodes) [
    | none ↦ false
    | some n ↦ all (succeeded g) n.dependencies
  ]
