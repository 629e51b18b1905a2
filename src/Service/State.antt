-- ===== src/Service/State.antt =====
-- backend/graph/src/service/mod.rs, cached_node.rs, handle.rs and traits.rs: the state of the graph
-- service, the mirror's nodes and the interface of the database.
use mathlib.Core.Option
use eka_ci.Prelude.{
  ◌≡◌, ◌⊎◌, inl, inr, refl, ℕ, Bool, false, Option, none, some, List, [], ◌∷◌, if◌then◌else◌,
  HashMap, get, ℕ_eq, all,
}
use eka_ci.Prelude.Text.{Text}
use eka_ci.Drv.{DrvId, Drv, DrvBuildState, DrvBuildState_eq, completed, success, eq_state}
use eka_ci.Graph.State.{GraphNode, BuildGraph}

pub record CachedNode : Type 0 where
  pub drv_id : DrvId
  pub system : Text
  pub required_system_features : Option Text
  pub is_fod : Bool
  pub build_state : DrvBuildState
  pub dependencies : List DrvId

unfoldable pub from_graph_node : GraphNode → CachedNode
from_graph_node n = record {
  drv_id = n.drv_id;
  system = n.system;
  required_system_features = n.required_system_features;
  is_fod = n.is_fod;
  build_state = n.build_state;
  dependencies = n.dependencies;
}

unfoldable pub to_drv : CachedNode → Drv
to_drv c = record {
  drv_path = c.drv_id;
  system = c.system;
  prefer_local_build = false;
  required_system_features = c.required_system_features;
  is_fod = c.is_fod;
  build_state = c.build_state;
  output_size = none;
  closure_size = none;
  pname = none;
  version = none;
  license_json = none;
  maintainers_json = none;
  meta_position = none;
  broken = none;
  insecure = none;
}

abbrev pub SharedView : Type 0
SharedView = HashMap DrvId CachedNode

-- The metrics and the dry-run timer are left out: they change no other part of the state.
pub record GraphService (C : Type 0) : Type 0 where
  pub graph : BuildGraph C
  pub shared_view : SharedView
  pub last_accessed : HashMap DrvId ℕ
  pub ref_counts : HashMap DrvId ℕ

pub data Result (A : Type 0) : Type 0 where
  ok : A → Result A
  err : Result A

pub Result-cases : {A : Type 0} (r : Result A) → (r ≡ err) ⊎ ((a : A) × (r ≡ ok a))
Result-cases err = inl refl
Result-cases (ok a) = inr (a, refl)

-- `GraphDatabase`, over the states `D` of the database. Any call may fail.
pub record GraphDatabase (D : Type 0) : Type 0 where
  pub get_drv : DrvId → D → Result (Option Drv)
  pub get_drv_refs : DrvId → D → Result (List DrvId)
  pub get_drv_dependents : DrvId → D → Result (List DrvId)
  pub update_drv_status : DrvId → DrvBuildState → D → D × Result (Unit {0})
  pub insert_transitive_failures : DrvId → List DrvId → D → D × Result (Unit {0})
  pub clear_transitive_failures : DrvId → D → D × Result (List DrvId)

-- The queries of `GraphServiceHandle` that read the mirror.
unfoldable pub has_succeeded : SharedView → DrvId → Bool
has_succeeded view d = elim (get d view) [
  | none ↦ false
  | some dep ↦ eq_state dep.build_state (completed success)
]

unfoldable pub is_buildable : SharedView → DrvId → Bool
unfolding has_succeeded
is_buildable view d = elim (get d view) [
  | none ↦ false
  | some n ↦ all (has_succeeded view) n.dependencies
]

unfoldable pub get_build_state : SharedView → DrvId → Option DrvBuildState
get_build_state view d = Option.map (λ n. n.build_state) (get d view)

blocking_in : SharedView → List DrvId → List (DrvId × Option DrvBuildState)
blocking_in view [] = []
blocking_in view (d ∷ ds) =
    if has_succeeded view d
    then blocking_in view ds
    else (d, get_build_state view d) ∷ blocking_in view ds

unfoldable pub blocking_deps : SharedView → DrvId → List (DrvId × Option DrvBuildState)
unfolding has_succeeded get_build_state blocking_in
blocking_deps view d = elim (get d view) [ none ↦ [] | some n ↦ blocking_in view n.dependencies ]
