-- ===== src/Graph/Samples.antt =====
-- A small graph: 2 needs 1, 3 needs 2, and 4 stands alone.
use eka_ci.Prelude.{ℕ, false, none, some, List, [], ◌∷◌}
use eka_ci.Prelude.Text.{text}
use eka_ci.Drv.{
  DrvId, Drv, DrvBuildState, queued, building, completed, success, failure, transitive_failure,
}
use eka_ci.Graph.State.{GraphNode, BuildGraph, default_failure_ttl, new, insert_node}
use eka_ci.Graph.Cache.Listed.{list_cache}

abbrev pub drv : DrvId → DrvBuildState → Drv
drv i s = record {
  drv_path = i;
  system = text "x86_64-linux";
  prefer_local_build = false;
  required_system_features = some (text "kvm,big-parallel");
  is_fod = false;
  build_state = s;
  output_size = none;
  closure_size = none;
  pname = none;
  version = none;
  license_json = none;
  maintainers_json = none;
  meta_position = none;
  broken = none;
  insecure = none;
}

abbrev pub node : DrvId → DrvBuildState → List DrvId → List DrvId → List DrvId → GraphNode
node i s needs needed failures = record {
  drv_id = i;
  system = text "x86_64-linux";
  required_system_features = some (text "kvm,big-parallel");
  is_fod = false;
  build_state = s;
  dependencies = needs;
  dependents = needed;
  blocking_failures = failures;
}

abbrev pub Cache : Type 0
Cache = ℕ × List (ℕ × GraphNode)

abbrev pub small : BuildGraph Cache
small = record {
  nodes = (
    8,
    (1, node 1 building [] (2 ∷ []) [])
        ∷ (2, node 2 queued (1 ∷ []) (3 ∷ []) [])
        ∷ (3, node 3 queued (2 ∷ []) [] [])
        ∷ (4, node 4 (completed success) [] [] [])
        ∷ [],
  );
  by_state = (building, 1 ∷ []) ∷ (queued, 2 ∷ 3 ∷ []) ∷ (completed success, 4 ∷ []) ∷ [];
  failed_drvs = [];
  transitive_failure_map = [];
  failure_ttl = default_failure_ttl;
  pinned = 1 ∷ 2 ∷ 3 ∷ [];
}

-- The same graph after 1 failed at the time 1000.
abbrev pub broken : BuildGraph Cache
broken = record {
  nodes = (
    8,
    (1, node 1 (completed failure) [] (2 ∷ []) [])
        ∷ (2, node 2 transitive_failure (1 ∷ []) (3 ∷ []) (1 ∷ []))
        ∷ (3, node 3 transitive_failure (2 ∷ []) [] (1 ∷ []))
        ∷ (4, node 4 (completed success) [] [] [])
        ∷ [],
  );
  by_state =
      (completed failure, 1 ∷ [])
      ∷ (transitive_failure, 2 ∷ 3 ∷ [])
      ∷ (completed success, 4 ∷ [])
      ∷ [];
  failed_drvs = (1, 1000) ∷ [];
  transitive_failure_map = (1, 2 ∷ 3 ∷ []) ∷ [];
  failure_ttl = default_failure_ttl;
  pinned = [];
}

-- A cache with room for one node, which holds the pinned 1.
abbrev pub full : BuildGraph Cache
full = (insert_node 0 (drv 1 building) (new 1)).0
