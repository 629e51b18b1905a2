-- ===== src/Scheduler/BuilderThread/Tests.antt =====
-- A derivation that fails again and again, over a database that keeps the state of one derivation.
use eka_ci.Prelude.{Bool, true, false, some, List, [], ◌∷◌}
use eka_ci.Drv.{DrvBuildState, buildable, completed, failure, interrupted, timeout}
use eka_ci.Graph.Cache.Listed.{list_cache}
use eka_ci.Graph.Samples.{Cache, small, drv, node}
use eka_ci.Service.State.{GraphDatabase, Result, ok, from_graph_node}
use eka_ci.Scheduler.Recorder.{RecorderState}

instance abbrev keeping : GraphDatabase DrvBuildState
keeping = record {
  get_drv = λ d s. ok (some (drv d s));
  get_drv_refs = λ d s. ok [];
  get_drv_dependents = λ d s. ok [];
  update_drv_status = λ d s' s. (s', ok tt);
  insert_transitive_failures = λ d ds s. (s, ok tt);
  clear_transitive_failures = λ d s. (s, ok []);
}

abbrev first : RecorderState Cache DrvBuildState
first = record {
  service = record {
    graph = small;
    shared_view = (1, from_graph_node (node 1 buildable [] (2 ∷ []) [])) ∷ [];
    last_accessed = [];
    ref_counts = [];
  };
  database = buildable;
  ingress = [];
}

abbrev failures : List (Bool × DrvBuildState)
failures = (false, interrupted timeout) ∷ (true, completed failure) ∷ []

-- The notices succeed.
abbrev silent : RecorderState Cache DrvBuildState → Result (Unit {0})
silent _ = ok tt
