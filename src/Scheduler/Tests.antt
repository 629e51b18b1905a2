-- ===== src/Scheduler/Tests.antt =====
-- Inputs for the theorems about the scheduler.
use mathlib.Core.Option
use eka_ci.Prelude.{
  ℕ, suc, ◌≡◌, ◌⊎◌, get, ◌≢◌, refl, true, false, none, some, [], ◌∷◌, ◌++◌, ℕ_eq, arith,
}
use eka_ci.Prelude.Text.{text, Text_eq}
use eka_ci.Drv.{building, failed_retry, completed, success, failure, is_terminal}
use eka_ci.Graph.Cache.Listed.{list_cache}
use eka_ci.Graph.Samples.{Cache, small, drv, node}
use eka_ci.Service.State.{GraphDatabase, ok, from_graph_node, err}
use eka_ci.Scheduler.Features.{BuilderFeatures, can_build}
use eka_ci.Scheduler.Routing.{PlatformQueue}
use eka_ci.Scheduler.Recorder.{
  RecorderState, record_result, record_failure, handle_recorder_request, retry,
  update_and_broadcast,
}
use eka_ci.Service.State.{CachedNode, to_drv, is_buildable}
use eka_ci.Service.Startup.{start_service}
use eka_ci.Scheduler.Ingress.{IngressState, handle_check_buildable_task}
use eka_ci.Scheduler.Ingress.Requests.{handle_check_buildable_task-requests}
use eka_ci.Scheduler.Recorder.Stale.{handle_recorder_request-stale}
use eka_ci.Scheduler.Recorder.Attempts.{verdict, seen, record_result-verdict}

abbrev kvm : BuilderFeatures
kvm = record { supported = text "kvm" ∷ text "big-parallel" ∷ []; mandatory = [] }

-- Its mandatory feature is not among the supported ones.
abbrev secret : BuilderFeatures
secret = record { supported = text "kvm" ∷ []; mandatory = text "secret" ∷ [] }

abbrev mixed : PlatformQueue
mixed = record { builders = kvm ∷ []; local_builder = some kvm; fod_builder = none }

-- A database that accepts all writes, and knows one derivation that succeeded.
instance abbrev willing : GraphDatabase ℕ
willing = record {
  get_drv = λ d n. ok (some (drv d (completed success)));
  get_drv_refs = λ d n. ok [];
  get_drv_dependents = λ d n. ok [];
  update_drv_status = λ d s n. (suc n, ok tt);
  insert_transitive_failures = λ d ds n. (suc n, ok tt);
  clear_transitive_failures = λ d n. (suc n, ok []);
}

abbrev recorder : RecorderState Cache ℕ
recorder = record {
  service = record {
    graph = small;
    shared_view = (1, from_graph_node (node 1 building [] (2 ∷ []) [])) ∷ [];
    last_accessed = [];
    ref_counts = [];
  };
  database = 0;
  ingress = [];
}

success-other : completed failure ≢ completed success
success-other h = ground (arith, h)

handle_recorder_request-stale_example :
    handle_recorder_request 9 true (ok tt) (λ _. err) 4 (completed failure) recorder
    ≡ (recorder, err)
unfolding is_terminal
handle_recorder_request-stale_example =
    handle_recorder_request-stale 9 true 4 (drv 4 (completed success)) (completed failure)
      (λ _. err) recorder refl refl success-other

record_result-verdict_example :
    seen 9 false 1 (record_result 9 false 1 (completed failure) building recorder).0
    ≡ elim (verdict (completed failure) building) [
      | none ↦ seen 9 false 1 recorder
      | some s ↦ Option.map (λ _. s) (seen 9 false 1 recorder)
    ]
unfolding record_result record_failure retry update_and_broadcast
record_result-verdict_example =
    record_result-verdict 9 false 1 (completed failure) building recorder success-other refl

abbrev ingress : IngressState Cache ℕ
ingress = record { service = start_service 0 small; database = 0; requests = []; reports = [] }

handle_check_buildable_task-requests_example :
    ((handle_check_buildable_task 9 (kvm ∷ []) 1 ingress).0.requests ≡ ingress.requests)
    ⊎ ((n : CachedNode) × (get 1 ingress.service.shared_view ≡ some n)
        × (is_buildable ingress.service.shared_view 1 ≡ true)
        × (can_build (kvm ∷ []) n.required_system_features ≡ true)
        × ((handle_check_buildable_task 9 (kvm ∷ []) 1 ingress).0.requests
            ≡ ingress.requests ++ to_drv n ∷ []))
handle_check_buildable_task-requests_example =
    handle_check_buildable_task-requests 9 (kvm ∷ []) 1 ingress

abbrev retried : CachedNode
retried = from_graph_node (node 1 failed_retry [] [] [])

abbrev evaluated : IngressState Cache ℕ
evaluated = record ingress { service = record recorder.service { shared_view = (1, retried) ∷ [] } }
