-- ===== src/Scheduler/Evaluation.antt =====
-- `handle_eval_task` of backend/server/src/scheduler/ingress.rs. The dry run of Nix is an argument;
-- `none` is its error.
use eka_ci.Prelude as Prelude
use eka_ci.Prelude.{
  ℕ, ◌==◌, ◌≡◌, refl, ap, ◌∙◌, Bool, true, false, not, ◌&&◌, Option, none, some, List, [], ◌∷◌,
  ◌++◌, if◌then◌else◌, get, get-modify, contains, length, ℕ_eq, eq_refl, arith,
}
use eka_ci.Drv.{DrvId, DrvBuildState, buildable, failed_retry, is_terminal}
use eka_ci.Graph.Cache.{LruCache}
use eka_ci.Graph.State.{GraphNode}
use eka_ci.Service.State.{CachedNode, to_drv, GraphDatabase, Result, ok, get_build_state}
use eka_ci.Service.Operations.{with_state}
use eka_ci.Scheduler.Features.{BuilderFeatures}
use eka_ci.Scheduler.Ingress.{IngressState, handle_check_buildable_task}
use eka_ci.Scheduler.Substitution.{DryRunReport, Walk, handle_check_substitution_task_with_report}

abbrev is_over : Option DrvBuildState → Bool
is_over none = false
is_over (some state) = is_terminal state

-- The reports of a walk; it always returns.
unfoldable pub send_reports : {C D : Type 0} → Option Walk → IngressState C D → IngressState C D
send_reports none st = st
send_reports (some w) st = record st { reports = st.reports ++ w.reports }

-- The write through `shared_view().get_mut`, and `send`, which waits for room.
unfoldable pub send_directly :
    {C D : Type 0} → DrvId → CachedNode → IngressState C D → IngressState C D
send_directly d n st = record st {
  service = record st.service {
    shared_view = Prelude.modify d (with_state buildable) st.service.shared_view;
  };
  requests = st.requests ++ to_drv n ∷ [];
}

module _ {C D : Type 0} ⦃lru : LruCache GraphNode C⦄ ⦃db : GraphDatabase D⦄ (now : ℕ)
    (builders : List BuilderFeatures) where
  unfoldable pub build_directly :
      DrvId → Option CachedNode → IngressState C D → IngressState C D × Result (Unit {0})
  build_directly d none st = handle_check_buildable_task now builders d st
  build_directly d (some n) st = (send_directly d n st, ok tt)

  unfoldable pub with_dry_run :
      DrvId → Option DryRunReport → IngressState C D → IngressState C D × Result (Unit {0})
  with_dry_run d none st = handle_check_buildable_task now builders d st
  with_dry_run d (some report) st =
      let view = st.service.shared_view in
      if not (contains report.will_build d)
      then (send_reports (handle_check_substitution_task_with_report report view d) st, ok tt)
      else if length report.will_build == 1
      then build_directly d (get d view) st
      else handle_check_buildable_task now builders d st

  unfoldable pub handle_eval_task :
      DrvId → Option DryRunReport → IngressState C D → IngressState C D × Result (Unit {0})
  handle_eval_task d dry_run st =
      if is_over (get_build_state st.service.shared_view d)
      then (st, ok tt)
      else with_dry_run d dry_run st

  -- A derivation that failed once and that the dry run says is the only one to be built is sent to the
  -- builders; but the mirror then holds it as `Buildable`, not as `FailedRetry`, and the graph is left
  -- as it was.
  pub handle_eval_task-failed_retry :
      (d : DrvId) (n : CachedNode) (st : IngressState C D)
      → get d st.service.shared_view ≡ some n
      → n.build_state ≡ failed_retry
      → let st' = (handle_eval_task d (some (record { will_build = d ∷ [] })) st).0 in
        (get_build_state st'.service.shared_view d ≡ some buildable)
        × (st'.service.graph ≡ st.service.graph)
        × (st'.requests ≡ st.requests ++ to_drv n ∷ [])
  unfolding handle_eval_task with_dry_run build_directly send_directly get_build_state contains
      is_terminal
  handle_eval_task-failed_retry d n st held failed =
      rw
        (
          held,
          failed,
          eq_refl ℕ_eq d,
          get-modify d d (with_state buildable) st.service.shared_view,
          held,
          eq_refl ℕ_eq d,
        )
        (refl, refl, refl)
