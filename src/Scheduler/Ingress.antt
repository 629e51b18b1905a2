-- ===== src/Scheduler/Ingress.antt =====
-- backend/server/src/scheduler/ingress.rs: `CheckBuildable` and the periodic sweep.
pub mod Requests
use eka_ci.Prelude.{
  ℕ, Bool, true, false, not, ◌&&◌, ◌||◌, Option, none, some, List, [], ◌∷◌, ◌++◌, if◌then◌else◌,
  HashMap, get, ltb, length, ℕ_eq,
}
use eka_ci.Drv.{
  DrvId, Drv, DrvBuildState, queued, buildable, failed_retry, unsatisfiable_requirements, eq_state,
}
use eka_ci.Graph.Cache.{LruCache}
use eka_ci.Graph.State.{GraphNode}
use eka_ci.Service.State.{
  CachedNode, to_drv, SharedView, GraphService, GraphDatabase, Result, ok, err, is_buildable,
}
use eka_ci.Service.Commands.{update_state, handle_command, Response, done, dropped}
use eka_ci.Scheduler.Features.{BuilderFeatures, can_build}

-- The requests in the channel to the builders, and the reports in the one to the recorder.
pub record IngressState (C D : Type 0) : Type 0 where
  pub service : GraphService C
  pub database : D
  pub requests : List Drv
  pub reports : List (DrvId × DrvBuildState)

-- The capacity of the channel that `BuildQueue::init` makes.
abbrev pub requests_capacity : ℕ
requests_capacity = 100

-- `try_send`: a full channel leaves the derivation for the next sweep.
unfoldable pub request : Drv → List Drv → List Drv
request drv channel =
    if ltb (length channel) requests_capacity then channel ++ drv ∷ [] else channel

-- The request, unless the command failed.
unfoldable pub deliver :
    {C D : Type 0} → CachedNode → IngressState C D → Response → IngressState C D × Result (Unit {0})
deliver n st dropped = (st, err)
deliver n st _ = (record st { requests = request (to_drv n) st.requests }, ok tt)

-- The candidates are collected before the first of them is handled.
unfoldable pub candidates : SharedView → SharedView → List DrvId
candidates view [] = []
candidates view ((d, n) ∷ rest) =
    let others = candidates view rest in
    if eq_state n.build_state queued && is_buildable view d || eq_state n.build_state buildable
    then d ∷ others
    else others

module _ {C D : Type 0} ⦃lru : LruCache GraphNode C⦄ ⦃db : GraphDatabase D⦄ (now : ℕ)
    (builders : List BuilderFeatures) where
  abbrev report : DrvId → DrvBuildState → IngressState C D → IngressState C D
  report d s st = record st { reports = st.reports ++ (d, s) ∷ [] }

  -- `GraphServiceHandle::update_state`, which waits for the reply.
  unfoldable pub mark_buildable : DrvId → IngressState C D → IngressState C D × Response
  mark_buildable d st =
      let ((service, database), answer) =
        handle_command now (update_state d buildable) (st.service, st.database) in
      (record st { service = service; database = database }, answer)

  -- The state `FailedRetry` is kept, so that the recorder sees a second failure as one.
  unfoldable pub announce : DrvId → CachedNode → IngressState C D → IngressState C D × Response
  announce d n st = if eq_state n.build_state failed_retry then (st, done) else mark_buildable d st

  unfoldable pub send_buildable :
      DrvId → CachedNode → IngressState C D → IngressState C D × Result (Unit {0})
  send_buildable d n st = let (st', answer) = announce d n st in deliver n st' answer

  unfoldable pub handle_check_buildable_task :
      DrvId → IngressState C D → IngressState C D × Result (Unit {0})
  handle_check_buildable_task d st =
      if not (is_buildable st.service.shared_view d)
      then (st, ok tt)
      else elim (get d st.service.shared_view) [
        | none ↦ (st, err)
        | some n ↦
            if not (can_build builders n.required_system_features)
            then (report d unsatisfiable_requirements st, ok tt)
            else send_buildable d n st
      ]

  unfoldable pub handle_all : List DrvId → IngressState C D → IngressState C D
  handle_all [] st = st
  handle_all (d ∷ ds) st = handle_all ds (handle_check_buildable_task d st).0

  unfoldable pub sweep_buildable_drvs : IngressState C D → IngressState C D
  sweep_buildable_drvs st = handle_all (candidates st.service.shared_view st.service.shared_view) st
