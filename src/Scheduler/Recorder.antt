-- ===== src/Scheduler/Recorder.antt =====
-- backend/server/src/scheduler/recorder, request_handler.rs and state.rs: what becomes of a
-- derivation when a builder reports a result.
pub mod Stale
pub mod Attempts
use eka_ci.Prelude.{
  ℕ, ◌==◌, Bool, true, false, not, Option, none, some, List, [], ◌∷◌, ◌++◌, if◌then◌else◌, ltb,
  length, contains, ℕ_eq, is_empty,
}
use eka_ci.Prelude as Prelude
use eka_ci.Drv.{
  DrvId, Drv, DrvBuildState, DrvBuildResult, success, failure, building, failed_retry, queued,
  buildable, blocked, transitive_failure, completed, interrupted, unsatisfiable_requirements,
  is_terminal, is_retryable,
}
use eka_ci.Graph.Cache.{LruCache}
use eka_ci.Graph.State.{GraphNode}
use eka_ci.Service.State.{SharedView, CachedNode, GraphService, GraphDatabase, Result, ok, err}
use eka_ci.Service.Operations as Operations
use eka_ci.Service.Operations.{with_state}

-- The service, the database as far as the graph has an interface to it, and the tasks `CheckBuildable` in
-- the channel of the ingress. The hooks, size checks, notices and broadcasts change none of these.
pub record RecorderState (C D : Type 0) : Type 0 where
  pub service : GraphService C
  pub database : D
  pub ingress : List DrvId

abbrev pub ingress_capacity : ℕ
ingress_capacity = 50_000

-- `try_send`: a full channel drops the task.
unfoldable pub try_send : DrvId → List DrvId → List DrvId
try_send d channel = if ltb (length channel) ingress_capacity then channel ++ d ∷ [] else channel

unfoldable pub try_send_all : List DrvId → List DrvId → List DrvId
try_send_all [] channel = channel
try_send_all (d ∷ ds) channel = try_send_all ds (try_send d channel)

-- `GraphServiceHandle::get_dependents_from_view`.
unfoldable pub get_dependents_from_view : SharedView → DrvId → List DrvId
get_dependents_from_view [] d = []
get_dependents_from_view ((k, n) ∷ view) d =
    let rest = get_dependents_from_view view d in
    if contains n.dependencies d then k ∷ rest else rest

abbrev pub Outcome : Type 0 → Type 0 → Type 0
Outcome C D = RecorderState C D × Result (Unit {0})

-- `?` between two steps.
abbrev pub and_then : {C D : Type 0} → Outcome C D → (RecorderState C D → Outcome C D) → Outcome C D
and_then (st, err) next = (st, err)
and_then (st, ok _) next = next st

module _ {C D : Type 0} ⦃lru : LruCache GraphNode C⦄ ⦃db : GraphDatabase D⦄ (now : ℕ)
    (room : Bool) where
  -- The mirror is written at once. The command for the graph is dropped if its channel has no room;
  -- else the service runs it before any later command of the recorder.
  unfoldable pub update_graph_state : DrvId → DrvBuildState → RecorderState C D → RecorderState C D
  update_graph_state d s st =
      let seen = record st.service {
        shared_view = Prelude.modify d (with_state s) st.service.shared_view;
      } in
      if room
      then (let ((service, database), _) = Operations.update_state now d s (seen, st.database) in
          record st { service = service; database = database })
      else record st { service = seen }

  unfoldable pub update_and_broadcast : DrvId → DrvBuildState → RecorderState C D → Outcome C D
  update_and_broadcast d s st =
      let (database, written) = db.update_drv_status d s st.database in
      elim written [
        | err ↦ (record st { database = database }, err)
        | ok _ ↦ (update_graph_state d s (record st { database = database }), ok tt)
      ]

  -- The ids that the command blocks are written once more, to the database of the server.
  unfoldable pub propagate : DrvId → RecorderState C D → Outcome C D
  propagate d st =
      let ((service, database), answer) =
        Operations.propagate_failure d (st.service, st.database) in
      let st' = record st { service = service; database = database } in
      elim answer [
        | err ↦ (st', err)
        | ok found ↦
            if is_empty found
            then (st', ok tt)
            else (let (database', written) = db.insert_transitive_failures d found database in
                (record st' { database = database' }, written))
      ]

  unfoldable pub settle : DrvId → DrvBuildState → RecorderState C D → Outcome C D
  settle d s st = and_then (update_and_broadcast d s st) (propagate d)

  -- `send` waits for room in the channel of the ingress.
  unfoldable pub retry : DrvId → RecorderState C D → Outcome C D
  retry d st =
      and_then (update_and_broadcast d failed_retry st)
        (λ st'. (record st' { ingress = st'.ingress ++ d ∷ [] }, ok tt))

  unfoldable pub release : DrvId → RecorderState C D → Outcome C D
  release d st =
      let (database, cleared) = db.clear_transitive_failures d st.database in
      elim cleared [
        | err ↦ (record st { database = database }, err)
        | ok _ ↦
            let ((service, database'), answer) =
              Operations.clear_failure d (st.service, database) in
            let st' = record st { service = service; database = database' } in
            elim answer [
              | err ↦ (st', err)
              | ok unblocked ↦ (
                record st' {
                  ingress =
                      try_send_all (get_dependents_from_view service.shared_view d)
                        (try_send_all unblocked st'.ingress);
                },
                ok tt,
              )
            ]
      ]

  unfoldable pub record_success : DrvId → RecorderState C D → Outcome C D
  record_success d st = and_then (update_and_broadcast d (completed success) st) (release d)

  unfoldable pub record_failure : DrvId → DrvBuildState → RecorderState C D → Outcome C D
  record_failure d building st = retry d st
  record_failure d failed_retry st = settle d (completed failure) st
  record_failure d _ st = (st, ok tt)

  unfoldable pub retry_or_settle : DrvId → DrvBuildState → RecorderState C D → Outcome C D
  retry_or_settle d failed_retry st = settle d (completed failure) st
  retry_or_settle d _ st = retry d st

  unfoldable pub record_result :
      DrvId → DrvBuildState → DrvBuildState → RecorderState C D → Outcome C D
  record_result d (completed success) current st = record_success d st
  record_result d (completed failure) current st = record_failure d current st
  record_result d (interrupted kind) current st =
      if is_terminal current
      then (st, ok tt)
      else (if is_retryable kind
          then retry_or_settle d current st
          else settle d (interrupted kind) st)
  record_result d unsatisfiable_requirements current st =
      if is_terminal current then (st, ok tt) else settle d unsatisfiable_requirements st
  record_result d _ current st = (st, ok tt)

  -- The derivation may be missing for a success and for requirements that cannot be met.
  unfoldable pub without_drv : DrvId → DrvBuildState → RecorderState C D → Outcome C D
  without_drv d (completed failure) st = (st, err)
  without_drv d (interrupted _) st = (st, err)
  without_drv d result st = record_result d result queued st

  -- The read of the jobs, which may fail, is an argument, and so is what `notify_forge_and_channels`
  -- returns in the state that it meets. That call, which ends every handling that has not failed, a stale
  -- report's too, sends tasks to the forges and to the channels; after a success it may also put tasks
  -- `EvalRequest` into the channel of the ingress, which are no tasks `CheckBuildable`.
  unfoldable pub handle_recorder_request :
      Result (Unit {0})
      → (RecorderState C D → Result (Unit {0}))
      → DrvId
      → DrvBuildState
      → RecorderState C D
      → Outcome C D
  handle_recorder_request jobs notify d result st = elim (db.get_drv d st.database) [
    | err ↦ (st, err)
    | ok found ↦ elim jobs [
      | err ↦ (st, err)
      | ok _ ↦
          and_then
            (elim found [
              | none ↦ without_drv d result st
              | some drv ↦ record_result d result drv.build_state st
            ])
            (λ st'. (st', notify st'))
    ]
  ]
