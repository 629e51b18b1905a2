-- ===== src/Scheduler/Recorder/Stale.antt =====
-- Reports that come too late, in backend/server/src/scheduler/recorder/request_handler.rs.
use eka_ci.Prelude.{ℕ, ◌≡◌, ◌≢◌, refl, ap, Bool, true, some, arith}
use eka_ci.Drv.{
  DrvId, Drv, DrvBuildState, success, failure, building, failed_retry, completed, interrupted,
  unsatisfiable_requirements, is_terminal,
}
use eka_ci.Graph.Cache.{LruCache}
use eka_ci.Graph.State.{GraphNode}
use eka_ci.Service.State.{GraphDatabase, Result, ok}
use eka_ci.Scheduler.Recorder.{
  RecorderState, and_then, record_failure, record_result, handle_recorder_request,
}

module _ {C D : Type 0} ⦃lru : LruCache GraphNode C⦄ ⦃db : GraphDatabase D⦄ where
  record_failure-terminal :
      (now : ℕ) (room : Bool) (d : DrvId) (current : DrvBuildState) (st : RecorderState C D)
      → is_terminal current ≡ true
      → record_failure now room d current st ≡ (st, ok tt)
  unfolding record_failure is_terminal
  record_failure-terminal now room d building st final = ground (arith, final)
  record_failure-terminal now room d failed_retry st final = ground (arith, final)
  record_failure-terminal now room d _ st final = refl

  record_result-terminal :
      (now : ℕ) (room : Bool) (d : DrvId) (result current : DrvBuildState) (st : RecorderState C D)
      → is_terminal current ≡ true
      → result ≢ completed success
      → record_result now room d result current st ≡ (st, ok tt)
  unfolding record_result record_failure is_terminal
  record_result-terminal now room d (completed success) current st final other = absurd (other refl)
  record_result-terminal now room d (completed failure) current st final other =
      record_failure-terminal now room d current st final
  record_result-terminal now room d (interrupted kind) current st final other = rw final refl
  record_result-terminal now room d unsatisfiable_requirements current st final other =
      rw final refl
  record_result-terminal now room d _ current st final other = refl

  -- Once the database holds a final state of a derivation, a later report that is no success leaves the
  -- graph service, the states in the database and the tasks for the ingress as they are, and starts no
  -- retry; the handler then returns what its notices to the forges and channels return, which are sent for
  -- such a report too.
  pub handle_recorder_request-stale :
      (now : ℕ) (room : Bool) (d : DrvId) (drv : Drv) (result : DrvBuildState)
      (notify : RecorderState C D → Result (Unit {0})) (st : RecorderState C D)
      → db.get_drv d st.database ≡ ok (some drv)
      → is_terminal drv.build_state ≡ true
      → result ≢ completed success
      → handle_recorder_request now room (ok tt) notify d result st ≡ (st, notify st)
  unfolding handle_recorder_request
  handle_recorder_request-stale now room d drv result notify st found final other =
      let quiet = record_result-terminal now room d result drv.build_state st final other in
      rw (found, handle_recorder_request) (ap (λ o. and_then o (λ st'. (st', notify st'))) quiet)
