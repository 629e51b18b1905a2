-- ===== src/Scheduler/BuilderThread/Endless.antt =====
-- The two attempts that the recorder means to give a derivation, as builders start them.
use mathlib.Core.Option
use eka_ci.Prelude.{ℕ, ◌≡◌, Bool, true, false, Option, some, List, [], ◌∷◌, ◌++◌}
use eka_ci.Drv.{
  DrvId, Drv, DrvBuildState, failed_retry, completed, failure, interrupted, is_retryable,
}
use eka_ci.Graph.Cache.{LruCache}
use eka_ci.Graph.State.{GraphNode}
use eka_ci.Service.State.{GraphDatabase, Result, ok, get_build_state}
use eka_ci.Service.Operations as Operations
use eka_ci.Scheduler.Recorder.{RecorderState, update_graph_state, handle_recorder_request}
use eka_ci.Scheduler.BuilderThread.{start_build, is_over}

-- A report that a build did not succeed, and that another attempt may follow.
abbrev pub may_retry : DrvBuildState → Bool
may_retry (completed failure) = true
may_retry (interrupted kind) = is_retryable kind
may_retry _ = false

module _ {D : Type 0} ⦃db : GraphDatabase D⦄ (d : DrvId) where
  -- The database holds the derivation in this state.
  abbrev pub Holds : DrvBuildState → D → Type 0
  Holds s database = (drv : Drv) × (db.get_drv d database ≡ ok (some drv)) × (drv.build_state ≡ s)

-- A write of the state of the derivation succeeds, and is what is read afterwards.
abbrev pub Stores : {D : Type 0} → GraphDatabase D → DrvId → Type 0
Stores {D} db d =
    (s s' : DrvBuildState) (database : D)
    → Holds ⦃db = db⦄ d s database
    → ((db.update_drv_status d s' database).1 ≡ ok tt)
      × Holds ⦃db = db⦄ d s' (db.update_drv_status d s' database).0

module _ {C D : Type 0} ⦃lru : LruCache GraphNode C⦄ ⦃db : GraphDatabase D⦄ (now : ℕ) (d : DrvId)
    (notify : RecorderState C D → Result (Unit {0})) where
  -- A builder starts the build, with room for its command in the channel of the graph, and the recorder
  -- handles the report, with or without.
  unfoldable pub attempt : Bool × DrvBuildState → RecorderState C D → RecorderState C D
  attempt (room, result) st =
      (handle_recorder_request now room (ok tt) notify d result (start_build now true d st).0).0

  unfoldable pub attempts : List (Bool × DrvBuildState) → RecorderState C D → RecorderState C D
  attempts [] st = st
  attempts (r ∷ rs) st = attempts rs (attempt r st)

  abbrev pub IsOpen : RecorderState C D → Type 0
  IsOpen st = is_over (get_build_state st.service.shared_view d) ≡ false

  module _ (stores : Stores db d) where
    -- One more attempt is asked for.
    abbrev IsRetried : RecorderState C D → RecorderState C D → Type 0
    IsRetried st st' =
        Holds d failed_retry st'.database × IsOpen st' × (st'.ingress ≡ st.ingress ++ d ∷ [])

    abbrev told : Bool → RecorderState C D → RecorderState C D
    told room st =
        update_graph_state now room d failed_retry
          (record st { database = (db.update_drv_status d failed_retry st.database).0 })
