-- ===== src/Scheduler/BuilderThread.antt =====
-- backend/server/src/scheduler/build/builder_thread.rs: how a builder starts a build, and what it reports of
-- it. The process of Nix, its log and the deadlines are what the outcome stands for.
pub mod Endless
mod Tests
use eka_ci.Prelude.{ℕ, Bool, true, false, not, Option, none, some, List, [], ◌∷◌, if◌then◌else◌}
use eka_ci.Prelude.Text.{Text}
use eka_ci.Drv as Drv
use eka_ci.Drv.{DrvId, DrvBuildState, building, completed, interrupted, process_death, is_terminal}
use eka_ci.Breaker.{is_connection_failure}
use eka_ci.Breaker.Registry as Registry
use eka_ci.Breaker.Registry.{CircuitBreakerRegistry}
use eka_ci.Graph.Cache.{LruCache}
use eka_ci.Graph.State.{GraphNode}
use eka_ci.Service.State.{GraphDatabase, Result, ok, err, get_build_state}
use eka_ci.Scheduler.Recorder.{RecorderState, update_graph_state}

abbrev pub is_over : Option DrvBuildState → Bool
is_over none = false
is_over (some state) = is_terminal state

module _ {C D : Type 0} ⦃lru : LruCache GraphNode C⦄ ⦃db : GraphDatabase D⦄ (now : ℕ)
    (room : Bool) where
  -- A request that `loop_for_builds` takes: whether a build is started, and the state then. The mirror is
  -- written and the command for the graph is sent as the recorder does it.
  unfoldable pub start_build : DrvId → RecorderState C D → RecorderState C D × Bool
  start_build d st =
      if is_over (get_build_state st.service.shared_view d)
      then (st, false)
      else (update_graph_state now room d building st, true)

pub data BuildOutcome : Type 0 where
  success timeout absolute_timeout : BuildOutcome
  failure : (exit_code : Option ℕ) (stderr_tail : Text) → BuildOutcome

-- What `perform_build` finds: the file of the derivation, its reconstitution (`none` is an error), and the
-- outcome of `nix-build` (`none` if it could not be run or read).
pub record Found : Type 0 where
  pub drv_exists : Bool
  pub reconstituted : Option Bool
  pub outcome : Option BuildOutcome

-- What a remote builder's breaker is told.
unfoldable pub report_to_breaker :
    ℕ → Text → BuildOutcome → CircuitBreakerRegistry → CircuitBreakerRegistry
report_to_breaker now name success breakers = Registry.record_success name breakers
report_to_breaker now name (failure exit_code stderr_tail) breakers =
    if is_connection_failure exit_code stderr_tail
    then (Registry.record_failure now name breakers).0
    else breakers
report_to_breaker now name _ breakers = breakers

unfoldable pub state_of_outcome : BuildOutcome → DrvBuildState
state_of_outcome success = completed Drv.success
state_of_outcome (failure _ _) = completed Drv.failure
state_of_outcome timeout = interrupted Drv.timeout
state_of_outcome absolute_timeout = interrupted Drv.timeout

module _ (now : ℕ) (is_remote : Bool) (builder_name : Text) where
  unfoldable pub conclude_build :
      Option BuildOutcome → CircuitBreakerRegistry → CircuitBreakerRegistry × DrvBuildState
  conclude_build none breakers = (breakers, interrupted process_death)
  conclude_build (some outcome) breakers = (
    if is_remote then report_to_breaker now builder_name outcome breakers else breakers,
    state_of_outcome outcome,
  )

  abbrev is_at_hand : Bool → Option Bool → Bool
  is_at_hand true reconstituted = true
  is_at_hand false (some done) = done
  is_at_hand false none = false

  unfoldable pub perform_build :
      Found → CircuitBreakerRegistry → CircuitBreakerRegistry × DrvBuildState
  perform_build found breakers =
      if is_at_hand found.drv_exists found.reconstituted
      then conclude_build found.outcome breakers
      else (breakers, interrupted process_death)
