-- ===== src/Channels/Service.antt =====
-- The handlers of backend/server/src/channels/service.rs: pushes to the branches that channels watch, and
-- the ends of jobsets. Each gives the new state, and whether the task returns.
pub mod Frames
pub mod Covered
pub mod Evaluations
pub mod Lifecycle
pub mod Promoted
pub mod Refused
pub mod Recorded
mod Tests
use mathlib.Core.Option
use eka_ci.Prelude.{
  Bool, true, false, Option, none, some, List, [], ◌∷◌, ◌++◌, if◌then◌else◌, get, insert, HashMap,
  retain,
}
use eka_ci.Prelude.Text.{Text, Text_eq}
use eka_ci.Drv.{DrvBuildState}
use eka_ci.Channels.{CoalesceAction, start_fresh, already_in_flight, defer_as_pending, coalesce}
use eka_ci.Channels.Config.{ChannelForge, ChannelConfig, github, channel_id, is_hosted_at, eq_forge}
use eka_ci.Channels.Evaluator.{PromotionDecision, ready, blocked, waiting, evaluate_promotion}
use eka_ci.Channels.Store
use eka_ci.Channels.Store.{
  PromotionStatus, evaluating, promoted, skipped, ChannelPromotionRow, insert_evaluating,
  insert_skipped, finalise_evaluation, get_in_flight, Rows,
}
use eka_ci.Channels.State.{
  ChannelTask, evaluate_push, jobset_complete, CheckRun, Setup, ChannelService, latest_for_sha,
  in_flight, skip, open_row, finalise, World, Ending, done, failed, stuck, Outcome, drain_pending,
  already_decided,
}

module _ (setup : Setup) (world : World) where
  unfoldable pub fire_github_check_run :
      ChannelConfig → Text → PromotionStatus → Option Text → ChannelService → ChannelService
  fire_github_check_run channel sha status blocked_reason st =
      if setup.github_sender
      then (if eq_forge channel.forge github
          then record st {
            check_runs =
                st.check_runs
                ++ record {
                  owner = channel.owner;
                  repo_name = channel.repo;
                  sha = sha;
                  channel_name = channel.name;
                  promotion_status = status;
                  blocked_reason = blocked_reason;
                }
                  ∷ [];
          }
          else st)
      else st

  unfoldable pub dispatch_search_index : ChannelConfig → Text → ChannelService → ChannelService
  dispatch_search_index channel sha st =
      if setup.search_index_sender
      then record st { index_tasks = st.index_tasks ++ (channel, sha) ∷ [] }
      else st

  -- Whether the promotion returns, and the state then. `_patch` of octocrab fails only where no answer
  -- comes: it gives the answer whatever its HTTP status, which the code does not look at. The previous
  -- commit of the target branch is never known.
  unfoldable pub perform_github_promotion :
      ChannelConfig → Text → ChannelService → ChannelService × Bool
  perform_github_promotion channel sha st =
      if setup.octocrab
      then (
        if world.accepts channel sha
            then record st { pushed = st.pushed ++ (channel_id channel, sha) ∷ [] }
            else st,
        world.answers channel sha,
      )
      else (st, false)

  unfoldable pub perform_promotion : ChannelConfig → Text → ChannelService → ChannelService × Bool
  perform_promotion channel sha st =
      if channel.dry_run
      then (st, true)
      else if eq_forge channel.forge github
      then perform_github_promotion channel sha st
      else (st, false)

  -- The rest of an arm once the promotion has returned, or once the jobs are known to have failed.
  unfoldable pub conclude_ready :
      ChannelConfig → Text → HashMap Text DrvBuildState → ChannelService × Bool → Outcome
  conclude_ready channel sha results (st, false) = (st, failed)
  conclude_ready channel sha results (st, true) =
      if world.runs channel finalise
      then drain_pending channel (
          dispatch_search_index channel sha (
            fire_github_check_run channel sha promoted none (record st {
              rows =
                  finalise_evaluation (channel_id channel) sha promoted none
                    (some (setup.results_json results)) none st.rows;
            })))
      else (st, failed)

  unfoldable pub conclude_blocked :
      ChannelConfig → Text → List Text → HashMap Text DrvBuildState → ChannelService → Outcome
  conclude_blocked channel sha failed_required results st =
      let reason = some (setup.failed_json failed_required) in
      if world.runs channel finalise
      then drain_pending channel (
          fire_github_check_run channel sha Store.PromotionStatus.blocked reason (record st {
            rows =
                finalise_evaluation (channel_id channel) sha Store.PromotionStatus.blocked reason
                  (some (setup.results_json results)) none st.rows;
          }))
      else (st, failed)

  -- The steps 4 and 5 of a push, which the end of a jobset repeats.
  unfoldable pub act_on : ChannelConfig → Text → PromotionDecision → ChannelService → Outcome
  act_on channel sha (ready results) st =
      conclude_ready channel sha results (perform_promotion channel sha st)
  act_on channel sha (blocked failed_required results) st =
      conclude_blocked channel sha failed_required results st
  act_on channel sha (waiting pending_required pending_packages) st = (st, done)

  unfoldable pub evaluate_on :
      ChannelConfig → Text → Option (HashMap Text DrvBuildState) → ChannelService → Outcome
  evaluate_on channel sha none st = (st, failed)
  evaluate_on channel sha (some job_states) st =
      act_on channel sha (evaluate_promotion channel job_states) st

  unfoldable pub evaluate : ChannelConfig → Text → ChannelService → Outcome
  evaluate channel sha st = evaluate_on channel sha (world.job_states channel sha) st

  unfoldable pub defer : ChannelConfig → Text → Option Text → ChannelService → Outcome
  defer channel sha none st =
      (record st { pending = insert (channel_id channel) sha st.pending }, done)
  defer channel sha (some prev) st =
      let id = channel_id channel in
      let told =
        fire_github_check_run channel prev skipped none
          (record st { rows = insert_skipped id prev channel.target_branch st.rows }) in
      if world.runs channel skip
      then (record told { pending = insert id sha told.pending }, done)
      else (st, failed)

  unfoldable pub evaluate_opened : ChannelConfig → Text → Option Rows → ChannelService → Outcome
  evaluate_opened channel sha none st = (st, failed)
  evaluate_opened channel sha (some rows) st =
      evaluate channel sha
        (fire_github_check_run channel sha evaluating none (record st { rows = rows }))

  unfoldable pub open_evaluation : ChannelConfig → Text → ChannelService → Outcome
  open_evaluation channel sha st =
      if world.runs channel open_row
      then evaluate_opened channel sha
          (insert_evaluating (channel_id channel) sha channel.target_branch st.rows) st
      else (st, failed)

  unfoldable pub apply_action : ChannelConfig → Text → CoalesceAction → ChannelService → Outcome
  apply_action channel sha already_in_flight st = (st, done)
  apply_action channel sha (defer_as_pending previous) st = defer channel sha previous st
  apply_action channel sha start_fresh st = open_evaluation channel sha st

  unfoldable pub handle_evaluate_push : ChannelConfig → Text → ChannelService → Outcome
  handle_evaluate_push channel sha st =
      let id = channel_id channel in
      if world.runs channel latest_for_sha
      then (if already_decided id sha st.rows
          then (st, done)
          else if world.runs channel in_flight
          then apply_action channel sha
              (coalesce (Option.map (λ row. row.tracking_sha) (get_in_flight id st.rows))
                (get id st.pending) sha)
              st
          else (st, failed))
      else (st, failed)

  unfoldable pub complete_in :
      ChannelConfig → Text → Option ChannelPromotionRow → ChannelService → Outcome
  complete_in channel sha none st = (st, done)
  complete_in channel sha (some row) st =
      if Text_eq.eq row.tracking_sha sha then evaluate channel sha st else (st, done)

  unfoldable pub complete_one : ChannelConfig → Text → ChannelService → Outcome
  complete_one channel sha st =
      if world.runs channel in_flight
      then complete_in channel sha (get_in_flight (channel_id channel) st.rows) st
      else (st, failed)

  -- The loop over the channels; an error ends it.
  unfoldable pub and_then : Outcome → (ChannelService → Outcome) → Outcome
  and_then (st, done) rest = rest st
  and_then (st, failed) rest = (st, failed)
  and_then (st, stuck) rest = (st, stuck)

  unfoldable pub complete_all : List ChannelConfig → Text → ChannelService → Outcome
  complete_all [] sha st = (st, done)
  complete_all (channel ∷ channels) sha st =
      and_then (complete_one channel sha st) (complete_all channels sha)

  unfoldable pub handle_jobset_complete :
      ChannelForge → (owner repo sha : Text) → ChannelService → Outcome
  handle_jobset_complete forge owner repo sha =
      complete_all (retain (is_hosted_at forge owner repo) setup.channels) sha

  unfoldable pub handle_task : ChannelTask → ChannelService → Outcome
  handle_task (evaluate_push channel sha) = handle_evaluate_push channel sha
  handle_task (jobset_complete forge owner repo sha) = handle_jobset_complete forge owner repo sha

-- The loop of the service over the tasks that come in, each with what it meets. A failure is logged; a
-- task that never returns ends the loop.
unfoldable pub go_on : Outcome → (ChannelService → ChannelService) → ChannelService
go_on (st, stuck) rest = st
go_on (st, done) rest = rest st
go_on (st, failed) rest = rest st

unfoldable pub run_tasks : Setup → List (World × ChannelTask) → ChannelService → ChannelService
run_tasks setup [] st = st
run_tasks setup ((world, task) ∷ tasks) st =
    go_on (handle_task setup world task st) (run_tasks setup tasks)
