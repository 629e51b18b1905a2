-- ===== src/Channels/Service/Evaluations.antt =====
-- The parts of a task keep the rows and the waiting commits in order.

use eka_ci.Prelude.{
  ◌≡◌, Bool, true, false, Option, none, some, List, ◌∷◌, HashMap, Bool-cases, Option-cases, inl,
  inr,
}
use eka_ci.Prelude.Text.{Text, Text_eq}
use eka_ci.Drv.{DrvBuildState}
use eka_ci.Channels.Config.{ChannelConfig, channel_id}
use eka_ci.Channels.Evaluator.{PromotionDecision, ready, blocked, waiting, evaluate_promotion}
use eka_ci.Channels.Store
use eka_ci.Channels.Store.{
  PromotionStatus, ChannelPromotionRow, Rows, evaluating, promoted, skipped, new_row,
  insert_skipped, insert_evaluating, finalise_evaluation, get_in_flight,
}
use eka_ci.Channels.State.{Setup, World, ChannelService, finalise, skip, open_row}
use eka_ci.Channels.Service.{
  fire_github_check_run, dispatch_search_index, perform_promotion, conclude_ready, conclude_blocked,
  act_on, evaluate_on, evaluate, defer, evaluate_opened, open_evaluation,
}
use eka_ci.Channels.Service.Frames.{fire-SameCore, dispatch-SameCore, perform-SameCore}
use eka_ci.Channels.Service.Covered.{
  IsWell, waits_for, SameCore-IsWell, SameCore-IsWellBut, finalise-IsWellBut, drain_pending-IsWell,
  insert_skipped-IsWell, insert_skipped-in_flight, wait-IsWell, open-IsWell, idle-insert_evaluating,
}

module _ (setup : Setup) (world : World) where
  conclude_ready-IsWell :
      (c : ChannelConfig) (sha : Text) (results : HashMap Text DrvBuildState) (st : ChannelService)
      (returned : Bool)
      → IsWell st
      → IsWell (conclude_ready setup world c sha results (st, returned)).0
  unfolding conclude_ready
  conclude_ready-IsWell c sha results st false w = w
  conclude_ready-IsWell c sha results st true w = elim (Bool-cases (world.runs c finalise)) [
    | inr refused ↦ rw refused w
    | inl runs ↦
        let id = channel_id c in
        let text = some (setup.results_json results) in
        let ended = record st {
          rows = finalise_evaluation id sha promoted none text none st.rows;
        } in
        let told = fire_github_check_run setup world c sha promoted none ended in
        rw runs (
          drain_pending-IsWell c (dispatch_search_index setup world c sha told) (
            SameCore-IsWellBut id told (dispatch_search_index setup world c sha told)
              (dispatch-SameCore setup world c sha told)
              (SameCore-IsWellBut id ended told
                (fire-SameCore setup world c sha ended promoted none)
                (finalise-IsWellBut id sha promoted none text none st w))))
  ]

  conclude_blocked-IsWell :
      (c : ChannelConfig) (sha : Text) (failed_required : List Text)
      (results : HashMap Text DrvBuildState) (st : ChannelService)
      → IsWell st
      → IsWell (conclude_blocked setup world c sha failed_required results st).0
  unfolding conclude_blocked
  conclude_blocked-IsWell c sha failed_required results st w =
      elim (Bool-cases (world.runs c finalise)) [
        | inr refused ↦ rw refused w
        | inl runs ↦
            let id = channel_id c in
            let text = some (setup.results_json results) in
            let reason = some (setup.failed_json failed_required) in
            let ended = record st {
              rows =
                  finalise_evaluation id sha Store.PromotionStatus.blocked reason text none st.rows;
            } in
            rw runs (
              drain_pending-IsWell c
                (fire_github_check_run setup world c sha Store.PromotionStatus.blocked reason ended)
                (SameCore-IsWellBut id ended
                  (fire_github_check_run setup world c sha Store.PromotionStatus.blocked reason
                    ended)
                  (fire-SameCore setup world c sha ended Store.PromotionStatus.blocked reason)
                  (finalise-IsWellBut id sha Store.PromotionStatus.blocked reason text none st w)))
      ]

  act_on-IsWell :
      (c : ChannelConfig) (sha : Text) (decision : PromotionDecision) (st : ChannelService)
      → IsWell st
      → IsWell (act_on setup world c sha decision st).0
  unfolding act_on
  act_on-IsWell c sha (ready results) st w =
      let pushed = perform_promotion setup world c sha st in
      conclude_ready-IsWell c sha results pushed.0 pushed.1
        (SameCore-IsWell st pushed.0 (perform-SameCore setup world c sha st) w)
  act_on-IsWell c sha (blocked failed_required results) st w =
      conclude_blocked-IsWell c sha failed_required results st w
  act_on-IsWell c sha (waiting pending_required pending_packages) st w = w

  pub evaluate-IsWell :
      (c : ChannelConfig) (sha : Text) (st : ChannelService)
      → IsWell st
      → IsWell (evaluate setup world c sha st).0
  unfolding evaluate evaluate_on
  evaluate-IsWell c sha st w = elim (Option-cases (world.job_states c sha)) [
    | inl unknown ↦ rw unknown w
    | inr (job_states, known) ↦
        rw known (act_on-IsWell c sha (evaluate_promotion c job_states) st w)
  ]

  pub defer-IsWell :
      (c : ChannelConfig) (sha : Text) (previous : Option Text) (st : ChannelService)
      → waits_for (get_in_flight (channel_id c) st.rows) sha ≡ true
      → IsWell st
      → IsWell (defer setup world c sha previous st).0
  unfolding defer
  defer-IsWell c sha none st flies w = wait-IsWell (channel_id c) sha st flies w
  defer-IsWell c sha (some prev) st flies w = elim (Bool-cases (world.runs c skip)) [
    | inr refused ↦ rw refused w
    | inl runs ↦
        let id = channel_id c in
        let noted = record st { rows = insert_skipped id prev c.target_branch st.rows } in
        let told = fire_github_check_run setup world c prev skipped none noted in
        let same = fire-SameCore setup world c prev noted skipped none in
        let flies' : waits_for (get_in_flight id told.rows) sha ≡ true =
          rw (same.rows, insert_skipped-in_flight id prev c.target_branch id st.rows) flies in
        rw runs (
          wait-IsWell id sha told flies'
            (SameCore-IsWell noted told same (insert_skipped-IsWell id prev c.target_branch st w)))
  ]

  pub open_evaluation-IsWell :
      (c : ChannelConfig) (sha : Text) (st : ChannelService)
      → get_in_flight (channel_id c) st.rows ≡ none
      → IsWell st
      → IsWell (open_evaluation setup world c sha st).0
  unfolding open_evaluation evaluate_opened
  open_evaluation-IsWell c sha st idle w = elim (Bool-cases (world.runs c open_row)) [
    | inr refused ↦ rw refused w
    | inl runs ↦
        let rows = new_row (channel_id c) sha c.target_branch evaluating ∷ st.rows in
        let opened = record st { rows = rows } in
        let told = fire_github_check_run setup world c sha evaluating none opened in
        rw (runs, idle-insert_evaluating (channel_id c) sha c.target_branch st.rows idle)
          (evaluate-IsWell c sha told (
            SameCore-IsWell opened told (fire-SameCore setup world c sha opened evaluating none)
              (open-IsWell (channel_id c) sha c.target_branch st idle w)))
  ]
