-- ===== src/Channels/Service/Promoted.antt =====
-- A target branch moves only to a commit whose jobs allow it.
use mathlib.Core.Option
use mathlib.Core.List.{append-nil, append_assoc}
use eka_ci.Prelude.{
  ◌≡◌, refl, sym, ap, ◌∙◌, Bool, true, false, not, ◌&&◌, Option, none, some, List, [], ◌∷◌, ◌++◌,
  get, retain, HashMap, arith, Bool-cases, Option-cases, inl, inr, All, All-append, contains,
}
use eka_ci.Prelude.Text.{Text, Text_eq}
use eka_ci.Drv.{DrvBuildState}
use eka_ci.Channels.{CoalesceAction, start_fresh, already_in_flight, defer_as_pending, coalesce}
use eka_ci.Channels.Config.{ChannelConfig, channel_id, is_hosted_at, github, eq_forge, eq_forge_iff}
use eka_ci.Channels.Evaluator.{
  PromotionDecision, ready, blocked, waiting, evaluate_promotion, is_finished,
}
use eka_ci.Channels.Evaluator.Decision.{IsDecision, has_succeeded, evaluate_promotion-IsDecision}
use eka_ci.Channels.Store
use eka_ci.Channels.Store.{
  PromotionStatus, ChannelPromotionRow, Rows, evaluating, promoted, skipped, insert_skipped,
  insert_evaluating, finalise_evaluation, get_in_flight,
}
use eka_ci.Channels.State.{
  ChannelTask, evaluate_push, jobset_complete, Setup, World, ChannelService, Outcome, done, failed,
  stuck, finalise, skip, open_row, latest_for_sha, in_flight, already_decided,
}
use eka_ci.Channels.Service.{
  fire_github_check_run, dispatch_search_index, perform_promotion, perform_github_promotion,
  conclude_ready, conclude_blocked, act_on, evaluate_on, evaluate, defer, evaluate_opened,
  open_evaluation, apply_action, handle_evaluate_push, complete_in, complete_one, and_then,
  complete_all, handle_jobset_complete, handle_task,
}
use eka_ci.Channels.Service.Frames.{fire-pushed, dispatch-pushed, drain_pending-pushed}

module _ (setup : Setup) (world : World) where
  -- The branch was moved for a channel on GitHub that is not on trial, the forge accepted it, every required
  -- job had succeeded at the commit and every package had ended.
  abbrev pub IsJustified : Text × Text → Type 0
  IsJustified (id, sha) =
      (c : ChannelConfig) × (job_states : HashMap Text DrvBuildState) × (channel_id c ≡ id)
      × (c.forge ≡ github)
      × (c.dry_run ≡ false)
      × (world.accepts c sha ≡ true)
      × (world.job_states c sha ≡ some job_states)
      × ((a : Text) → contains c.required a ≡ true → has_succeeded (get a job_states) ≡ true)
      × ((a : Text) → contains c.packages a ≡ true → is_finished (get a job_states) ≡ true)

  abbrev pub Promotes : ChannelService → ChannelService → Type 0
  Promotes st st' =
      (new : List (Text × Text)) × (st'.pushed ≡ st.pushed ++ new) × All IsJustified new

  nothing : (st st' : ChannelService) → st'.pushed ≡ st.pushed → Promotes st st'
  nothing st st' same = ([], same ∙ sym (append-nil st.pushed), tt)

  both : (st st1 st2 : ChannelService) → Promotes st st1 → Promotes st1 st2 → Promotes st st2
  both st st1 st2 (new, e, h) (new', e', h') = (
    new ++ new',
    e' ∙ ap (λ l. l ++ new') e ∙ append_assoc st.pushed new new',
    All-append IsJustified new new' h h',
  )

  module _ (c : ChannelConfig) (sha : Text) where
    conclude_ready-pushed :
        (results : HashMap Text DrvBuildState) (st : ChannelService) (returned : Bool)
        → (conclude_ready setup world c sha results (st, returned)).0.pushed ≡ st.pushed
    unfolding conclude_ready
    conclude_ready-pushed results st false = refl
    conclude_ready-pushed results st true = elim (Bool-cases (world.runs c finalise)) [
      | inr refused ↦ rw refused refl
      | inl runs ↦
          let ended = record st {
            rows =
                finalise_evaluation (channel_id c) sha promoted none
                  (some (setup.results_json results)) none st.rows;
          } in
          let told = fire_github_check_run setup world c sha promoted none ended in
          rw runs (
            drain_pending-pushed c (dispatch_search_index setup world c sha told)
            ∙ dispatch-pushed setup world c sha told
            ∙ fire-pushed setup world c sha ended promoted none)
    ]

    conclude_blocked-pushed :
        (failed_required : List Text) (results : HashMap Text DrvBuildState) (st : ChannelService)
        → (conclude_blocked setup world c sha failed_required results st).0.pushed ≡ st.pushed
    unfolding conclude_blocked
    conclude_blocked-pushed failed_required results st = elim (Bool-cases (world.runs c finalise)) [
      | inr refused ↦ rw refused refl
      | inl runs ↦
          let reason = some (setup.failed_json failed_required) in
          let ended = record st {
            rows =
                finalise_evaluation (channel_id c) sha Store.PromotionStatus.blocked reason
                  (some (setup.results_json results)) none st.rows;
          } in
          rw runs (
            drain_pending-pushed c
              (fire_github_check_run setup world c sha Store.PromotionStatus.blocked reason ended)
            ∙ fire-pushed setup world c sha ended Store.PromotionStatus.blocked reason)
    ]

    performed :
        (st : ChannelService)
        → c.dry_run ≡ false
        → eq_forge c.forge github ≡ true
        → setup.octocrab ≡ true
        → world.accepts c sha ≡ true
        → (perform_promotion setup world c sha st).0.pushed ≡ st.pushed ++ (channel_id c, sha) ∷ []
    unfolding perform_promotion perform_github_promotion
    performed st earnest hosted client accepted = ground (arith, earnest, hosted, client, accepted)

    not_performed :
        (st : ChannelService)
        → (not c.dry_run && (eq_forge c.forge github && (setup.octocrab && world.accepts c sha)))
          ≡ false
        → (perform_promotion setup world c sha st).0.pushed ≡ st.pushed
    unfolding perform_promotion perform_github_promotion
    not_performed st lacks = ground (arith, lacks)

    -- Where a promotion is due, it is justified.
    perform_promotion-Promotes :
        (job_states : HashMap Text DrvBuildState) (st : ChannelService)
        → world.job_states c sha ≡ some job_states
        → ((a : Text) → contains c.required a ≡ true → has_succeeded (get a job_states) ≡ true)
        → ((a : Text) → contains c.packages a ≡ true → is_finished (get a job_states) ≡ true)
        → Promotes st (perform_promotion setup world c sha st).0
    perform_promotion-Promotes job_states st known required packages =
        let hosted_here = eq_forge c.forge github in
        let all_well = not c.dry_run && (hosted_here && (setup.octocrab && world.accepts c sha)) in
        elim (Bool-cases all_well) [
          | inr lacks ↦
              nothing st (perform_promotion setup world c sha st).0 (not_performed st lacks)
          | inl well ↦
              let earnest : c.dry_run ≡ false = ground (arith, well) in
              let hosted : hosted_here ≡ true = ground (arith, well) in
              let accepted : world.accepts c sha ≡ true = ground (arith, well) in
              (
                (channel_id c, sha) ∷ [],
                performed st earnest hosted (ground (arith, well)) accepted,
                (
                  (
                    c,
                    job_states,
                    refl,
                    (eq_forge_iff c.forge github).0 hosted,
                    earnest,
                    accepted,
                    known,
                    required,
                    packages,
                  ),
                  tt,
                ),
              )
        ]

    act_on-Promotes :
        (job_states : HashMap Text DrvBuildState) (decision : PromotionDecision)
        (st : ChannelService)
        → world.job_states c sha ≡ some job_states
        → IsDecision c job_states decision
        → Promotes st (act_on setup world c sha decision st).0
    unfolding act_on
    act_on-Promotes job_states (ready results) st known is =
        let pushed = perform_promotion setup world c sha st in
        both st pushed.0 (conclude_ready setup world c sha results pushed).0
          (perform_promotion-Promotes job_states st known is.0 is.1)
          (nothing pushed.0 (conclude_ready setup world c sha results pushed).0
            (conclude_ready-pushed results pushed.0 pushed.1))
    act_on-Promotes job_states (blocked failed_required results) st known is =
        nothing st (conclude_blocked setup world c sha failed_required results st).0
          (conclude_blocked-pushed failed_required results st)
    act_on-Promotes job_states (waiting pending_required pending_packages) st known is =
        nothing st st refl

    evaluate-Promotes : (st : ChannelService) → Promotes st (evaluate setup world c sha st).0
    unfolding evaluate evaluate_on
    evaluate-Promotes st = elim (Option-cases (world.job_states c sha)) [
      | inl unknown ↦ rw unknown (nothing st st refl)
      | inr (job_states, known) ↦ rw known (
          act_on-Promotes job_states (evaluate_promotion c job_states) st known
            (evaluate_promotion-IsDecision c job_states))
    ]

    defer-pushed :
        (previous : Option Text) (st : ChannelService)
        → (defer setup world c sha previous st).0.pushed ≡ st.pushed
    unfolding defer
    defer-pushed none st = refl
    defer-pushed (some prev) st = elim (Bool-cases (world.runs c skip)) [
      | inr refused ↦ rw refused refl
      | inl runs ↦ rw runs (
          fire-pushed setup world c prev
            (record st { rows = insert_skipped (channel_id c) prev c.target_branch st.rows })
            skipped none)
    ]

    evaluate_opened-Promotes :
        (rows : Option Rows) (st : ChannelService)
        → Promotes st (evaluate_opened setup world c sha rows st).0
    unfolding evaluate_opened
    evaluate_opened-Promotes none st = nothing st st refl
    evaluate_opened-Promotes (some rows) st =
        let opened = record st { rows = rows } in
        let told = fire_github_check_run setup world c sha evaluating none opened in
        both st told (evaluate setup world c sha told).0
          (nothing st told (fire-pushed setup world c sha opened evaluating none))
          (evaluate-Promotes told)

    apply_action-Promotes :
        (action : CoalesceAction) (st : ChannelService)
        → Promotes st (apply_action setup world c sha action st).0
    unfolding apply_action open_evaluation
    apply_action-Promotes already_in_flight st = nothing st st refl
    apply_action-Promotes (defer_as_pending previous) st =
        nothing st (defer setup world c sha previous st).0 (defer-pushed previous st)
    apply_action-Promotes start_fresh st = elim (Bool-cases (world.runs c open_row)) [
      | inr refused ↦ rw refused (nothing st st refl)
      | inl runs ↦ rw runs (
          evaluate_opened-Promotes (insert_evaluating (channel_id c) sha c.target_branch st.rows)
            st)
    ]

    handle_evaluate_push-Promotes :
        (st : ChannelService) → Promotes st (handle_evaluate_push setup world c sha st).0
    unfolding handle_evaluate_push
    handle_evaluate_push-Promotes st = elim (Bool-cases (world.runs c latest_for_sha)) [
      | inr refused ↦ rw refused (nothing st st refl)
      | inl runs ↦ elim (Bool-cases (already_decided (channel_id c) sha st.rows)) [
        | inl decided ↦ rw (runs, decided) (nothing st st refl)
        | inr undecided ↦ elim (Bool-cases (world.runs c in_flight)) [
          | inr refused ↦ rw (runs, undecided, refused) (nothing st st refl)
          | inl runs' ↦
              rw (runs, undecided, runs')
                (apply_action-Promotes
                  (coalesce
                    (Option.map (λ row. row.tracking_sha) (get_in_flight (channel_id c) st.rows))
                    (get (channel_id c) st.pending) sha)
                  st)
        ]
      ]
    ]

    complete_in-Promotes :
        (row : Option ChannelPromotionRow) (st : ChannelService)
        → Promotes st (complete_in setup world c sha row st).0
    unfolding complete_in
    complete_in-Promotes none st = nothing st st refl
    complete_in-Promotes (some row) st = elim (Bool-cases (Text_eq.eq row.tracking_sha sha)) [
      | inl same ↦ rw same (evaluate-Promotes st)
      | inr other ↦ rw other (nothing st st refl)
    ]

    complete_one-Promotes :
        (st : ChannelService) → Promotes st (complete_one setup world c sha st).0
    unfolding complete_one
    complete_one-Promotes st = elim (Bool-cases (world.runs c in_flight)) [
      | inr refused ↦ rw refused (nothing st st refl)
      | inl runs ↦ rw runs (complete_in-Promotes (get_in_flight (channel_id c) st.rows) st)
    ]

  and_then-Promotes :
      (before : ChannelService) (outcome : Outcome) (rest : ChannelService → Outcome)
      → Promotes before outcome.0
      → ((st : ChannelService) → Promotes st (rest st).0)
      → Promotes before (and_then setup world outcome rest).0
  unfolding and_then
  and_then-Promotes before (st, done) rest h keeps = both before st (rest st).0 h (keeps st)
  and_then-Promotes before (st, failed) rest h keeps = h
  and_then-Promotes before (st, stuck) rest h keeps = h

  complete_all-Promotes :
      (channels : List ChannelConfig) (sha : Text) (st : ChannelService)
      → Promotes st (complete_all setup world channels sha st).0
  unfolding complete_all
  complete_all-Promotes [] sha st = nothing st st refl
  complete_all-Promotes (c ∷ channels) sha st =
      and_then-Promotes st (complete_one setup world c sha st)
        (complete_all setup world channels sha) (complete_one-Promotes c sha st)
        (complete_all-Promotes channels sha)

  -- Each commit that a task moves a target branch to was moved for a channel on GitHub that is not on trial;
  -- the forge accepted it, and in the states of the jobs that the task read every required job had
  -- succeeded and every job of the packages had ended.
  pub handle_task-Promotes :
      (task : ChannelTask) (st : ChannelService) → Promotes st (handle_task setup world task st).0
  unfolding handle_task handle_jobset_complete
  handle_task-Promotes (evaluate_push c sha) st = handle_evaluate_push-Promotes c sha st
  handle_task-Promotes (jobset_complete forge owner repo sha) st =
      complete_all-Promotes (retain (is_hosted_at forge owner repo) setup.channels) sha st
