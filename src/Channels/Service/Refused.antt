-- ===== src/Channels/Service/Refused.antt =====
-- A promotion to which the forge gives no answer leaves its channel in evaluation.

use eka_ci.Prelude.{
  ◌≡◌, refl, ◌∙◌, sym, subst, Bool, true, false, Option, none, some, List, [], ◌∷◌, get, retain,
  HashMap, arith, Bool-cases, Option-cases, inl, inr, All, All-retain,
}
use eka_ci.Prelude.Text.{Text, Text_eq}
use eka_ci.Drv.{DrvBuildState}
use eka_ci.Channels.{CoalesceAction, start_fresh, already_in_flight, defer_as_pending, coalesce}
use eka_ci.Channels.Config.{ChannelConfig, channel_id, is_hosted_at}
use eka_ci.Channels.Evaluator.{PromotionDecision, ready, blocked, waiting, evaluate_promotion}
use eka_ci.Channels.Store.{ChannelPromotionRow, skipped, insert_skipped, get_in_flight}
use eka_ci.Channels.State.{
  ChannelTask, evaluate_push, jobset_complete, Setup, World, ChannelService, Outcome, done, failed,
  stuck, skip, latest_for_sha, in_flight, already_decided,
}
use eka_ci.Channels.Service.{
  perform_promotion, perform_github_promotion, conclude_ready, act_on, evaluate_on, evaluate, defer,
  apply_action, handle_evaluate_push, complete_in, complete_one, and_then, complete_all,
  handle_jobset_complete, handle_task, go_on, run_tasks,
}
use eka_ci.Channels.Service.Frames.{fire-SameCore, fire-pushed}
use eka_ci.Channels.Service.Covered.{insert_skipped-in_flight}

abbrev pub is_blocked : PromotionDecision → Bool
is_blocked (blocked failed_required results) = true
is_blocked _ = false

-- The commit is never found blocked, and the forge is not reached.
abbrev pub IsUnreached : ChannelConfig → Text → World → Type 0
IsUnreached c sha world =
    (world.answers c sha ≡ false)
    × (world.accepts c sha ≡ false)
    × ((job_states : HashMap Text DrvBuildState)
        → world.job_states c sha ≡ some job_states
        → is_blocked (evaluate_promotion c job_states) ≡ false)

-- A push of the channel, or the end of any jobset.
abbrev pub Concerns : ChannelConfig → ChannelTask → Type 0
Concerns c (evaluate_push channel sha) = channel ≡ c
Concerns c (jobset_complete forge owner repo sha) = Unit

not_fresh :
    (flight sha : Text) (pending : Option Text)
    → ¬ (coalesce (some flight) pending sha ≡ start_fresh)
unfolding coalesce
not_fresh flight sha none h = ground (arith, h)
not_fresh flight sha (some prev) h = ground (arith, h)

module _ (setup : Setup) (c : ChannelConfig) (row : ChannelPromotionRow) where
  abbrev Held : ChannelService → Outcome → Type 0
  Held st outcome =
      (get_in_flight (channel_id c) outcome.0.rows ≡ some row) × (outcome.0.pushed ≡ st.pushed)

  module _ (world : World) (earnest : c.dry_run ≡ false) where
    refused :
        (st : ChannelService)
        → world.answers c row.tracking_sha ≡ false
        → world.accepts c row.tracking_sha ≡ false
        → perform_promotion setup world c row.tracking_sha st ≡ (st, false)
    unfolding perform_promotion perform_github_promotion
    refused st silent no_push = ground (arith, earnest, silent, no_push)

    act_on-Held :
        (decision : PromotionDecision) (st : ChannelService)
        → world.answers c row.tracking_sha ≡ false
        → world.accepts c row.tracking_sha ≡ false
        → is_blocked decision ≡ false
        → get_in_flight (channel_id c) st.rows ≡ some row
        → Held st (act_on setup world c row.tracking_sha decision st)
    unfolding act_on conclude_ready
    act_on-Held (ready results) st silent no_push open_ flies =
        rw (refused st silent no_push) (flies, refl)
    act_on-Held (blocked failed_required results) st silent no_push open_ flies = cc
    act_on-Held (waiting pending_required pending_packages) st silent no_push open_ flies =
        (flies, refl)

    evaluate-Held :
        (st : ChannelService)
        → IsUnreached c row.tracking_sha world
        → get_in_flight (channel_id c) st.rows ≡ some row
        → Held st (evaluate setup world c row.tracking_sha st)
    unfolding evaluate evaluate_on
    evaluate-Held st (silent, no_push, open_) flies =
        elim (Option-cases (world.job_states c row.tracking_sha)) [
          | inl unknown ↦ rw unknown (flies, refl)
          | inr (job_states, known) ↦ rw known (
              act_on-Held (evaluate_promotion c job_states) st silent no_push
                (open_ job_states known) flies)
        ]

    complete_one-Held :
        (sha : Text) (st : ChannelService)
        → IsUnreached c row.tracking_sha world
        → get_in_flight (channel_id c) st.rows ≡ some row
        → Held st (complete_one setup world c sha st)
    unfolding complete_one complete_in
    complete_one-Held sha st refusal flies = elim (Bool-cases (world.runs c in_flight)) [
      | inr down ↦ rw down (flies, refl)
      | inl runs ↦ elim (Bool-cases (Text_eq.eq row.tracking_sha sha)) [
        | inr other ↦ rw (runs, flies, other) (flies, refl)
        | inl same ↦
            rw (runs, flies, same)
              (subst (λ s. Held st (evaluate setup world c s st))
                ((Text_eq.eq_iff row.tracking_sha sha).0 same) (evaluate-Held st refusal flies))
      ]
    ]

    defer-Held :
        (sha : Text) (previous : Option Text) (st : ChannelService)
        → get_in_flight (channel_id c) st.rows ≡ some row
        → Held st (defer setup world c sha previous st)
    unfolding defer
    defer-Held sha none st flies = (flies, refl)
    defer-Held sha (some prev) st flies = elim (Bool-cases (world.runs c skip)) [
      | inr down ↦ rw down (flies, refl)
      | inl runs ↦
          let id = channel_id c in
          let noted = record st { rows = insert_skipped id prev c.target_branch st.rows } in
          let same = fire-SameCore setup world c prev noted skipped none in
          rw runs (
            rw (same.rows, insert_skipped-in_flight id prev c.target_branch id st.rows) flies,
            fire-pushed setup world c prev noted skipped none,
          )
    ]

    apply_action-Held :
        (sha : Text) (pending : Option Text) (action : CoalesceAction) (st : ChannelService)
        → get_in_flight (channel_id c) st.rows ≡ some row
        → coalesce (some row.tracking_sha) pending sha ≡ action
        → Held st (apply_action setup world c sha action st)
    unfolding apply_action
    apply_action-Held sha pending already_in_flight st flies chosen = (flies, refl)
    apply_action-Held sha pending (defer_as_pending previous) st flies chosen =
        defer-Held sha previous st flies
    apply_action-Held sha pending start_fresh st flies chosen =
        absurd (not_fresh row.tracking_sha sha pending chosen)

    handle_evaluate_push-Held :
        (sha : Text) (st : ChannelService)
        → get_in_flight (channel_id c) st.rows ≡ some row
        → Held st (handle_evaluate_push setup world c sha st)
    unfolding handle_evaluate_push
    handle_evaluate_push-Held sha st flies = elim (Bool-cases (world.runs c latest_for_sha)) [
      | inr down ↦ rw down (flies, refl)
      | inl runs ↦ elim (Bool-cases (already_decided (channel_id c) sha st.rows)) [
        | inl decided ↦ rw (runs, decided) (flies, refl)
        | inr undecided ↦ elim (Bool-cases (world.runs c in_flight)) [
          | inr down ↦ rw (runs, undecided, down) (flies, refl)
          | inl runs' ↦
              let pending = get (channel_id c) st.pending in
              rw (runs, undecided, runs', flies)
                (apply_action-Held sha pending (coalesce (some row.tracking_sha) pending sha) st
                  flies refl)
        ]
      ]
    ]

    and_then-Held :
        (st : ChannelService) (outcome : Outcome) (rest : ChannelService → Outcome)
        → Held st outcome
        → ((st' : ChannelService)
            → get_in_flight (channel_id c) st'.rows ≡ some row
            → Held st' (rest st'))
        → Held st (and_then setup world outcome rest)
    unfolding and_then
    and_then-Held st (st', done) rest (flies, same) keeps =
        ((keeps st' flies).0, (keeps st' flies).1 ∙ same)
    and_then-Held st (st', failed) rest held keeps = held
    and_then-Held st (st', stuck) rest held keeps = held

    complete_all-Held :
        (channels : List ChannelConfig) (sha : Text) (st : ChannelService)
        → All (λ x. x ≡ c) channels
        → IsUnreached c row.tracking_sha world
        → get_in_flight (channel_id c) st.rows ≡ some row
        → Held st (complete_all setup world channels sha st)
    unfolding complete_all
    complete_all-Held [] sha st same refusal flies = (flies, refl)
    complete_all-Held (x ∷ channels) sha st same refusal flies =
        let first =
          subst (λ k. Held st (complete_one setup world k sha st)) (sym same.0)
            (complete_one-Held sha st refusal flies) in
        and_then-Held st (complete_one setup world x sha st) (complete_all setup world channels sha)
          first (λ st' flies'. complete_all-Held channels sha st' same.1 refusal flies')

  handle_task-Held :
      (world : World)
      → c.dry_run ≡ false
      → (task : ChannelTask) (st : ChannelService) → All (λ x. x ≡ c) setup.channels
      → IsUnreached c row.tracking_sha world
      → Concerns c task
      → get_in_flight (channel_id c) st.rows ≡ some row
      → Held st (handle_task setup world task st)
  unfolding handle_task handle_jobset_complete
  handle_task-Held world earnest (evaluate_push channel sha) st only refusal same flies =
      subst (λ k. Held st (handle_evaluate_push setup world k sha st)) (sym same)
        (handle_evaluate_push-Held world earnest sha st flies)
  handle_task-Held world earnest (jobset_complete forge owner repo sha) st only refusal same flies =
      complete_all-Held world earnest (retain (is_hosted_at forge owner repo) setup.channels) sha st
        (All-retain (λ x. x ≡ c) (is_hosted_at forge owner repo) setup.channels only) refusal flies

  go_on-Held :
      (st : ChannelService) (outcome : Outcome) (rest : ChannelService → ChannelService)
      → Held st outcome
      → ((st' : ChannelService)
          → get_in_flight (channel_id c) st'.rows ≡ some row
          → Held st' (rest st', done))
      → Held st (go_on outcome rest, done)
  unfolding go_on
  go_on-Held st (st', done) rest (flies, same) keeps =
      ((keeps st' flies).0, (keeps st' flies).1 ∙ same)
  go_on-Held st (st', failed) rest (flies, same) keeps =
      ((keeps st' flies).0, (keeps st' flies).1 ∙ same)
  go_on-Held st (st', stuck) rest held keeps = held

  abbrev pub Met : World × ChannelTask → Type 0
  Met (world, task) = IsUnreached c row.tracking_sha world × Concerns c task

  -- While the commit in flight is never found blocked and requests to move the target branch to it get no
  -- answer and do nothing,
  -- its evaluation does not end, whatever commits are pushed and jobsets end, and however often: it stays
  -- in flight as it was, and no target branch is moved. The channel is the only one of the service, and not
  -- on trial.
  pub run_tasks-Held :
      (tasks : List (World × ChannelTask)) (st : ChannelService)
      → c.dry_run ≡ false
      → All (λ x. x ≡ c) setup.channels
      → All Met tasks
      → get_in_flight (channel_id c) st.rows ≡ some row
      → (get_in_flight (channel_id c) (run_tasks setup tasks st).rows ≡ some row)
        × ((run_tasks setup tasks st).pushed ≡ st.pushed)
  unfolding run_tasks
  run_tasks-Held [] st earnest only met flies = (flies, refl)
  run_tasks-Held ((world, task) ∷ tasks) st earnest only met flies =
      go_on-Held st (handle_task setup world task st) (run_tasks setup tasks)
        (handle_task-Held world earnest task st only met.0.0 met.0.1 flies)
        (λ st' flies'. run_tasks-Held tasks st' earnest only met.1 flies')
