-- ===== src/Channels/Service/Lifecycle.antt =====
-- Every task keeps the rows and the waiting commits in order.
use mathlib.Core.Option
use eka_ci.Prelude.{
  ◌≡◌, refl, true, Option, none, some, List, [], ◌∷◌, get, retain, arith, Bool-cases, inl, inr,
}
use eka_ci.Prelude.Text.{Text, Text_eq}
use eka_ci.Channels.{CoalesceAction, start_fresh, already_in_flight, defer_as_pending, coalesce}
use eka_ci.Channels.Config.{ChannelConfig, channel_id, is_hosted_at}
use eka_ci.Channels.Store.{ChannelPromotionRow, get_in_flight}
use eka_ci.Channels.State.{
  ChannelTask, evaluate_push, jobset_complete, Setup, World, ChannelService, Outcome, done, failed,
  stuck, latest_for_sha, in_flight, already_decided,
}
use eka_ci.Channels.Service.{
  apply_action, handle_evaluate_push, complete_in, complete_one, and_then, complete_all,
  handle_jobset_complete, handle_task,
}
use eka_ci.Channels.Service.Covered.{IsWell, waits_for}
use eka_ci.Channels.Service.Evaluations.{evaluate-IsWell, defer-IsWell, open_evaluation-IsWell}

coalesce-start_fresh :
    (flight : Option ChannelPromotionRow) (pending : Option Text) (sha : Text)
    → coalesce (Option.map (λ row. row.tracking_sha) flight) pending sha ≡ start_fresh
    → flight ≡ none
unfolding coalesce
coalesce-start_fresh none pending sha h = refl
coalesce-start_fresh (some row) none sha h = ground (arith, h)
coalesce-start_fresh (some row) (some prev) sha h = ground (arith, h)

coalesce-defer_as_pending :
    (flight : Option ChannelPromotionRow) (pending : Option Text) (sha : Text)
    (previous : Option Text)
    → coalesce (Option.map (λ row. row.tracking_sha) flight) pending sha ≡ defer_as_pending previous
    → waits_for flight sha ≡ true
unfolding coalesce
coalesce-defer_as_pending none pending sha previous h = cc
coalesce-defer_as_pending (some row) none sha previous h = ground (arith, h)
coalesce-defer_as_pending (some row) (some prev) sha previous h = ground (arith, h)

module _ (setup : Setup) (world : World) where
  apply_action-IsWell :
      (c : ChannelConfig) (sha : Text) (action : CoalesceAction) (st : ChannelService)
      → coalesce
          (Option.map (λ row. row.tracking_sha) (get_in_flight (channel_id c) st.rows))
          (get (channel_id c) st.pending)
          sha
        ≡ action
      → IsWell st
      → IsWell (apply_action setup world c sha action st).0
  unfolding apply_action
  apply_action-IsWell c sha already_in_flight st chosen w = w
  apply_action-IsWell c sha (defer_as_pending previous) st chosen w =
      defer-IsWell setup world c sha previous st
        (coalesce-defer_as_pending (get_in_flight (channel_id c) st.rows)
          (get (channel_id c) st.pending) sha previous chosen)
        w
  apply_action-IsWell c sha start_fresh st chosen w =
      open_evaluation-IsWell setup world c sha st
        (coalesce-start_fresh (get_in_flight (channel_id c) st.rows) (get (channel_id c) st.pending)
          sha chosen)
        w

  handle_evaluate_push-IsWell :
      (c : ChannelConfig) (sha : Text) (st : ChannelService)
      → IsWell st
      → IsWell (handle_evaluate_push setup world c sha st).0
  unfolding handle_evaluate_push
  handle_evaluate_push-IsWell c sha st w = elim (Bool-cases (world.runs c latest_for_sha)) [
    | inr refused ↦ rw refused w
    | inl runs ↦ elim (Bool-cases (already_decided (channel_id c) sha st.rows)) [
      | inl decided ↦ rw (runs, decided) w
      | inr undecided ↦ elim (Bool-cases (world.runs c in_flight)) [
        | inr refused ↦ rw (runs, undecided, refused) w
        | inl runs' ↦
            rw (runs, undecided, runs')
              (apply_action-IsWell c sha
                (coalesce
                  (Option.map (λ row. row.tracking_sha) (get_in_flight (channel_id c) st.rows))
                  (get (channel_id c) st.pending) sha)
                st refl w)
      ]
    ]
  ]

  complete_in-IsWell :
      (c : ChannelConfig) (sha : Text) (st : ChannelService) (row : Option ChannelPromotionRow)
      → IsWell st
      → IsWell (complete_in setup world c sha row st).0
  unfolding complete_in
  complete_in-IsWell c sha st none w = w
  complete_in-IsWell c sha st (some row) w = elim (Bool-cases (Text_eq.eq row.tracking_sha sha)) [
    | inl same ↦ rw same (evaluate-IsWell setup world c sha st w)
    | inr other ↦ rw other w
  ]

  and_then-IsWell :
      (outcome : Outcome) (rest : ChannelService → Outcome)
      → IsWell outcome.0
      → ((st : ChannelService) → IsWell st → IsWell (rest st).0)
      → IsWell (and_then setup world outcome rest).0
  unfolding and_then
  and_then-IsWell (st, done) rest w keeps = keeps st w
  and_then-IsWell (st, failed) rest w keeps = w
  and_then-IsWell (st, stuck) rest w keeps = w

  complete_one-IsWell :
      (c : ChannelConfig) (sha : Text) (st : ChannelService)
      → IsWell st
      → IsWell (complete_one setup world c sha st).0
  unfolding complete_one
  complete_one-IsWell c sha st w = elim (Bool-cases (world.runs c in_flight)) [
    | inr refused ↦ rw refused w
    | inl runs ↦ rw runs (complete_in-IsWell c sha st (get_in_flight (channel_id c) st.rows) w)
  ]

  complete_all-IsWell :
      (channels : List ChannelConfig) (sha : Text) (st : ChannelService)
      → IsWell st
      → IsWell (complete_all setup world channels sha st).0
  unfolding complete_all and_then
  complete_all-IsWell [] sha st w = w
  complete_all-IsWell (c ∷ channels) sha st w =
      and_then-IsWell (complete_one setup world c sha st) (complete_all setup world channels sha)
        (complete_one-IsWell c sha st w) (complete_all-IsWell channels sha)

  -- Whatever the queries, the jobs and the forge answer, a task keeps this: each channel has at most one
  -- evaluation in flight, and a channel with a waiting commit has one in flight, of another commit. So
  -- no waiting commit is left behind when an evaluation ends, and also a task that fails or waits for
  -- ever leaves the rows so.
  pub handle_task-IsWell :
      (task : ChannelTask) (st : ChannelService)
      → IsWell st
      → IsWell (handle_task setup world task st).0
  unfolding handle_task handle_jobset_complete
  handle_task-IsWell (evaluate_push c sha) st w = handle_evaluate_push-IsWell c sha st w
  handle_task-IsWell (jobset_complete forge owner repo sha) st w =
      complete_all-IsWell (retain (is_hosted_at forge owner repo) setup.channels) sha st w
