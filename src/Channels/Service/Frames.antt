-- ===== src/Channels/Service/Frames.antt =====
-- What the helpers of the service leave alone.
use eka_ci.Prelude.{
  ◌≡◌, refl, Option, none, if◌then◌else◌, get, remove, get-remove, Option-cases, inl, inr, arith,
}
use eka_ci.Prelude.Text.{Text, Text_eq}
use eka_ci.Channels.Config.{ChannelConfig, channel_id}
use eka_ci.Channels.Store.{PromotionStatus}
use eka_ci.Channels.State.{
  Setup, World, ChannelService, ChannelTask, evaluate_push, send_task, drain_pending, take_up,
}
use eka_ci.Channels.Service.{
  fire_github_check_run, dispatch_search_index, perform_promotion, perform_github_promotion,
}

-- The parts of the state that decide what becomes of a commit.
pub record SameCore (st st' : ChannelService) : Type 0 where
  pub rows : st'.rows ≡ st.rows
  pub pending : st'.pending ≡ st.pending
  pub task_queue : st'.task_queue ≡ st.task_queue

module _ (setup : Setup) (world : World) (c : ChannelConfig) (sha : Text)
    (st : ChannelService) where
  pub fire-SameCore :
      (status : PromotionStatus) (reason : Option Text)
      → SameCore st (fire_github_check_run setup world c sha status reason st)
  unfolding fire_github_check_run
  fire-SameCore status reason = ground arith

  pub fire-pushed :
      (status : PromotionStatus) (reason : Option Text)
      → (fire_github_check_run setup world c sha status reason st).pushed ≡ st.pushed
  unfolding fire_github_check_run
  fire-pushed status reason = ground arith

  pub dispatch-SameCore : SameCore st (dispatch_search_index setup world c sha st)
  unfolding dispatch_search_index
  dispatch-SameCore = ground arith

  pub dispatch-pushed : (dispatch_search_index setup world c sha st).pushed ≡ st.pushed
  unfolding dispatch_search_index
  dispatch-pushed = ground arith

  pub perform-SameCore : SameCore st (perform_promotion setup world c sha st).0
  unfolding perform_promotion perform_github_promotion
  perform-SameCore = ground arith

-- A send changes only the queue.
send_task-rows : (task : ChannelTask) (st : ChannelService) → (send_task task st).0.rows ≡ st.rows
unfolding send_task
send_task-rows task st = ground arith

send_task-pending :
    (task : ChannelTask) (st : ChannelService) → (send_task task st).0.pending ≡ st.pending
unfolding send_task
send_task-pending task st = ground arith

send_task-pushed :
    (task : ChannelTask) (st : ChannelService) → (send_task task st).0.pushed ≡ st.pushed
unfolding send_task
send_task-pushed task st = ground arith

module _ (c : ChannelConfig) (st : ChannelService) where
  pub drain_pending-rows : (drain_pending c st).0.rows ≡ st.rows
  unfolding drain_pending take_up
  drain_pending-rows = elim (Option-cases (get (channel_id c) st.pending)) [
    | inl none_waits ↦ rw none_waits refl
    | inr (sha, waits) ↦ rw waits (
        send_task-rows (evaluate_push c sha)
          (record st { pending = remove (channel_id c) st.pending }))
  ]

  pub drain_pending-pushed : (drain_pending c st).0.pushed ≡ st.pushed
  unfolding drain_pending take_up
  drain_pending-pushed = elim (Option-cases (get (channel_id c) st.pending)) [
    | inl none_waits ↦ rw none_waits refl
    | inr (sha, waits) ↦ rw waits (
        send_task-pushed (evaluate_push c sha)
          (record st { pending = remove (channel_id c) st.pending }))
  ]

  pub drain_pending-pending :
      (j : Text)
      → get j (drain_pending c st).0.pending
        ≡ (if Text_eq.eq (channel_id c) j then none else get j st.pending)
  unfolding drain_pending take_up
  drain_pending-pending j = elim (Option-cases (get (channel_id c) st.pending)) [
    | inl none_waits ↦ rw none_waits (ground (arith, none_waits, Text_eq.eq_iff (channel_id c) j))
    | inr (sha, waits) ↦
        rw
          (
            waits,
            send_task-pending (evaluate_push c sha)
                (record st { pending = remove (channel_id c) st.pending }),
          )
          (get-remove (channel_id c) j st.pending)
  ]
