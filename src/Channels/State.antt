-- ===== src/Channels/State.antt =====
-- The state and the tasks of backend/server/src/channels/service.rs, and what a task meets outside. Check
-- runs and tasks of the search index are sent by spawned tasks; the model lists them in the order of
-- the calls.
use eka_ci.Prelude.{
  ℕ, Bool, false, ◌||◌, ◌==◌, ltb, Option, none, some, List, [], ◌∷◌, ◌++◌, if◌then◌else◌, get,
  remove, HashMap, length,
}
use eka_ci.Prelude.Text.{Text, Text_eq}
use eka_ci.Drv.{DrvBuildState}
use eka_ci.Channels.Config.{ChannelForge, ChannelConfig, channel_id}
use eka_ci.Channels.Store.{
  PromotionStatus, ChannelPromotionRow, promoted, push_failed, blocked, as_i64, Rows,
  get_latest_for_sha,
}

pub data ChannelTask : Type 0 where
  evaluate_push : (channel : ChannelConfig) (sha : Text) → ChannelTask
  jobset_complete : (forge : ChannelForge) (owner repo sha : Text) → ChannelTask

pub record CheckRun : Type 0 where
  pub owner : Text
  pub repo_name : Text
  pub sha : Text
  pub channel_name : Text
  pub promotion_status : PromotionStatus
  pub blocked_reason : Option Text

-- What the service was made with: its channels, whether the client and the senders are there, and how
-- serde_json writes the failed jobs and the results.
pub record Setup : Type 0 where
  pub channels : List ChannelConfig
  pub octocrab : Bool
  pub github_sender : Bool
  pub search_index_sender : Bool
  pub failed_json : List Text → Text
  pub results_json : HashMap Text DrvBuildState → Text

-- `task_queue` is the channel of the service's own tasks, and `pushed` the commits that a target branch
-- was moved to.
pub record ChannelService : Type 0 where
  pub rows : Rows
  pub pending : HashMap Text Text
  pub task_queue : List ChannelTask
  pub check_runs : List CheckRun
  pub index_tasks : List (ChannelConfig × Text)
  pub pushed : List (Text × Text)

pub data Query : Type 0 where
  latest_for_sha in_flight skip open_row finalise : Query

-- What a task meets outside: whether a query runs, the states of the jobs (`none` if that query fails),
-- whether a request to the forge is answered at all, and whether the forge moves the branch as it asks.
pub record World : Type 0 where
  pub runs : ChannelConfig → Query → Bool
  pub job_states : ChannelConfig → Text → Option (HashMap Text DrvBuildState)
  pub answers : ChannelConfig → Text → Bool
  pub accepts : ChannelConfig → Text → Bool

-- A task returns, fails, or waits for ever.
pub data Ending : Type 0 where
  done failed stuck : Ending

abbrev pub Outcome : Type 0
Outcome = ChannelService × Ending

abbrev pub channel_task_buffer : ℕ
channel_task_buffer = 1000

-- Only the service itself takes tasks from its channel, so a send that finds it full never ends.
unfoldable pub send_task : ChannelTask → ChannelService → Outcome
send_task task st =
    if ltb (length st.task_queue) channel_task_buffer
    then (record st { task_queue = st.task_queue ++ task ∷ [] }, done)
    else (st, stuck)

unfoldable pub take_up : ChannelConfig → Option Text → ChannelService → Outcome
take_up channel none st = (st, done)
take_up channel (some sha) st =
    send_task (evaluate_push channel sha)
      (record st { pending = remove (channel_id channel) st.pending })

unfoldable pub drain_pending : ChannelConfig → ChannelService → Outcome
drain_pending channel st = take_up channel (get (channel_id channel) st.pending) st

abbrev pub is_decision : Option ChannelPromotionRow → Bool
is_decision none = false
is_decision (some row) =
    (row.status == as_i64 promoted)
    || ((row.status == as_i64 blocked) || (row.status == as_i64 push_failed))

unfoldable pub already_decided : (id sha : Text) → Rows → Bool
already_decided id sha rows = is_decision (get_latest_for_sha id sha rows)
