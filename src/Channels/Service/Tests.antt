-- ===== src/Channels/Service/Tests.antt =====
-- A channel with a commit in flight and another one waiting, and tasks for it.
use mathlib.Core.Option
use eka_ci.Prelude.{
  ◌≡◌, refl, Bool, true, false, some, List, [], ◌∷◌, get, insert, HashMap, arith, retain, eq_list,
  remove, any,
}
use eka_ci.Prelude.Text.{Text, text, Text_eq, to_ascii_lowercase}
use eka_ci.Drv.{DrvBuildState, completed, success, failure, is_failure, eq_state, is_terminal}
use eka_ci.Channels.{coalesce}
use eka_ci.Channels.Config
use eka_ci.Channels.State
use eka_ci.Channels.Store
use eka_ci.Channels.Service
use eka_ci.Prelude.Ordered.{lt_text}
use eka_ci.Prelude.Ordered.Sorted.{sort, sort_insert}
use eka_ci.Prelude.Ordered.Maps.{map_insert}
use eka_ci.Channels.Config.{ChannelConfig, github, channel_id}
use eka_ci.Channels.Evaluator.{evaluate_promotion, tally, tally_job}
use eka_ci.Channels.Evaluator.Decision.{IsDecision, evaluate_promotion-IsDecision}
use eka_ci.Channels.Store.{
  evaluating, new_row, find, get_in_flight, is_in_flight, finalise_evaluation, finalise_row,
}
use eka_ci.Channels.State.{
  ChannelTask, evaluate_push, jobset_complete, Setup, World, ChannelService,
}
use eka_ci.Channels.Service.{handle_task, run_tasks, complete_one}
use eka_ci.Channels.Service.Covered.{IsWell, open-IsWell, wait-IsWell}
use eka_ci.Channels.Service.Lifecycle.{handle_task-IsWell}
use eka_ci.Channels.Service.Promoted.{Promotes, handle_task-Promotes}
use eka_ci.Channels.Service.Recorded.{says_promoted, complete_one-RecordsRefusal}

abbrev stable : ChannelConfig
stable = record {
  forge = github;
  owner = text "eka";
  repo = text "pkgs";
  name = text "stable";
  tracking_branch = text "master";
  target_branch = text "release";
  required = text "core" ∷ [];
  packages = text "hello" ∷ [];
  dry_run = false;
}

abbrev setup : Setup
setup = record {
  channels = stable ∷ [];
  octocrab = true;
  github_sender = true;
  search_index_sender = true;
  failed_json = λ names. text "failed";
  results_json = λ results. text "results";
}

-- Both jobs are over, and the forge moves the branch, or is not reached.
abbrev jobs : HashMap Text DrvBuildState
jobs = (text "core", completed success) ∷ (text "hello", completed failure) ∷ []

abbrev world : Bool → World
world accepted = record {
  runs = λ c query. true;
  job_states = λ c sha. some jobs;
  answers = λ c sha. accepted;
  accepts = λ c sha. accepted;
}

abbrev idle : ChannelService
idle = record {
  rows = [];
  pending = [];
  task_queue = [];
  check_runs = [];
  index_tasks = [];
  pushed = [];
}

abbrev flying : ChannelService
flying = record idle {
  rows = new_row (channel_id stable) (text "a") (text "release") evaluating ∷ [];
}

abbrev busy : ChannelService
busy = record flying { pending = insert (channel_id stable) (text "b") [] }

idle-IsWell : IsWell idle
unfolding get retain
idle-IsWell = record { covered = λ id sha passes waits. cc; exclusive = λ id. omega arith }

flying-IsWell : IsWell flying
unfolding get_in_flight find
flying-IsWell = open-IsWell (channel_id stable) (text "a") (text "release") idle refl idle-IsWell

busy-IsWell : IsWell busy
unfolding get_in_flight find is_in_flight channel_id eq_list
busy-IsWell = wait-IsWell (channel_id stable) (text "b") flying refl flying-IsWell

abbrev completed_a : ChannelTask
completed_a = jobset_complete github (text "Eka") (text "pkgs") (text "a")

evaluate_promotion-IsDecision_example : IsDecision stable jobs (evaluate_promotion stable jobs)
evaluate_promotion-IsDecision_example = evaluate_promotion-IsDecision stable jobs

handle_task-IsWell_example : IsWell (handle_task setup (world true) completed_a busy).0
handle_task-IsWell_example = handle_task-IsWell setup (world true) completed_a busy busy-IsWell

handle_task-Promotes_example :
    Promotes setup (world true) busy (handle_task setup (world true) completed_a busy).0
handle_task-Promotes_example = handle_task-Promotes setup (world true) completed_a busy

-- The forge answers that it refuses.
abbrev refusing : World
refusing = record (world true) { accepts = λ c sha. false }

complete_one-RecordsRefusal_example :
    let st = (complete_one setup refusing stable (text "a") busy).0 in
    (st.pushed ≡ []) × (any (says_promoted (channel_id stable) (text "a")) st.rows ≡ true)
unfolding evaluate_promotion tally tally_job get eq_list is_failure eq_state retain is_terminal
    get_in_flight find is_in_flight channel_id map_insert lt_text
complete_one-RecordsRefusal_example =
    complete_one-RecordsRefusal setup refusing stable (text "a") busy
      (new_row (channel_id stable) (text "a") (text "release") evaluating) jobs
      ((text "core", completed success) ∷ []) (refl, refl, refl) (refl, refl) (refl, refl) refl refl
      refl refl

-- The jobs have not ended.
abbrev world_later : World
world_later = record {
  runs = λ c query. true;
  job_states = λ c sha. some [];
  answers = λ c sha. true;
  accepts = λ c sha. true;
}

abbrev three_tasks : List (World × ChannelTask)
three_tasks =
    (world true, completed_a)
    ∷ (world_later, evaluate_push stable (text "c"))
    ∷ (world_later, evaluate_push stable (text "b"))
    ∷ []

-- While `a` is evaluated, `b` waits and `c` is pushed. Once `a` is over `c` comes first, and the older `b`
-- waits behind it.
older_waits :
    let st = run_tasks setup three_tasks busy in
    (Option.map (λ row. row.tracking_sha) (get_in_flight (channel_id stable) st.rows)
      ≡ some (text "c"))
    × (get (channel_id stable) st.pending ≡ some (text "b"))
unfolding get_in_flight find is_in_flight channel_id evaluate_promotion tally tally_job run_tasks
    Service.go_on handle_task Service.handle_jobset_complete Service.complete_all
    Service.complete_one Service.complete_in Service.and_then Service.act_on Service.apply_action
    Service.conclude_ready Service.defer Service.dispatch_search_index Service.evaluate
    Service.evaluate_on Service.evaluate_opened Service.fire_github_check_run
    Service.handle_evaluate_push Service.open_evaluation Service.perform_promotion
    Service.perform_github_promotion State.already_decided State.drain_pending State.send_task
    State.take_up finalise_evaluation finalise_row Store.get_latest_for_sha Store.insert_evaluating
    Store.is_attempt coalesce Config.is_hosted_at Config.eq_forge Config.eq_ignore_ascii_case
    to_ascii_lowercase eq_state is_failure is_terminal get insert remove any map_insert sort
    sort_insert lt_text retain eq_list
older_waits = (refl, refl)
