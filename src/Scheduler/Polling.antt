-- ===== src/Scheduler/Polling.antt =====
-- `poll_for_builds` of backend/server/src/scheduler/build/queue.rs, one iteration of its loop a step.
pub mod Delivered
mod Tests
use eka_ci.Prelude.{
  ℕ, Bool, true, false, Option, none, some, List, [], ◌∷◌, ◌++◌, if◌then◌else◌, contains, is_empty,
  HashMap, all,
}
use eka_ci.Prelude.Text.{Text_eq}
use eka_ci.Drv.{Drv}
use eka_ci.Scheduler.Pending.{Platform, Pending, classify_and_enqueue, drain, dispatch}

-- What `select!` gives where nothing is pending.
pub data Awaited : Type 0 where
  cancelled_wait channel_closed : Awaited
  received : (request : Drv) → Awaited

-- What an iteration meets: whether it is cancelled at its start, the requests that `try_recv` gives,
-- whether the channel is closed behind them, the room in the queue of each platform, and what comes if
-- it waits.
pub record Round : Type 0 where
  cancelled : Bool
  arrived : List Drv
  disconnected : Bool
  room : Platform → ℕ
  awaited : Awaited

-- A platform without a queue has its requests dropped.
unfoldable pub dispatch_queue :
    List Platform → (Platform → ℕ) → Platform → List Drv → List Drv × List Drv
dispatch_queue senders room p queue =
    if contains senders p then dispatch (room p) queue else ([], [])

-- What is sent to each platform, and what stays.
unfoldable pub dispatch_all : List Platform → (Platform → ℕ) → Pending → Pending × Pending
dispatch_all senders room [] = ([], [])
dispatch_all senders room ((p, queue) ∷ pending) =
    let (sent, left) = dispatch_queue senders room p queue in
    let (sents, lefts) = dispatch_all senders room pending in ((p, sent) ∷ sents, (p, left) ∷ lefts)

-- What the loop did: what it sent in each iteration, the requests that it took from its channel, and
-- the requests that wait.
pub record Run : Type 0 where
  sent : List Pending
  taken : List Drv
  pending : Pending

abbrev pub after_round : Pending → List Drv → Run → Run
after_round sent taken run = record {
  sent = sent ∷ run.sent;
  taken = taken ++ run.taken;
  pending = run.pending;
}

abbrev pub stopped : Pending → Run
stopped pending = record { sent = []; taken = []; pending = pending }

abbrev pub all_empty : Pending → Bool
all_empty = all λ entry. is_empty entry.1

module _ (senders : List Platform) (default_platform : Option Platform) where
  -- The third step, where nothing is pending, with the rest of the loop.
  abbrev pub wait_for_request : Awaited → Pending → List Drv → Pending → (Pending → Run) → Run
  wait_for_request cancelled_wait sent taken left continue = after_round sent taken (stopped left)
  wait_for_request channel_closed sent taken left continue = after_round sent taken (stopped left)
  wait_for_request (received request) sent taken left continue =
      after_round sent (taken ++ (request ∷ []))
        (continue (classify_and_enqueue default_platform request left))

  unfoldable pub poll_for_builds : List Round → Pending → Run
  poll_for_builds [] pending = stopped pending
  poll_for_builds (round ∷ rounds) pending =
      let drained = drain default_platform round.arrived pending in
      let (sent, left) = dispatch_all senders round.room drained in
      let waits = wait_for_request round.awaited sent round.arrived left (poll_for_builds rounds) in
      let ticks = after_round sent round.arrived (poll_for_builds rounds left) in
      if round.cancelled
      then stopped pending
      else if round.disconnected
      then record { sent = []; taken = round.arrived; pending = drained }
      else if all_empty left
      then waits
      else ticks
