-- ===== src/Scheduler/Polling/Tests.antt =====
-- The loop of the build queue.
use eka_ci.Prelude.{
  ◌≡◌, refl, false, some, List, [], ◌∷◌, ◌++◌, contains, eq_list, get, insert, all,
}
use eka_ci.Prelude.Text.{text}
use eka_ci.Drv.{buildable}
use eka_ci.Graph.Samples.{drv}
use eka_ci.Scheduler.Pending.{
  Platform, waiting, of_platform, platform_of, classify_and_enqueue, drain, dispatch,
}
use eka_ci.Scheduler.Polling.{Round, received, poll_for_builds, dispatch_all, dispatch_queue}
use eka_ci.Scheduler.Polling.Delivered.{sent_to, poll_for_builds-keeps}

abbrev linux : Platform
linux = text "x86_64-linux"

-- Two requests find room for one; then the other is sent, and a third one comes while the loop waits.
abbrev rounds : List Round
rounds =
    record {
      cancelled = false;
      arrived = drv 1 buildable ∷ drv 2 buildable ∷ [];
      disconnected = false;
      room = λ _. 1;
      awaited = received (drv 9 buildable);
    }
    ∷ record {
      cancelled = false;
      arrived = [];
      disconnected = false;
      room = λ _. 1;
      awaited = received (drv 3 buildable);
    }
    ∷ []

poll_for_builds_runs :
    let run = poll_for_builds (linux ∷ []) (some linux) rounds [] in
    (sent_to linux run.sent ≡ drv 1 buildable ∷ drv 2 buildable ∷ [])
    × (waiting linux run.pending ≡ drv 3 buildable ∷ [])
unfolding poll_for_builds drain classify_and_enqueue platform_of dispatch_all dispatch_queue
    dispatch contains eq_list get insert all sent_to
poll_for_builds_runs = (refl, refl)

poll_for_builds-keeps_example :
    let run = poll_for_builds (linux ∷ []) (some linux) rounds [] in
    sent_to linux run.sent ++ waiting linux run.pending ≡ of_platform (some linux) linux run.taken
unfolding contains eq_list
poll_for_builds-keeps_example = poll_for_builds-keeps (linux ∷ []) (some linux) rounds linux refl
