-- ===== src/Scheduler/Builders/Tests.antt =====
-- Inputs for the theorems about the loop over the builders.
use eka_ci.Prelude.{arith, ◌≡◌, refl, true, false, none, some, [], ◌∷◌, ◌++◌, any}
use eka_ci.Prelude.Text.{Text, text}
use eka_ci.Drv.{queued}
use eka_ci.Graph.Samples.{drv}
use eka_ci.Breaker.{open_until, initial_backoff}
use eka_ci.Scheduler.Builders.{
  BuilderChannel, Probe, LoopState, Round, loop_builds, step, compatible_builders, is_compatible,
  try_recover,
}
use eka_ci.Scheduler.Builders.Delivered.{in_order, arrivals, loop_builds-in_order}
use eka_ci.Scheduler.Builders.Fitting.{IsSound, loop_builds-IsSound}
use eka_ci.Scheduler.Builders.Starved.{loop_builds-starved, asked, IsSent, step-IsSent}

abbrev local : BuilderChannel
local = record {
  builder_name = text "local";
  is_remote = false;
  features = record { supported = text "kvm" ∷ text "big-parallel" ∷ []; mandatory = [] };
}

abbrev probes : Text → Probe
probes _ = record { asked = 1; started = 2; answered = 3; is_ok = true }

abbrev arrival : Round
arrival = record { work = some (drv 1 queued); has_room = λ _. true; probes = probes }

abbrev quiet : Round
quiet = record { work = none; has_room = λ _. true; probes = probes }

abbrev idle : LoopState
idle = record { build_buffer = []; waiting = none; registry = []; sent = [] }

-- A remote builder whose breaker is open until the instant 100.
abbrev remote : BuilderChannel
remote = record { builder_name = text "remote"; is_remote = true; features = local.features }

abbrev buffered : LoopState
buffered = record {
  build_buffer = drv 1 queued ∷ [];
  waiting = none;
  registry =
      (
        text "remote",
        record { state = open_until 100; recent_failures = []; backoff = initial_backoff },
      )
      ∷ [];
  sent = [];
}

-- The breaker lets a build through again, and the builder has room.
abbrev recovered : Round
recovered = record {
  work = none;
  has_room = λ _. true;
  probes = λ _. record { asked = 200; started = 200; answered = 200; is_ok = true };
}

abbrev ready : LoopState
ready = record {
  build_buffer = drv 1 queued ∷ [];
  waiting = some (local ∷ []);
  registry = [];
  sent = [];
}

loop_builds-in_order_example :
    in_order (loop_builds (local ∷ []) (arrival ∷ quiet ∷ []) idle)
    ≡ in_order idle ++ arrivals (arrival ∷ quiet ∷ [])
loop_builds-in_order_example = loop_builds-in_order (local ∷ []) (arrival ∷ quiet ∷ []) idle

loop_builds-IsSound_example :
    IsSound (local ∷ []) (loop_builds (local ∷ []) (arrival ∷ quiet ∷ []) idle)
loop_builds-IsSound_example = loop_builds-IsSound (local ∷ []) (arrival ∷ quiet ∷ []) idle (tt, tt)

loop_builds-starved_example :
    (loop_builds (remote ∷ []) (quiet ∷ recovered ∷ recovered ∷ []) buffered).sent ≡ []
unfolding compatible_builders is_compatible eka_ci.Scheduler.Features.can_run eka_ci.Prelude.all
    eka_ci.Scheduler.Features.required_features eka_ci.Scheduler.Features.split
    eka_ci.Prelude.contains eka_ci.Prelude.eq_list eka_ci.Scheduler.Features.trim
    eka_ci.Scheduler.Features.trim_start eka_ci.Scheduler.Features.is_whitespace
    eka_ci.Breaker.Registry.is_available eka_ci.Prelude.get eka_ci.Breaker.is_available try_recover
    eka_ci.Breaker.Registry.try_recover_begin eka_ci.Breaker.try_half_open
loop_builds-starved_example =
    loop_builds-starved (remote ∷ []) quiet (recovered ∷ recovered ∷ []) buffered (drv 1 queued) []
      refl refl refl refl

ready_waits : ready.waiting ≡ none → arrival.work ≡ none
ready_waits waits = absurd (ground (arith, waits))

step-IsSent_example : IsSent (drv 1 queued) ready (step (local ∷ []) arrival ready)
unfolding asked any
step-IsSent_example = step-IsSent (local ∷ []) arrival ready (drv 1 queued) [] refl ready_waits refl
