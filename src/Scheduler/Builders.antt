-- ===== src/Scheduler/Builders.antt =====
-- `loop_builds` of backend/server/src/scheduler/build/system_queue.rs: the builds of one platform,
-- their buffer, and the choice of a builder. A step is one round of the outer or of the inner loop,
-- with what the channels and the clock give in it.
mod Tests
pub mod Delivered
pub mod Fitting
pub mod Starved
use eka_ci.Prelude.{
  ℕ, Bool, true, false, not, ◌&&◌, Option, none, some, List, [], ◌∷◌, ◌++◌, if◌then◌else◌,
}
use eka_ci.Prelude.Text.{Text}
use eka_ci.Drv.{Drv}
use eka_ci.Breaker.Registry.{
  CircuitBreakerRegistry, Recovery, returned, probing, is_available, try_recover_begin,
  try_recover_finish,
}
use eka_ci.Scheduler.Features.{BuilderFeatures, can_run, required_features}

pub record BuilderChannel : Type 0 where
  pub builder_name : Text
  pub is_remote : Bool
  pub features : BuilderFeatures

-- The instants at which the breaker of a builder is asked, at which its recovery starts and at which
-- the probe has answered, and that answer.
pub record Probe : Type 0 where
  pub asked : ℕ
  pub started : ℕ
  pub answered : ℕ
  pub is_ok : Bool

unfoldable pub try_recover : Probe → Text → CircuitBreakerRegistry → CircuitBreakerRegistry × Bool
try_recover probe name m =
    let (m', recovery) = try_recover_begin probe.started name m in
    elim recovery as (λ r. CircuitBreakerRegistry × Bool) [
      | returned b ↦ (m', b)
      | probing ↦ try_recover_finish probe.answered probe.is_ok name m'
    ]

-- The checks of one builder.
unfoldable pub is_compatible :
    Probe → List Text → BuilderChannel → CircuitBreakerRegistry → CircuitBreakerRegistry × Bool
is_compatible probe required bc m =
    if not (can_run required bc.features)
    then (m, false)
    else if bc.is_remote && not (is_available probe.asked bc.builder_name m)
    then try_recover probe bc.builder_name m
    else (m, true)

-- The loop over the builders.
unfoldable pub compatible_builders :
    (Text → Probe)
    → List Text
    → List BuilderChannel
    → CircuitBreakerRegistry
    → CircuitBreakerRegistry × List BuilderChannel
compatible_builders probes required [] m = (m, [])
compatible_builders probes required (bc ∷ channels) m =
    let (m', fits) = is_compatible (probes bc.builder_name) required bc m in
    let (m'', others) = compatible_builders probes required channels m' in
    (m'', if fits then bc ∷ others else others)

-- `waiting` holds the compatible builders of the front while the inner loop waits for a permit, and
-- `sent` the builds that were sent, with the names of their builders.
pub record LoopState : Type 0 where
  pub build_buffer : List Drv
  pub waiting : Option (List BuilderChannel)
  pub registry : CircuitBreakerRegistry
  pub sent : List (Text × Drv)

-- `try_reserve` on one builder after the other.
unfoldable pub first_permit : (BuilderChannel → Bool) → List BuilderChannel → Option BuilderChannel
first_permit has_room [] = none
first_permit has_room (bc ∷ channels) =
    let later = first_permit has_room channels in if has_room bc then some bc else later

-- The front of the buffer goes to the builder.
unfoldable pub send_front : BuilderChannel → List Drv → LoopState → LoopState
send_front bc [] st = st
send_front bc (drv ∷ rest) st = record st {
  build_buffer = rest;
  waiting = none;
  sent = st.sent ++ (bc.builder_name, drv) ∷ [];
}

-- The start of a round of the inner loop.
unfoldable pub try_permits : (BuilderChannel → Bool) → List BuilderChannel → LoopState → LoopState
try_permits has_room builders st = elim (first_permit has_room builders) as (λ o. LoopState) [
  | none ↦ record st { waiting = some builders }
  | some bc ↦ send_front bc st.build_buffer st
]

unfoldable pub push_back : Drv → LoopState → LoopState
push_back drv st = record st { build_buffer = st.build_buffer ++ drv ∷ [] }

-- What a round meets: the work that arrives in it, if any, the builders that have room, and the
-- answers of their breakers.
pub record Round : Type 0 where
  pub work : Option Drv
  pub has_room : BuilderChannel → Bool
  pub probes : Text → Probe

-- A round of the outer loop without work: the builders of the front are looked up.
unfoldable pub start_front : List BuilderChannel → Round → List Drv → LoopState → LoopState
start_front channels round [] st = st
start_front channels round (drv ∷ rest) st =
    let (m, builders) =
      compatible_builders round.probes (required_features drv.required_system_features) channels
        st.registry in
    try_permits round.has_room builders (record st { registry = m })

unfoldable pub receive : Option Drv → LoopState → LoopState
receive none st = st
receive (some drv) st = push_back drv st

unfoldable pub outer_round : List BuilderChannel → Round → LoopState → LoopState
outer_round channels round st = elim round.work as (λ o. LoopState) [
  | some drv ↦ push_back drv st
  | none ↦ start_front channels round st.build_buffer st
]

unfoldable pub step : List BuilderChannel → Round → LoopState → LoopState
step channels round st = elim st.waiting as (λ o. LoopState) [
  | none ↦ outer_round channels round st
  | some builders ↦ try_permits round.has_room builders (receive round.work st)
]

unfoldable pub loop_builds : List BuilderChannel → List Round → LoopState → LoopState
loop_builds channels [] st = st
loop_builds channels (round ∷ rounds) st = loop_builds channels rounds (step channels round st)
