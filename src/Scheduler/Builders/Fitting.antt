-- ===== src/Scheduler/Builders/Fitting.antt =====
-- A build is sent only to a builder of the platform that has its features.
use eka_ci.Prelude.{
  ◌≡◌, refl, sym, subst, Bool, true, Option, none, some, List, [], ◌∷◌, arith, Bool-cases,
  Option-cases, List-cases, inl, inr, All, All-append,
}
use mathlib.Core.List.{Mem, mem-cons_self, mem-cons_of_mem}
use eka_ci.Prelude.Text.{Text}
use eka_ci.Drv.{Drv}
use eka_ci.Breaker.Registry.{CircuitBreakerRegistry}
use eka_ci.Scheduler.Features.{can_run, required_features}
use eka_ci.Scheduler.Builders.{
  BuilderChannel, Probe, LoopState, Round, is_compatible, compatible_builders, first_permit,
  send_front, try_permits, push_back, start_front, outer_round, receive, step, loop_builds,
}
use eka_ci.Scheduler.Builders.Starved.{receive-front, receive-keeps}

-- A builder of the platform that can run a derivation with these features.
abbrev pub IsFitting : List BuilderChannel → Drv → BuilderChannel → Type 0
IsFitting channels drv bc =
    Mem bc channels × (can_run (required_features drv.required_system_features) bc.features ≡ true)

-- A build was sent to a fitting builder.
abbrev pub IsWellSent : List BuilderChannel → Text × Drv → Type 0
IsWellSent channels sent =
    (bc : BuilderChannel) × (bc.builder_name ≡ sent.0) × IsFitting channels sent.1 bc

-- While the loop waits, it does so for fitting builders of the front.
abbrev IsWaiting : List BuilderChannel → List Drv → Option (List BuilderChannel) → Type 0
IsWaiting channels buffer none = Unit
IsWaiting channels [] (some builders) = ⊥
IsWaiting channels (drv ∷ rest) (some builders) = All (IsFitting channels drv) builders

abbrev pub IsSound : List BuilderChannel → LoopState → Type 0
IsSound channels st =
    All (IsWellSent channels) st.sent × IsWaiting channels st.build_buffer st.waiting

is_compatible-can_run :
    (probe : Probe) (required : List Text) (bc : BuilderChannel) (m : CircuitBreakerRegistry)
    → (is_compatible probe required bc m).1 ≡ true
    → can_run required bc.features ≡ true
unfolding is_compatible
is_compatible-can_run probe required bc m h = elim (Bool-cases (can_run required bc.features)) [
  | inl fits ↦ fits
  | inr lacks ↦ absurd (ground (arith, h, lacks))
]

compatible_builders-All :
    (P : BuilderChannel → Type 0) (probes : Text → Probe) (required : List Text)
    (channels : List BuilderChannel) (m : CircuitBreakerRegistry)
    → All P channels
    → All
        (λ bc. P bc × (can_run required bc.features ≡ true))
        (compatible_builders probes required channels m).1
unfolding compatible_builders
compatible_builders-All P probes required [] m h = tt
compatible_builders-All P probes required (bc ∷ channels) m h =
    let (m', fits) = is_compatible (probes bc.builder_name) required bc m in
    let rest = compatible_builders-All P probes required channels m' h.1 in
    elim (Bool-cases fits) [
      | inl yes_fits ↦
          rw yes_fits
            ((h.0, is_compatible-can_run (probes bc.builder_name) required bc m yes_fits), rest)
      | inr no_fits ↦ rw no_fits rest
    ]

members :
    (channels all : List BuilderChannel)
    → ((bc : BuilderChannel) → Mem bc channels → Mem bc all)
    → All (λ bc. Mem bc all) channels
members [] all h = tt
members (bc ∷ channels) all h =
    (h bc mem-cons_self, members channels all (λ b m. h b (mem-cons_of_mem bc m)))

first_permit-All :
    (P : BuilderChannel → Type 0) (has_room : BuilderChannel → Bool)
    (builders : List BuilderChannel) (bc : BuilderChannel)
    → All P builders
    → first_permit has_room builders ≡ some bc
    → P bc
unfolding first_permit
first_permit-All P has_room [] bc h found = absurd (ground (arith, found))
first_permit-All P has_room (b ∷ builders) bc h found = elim (Bool-cases (has_room b)) [
  | inl room ↦ subst P (ground (arith, found, room)) h.0
  | inr full ↦ first_permit-All P has_room builders bc h.1 (ground (arith, found, full))
]

try_permits-IsSound :
    (channels : List BuilderChannel) (has_room : BuilderChannel → Bool)
    (builders : List BuilderChannel) (st : LoopState) (drv : Drv) (rest : List Drv)
    → st.build_buffer ≡ drv ∷ rest
    → All (IsWellSent channels) st.sent
    → All (IsFitting channels drv) builders
    → IsSound channels (try_permits has_room builders st)
unfolding try_permits send_front
try_permits-IsSound channels has_room builders st drv rest front sent fitting =
    elim (Option-cases (first_permit has_room builders)) [
      | inl none_free ↦
          rw (none_free, try_permits)
            (sent, subst (λ buffer. IsWaiting channels buffer (some builders)) (sym front) fitting)
      | inr (bc, found) ↦
          let fits = first_permit-All (IsFitting channels drv) has_room builders bc fitting found in
          rw (found, try_permits)
            (subst (λ buffer. IsSound channels (send_front bc buffer st)) (sym front)
              (
                All-append (IsWellSent channels) st.sent ((bc.builder_name, drv) ∷ []) sent
                    ((bc, refl, fits), tt),
                tt,
              ))
    ]

receive-IsWaiting :
    (channels : List BuilderChannel) (work : Option Drv) (st : LoopState)
    (builders : List BuilderChannel)
    → IsWaiting channels st.build_buffer (some builders)
    → (drv : Drv) × (rest : List Drv) × ((receive work st).build_buffer ≡ drv ∷ rest)
      × ((receive work st).sent ≡ st.sent)
      × All (IsFitting channels drv) builders
unfolding receive push_back
receive-IsWaiting channels work st builders h = elim (List-cases st.build_buffer) [
  | inl empty ↦ absurd (subst (λ buffer. IsWaiting channels buffer (some builders)) empty h)
  | inr (drv, rest, front) ↦
      let fitting = subst (λ buffer. IsWaiting channels buffer (some builders)) front h in
      let (behind, fronts) = receive-front work st drv rest front in
      (drv, behind, fronts, (receive-keeps work st).0, fitting)
]

start_front-IsSound :
    (channels : List BuilderChannel) (round : Round) (buffer : List Drv) (st : LoopState)
    → st.build_buffer ≡ buffer
    → All (IsWellSent channels) st.sent
    → st.waiting ≡ none
    → IsSound channels (start_front channels round buffer st)
unfolding start_front
start_front-IsSound channels round [] st front sent idle = (sent, rw idle tt)
start_front-IsSound channels round (drv ∷ rest) st front sent idle =
    let required = required_features drv.required_system_features in
    let (m, builders) = compatible_builders round.probes required channels st.registry in
    try_permits-IsSound channels round.has_room builders (record st { registry = m }) drv rest front
      sent
      (compatible_builders-All (λ bc. Mem bc channels) round.probes required channels st.registry
        (members channels channels (λ bc m. m)))

step-IsSound :
    (channels : List BuilderChannel) (round : Round) (st : LoopState)
    → IsSound channels st
    → IsSound channels (step channels round st)
unfolding step outer_round push_back
step-IsSound channels round st (sent, waits) = elim (Option-cases st.waiting) [
  | inr (builders, is_waiting) ↦
      let (drv, rest, front, same, fitting) =
        receive-IsWaiting channels round.work st builders
          (subst (λ w. IsWaiting channels st.build_buffer w) is_waiting waits) in
      rw (is_waiting, step)
        (try_permits-IsSound channels round.has_room builders (receive round.work st) drv rest front
          (subst (All (IsWellSent channels)) (sym same) sent) fitting)
  | inl idle ↦
      rw (idle, step)
        (elim (Option-cases round.work) [
          | inl nothing ↦
              rw (nothing, outer_round)
                (start_front-IsSound channels round st.build_buffer st refl sent idle)
          | inr (drv, comes) ↦ rw (comes, outer_round) (sent, rw idle tt)
        ])
]

-- Each build that the loop sends goes to a builder of the platform that can run it, whatever the
-- rounds bring: one that has all the features that the build requires, and of whose mandatory
-- features the build requires one, if it has any.
pub loop_builds-IsSound :
    (channels : List BuilderChannel) (rounds : List Round) (st : LoopState)
    → IsSound channels st
    → IsSound channels (loop_builds channels rounds st)
unfolding loop_builds
loop_builds-IsSound channels [] st h = h
loop_builds-IsSound channels (round ∷ rounds) st h =
    loop_builds-IsSound channels rounds (step channels round st) (step-IsSound channels round st h)
