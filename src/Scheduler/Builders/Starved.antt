-- ===== src/Scheduler/Builders/Starved.antt =====
-- When the front of the buffer is sent, and when it holds up the platform for ever.
use eka_ci.Prelude.{
  ◌≡◌, refl, sym, subst, ap, ◌∙◌, Bool, true, Option, none, some, List, [], ◌∷◌, ◌++◌, arith,
  Bool-cases, Option-cases, inl, inr, any,
}
use eka_ci.Prelude.Text.{Text}
use eka_ci.Drv.{Drv}
use eka_ci.Scheduler.Features.{required_features}
use eka_ci.Scheduler.Builders.{
  BuilderChannel, LoopState, Round, compatible_builders, first_permit, send_front, try_permits,
  push_back, start_front, outer_round, receive, step, loop_builds,
}

pub receive-keeps :
    (work : Option Drv) (st : LoopState)
    → ((receive work st).sent ≡ st.sent) × ((receive work st).waiting ≡ st.waiting)
unfolding receive push_back
receive-keeps none st = (refl, refl)
receive-keeps (some drv) st = (refl, refl)

pub receive-front :
    (work : Option Drv) (st : LoopState) (drv : Drv) (rest : List Drv)
    → st.build_buffer ≡ drv ∷ rest
    → (behind : List Drv) × ((receive work st).build_buffer ≡ drv ∷ behind)
unfolding receive push_back
receive-front none st drv rest h = (rest, h)
receive-front (some new) st drv rest h = (rest ++ new ∷ [], ap (λ buffer. buffer ++ new ∷ []) h)

step-starved :
    (channels : List BuilderChannel) (round : Round) (st : LoopState)
    → st.waiting ≡ some []
    → ((step channels round st).sent ≡ st.sent) × ((step channels round st).waiting ≡ some [])
unfolding step try_permits first_permit
step-starved channels round st h = rw (h, step) ((receive-keeps round.work st).0, refl)

waits-starved :
    (channels : List BuilderChannel) (rounds : List Round) (st : LoopState)
    → st.waiting ≡ some []
    → ((loop_builds channels rounds st).sent ≡ st.sent)
      × ((loop_builds channels rounds st).waiting ≡ some [])
unfolding loop_builds
waits-starved channels [] st h = (refl, h)
waits-starved channels (round ∷ rounds) st h =
    let now = step-starved channels round st h in
    let later = waits-starved channels rounds (step channels round st) now.1 in
    (later.0 ∙ now.0, later.1)

-- Where the lookup finds no builder, the loop waits for a permit of none.
lookup-starved :
    (channels : List BuilderChannel) (round : Round) (st : LoopState) (drv : Drv) (rest : List Drv)
    → st.waiting ≡ none
    → round.work ≡ none
    → st.build_buffer ≡ drv ∷ rest
    → (compatible_builders round.probes
        (required_features drv.required_system_features)
        channels
        st.registry).1
      ≡ []
    → ((step channels round st).sent ≡ st.sent) × ((step channels round st).waiting ≡ some [])
unfolding step outer_round start_front try_permits first_permit
lookup-starved channels round st drv rest idle quiet front nobody =
    rw (idle, step, quiet, outer_round, front, start_front, nobody) (refl, refl)

-- If the loop looks up the builders of the front of the buffer and no builder is compatible at that
-- moment, no build of the platform is sent any more, neither in that round nor in a later one, whatever
-- arrives, whichever builders have room and whichever breakers recover: the lookup is not repeated.
pub loop_builds-starved :
    (channels : List BuilderChannel) (round : Round) (rounds : List Round) (st : LoopState)
    (drv : Drv) (rest : List Drv)
    → st.waiting ≡ none
    → round.work ≡ none
    → st.build_buffer ≡ drv ∷ rest
    → (compatible_builders round.probes
        (required_features drv.required_system_features)
        channels
        st.registry).1
      ≡ []
    → (loop_builds channels (round ∷ rounds) st).sent ≡ st.sent
unfolding loop_builds
loop_builds-starved channels round rounds st drv rest idle quiet front nobody =
    let now = lookup-starved channels round st drv rest idle quiet front nobody in
    (waits-starved channels rounds (step channels round st) now.1).0 ∙ now.0

first_permit-some :
    (has_room : BuilderChannel → Bool) (builders : List BuilderChannel)
    → any has_room builders ≡ true
    → (bc : BuilderChannel) × (first_permit has_room builders ≡ some bc)
unfolding first_permit any
first_permit-some has_room [] h = absurd (ground (arith, h))
first_permit-some has_room (bc ∷ builders) h = elim (Bool-cases (has_room bc)) [
  | inl room ↦ (bc, rw room refl)
  | inr full ↦
      let (other, found) = first_permit-some has_room builders (ground (arith, h, full)) in
      (other, rw full found)
]

-- The builders that a round asks for a permit for the front.
unfoldable pub asked : List BuilderChannel → Round → Drv → LoopState → List BuilderChannel
asked channels round drv st = elim st.waiting as (λ o. List BuilderChannel) [
  | some builders ↦ builders
  | none ↦
      (compatible_builders round.probes (required_features drv.required_system_features) channels
        st.registry).1
]

-- The front went to a builder of that name.
abbrev pub IsSent : Drv → LoopState → LoopState → Type 0
IsSent drv st st' = (name : Text) × (st'.sent ≡ st.sent ++ (name, drv) ∷ [])

try_permits-IsSent :
    (has_room : BuilderChannel → Bool) (builders : List BuilderChannel) (st : LoopState) (drv : Drv)
    (rest : List Drv)
    → st.build_buffer ≡ drv ∷ rest
    → any has_room builders ≡ true
    → IsSent drv st (try_permits has_room builders st)
unfolding try_permits send_front
try_permits-IsSent has_room builders st drv rest front room =
    let (bc, found) = first_permit-some has_room builders room in
    (bc.builder_name, rw (found, try_permits, front) refl)

start_front-IsSent :
    (channels : List BuilderChannel) (round : Round) (st : LoopState) (drv : Drv) (rest : List Drv)
    → st.build_buffer ≡ drv ∷ rest
    → any round.has_room
        (compatible_builders round.probes
          (required_features drv.required_system_features)
          channels
          st.registry).1
      ≡ true
    → IsSent drv st (start_front channels round (drv ∷ rest) st)
unfolding start_front
start_front-IsSent channels round st drv rest front asks =
    let (m, builders) =
      compatible_builders round.probes (required_features drv.required_system_features) channels
        st.registry in
    try_permits-IsSent round.has_room builders (record st { registry = m }) drv rest front asks

-- A round that asks builders for a permit, that is one in which the loop waits for a permit already or
-- no new work comes, sends the front of the buffer if one of the builders asked has room.
pub step-IsSent :
    (channels : List BuilderChannel) (round : Round) (st : LoopState) (drv : Drv) (rest : List Drv)
    → st.build_buffer ≡ drv ∷ rest
    → (st.waiting ≡ none → round.work ≡ none)
    → any round.has_room (asked channels round drv st) ≡ true
    → IsSent drv st (step channels round st)
unfolding step outer_round asked
step-IsSent channels round st drv rest front quiet room = elim (Option-cases st.waiting) [
  | inl idle ↦
      let asks = rw (idle, asked) at room in
      rw (idle, step, quiet idle, outer_round)
        (subst (λ buffer. IsSent drv st (start_front channels round buffer st)) (sym front)
          (start_front-IsSent channels round st drv rest front asks))
  | inr (builders, waits) ↦
      let asks = rw (waits, asked) at room in
      let (behind, fronts) = receive-front round.work st drv rest front in
      let (name, sends) =
        try_permits-IsSent round.has_room builders (receive round.work st) drv behind fronts asks in
      rw (waits, step)
        (name, sends ∙ ap (λ s. s ++ (name, drv) ∷ []) (receive-keeps round.work st).0)
]
