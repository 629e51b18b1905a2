-- ===== src/Scheduler/Builders/Delivered.antt =====
-- Every build that arrives is sent once, in the order of arrival, and to a builder that can run it.
use eka_ci.Prelude.{
  ◌≡◌, refl, sym, ap, ◌∙◌, Bool, Option, none, some, List, [], ◌∷◌, ◌++◌, map, Option-cases, inl,
  inr,
}
use mathlib.Core.List.{append_assoc, append-nil}
use eka_ci.Prelude.Text.{Text}
use eka_ci.Drv.{Drv}
use eka_ci.Scheduler.Builders.{
  BuilderChannel, LoopState, Round, first_permit, send_front, try_permits, push_back, start_front,
  outer_round, receive, step, loop_builds,
}

-- The builds that arrive in some rounds.
abbrev as_list : Option Drv → List Drv
as_list none = []
as_list (some drv) = drv ∷ []

unfoldable pub arrivals : List Round → List Drv
arrivals [] = []
arrivals (round ∷ rounds) = as_list round.work ++ arrivals rounds

-- What was sent, and behind it what waits.
abbrev pub in_order : LoopState → List Drv
in_order st = map (λ s. s.1) st.sent ++ st.build_buffer

map-append {ℓ κ} :
    {A : Type ℓ} {B : Type κ} (f : A → B) (xs ys : List A) → map f (xs ++ ys) ≡ map f xs ++ map f ys
map-append f [] ys = refl
map-append f (x ∷ xs) ys = ap (◌∷◌ (f x)) (map-append f xs ys)

in_order-send_front :
    (bc : BuilderChannel) (buffer : List Drv) (st : LoopState)
    → st.build_buffer ≡ buffer
    → in_order (send_front bc buffer st) ≡ in_order st
unfolding send_front
in_order-send_front bc [] st h = refl
in_order-send_front bc (drv ∷ rest) st h =
    rw (map-append (λ (s : Text × Drv). s.1) st.sent ((bc.builder_name, drv) ∷ []), h)
      (append_assoc (map (λ (s : Text × Drv). s.1) st.sent) (drv ∷ []) rest)

in_order-try_permits :
    (has_room : BuilderChannel → Bool) (builders : List BuilderChannel) (st : LoopState)
    → in_order (try_permits has_room builders st) ≡ in_order st
unfolding try_permits
in_order-try_permits has_room builders st = elim (Option-cases (first_permit has_room builders)) [
  | inl full ↦ rw (full, try_permits) refl
  | inr (bc, room) ↦ rw (room, try_permits) (in_order-send_front bc st.build_buffer st refl)
]

in_order-start_front :
    (channels : List BuilderChannel) (round : Round) (buffer : List Drv) (st : LoopState)
    → in_order (start_front channels round buffer st) ≡ in_order st
unfolding start_front
in_order-start_front channels round [] st = refl
in_order-start_front channels round (drv ∷ rest) st =
    in_order-try_permits round.has_room _ (record st { registry = _ })

in_order-receive :
    (work : Option Drv) (st : LoopState) → in_order (receive work st) ≡ in_order st ++ as_list work
unfolding receive push_back
in_order-receive none st = sym (append-nil (in_order st))
in_order-receive (some drv) st =
    sym (append_assoc (map (λ (s : Text × Drv). s.1) st.sent) st.build_buffer (drv ∷ []))

in_order-step :
    (channels : List BuilderChannel) (round : Round) (st : LoopState)
    → in_order (step channels round st) ≡ in_order st ++ as_list round.work
unfolding step outer_round push_back receive
in_order-step channels round st = elim (Option-cases st.waiting) [
  | inr (builders, waits) ↦
      rw (waits, step)
        (in_order-try_permits round.has_room builders (receive round.work st)
          ∙ in_order-receive round.work st)
  | inl idle ↦
      rw (idle, step)
        (elim (Option-cases round.work) [
          | inl nothing ↦
              rw (nothing, outer_round)
                (in_order-start_front channels round st.build_buffer st
                  ∙ sym (append-nil (in_order st)))
          | inr (drv, comes) ↦ rw (comes, outer_round) (in_order-receive (some drv) st)
        ])
]

-- Whatever the rounds bring, the builds that were sent, followed by those in the buffer, are the ones
-- from before followed by those that arrived: each build is sent at most once, in the order of its
-- arrival, and none is lost while the loop runs.
pub loop_builds-in_order :
    (channels : List BuilderChannel) (rounds : List Round) (st : LoopState)
    → in_order (loop_builds channels rounds st) ≡ in_order st ++ arrivals rounds
unfolding loop_builds arrivals
loop_builds-in_order channels [] st = sym (append-nil (in_order st))
loop_builds-in_order channels (round ∷ rounds) st =
    loop_builds-in_order channels rounds (step channels round st)
    ∙ ap (λ l. l ++ arrivals rounds) (in_order-step channels round st)
    ∙ append_assoc (in_order st) (as_list round.work) (arrivals rounds)
