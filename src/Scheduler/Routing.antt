-- ===== src/Scheduler/Routing.antt =====
-- `PlatformQueue` of backend/server/src/scheduler/build/system_queue.rs: to which builder loop a
-- build request goes.
use eka_ci.Prelude.{
  ◌≡◌, ◌≢◌, Bool, true, false, not, ◌&&◌, ◌||◌, Option, none, some, List, [], ◌∷◌, ◌++◌,
  if◌then◌else◌, is_empty, arith, Bool-cases, Option-cases, inl, inr,
}
use eka_ci.Drv.{Drv}
use eka_ci.Scheduler.Features.{
  BuilderFeatures, can_handle_drv, can_build, can_build_lem, required_features,
}

pub data Channel : Type 0 where
  fod_tx local_tx remote_tx : Channel

pub record PlatformQueue : Type 0 where
  pub builders : List BuilderFeatures
  pub local_builder : Option BuilderFeatures
  pub fod_builder : Option BuilderFeatures

abbrev pub is_some {ℓ} : {A : Type ℓ} → Option A → Bool
is_some none = false
is_some (some _) = true

abbrev to_list : Option BuilderFeatures → List BuilderFeatures
to_list none = []
to_list (some b) = b ∷ []

unfoldable pub all_builder_features : PlatformQueue → List BuilderFeatures
all_builder_features q = to_list q.fod_builder ++ to_list q.local_builder ++ q.builders

-- The six cases of the loop; nothing where it returns at once since it has no builder to send to.
unfoldable pub route : PlatformQueue → Drv → Option Channel
route q work =
    let has_fod = is_some q.fod_builder in
    let has_local = is_some q.local_builder in
    let has_remote = not (is_empty q.builders) in
    if has_fod && has_local && has_remote
    then some
        (if work.is_fod then fod_tx else (if work.prefer_local_build then local_tx else remote_tx))
    else (if has_fod && has_local
        then some (if work.is_fod then fod_tx else local_tx)
        else (if has_fod && has_remote
            then some (if work.is_fod then fod_tx else remote_tx)
            else (if has_local && has_remote
                then some (if work.prefer_local_build then local_tx else remote_tx)
                else (if has_remote
                    then some remote_tx
                    else elim q.local_builder [ some _ ↦ some local_tx | none ↦ none ]))))

-- What becomes of a request.
pub data Outcome : Type 0 where
  unsatisfiable : Outcome
  sent : Channel → Outcome
  unserved : Outcome

-- The check for an orphan is a part of each case's loop, so a queue that returned makes none.
unfoldable pub handle_request : PlatformQueue → Drv → Outcome
handle_request q work = elim (route q work) [
  | none ↦ unserved
  | some channel ↦
      if not (can_handle_drv (all_builder_features q) work.required_system_features)
      then unsatisfiable
      else sent channel
]

-- A request goes to the builder for fixed outputs if it has a fixed output and there is such a
-- builder; else to the local builder if there is one, and the request prefers it or there is no
-- remote one; else to the remote builders. With neither a local nor a remote builder it goes nowhere,
-- even if there is a builder for fixed outputs.
pub route_lem :
    (q : PlatformQueue) (work : Drv)
    → route q work ≡ (
        if is_some q.local_builder || not (is_empty q.builders)
        then some (
            if work.is_fod && is_some q.fod_builder
            then fod_tx
            else (if is_some q.local_builder && (work.prefer_local_build || is_empty q.builders)
                then local_tx
                else remote_tx))
        else none)
unfolding route
route_lem q work = ground arith

-- The queue has the builder loop that a channel leads to.
abbrev pub has_channel : PlatformQueue → Channel → Bool
has_channel q fod_tx = is_some q.fod_builder
has_channel q local_tx = is_some q.local_builder
has_channel q remote_tx = not (is_empty q.builders)

route-has_channel :
    (q : PlatformQueue) (work : Drv) (channel : Channel)
    → route q work ≡ some channel
    → has_channel q channel ≡ true
route-has_channel q work fod_tx e = ground (arith, e, route_lem q work)
route-has_channel q work local_tx e = ground (arith, e, route_lem q work)
route-has_channel q work remote_tx e = ground (arith, e, route_lem q work)

-- A request is sent only to a builder loop that the queue has, and only if some builder of the
-- queue can run it.
pub handle_request-sent :
    (q : PlatformQueue) (work : Drv) (channel : Channel)
    → handle_request q work ≡ sent channel
    → (has_channel q channel ≡ true)
      × (can_handle_drv (all_builder_features q) work.required_system_features ≡ true)
unfolding handle_request
handle_request-sent q work channel e = elim (Option-cases (route q work)) [
  | inl none_left ↦ ground (arith, e, none_left)
  | inr (c, found) ↦
      elim (Bool-cases (can_handle_drv (all_builder_features q) work.required_system_features)) [
        | inl able ↦ (ground (arith, e, found, able, route-has_channel q work channel), able)
        | inr unable ↦ ground (arith, e, found, unable)
      ]
]

-- A request that requires some feature, and that the check of the ingress accepts for the builders of
-- the queue, is not reported as one whose requirements cannot be met.
pub handle_request-accepted :
    (q : PlatformQueue) (work : Drv)
    → is_empty (required_features work.required_system_features) ≡ false
    → can_build (all_builder_features q) work.required_system_features ≡ true
    → handle_request q work ≢ unsatisfiable
unfolding handle_request
handle_request-accepted q work asks accepted e =
    let same = can_build_lem (all_builder_features q) work.required_system_features in
    elim (Option-cases (route q work)) [
      | inl f ↦ ground (arith, e, f)
      | inr (c, f) ↦ ground (arith, e, f, asks, accepted, same)
    ]
