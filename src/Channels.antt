-- ===== src/Channels.antt =====
-- backend/server/src/channels/coalescer.rs, and how `handle_evaluate_push` of channels/service.rs
-- applies it to one channel.
pub mod Config
pub mod Evaluator
pub mod Latest
pub mod Service
pub mod State
pub mod Store
mod Tests
use eka_ci.Prelude.{Bool, true, false, Option, none, some, List, [], ◌∷◌, ◌++◌, if◌then◌else◌}
use eka_ci.Prelude.Text.{Text, Text_eq}

pub data CoalesceAction : Type 0 where
  start_fresh already_in_flight : CoalesceAction
  defer_as_pending : (previous_pending_sha : Option Text) → CoalesceAction

unfoldable pub coalesce : (in_flight current_pending : Option Text) → Text → CoalesceAction
coalesce none pending candidate = start_fresh
coalesce (some sha) none candidate =
    if Text_eq.eq sha candidate then already_in_flight else defer_as_pending none
coalesce (some sha) (some prev) candidate =
    if Text_eq.eq sha candidate
    then already_in_flight
    else if Text_eq.eq prev candidate
    then already_in_flight
    else defer_as_pending (some prev)

-- A channel: the commit whose evaluation the database holds as running, the pending one in memory,
-- the commits recorded as skipped, and those whose evaluation was started.
pub record Channel : Type 0 where
  pub in_flight : Option Text
  pub pending : Option Text
  pub skipped : List Text
  pub started : List Text

abbrev pub as_list : Option Text → List Text
as_list none = []
as_list (some sha) = sha ∷ []

unfoldable pub apply_action : Text → CoalesceAction → Channel → Channel
apply_action sha already_in_flight c = c
apply_action sha (defer_as_pending previous) c = record c {
  pending = some sha;
  skipped = c.skipped ++ as_list previous;
}
apply_action sha start_fresh c = record c { in_flight = some sha; started = c.started ++ sha ∷ [] }

-- `decided` says whether the database holds a final decision on a commit.
module _ (decided : Text → Bool) where
  unfoldable pub handle_evaluate_push : Text → Channel → Channel
  handle_evaluate_push sha c =
      if decided sha then c else apply_action sha (coalesce c.in_flight c.pending sha) c

  unfoldable pub handle_pushes : List Text → Channel → Channel
  handle_pushes [] c = c
  handle_pushes (sha ∷ shas) c = handle_pushes shas (handle_evaluate_push sha c)
