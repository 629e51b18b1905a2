-- ===== src/Channels/Store.antt =====
-- backend/server/src/db/channels.rs on the table `ChannelPromotion`, with its index of evaluations in
-- flight (backend/server/sql/migrations/20260510_release_channels.sql), and the status of
-- channels/types.rs. The rows are listed from the newest; the row id is their order, and the times
-- are left out.
use eka_ci.Prelude.{ℕ, Bool, ◌&&◌, ◌==◌, Option, none, some, List, [], ◌∷◌, map, any, if◌then◌else◌}
use eka_ci.Prelude.Text.{Text, Text_eq}

pub data PromotionStatus : Type 0 where
  evaluating blocked promoted push_failed skipped : PromotionStatus

abbrev pub as_i64 : PromotionStatus → ℕ
as_i64 evaluating = 0
as_i64 blocked = 1
as_i64 promoted = 2
as_i64 push_failed = 3
as_i64 skipped = 4

pub record ChannelPromotionRow : Type 0 where
  pub channel : Text
  pub tracking_sha : Text
  pub target_branch : Text
  pub previous_target_sha : Option Text
  pub status : ℕ
  pub blocked_reason : Option Text
  pub required_results : Option Text

abbrev pub Rows : Type 0
Rows = List ChannelPromotionRow

-- The first row of a query.
unfoldable pub find : (ChannelPromotionRow → Bool) → Rows → Option ChannelPromotionRow
find test [] = none
find test (row ∷ rows) = if test row then some row else find test rows

unfoldable pub is_in_flight : Text → ChannelPromotionRow → Bool
is_in_flight id row = Text_eq.eq row.channel id && (row.status == as_i64 evaluating)

unfoldable pub is_attempt : Text → Text → ChannelPromotionRow → Bool
is_attempt id sha row = Text_eq.eq row.channel id && Text_eq.eq row.tracking_sha sha

abbrev pub new_row : Text → Text → Text → PromotionStatus → ChannelPromotionRow
new_row id sha target_branch status = record {
  channel = id;
  tracking_sha = sha;
  target_branch = target_branch;
  previous_target_sha = none;
  status = as_i64 status;
  blocked_reason = none;
  required_results = none;
}

-- `none`: the index admits one evaluation in flight for a channel.
unfoldable pub insert_evaluating : (id sha target_branch : Text) → Rows → Option Rows
insert_evaluating id sha target_branch rows =
    if any (is_in_flight id) rows
    then none
    else some (new_row id sha target_branch evaluating ∷ rows)

unfoldable pub insert_skipped : (id sha target_branch : Text) → Rows → Rows
insert_skipped id sha target_branch rows = new_row id sha target_branch skipped ∷ rows

unfoldable pub finalise_row :
    (id sha : Text)
    → PromotionStatus
    → (blocked_reason required_results previous : Option Text) → ChannelPromotionRow
    → ChannelPromotionRow
finalise_row id sha new_status blocked_reason required_results previous row =
    if is_attempt id sha row && (row.status == as_i64 evaluating)
    then record row {
      status = as_i64 new_status;
      blocked_reason = blocked_reason;
      required_results = required_results;
      previous_target_sha = previous;
    }
    else row

unfoldable pub finalise_evaluation :
    (id sha : Text)
    → PromotionStatus
    → (blocked_reason required_results previous : Option Text) → Rows
    → Rows
finalise_evaluation id sha new_status blocked_reason required_results previous =
    map (finalise_row id sha new_status blocked_reason required_results previous)

unfoldable pub get_in_flight : (id : Text) → Rows → Option ChannelPromotionRow
get_in_flight id = find (is_in_flight id)

-- `ORDER BY rowid DESC LIMIT 1`.
unfoldable pub get_latest_for_sha : (id sha : Text) → Rows → Option ChannelPromotionRow
get_latest_for_sha id sha = find (is_attempt id sha)
