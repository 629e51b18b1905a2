-- ===== src/Channels/Service/Recorded.antt =====
-- A promotion that the forge refuses is recorded as done.
use eka_ci.Prelude.{
  ◌≡◌, ◌∙◌, ap, Bool, true, false, ◌&&◌, ◌==◌, Option, none, some, [], ◌∷◌, any, arith, Bool-cases,
  inl, inr, HashMap,
}
use eka_ci.Prelude.Text.{Text, Text_eq}
use eka_ci.Drv.{DrvBuildState}
use eka_ci.Channels.Config.{ChannelConfig, channel_id, github, eq_forge, eq_forge_iff}
use eka_ci.Channels.Evaluator.{ready, evaluate_promotion}
use eka_ci.Channels.Store.{
  ChannelPromotionRow, Rows, promoted, evaluating, as_i64, find, is_in_flight, is_attempt,
  finalise_row, finalise_evaluation, get_in_flight,
}
use eka_ci.Channels.State.{Setup, World, ChannelService, finalise, in_flight}
use eka_ci.Channels.Service.{
  fire_github_check_run, dispatch_search_index, perform_promotion, perform_github_promotion,
  conclude_ready, act_on, evaluate, evaluate_on, complete_in, complete_one,
}
use eka_ci.Channels.Service.Frames.{
  fire-SameCore, fire-pushed, dispatch-SameCore, dispatch-pushed, drain_pending-rows,
  drain_pending-pushed,
}

-- The row says that the commit was promoted.
unfoldable pub says_promoted : Text → Text → ChannelPromotionRow → Bool
says_promoted id sha row = is_attempt id sha row && (row.status == as_i64 promoted)

sha_or : Text → Option ChannelPromotionRow → Text
sha_or sha none = sha
sha_or sha (some row) = row.tracking_sha

promoted-finalise :
    (id sha : Text) (results : Option Text) (rows : Rows) (row : ChannelPromotionRow)
    → get_in_flight id rows ≡ some row
    → row.tracking_sha ≡ sha
    → any (says_promoted id sha) (finalise_evaluation id sha promoted none results none rows) ≡ true
unfolding get_in_flight find is_in_flight any says_promoted is_attempt finalise_evaluation
    finalise_row sha_or
promoted-finalise id sha results [] row found same = ground (arith, found)
promoted-finalise id sha results (r ∷ rows) row found same = elim (Bool-cases (is_in_flight id r)) [
  | inl flies ↦
      let first : some r ≡ some row = rw (flies, find) at found in
      let here : Text_eq.eq r.tracking_sha sha ≡ true =
        (Text_eq.eq_iff r.tracking_sha sha).1 (ap (sha_or sha) first ∙ same) in
      let ours : (is_attempt id sha r && (r.status == as_i64 evaluating)) ≡ true =
        ground (arith, flies, here) in
      ground (arith, flies, here, ours)
  | inr other ↦ ground (
    arith,
    other,
    found,
    promoted-finalise id sha results rows row (rw (other, find) at found) same,
  )
]

module _ (setup : Setup) (world : World) (c : ChannelConfig) (sha : Text) where
  performed :
      (st : ChannelService)
      → c.dry_run ≡ false
      → eq_forge c.forge github ≡ true
      → setup.octocrab ≡ true
      → world.answers c sha ≡ true
      → world.accepts c sha ≡ false
      → perform_promotion setup world c sha st ≡ (st, true)
  unfolding perform_promotion perform_github_promotion
  performed st earnest hosted client answered refused =
      ground (arith, earnest, hosted, client, answered, refused)

  ended : HashMap Text DrvBuildState → ChannelService → ChannelService
  ended results st = record st {
    rows =
        finalise_evaluation (channel_id c) sha promoted none (some (setup.results_json results))
          none st.rows;
  }

  conclude_ready-ended :
      (results : HashMap Text DrvBuildState) (st : ChannelService)
      → world.runs c finalise ≡ true
      → ((conclude_ready setup world c sha results (st, true)).0.rows ≡ (ended results st).rows)
        × ((conclude_ready setup world c sha results (st, true)).0.pushed ≡ st.pushed)
  unfolding conclude_ready ended
  conclude_ready-ended results st runs =
      let done = ended results st in
      let told = fire_github_check_run setup world c sha promoted none done in
      rw runs (
        drain_pending-rows c (dispatch_search_index setup world c sha told)
            ∙ (dispatch-SameCore setup world c sha told).rows
            ∙ (fire-SameCore setup world c sha done promoted none).rows,
        drain_pending-pushed c (dispatch_search_index setup world c sha told)
            ∙ dispatch-pushed setup world c sha told
            ∙ fire-pushed setup world c sha done promoted none,
      )

  -- The end of a jobset at the commit in flight whose jobs allow the promotion, for a channel on GitHub that
  -- is not on trial: if the forge answers the request to move the target branch but refuses it, no target
  -- branch is moved and yet the evaluation is recorded as promoted.
  pub complete_one-RecordsRefusal :
      (st : ChannelService) (row : ChannelPromotionRow)
      (job_states results : HashMap Text DrvBuildState)
      → (c.dry_run ≡ false) × (c.forge ≡ github) × (setup.octocrab ≡ true)
      → (world.runs c in_flight ≡ true) × (world.runs c finalise ≡ true)
      → (world.answers c sha ≡ true) × (world.accepts c sha ≡ false)
      → world.job_states c sha ≡ some job_states
      → evaluate_promotion c job_states ≡ ready results
      → get_in_flight (channel_id c) st.rows ≡ some row
      → row.tracking_sha ≡ sha
      → let st' = (complete_one setup world c sha st).0 in
        (st'.pushed ≡ st.pushed) × (any (says_promoted (channel_id c) sha) st'.rows ≡ true)
  unfolding complete_one complete_in evaluate evaluate_on act_on ended
  complete_one-RecordsRefusal st row job_states results (earnest, hosted, client) (reads, writes)
        (answered, refused) known allowed flies same =
      let here = (Text_eq.eq_iff row.tracking_sha sha).1 same in
      let github_hosted = (eq_forge_iff c.forge github).1 hosted in
      let returns = performed st earnest github_hosted client answered refused in
      let (rows, pushed) = conclude_ready-ended results st writes in
      rw (reads, flies, here, known, allowed, returns)
        (
          pushed,
          ap (any (says_promoted (channel_id c) sha)) rows
              ∙ promoted-finalise (channel_id c) sha (some (setup.results_json results)) st.rows row
                  flies same,
        )
