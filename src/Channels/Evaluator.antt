-- ===== src/Channels/Evaluator.antt =====
-- backend/server/src/channels/evaluator.rs, and the decision of channels/types.rs: may a channel go on
-- to a commit, given the states of its jobs.
pub mod Decision
use eka_ci.Prelude.{
  Bool, true, false, ◌&&◌, not, Option, none, some, List, [], ◌∷◌, ◌++◌, if◌then◌else◌, get,
  HashMap, is_empty, retain,
}
use eka_ci.Prelude.Text.{Text, Text_eq}
use eka_ci.Prelude.Ordered.{Text_order}
use eka_ci.Prelude.Ordered.Sorted.{sort}
use eka_ci.Prelude.Ordered.Maps.{map_insert}
use eka_ci.Drv.{DrvBuildState, completed, success, is_failure, is_terminal, eq_state}
use eka_ci.Channels.Config.{ChannelConfig}

pub data PromotionDecision : Type 0 where
  ready : (required_results : HashMap Text DrvBuildState) → PromotionDecision
  blocked :
      (failed_required : List Text) (required_results : HashMap Text DrvBuildState)
      → PromotionDecision
  waiting : (pending_required pending_packages : List Text) → PromotionDecision

-- The variables of the loop over the required jobs.
pub record Tally : Type 0 where
  pub required_results : HashMap Text DrvBuildState
  pub failed_required : List Text
  pub pending_required : List Text

abbrev pub no_jobs : Tally
no_jobs = record { required_results = []; failed_required = []; pending_required = [] }

abbrev pub failed_job : Text → DrvBuildState → Tally → Tally
failed_job name state t = record t {
  failed_required = t.failed_required ++ name ∷ [];
  required_results = map_insert name state t.required_results;
}

unfoldable pub tally_job : Text → Option DrvBuildState → Tally → Tally
tally_job name none t = record t { pending_required = t.pending_required ++ name ∷ [] }
tally_job name (some state) t =
    if is_failure state
    then failed_job name state t
    else if eq_state state (completed success)
    then record t { required_results = map_insert name state t.required_results }
    else if is_terminal state
    then failed_job name state t
    else record t { pending_required = t.pending_required ++ name ∷ [] }

unfoldable pub tally : HashMap Text DrvBuildState → List Text → Tally → Tally
tally job_states [] t = t
tally job_states (name ∷ names) t = tally job_states names (tally_job name (get name job_states) t)

abbrev pub is_finished : Option DrvBuildState → Bool
is_finished none = false
is_finished (some state) = is_terminal state

unfoldable pub evaluate_promotion : ChannelConfig → HashMap Text DrvBuildState → PromotionDecision
evaluate_promotion channel job_states =
    let t = tally job_states channel.required no_jobs in
    let pending_packages =
      retain (λ name. not (is_finished (get name job_states))) channel.packages in
    if not (is_empty t.failed_required)
    then blocked (sort t.failed_required) t.required_results
    else if is_empty t.pending_required && is_empty pending_packages
    then ready t.required_results
    else waiting (sort t.pending_required) (sort pending_packages)
