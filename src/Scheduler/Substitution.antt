-- ===== src/Scheduler/Substitution.antt =====
-- `handle_check_substitution_task_with_report` of backend/server/src/scheduler/ingress.rs: the
-- derivations that a dry run found in a cache are reported as built. The `while` loop takes fuel, and
-- `Scheduler/Substitution/Hits.antt` shows that the fuel given is enough. The mirror is read as it is
-- when the task starts.
pub mod Hits
mod Tests
use eka_ci.Prelude.{
  ℕ, zero, suc, ◌+◌, Bool, true, false, not, ◌||◌, Option, none, some, List, [], ◌∷◌, ◌++◌,
  if◌then◌else◌, get, contains, set_insert, retain, length, ℕ_eq,
}
use eka_ci.Drv.{DrvId, DrvBuildState, building, completed, success, is_terminal, eq_state}
use eka_ci.Service.State.{CachedNode, SharedView, get_build_state}

-- The part of `DryRunReport` that the task reads: what must still be built.
pub record DryRunReport : Type 0 where
  pub will_build : List DrvId

pub record Walk : Type 0 where
  pub queue : List DrvId
  pub visited : List DrvId
  pub reports : List (DrvId × DrvBuildState)

-- A state that the task leaves alone.
unfoldable pub is_settled : Option DrvBuildState → Bool
is_settled none = false
is_settled (some state) = is_terminal state || eq_state state building

unfoldable pub dependencies_of : Option CachedNode → List DrvId
dependencies_of none = []
dependencies_of (some n) = n.dependencies

-- The body of the loop, for an id that was taken off the queue and not visited before.
unfoldable pub visit_new : DryRunReport → SharedView → DrvId → Walk → Walk
visit_new report view d w =
    let visited = set_insert d w.visited in
    if contains report.will_build d || is_settled (get_build_state view d)
    then record w { visited = visited }
    else record {
      queue = w.queue ++ retain (λ dep. not (contains visited dep)) (dependencies_of (get d view));
      visited = visited;
      reports = w.reports ++ (d, completed success) ∷ [];
    }

unfoldable pub visit : DryRunReport → SharedView → DrvId → Walk → Walk
visit report view d w = if contains w.visited d then w else visit_new report view d w

unfoldable pub walk_loop : DryRunReport → SharedView → ℕ → Walk → Option Walk
walk_loop report view zero w = elim w.queue as (λ q. Option Walk) [ [] ↦ some w | _ ∷ _ ↦ none ]
walk_loop report view (suc fuel) w = elim w.queue as (λ q. Option Walk) [
  | [] ↦ some w
  | d ∷ rest ↦ walk_loop report view fuel (visit report view d (record w { queue = rest }))
]

unfoldable pub all_dependencies : SharedView → ℕ
all_dependencies [] = 0
all_dependencies ((_, n) ∷ view) = length n.dependencies + all_dependencies view

abbrev pub walk_from : DrvId → Walk
walk_from d = record { queue = d ∷ []; visited = []; reports = [] }

-- What is sent to the recorder.
unfoldable pub handle_check_substitution_task_with_report :
    DryRunReport → SharedView → DrvId → Option Walk
handle_check_substitution_task_with_report report view d =
    walk_loop report view (suc (all_dependencies view)) (walk_from d)
