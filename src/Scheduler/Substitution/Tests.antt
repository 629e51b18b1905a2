-- ===== src/Scheduler/Substitution/Tests.antt =====
-- A walk over the mirror of the small graph.
use eka_ci.Prelude.{[], ◌∷◌}
use eka_ci.Drv.{queued}
use eka_ci.Graph.Samples.{node}
use eka_ci.Service.State.{SharedView, from_graph_node}
use eka_ci.Scheduler.Substitution.{DryRunReport, handle_check_substitution_task_with_report}
use eka_ci.Scheduler.Substitution.Hits.{
  EndsWithHits, handle_check_substitution_task_with_report-EndsWithHits,
}

abbrev report : DryRunReport
report = record { will_build = 1 ∷ [] }

-- 3 needs 2, which needs 1.
abbrev view : SharedView
view =
    (3, from_graph_node (node 3 queued (2 ∷ []) [] []))
    ∷ (2, from_graph_node (node 2 queued (1 ∷ []) (3 ∷ []) []))
    ∷ (1, from_graph_node (node 1 queued [] (2 ∷ []) []))
    ∷ []

handle_check_substitution_task_with_report-EndsWithHits_example :
    EndsWithHits report view (handle_check_substitution_task_with_report report view 3)
handle_check_substitution_task_with_report-EndsWithHits_example =
    handle_check_substitution_task_with_report-EndsWithHits report view 3
