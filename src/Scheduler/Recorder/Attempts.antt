-- ===== src/Scheduler/Recorder/Attempts.antt =====
-- The two attempts that backend/server/src/scheduler/recorder/request_handler.rs gives a derivation.
use mathlib.Core.Option
use eka_ci.Prelude.{
  ℕ, ◌≡◌, ◌≢◌, refl, ap, ◌∙◌, Bool, true, false, not, Option, none, some, List, [], ◌∷◌, ◌++◌,
  if◌then◌else◌, arith, Bool-cases, Option-cases, inl, inr, contains, ℕ_eq, get, get-modify,
  ==-refl, ◌==◌, is_empty,
}
use eka_ci.Prelude as Prelude
use eka_ci.Drv.{
  DrvId, DrvBuildState, success, failure, building, failed_retry, completed, interrupted,
  unsatisfiable_requirements, transitive_failure, is_terminal, is_retryable,
}
use eka_ci.Graph.Cache.{LruCache}
use eka_ci.Graph.State.{GraphNode}
use eka_ci.Graph.Search.{get_all_transitive_dependents}
use eka_ci.Graph.Search.Reachable.{get_all_transitive_dependents_reach}
use eka_ci.Graph.Failures as Failures
use eka_ci.Service.State.{GraphService, GraphDatabase, ok, get_build_state, Result-cases}
use eka_ci.Service.Operations as Operations
use eka_ci.Service.Operations.{with_state, set_states}
use eka_ci.Service.Mirror.{get-set_states}
use eka_ci.Scheduler.Recorder.{
  RecorderState, update_graph_state, update_and_broadcast, propagate, settle, retry, record_failure,
  retry_or_settle, record_result,
}

abbrev pub after_interruption : DrvBuildState → DrvBuildState
after_interruption failed_retry = completed failure
after_interruption _ = failed_retry

-- The state that a report other than of a success should lead to, and nothing where the report is
-- to be ignored.
unfoldable pub verdict : DrvBuildState → DrvBuildState → Option DrvBuildState
verdict (completed failure) building = some failed_retry
verdict (completed failure) failed_retry = some (completed failure)
verdict (interrupted kind) current =
    if is_terminal current
    then none
    else (if is_retryable kind then some (after_interruption current) else some (interrupted kind))
verdict unsatisfiable_requirements current =
    if is_terminal current then none else some unsatisfiable_requirements
verdict _ _ = none

module _ {C D : Type 0} ⦃lru : LruCache GraphNode C⦄ ⦃db : GraphDatabase D⦄ (now : ℕ) (room : Bool)
    (d : DrvId) where
  -- The state of the derivation that the readers of the mirror see.
  abbrev pub seen : RecorderState C D → Option DrvBuildState
  seen st = get_build_state st.service.shared_view d

  pub seen-update_graph_state :
      (s : DrvBuildState) (st : RecorderState C D)
      → seen (update_graph_state now room d s st) ≡ Option.map (λ _. s) (seen st)
  unfolding update_graph_state get_build_state Operations.update_state
  seen-update_graph_state s st = elim (Option-cases (get d st.service.shared_view)) [
    | inl e ↦ ground (
      arith,
      ==-refl d,
      get-modify d d (with_state s) st.service.shared_view,
      get-modify d d (with_state s) (Prelude.modify d (with_state s) st.service.shared_view),
    )
    | inr (n, e) ↦ ground (
      arith,
      ==-refl d,
      get-modify d d (with_state s) st.service.shared_view,
      get-modify d d (with_state s) (Prelude.modify d (with_state s) st.service.shared_view),
    )
  ]

  seen-update_and_broadcast :
      (s : DrvBuildState) (st : RecorderState C D)
      → (update_and_broadcast now room d s st).1 ≡ ok tt
      → seen (update_and_broadcast now room d s st).0 ≡ Option.map (λ _. s) (seen st)
  unfolding update_and_broadcast
  seen-update_and_broadcast s st done =
      elim (Result-cases (db.update_drv_status d s st.database).1) [
        | inl e ↦ ground (arith, done, e)
        | inr (u, e) ↦
            rw (e, update_and_broadcast)
              (seen-update_graph_state s
                (record st { database = (db.update_drv_status d s st.database).0 }))
      ]

  view-propagate_failure :
      (st : GraphService C) (database : D)
      → (Operations.propagate_failure d (st, database)).0.0.shared_view
        ≡ set_states transitive_failure (get_all_transitive_dependents st.graph d) st.shared_view
  unfolding Operations.propagate_failure Failures.propagate_failure
  view-propagate_failure st database =
      elim (Bool-cases (is_empty (get_all_transitive_dependents st.graph d))) [
        | inl e ↦ rw e refl
        | inr e ↦ rw e refl
      ]

  service-propagate :
      (st : RecorderState C D)
      → (propagate now room d st).0.service
        ≡ (Operations.propagate_failure d (st.service, st.database)).0.0
  unfolding propagate
  service-propagate st =
      elim (Result-cases (Operations.propagate_failure d (st.service, st.database)).1) [
        | inl e ↦ rw (e, propagate) refl
        | inr (found, e) ↦ elim (Bool-cases (is_empty found)) [
          | inl f ↦ rw (e, propagate, f) refl
          | inr f ↦ rw (e, propagate, f) refl
        ]
      ]

  seen-propagate : (st : RecorderState C D) → seen (propagate now room d st).0 ≡ seen st
  unfolding get_build_state
  seen-propagate st =
      let found = get_all_transitive_dependents st.service.graph d in
      ground (
        arith,
        ap (λ s. get d s.shared_view) (service-propagate st),
        ap (λ view. get d view) (view-propagate_failure st.service st.database),
        get-set_states transitive_failure found d st.service.shared_view,
        (get_all_transitive_dependents_reach st.service.graph d).1 d,
      )

  seen-settle :
      (s : DrvBuildState) (st : RecorderState C D)
      → (settle now room d s st).1 ≡ ok tt
      → seen (settle now room d s st).0 ≡ Option.map (λ _. s) (seen st)
  unfolding settle
  seen-settle s st done = elim (Result-cases (update_and_broadcast now room d s st).1) [
    | inl e ↦ ground (arith, done, e)
    | inr (u, e) ↦
        rw (e, settle)
          (seen-propagate (update_and_broadcast now room d s st).0
            ∙ seen-update_and_broadcast s st e)
  ]

  pub seen-retry :
      (st : RecorderState C D)
      → (retry now room d st).1 ≡ ok tt
      → seen (retry now room d st).0 ≡ Option.map (λ _. failed_retry) (seen st)
  unfolding retry
  seen-retry st done = elim (Result-cases (update_and_broadcast now room d failed_retry st).1) [
    | inl e ↦ ground (arith, done, e)
    | inr (u, e) ↦ rw (e, retry) (seen-update_and_broadcast failed_retry st e)
  ]

  seen-retry_or_settle :
      (current : DrvBuildState) (st : RecorderState C D)
      → (retry_or_settle now room d current st).1 ≡ ok tt
      → seen (retry_or_settle now room d current st).0
        ≡ Option.map (λ _. after_interruption current) (seen st)
  unfolding retry_or_settle
  seen-retry_or_settle failed_retry st done = seen-settle (completed failure) st done
  seen-retry_or_settle _ st done = seen-retry st done

  -- What a report other than of a success does to the state that the readers of the mirror see, if no
  -- step of it fails: it becomes the state of the verdict on the report and on the state in the
  -- database, or stays as it was where the verdict is to ignore the report.
  pub record_result-verdict :
      (result current : DrvBuildState) (st : RecorderState C D)
      → result ≢ completed success
      → (record_result now room d result current st).1 ≡ ok tt
      → seen (record_result now room d result current st).0
        ≡ elim (verdict result current) [ none ↦ seen st | some s ↦ Option.map (λ _. s) (seen st) ]
  unfolding record_result verdict record_failure retry_or_settle is_terminal
  record_result-verdict (completed success) current st other done = absurd (other refl)
  record_result-verdict (completed failure) building st other done = seen-retry st done
  record_result-verdict (completed failure) failed_retry st other done =
      seen-settle (completed failure) st done
  record_result-verdict (completed failure) _ st other done = refl
  record_result-verdict unsatisfiable_requirements current st other done =
      elim (Bool-cases (is_terminal current)) [
        | inl e ↦ rw e refl
        | inr e ↦ rw e (seen-settle unsatisfiable_requirements st (rw e at done))
      ]
  record_result-verdict (interrupted kind) current st other done =
      elim (Bool-cases (is_terminal current)) [
        | inl e ↦ rw e refl
        | inr e ↦ elim (Bool-cases (is_retryable kind)) [
          | inl f ↦ rw (e, f) (seen-retry_or_settle current st (rw (e, f) at done))
          | inr f ↦ rw (e, f) (seen-settle (interrupted kind) st (rw (e, f) at done))
        ]
      ]
  record_result-verdict _ current st other done = refl
