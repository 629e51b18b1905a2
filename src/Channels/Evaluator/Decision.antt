-- ===== src/Channels/Evaluator/Decision.antt =====
-- What each decision on a channel says of its jobs.
use eka_ci.Prelude.{
  ◌≡◌, refl, ◌∙◌, Bool, true, false, ◌&&◌, ◌||◌, not, Option, none, some, List, [], ◌∷◌, ◌++◌,
  if◌then◌else◌, arith, Bool-cases, inl, inr, get, HashMap, contains, contains-append,
  contains-retain, is_empty, retain,
}
use eka_ci.Prelude.Text.{Text, Text_eq}
use eka_ci.Prelude.Ordered.{Text_order}
use eka_ci.Prelude.Ordered.Sorted.{sort, sort-contains, is_empty-sort, sort-IsSorted, IsSorted}
use eka_ci.Prelude.Ordered.Maps.{get-map_insert}
use eka_ci.Drv.{
  DrvBuildState, queued, completed, success, failure, is_failure, is_terminal, eq_state,
}
use eka_ci.Channels.Config.{ChannelConfig}
use eka_ci.Channels.Evaluator.{
  PromotionDecision, ready, blocked, waiting, Tally, no_jobs, tally_job, tally, is_finished,
  evaluate_promotion,
}

abbrev pub has_failed : Option DrvBuildState → Bool
has_failed none = false
has_failed (some state) = is_failure state

abbrev pub has_succeeded : Option DrvBuildState → Bool
has_succeeded none = false
has_succeeded (some state) = eq_state state (completed success)

abbrev pub is_settled : Option DrvBuildState → Bool
is_settled state = has_failed state || has_succeeded state

-- The states of the required jobs that failed or succeeded.
abbrev pub IsRecord :
    ChannelConfig → HashMap Text DrvBuildState → HashMap Text DrvBuildState → Type 0
IsRecord c job_states results =
    (a : Text)
    → get a results
      ≡ (if contains c.required a && is_settled (get a job_states) then get a job_states else none)

-- The names are in order, and are those of `jobs` that pass the test.
abbrev pub Lists : List Text → List Text → (Text → Bool) → Type 0
Lists names jobs test =
    IsSorted names × ((a : Text) → contains names a ≡ (contains jobs a && test a))

abbrev pub IsDecision : ChannelConfig → HashMap Text DrvBuildState → PromotionDecision → Type 0
IsDecision c job_states (ready results) =
    ((a : Text) → contains c.required a ≡ true → has_succeeded (get a job_states) ≡ true)
    × ((a : Text) → contains c.packages a ≡ true → is_finished (get a job_states) ≡ true)
    × IsRecord c job_states results
IsDecision c job_states (blocked failed_required results) =
    Lists failed_required c.required (λ a. has_failed (get a job_states))
    × (is_empty failed_required ≡ false)
    × IsRecord c job_states results
IsDecision c job_states (waiting pending_required pending_packages) =
    ((a : Text) → contains c.required a ≡ true → has_failed (get a job_states) ≡ false)
    × Lists pending_required c.required (λ a. not (is_settled (get a job_states)))
    × Lists pending_packages c.packages (λ a. not (is_finished (get a job_states)))
    × ((is_empty pending_required && is_empty pending_packages) ≡ false)

pub is_terminal-settled : (s : DrvBuildState) → is_terminal s ≡ is_settled (some s)
unfolding is_terminal is_failure eq_state
is_terminal-settled queued = refl
is_terminal-settled (completed success) = refl
is_terminal-settled (completed failure) = refl
is_terminal-settled s = ground arith

contains-snoc :
    (xs : List Text) (name a : Text)
    → contains (xs ++ name ∷ []) a ≡ (contains xs a || Text_eq.eq name a)
unfolding contains
contains-snoc xs name a = ground (arith, contains-append xs (name ∷ []) a)

tally_job-failed_required :
    (name : Text) (o : Option DrvBuildState) (t : Tally) (a : Text)
    → contains (tally_job name o t).failed_required a
      ≡ (contains t.failed_required a || (Text_eq.eq name a && has_failed o))
unfolding tally_job
tally_job-failed_required name none t a = ground arith
tally_job-failed_required name (some state) t a =
    ground (arith, is_terminal-settled state, contains-snoc t.failed_required name a)

tally_job-pending_required :
    (name : Text) (o : Option DrvBuildState) (t : Tally) (a : Text)
    → contains (tally_job name o t).pending_required a
      ≡ (contains t.pending_required a || (Text_eq.eq name a && not (is_settled o)))
unfolding tally_job
tally_job-pending_required name none t a = ground (arith, contains-snoc t.pending_required name a)
tally_job-pending_required name (some state) t a =
    ground (arith, is_terminal-settled state, contains-snoc t.pending_required name a)

tally_job-required_results :
    (name : Text) (o : Option DrvBuildState) (t : Tally) (a : Text)
    → get a (tally_job name o t).required_results
      ≡ (if Text_eq.eq name a && is_settled o then o else get a t.required_results)
unfolding tally_job
tally_job-required_results name none t a = ground arith
tally_job-required_results name (some state) t a =
    ground (arith, is_terminal-settled state, get-map_insert name a state t.required_results)

module _ (job_states : HashMap Text DrvBuildState) (a : Text) where
  here :
      (name : Text) (f : Option DrvBuildState → Bool)
      → (Text_eq.eq name a && f (get name job_states)) ≡ (Text_eq.eq name a && f (get a job_states))
  here name f = ground (arith, Text_eq.eq_iff name a)

  tally-failed_required :
      (names : List Text) (t : Tally)
      → contains (tally job_states names t).failed_required a
        ≡ (contains t.failed_required a || (contains names a && has_failed (get a job_states)))
  unfolding tally contains
  tally-failed_required [] t = ground arith
  tally-failed_required (name ∷ names) t =
      let o = get name job_states in
      ground (
        arith,
        tally-failed_required names (tally_job name o t),
        tally_job-failed_required name o t a,
        here name has_failed,
      )

  tally-pending_required :
      (names : List Text) (t : Tally)
      → contains (tally job_states names t).pending_required a ≡ (
          contains t.pending_required a
          || (contains names a && not (is_settled (get a job_states))))
  unfolding tally contains
  tally-pending_required [] t = ground arith
  tally-pending_required (name ∷ names) t =
      let o = get name job_states in
      ground (
        arith,
        tally-pending_required names (tally_job name o t),
        tally_job-pending_required name o t a,
        here name (λ x. not (is_settled x)),
      )

  tally-required_results :
      (names : List Text) (t : Tally)
      → get a (tally job_states names t).required_results ≡ (
          if contains names a && is_settled (get a job_states)
          then get a job_states
          else get a t.required_results)
  unfolding tally contains
  tally-required_results [] t = ground arith
  tally-required_results (name ∷ names) t =
      let o = get name job_states in
      ground (
        arith,
        tally-required_results names (tally_job name o t),
        tally_job-required_results name o t a,
        here name is_settled,
        Text_eq.eq_iff name a,
      )

contains_of_empty : (xs : List Text) (a : Text) → is_empty xs ≡ true → contains xs a ≡ false
unfolding contains
contains_of_empty [] a h = refl
contains_of_empty (x ∷ xs) a h = cc

sort-Lists :
    (xs jobs : List Text) (test : Text → Bool)
    → ((a : Text) → contains xs a ≡ (contains jobs a && test a))
    → Lists (sort xs) jobs test
sort-Lists xs jobs test h = (sort-IsSorted xs, λ a. sort-contains a xs ∙ h a)

-- A channel goes on to a commit just if every required job succeeded there and every job of its
-- packages has ended. It is blocked just if a required job failed, and the decision then names exactly
-- the required jobs that failed, in order. Else it waits, and the decision names exactly the required
-- jobs that neither failed nor succeeded and the packages that have not ended, each in order. The
-- results that a decision records are the states of the required jobs that failed or succeeded.
pub evaluate_promotion-IsDecision :
    (c : ChannelConfig) (job_states : HashMap Text DrvBuildState)
    → IsDecision c job_states (evaluate_promotion c job_states)
unfolding evaluate_promotion get contains
evaluate_promotion-IsDecision c job_states =
    let t = tally job_states c.required no_jobs in
    let late = retain (λ name. not (is_finished (get name job_states))) c.packages in
    let failed = λ (a : Text). tally-failed_required job_states a c.required no_jobs in
    let pending = λ (a : Text). tally-pending_required job_states a c.required no_jobs in
    let unfinished = λ (a : Text).
      contains-retain (λ name. not (is_finished (get name job_states))) c.packages a in
    let results : IsRecord c job_states t.required_results =
      λ a. tally-required_results job_states a c.required no_jobs in
    elim (Bool-cases (is_empty t.failed_required)) [
      | inr some_failed ↦ rw some_failed (
        sort-Lists t.failed_required c.required (λ a. has_failed (get a job_states)) failed,
        is_empty-sort t.failed_required ∙ some_failed,
        results,
      )
      | inl none_failed ↦ elim (Bool-cases (is_empty t.pending_required && is_empty late)) [
        | inl all_over ↦
            rw (none_failed, all_over)
              (
                λ a h. ground (
                  arith,
                  h,
                  failed a,
                  pending a,
                  contains_of_empty t.failed_required a none_failed,
                  contains_of_empty t.pending_required a (ground (arith, all_over)),
                ),
                λ a h.
                    ground
                      (arith, h, unfinished a, contains_of_empty late a (ground (arith, all_over))),
                results,
              )
        | inr some_late ↦
            rw (none_failed, some_late)
              (
                λ a h.
                    ground (arith, h, failed a, contains_of_empty t.failed_required a none_failed),
                sort-Lists t.pending_required c.required (λ a. not (is_settled (get a job_states)))
                    pending,
                sort-Lists late c.packages (λ a. not (is_finished (get a job_states))) unfinished,
                rw (is_empty-sort t.pending_required, is_empty-sort late) some_late,
              )
      ]
    ]
