-- ===== src/Scheduler/Substitution/Hits.antt =====
-- The walk ends, and reports only derivations that the dry run found in a cache.
use eka_ci.Prelude.{
  ℕ, zero, suc, ◌+◌, ◌≤◌, ◌≡◌, refl, sym, subst, ap, ◌∙◌, Bool, true, false, not, ◌||◌, Option,
  some, List, [], ◌∷◌, if◌then◌else◌, get, ◌==◌, contains, set_insert, contains-set_insert, retain,
  length, length-append, length-retain-le, ℕ_eq, arith, Bool-cases, List-cases, inl, inr, ==_iff,
  All, All-append,
}
use eka_ci.Drv.{DrvId, DrvBuildState, completed, success}
use eka_ci.Service.State.{SharedView, get_build_state}
use eka_ci.Scheduler.Substitution.{
  DryRunReport, Walk, is_settled, dependencies_of, visit_new, visit, walk_loop, all_dependencies,
  walk_from, handle_check_substitution_task_with_report,
}

-- The dependencies of the nodes that were not visited yet.
abbrev outside : List DrvId → SharedView → ℕ
outside visited [] = 0
outside visited ((k, n) ∷ view) =
    (if contains visited k then 0 else length n.dependencies) + outside visited view

outside-set_insert-le :
    (d : DrvId) (visited : List DrvId) (view : SharedView)
    → outside (set_insert d visited) view ≤ outside visited view
outside-set_insert-le d visited [] = omega arith
outside-set_insert-le d visited ((k, n) ∷ view) =
    ground (arith, outside-set_insert-le d visited view, contains-set_insert d k visited)

-- A visit pays for the dependencies of its node.
outside-set_insert :
    (d : DrvId) (visited : List DrvId) (view : SharedView)
    → contains visited d ≡ false
    → outside (set_insert d visited) view + length (dependencies_of (get d view))
      ≤ outside visited view
unfolding get dependencies_of
outside-set_insert d visited [] h = omega arith
outside-set_insert d visited ((k, n) ∷ view) h = elim (Bool-cases (k == d)) [
  | inl here ↦
      let same : d ≡ k = sym ((==_iff k d).0 here) in
      let new : contains visited k ≡ false = subst (λ (j : ℕ). contains visited j ≡ false) same h in
      let now : contains (set_insert d visited) k ≡ true =
        contains-set_insert d k visited ∙ ground (arith, same) in
      rw (here, now, new) (omega (arith, outside-set_insert-le d visited view))
  | inr other ↦
      let kept : contains (set_insert d visited) k ≡ contains visited k =
        contains-set_insert d k visited ∙ ground (arith, other) in
      rw (other, kept) (omega (arith, outside-set_insert d visited view h))
]

abbrev work : SharedView → Walk → ℕ
work view w = length w.queue + outside w.visited view

visit_new-le :
    (report : DryRunReport) (view : SharedView) (d : DrvId) (w : Walk)
    → contains w.visited d ≡ false
    → work view (visit_new report view d w) ≤ work view w
unfolding visit_new
visit_new-le report view d w h =
    let visited = set_insert d w.visited in
    let deps = dependencies_of (get d view) in
    let added = retain (λ dep. not (contains visited dep)) deps in
    elim (Bool-cases (contains report.will_build d || is_settled (get_build_state view d))) [
      | inl skipped ↦ rw skipped (omega (arith, outside-set_insert-le d w.visited view))
      | inr hit ↦
          rw (hit, length-append w.queue added)
            (omega (
              arith,
              outside-set_insert d w.visited view h,
              length-retain-le (λ dep. not (contains visited dep)) deps,
            ))
    ]

visit-le :
    (report : DryRunReport) (view : SharedView) (d : DrvId) (w : Walk)
    → work view (visit report view d w) ≤ work view w
unfolding visit
visit-le report view d w = elim (Bool-cases (contains w.visited d)) [
  | inl old ↦ rw old (omega arith)
  | inr new ↦ rw new (visit_new-le report view d w new)
]

-- A report of a cache hit: built, not among what must be built, and not settled before.
abbrev pub IsHit : DryRunReport → SharedView → DrvId × DrvBuildState → Type 0
IsHit report view r =
    (r.1 ≡ completed success)
    × (contains report.will_build r.0 ≡ false)
    × (is_settled (get_build_state view r.0) ≡ false)

neither : (p q : Bool) → (p || q) ≡ false → (p ≡ false) × (q ≡ false)
neither p q h = ground (arith, h)

visit-IsHit :
    (report : DryRunReport) (view : SharedView) (d : DrvId) (w : Walk)
    → All (IsHit report view) w.reports
    → All (IsHit report view) (visit report view d w).reports
unfolding visit visit_new
visit-IsHit report view d w hits =
    let must_build = contains report.will_build d in
    let settled = is_settled (get_build_state view d) in
    elim (Bool-cases (contains w.visited d)) [
      | inl old ↦ rw old hits
      | inr new ↦ elim (Bool-cases (must_build || settled)) [
        | inl skipped ↦ rw (new, skipped) hits
        | inr hit ↦
            let (free, open_state) = neither must_build settled hit in
            rw (new, hit)
              (All-append (IsHit report view) w.reports ((d, completed success) ∷ []) hits
                ((refl, free, open_state), tt))
      ]
    ]

-- The loop returns, with hits only.
abbrev pub EndsWithHits : DryRunReport → SharedView → Option Walk → Type 0
EndsWithHits report view o =
    (w : Walk) × (o ≡ some w) × All (IsHit report view) w.reports × (w.queue ≡ [])

walk_loop_ends :
    (report : DryRunReport) (view : SharedView) (fuel : ℕ) (w : Walk)
    → work view w ≤ fuel
    → All (IsHit report view) w.reports
    → EndsWithHits report view (walk_loop report view fuel w)
unfolding walk_loop
walk_loop_ends report view zero w h hits = elim (List-cases w.queue) [
  | inl empty ↦ rw (empty, walk_loop) (w, refl, hits, empty)
  | inr (d, rest, full) ↦ absurd (omega (arith, h, ap length full))
]
walk_loop_ends report view (suc fuel) w h hits = elim (List-cases w.queue) [
  | inl empty ↦ rw (empty, walk_loop) (w, refl, hits, empty)
  | inr (d, rest, full) ↦
      let w' = record w { queue = rest } in
      rw (full, walk_loop)
        (walk_loop_ends report view fuel (visit report view d w')
          (omega (arith, h, visit-le report view d w', ap length full))
          (visit-IsHit report view d w' hits))
]

outside-nil : (view : SharedView) → outside [] view ≤ all_dependencies view
unfolding all_dependencies contains
outside-nil [] = omega arith
outside-nil ((k, n) ∷ view) = omega (arith, outside-nil view)

-- For every report of a dry run, every mirror, cyclic ones included, and every derivation, the task
-- ends with an empty queue, and each derivation that it reports is reported as built, is not among
-- those that must be built, and was neither in a terminal state nor building.
pub handle_check_substitution_task_with_report-EndsWithHits :
    (report : DryRunReport) (view : SharedView) (d : DrvId)
    → EndsWithHits report view (handle_check_substitution_task_with_report report view d)
unfolding handle_check_substitution_task_with_report
handle_check_substitution_task_with_report-EndsWithHits report view d =
    walk_loop_ends report view (suc (all_dependencies view)) (walk_from d)
      (omega (arith, outside-nil view)) tt
