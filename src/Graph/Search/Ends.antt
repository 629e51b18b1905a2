-- ===== src/Graph/Search/Ends.antt =====
-- The loop of the searches of backend/graph/src/graph.rs ends within its fuel.
use eka_ci.Prelude.{
  ◌∙◌, ℕ, zero, suc, ◌+◌, ◌≤◌, ◌≡◌, ap, true, false, some, List, [], ◌∷◌, if◌then◌else◌, contains,
  set_insert, ℕ_eq, length, length-append, arith, contains-set_insert, contains-append,
  Option-cases, List-cases, inl, inr, get, ==_iff,
}
use eka_ci.Drv.{DrvId}
use eka_ci.Graph.Cache.{LruCache}
use eka_ci.Graph.State.{GraphNode, BuildGraph}
use eka_ci.Graph.Search.{Search, visit, visit_all, all_dependents, expand, loop, fuel_for, search}

-- The ids of a list that have not been visited.
pub unseen : List DrvId → List DrvId → ℕ
unseen visited [] = 0
unseen visited (u ∷ us) = if contains visited u then unseen visited us else suc (unseen visited us)

unseen-le : (visited us : List DrvId) → unseen visited us ≤ length us
unfolding unseen
unseen-le visited [] = omega arith
unseen-le visited (u ∷ us) = ground (arith, unseen-le visited us)

unseen_mono :
    (d : DrvId) (visited us : List DrvId) → unseen (set_insert d visited) us ≤ unseen visited us
unfolding unseen
unseen_mono d visited [] = omega arith
unseen_mono d visited (u ∷ us) =
    ground (arith, unseen_mono d visited us, contains-set_insert d u visited)

-- A new id that is listed has not been counted before.
unseen-lt :
    (d : DrvId) (visited us : List DrvId)
    → contains visited d ≡ false
    → contains us d ≡ true
    → suc (unseen (set_insert d visited) us) ≤ unseen visited us
unfolding unseen contains
unseen-lt d visited [] h m = cc
unseen-lt d visited (u ∷ us) h m = ground (
  arith,
  unseen-lt d visited us h,
  unseen_mono d visited us,
  contains-set_insert d u visited,
  ==_iff u d,
)

abbrev pub Covers : List DrvId → List DrvId → Type 0
Covers us ds = (d : DrvId) → contains ds d ≡ true → contains us d ≡ true

-- A step takes one id from the queue and adds only ids that it counts as seen, so this falls.
abbrev pub work : List DrvId → Search → ℕ
work us s = unseen s.visited us + length s.queue

visit-le_work :
    (us : List DrvId) (d : DrvId) (s : Search)
    → contains us d ≡ true
    → work us (visit d s) ≤ work us s
unfolding visit
visit-le_work us d s m = ground (arith, unseen-lt d s.visited us, length-append s.queue (d ∷ []))

visit_all-le_work :
    (us ds : List DrvId) (s : Search) → Covers us ds → work us (visit_all ds s) ≤ work us s
unfolding visit_all contains
visit_all-le_work us [] s c = omega arith
visit_all-le_work us (d ∷ ds) s c = omega (
  arith,
  visit-le_work us d s (c d (ground arith)),
  visit_all-le_work us ds (visit d s) (λ x m. c x (ground arith)),
)

all_dependents-Covers :
    (es : List (DrvId × GraphNode)) (k : DrvId) (n : GraphNode)
    → get k es ≡ some n
    → Covers (all_dependents es) n.dependents
unfolding get all_dependents
all_dependents-Covers [] k n h d held = cc
all_dependents-Covers ((j, m) ∷ es) k n h d held = ground (
  arith,
  contains-append m.dependents (all_dependents es) d,
  λ (e : get k es ≡ some n). all_dependents-Covers es k n e d held,
)

module _ {C : Type 0} ⦃lru : LruCache GraphNode C⦄ (g : BuildGraph C) where
  abbrev universe : List DrvId
  universe = all_dependents (lru.entries g.nodes)

  expand-le_work : (u : DrvId) (s : Search) → work universe (expand g u s) ≤ work universe s
  unfolding expand
  expand-le_work u s = elim (Option-cases (lru.peek u g.nodes)) [
    | inl e ↦ rw (e, expand) (omega arith)
    | inr (n, e) ↦
        rw (e, expand)
          (visit_all-le_work universe n.dependents s
            (all_dependents-Covers (lru.entries g.nodes) u n (lru.get-entries g.nodes u ∙ e)))
  ]

  -- With the work as fuel, the loop returns.
  pub loop_ends :
      (fuel : ℕ) (s : Search)
      → work universe s ≤ fuel
      → (visited : List DrvId) × (loop g fuel s ≡ some visited)
  unfolding loop
  loop_ends zero s h = (s.visited, ground arith)
  loop_ends (suc fuel) s h = elim (List-cases s.queue) [
    | inl e ↦ (s.visited, rw (e, loop))
    | inr (u, rest, e) ↦
        let s' = record s { queue = rest } in
        rw (e, loop)
          (loop_ends fuel (expand g u s') (omega (arith, expand-le_work u s', ap length e)))
  ]

-- With the fuel that a search is given its loop ends, on every graph and from every state of the
-- search, with the result that the search gives.
pub search_returns :
    {C : Type 0} ⦃lru : LruCache GraphNode C⦄ (g : BuildGraph C) (s : Search)
    → (loop g (fuel_for g s) s ≡ some (search g s))
unfolding search
search_returns g s =
    let (visited, e) =
      loop_ends g (fuel_for g s) s (omega (arith, unseen-le s.visited (universe g))) in
    ground arith
