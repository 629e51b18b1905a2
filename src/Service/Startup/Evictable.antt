-- ===== src/Service/Startup/Evictable.antt =====
-- What the eviction policy selects by the counts of references that the service starts with.
use eka_ci.Prelude.{
  ℕ, ◌+◌, ◌≤◌, ◌≡◌, refl, sym, ap, ◌∙◌, ◌==◌, true, false, none, some, List, [], ◌∷◌, HashMap, get,
  get-insert, if◌then◌else◌, contains, arith, All, All-map, Bool-cases, Option-cases, inl, inr,
  ℕ_eq,
}
use eka_ci.Drv.{DrvId}
use eka_ci.Graph.Cache.{LruCache}
use eka_ci.Graph.State.{GraphNode, BuildGraph, get_drvs_by_state}
use eka_ci.Graph.Candidates.{
  EvictionConfig, ref_count_of, select_candidates, min_age_for_tier, age_at, target_state, state_of,
}
use eka_ci.Graph.Candidates.Safe.{select_candidates-IsEvictable}
use eka_ci.Service.Operations.{count_up}
use eka_ci.Service.Startup.{count_all, counts_of, start_service}

-- A reference more is counted for its id only.
ref_count_of-count_up :
    (d e : DrvId) (m : HashMap DrvId ℕ)
    → ref_count_of (count_up d m) e ≡ (if d == e then ref_count_of m e + 1 else ref_count_of m e)
unfolding count_up
ref_count_of-count_up d e m = elim (Bool-cases (d == e)) [
  | inr other ↦ elim (Option-cases (get d m)) [
    | inl new ↦ rw (new, count_up, get-insert d e 1 m, other) refl
    | inr (n, old) ↦ rw (old, count_up, get-insert d e (n + 1) m, other) refl
  ]
  | inl same ↦
      let is = sym ((ℕ_eq.eq_iff d e).0 same) in
      elim (Option-cases (get d m)) [
        | inl new ↦
            let here : get e m ≡ none = ap (λ k. get k m) is ∙ new in
            rw (new, count_up, get-insert d e 1 m, same, here) refl
        | inr (n, old) ↦
            let here : get e m ≡ some n = ap (λ k. get k m) is ∙ old in
            rw (old, count_up, get-insert d e (n + 1) m, same, here) refl
      ]
]

count_all-le :
    (ds : List DrvId) (e : DrvId) (m : HashMap DrvId ℕ)
    → ref_count_of m e ≤ ref_count_of (count_all ds m) e
unfolding count_all
count_all-le [] e m = omega arith
count_all-le (d ∷ ds) e m =
    ground (arith, ref_count_of-count_up d e m, count_all-le ds e (count_up d m))

count_all-uncounted :
    (ds : List DrvId) (e : DrvId) (m : HashMap DrvId ℕ)
    → ref_count_of (count_all ds m) e ≡ 0
    → contains ds e ≡ false
unfolding count_all contains
count_all-uncounted [] e m zero_ = refl
count_all-uncounted (d ∷ ds) e m zero_ = ground (
  arith,
  zero_,
  ref_count_of-count_up d e m,
  count_all-le ds e (count_up d m),
  count_all-uncounted ds e (count_up d m),
)

-- No node of the list depends on the id.
abbrev pub IsUnreferenced : List (DrvId × GraphNode) → DrvId → Type 0
IsUnreferenced nodes d = All (λ entry. contains entry.1.dependencies d ≡ false) nodes

counts_of-IsUnreferenced :
    (nodes : List (DrvId × GraphNode)) (d : DrvId)
    → ref_count_of (counts_of nodes) d ≡ 0
    → IsUnreferenced nodes d
unfolding counts_of
counts_of-IsUnreferenced [] d zero_ = tt
counts_of-IsUnreferenced ((k, n) ∷ nodes) d zero_ =
    let others = count_all-le n.dependencies d (counts_of nodes) in
    (
      count_all-uncounted n.dependencies d (counts_of nodes) zero_,
      counts_of-IsUnreferenced nodes d (omega (arith, zero_, others)),
    )

module _ {C : Type 0} ⦃lru : LruCache GraphNode C⦄ where
  -- By the counts that the service starts with, every candidate is listed under the state of its tier, which
  -- is terminal, no node in the cache depends on it, and by the times of the last accesses that are given it
  -- is at least as old as its tier asks for.
  pub select_candidates-IsUnreferenced :
      (config : EvictionConfig) (g : BuildGraph C) (start now : ℕ) (last_accessed : HashMap DrvId ℕ)
      (target_count : ℕ)
      → let counts = (start_service start g).ref_counts in
        All
          (λ c.
            (contains (get_drvs_by_state g (state_of (target_state c.tier))) c.drv_id ≡ true)
            × IsUnreferenced (lru.entries g.nodes) c.drv_id
            × (min_age_for_tier config c.tier ≤ age_at now last_accessed c.drv_id))
          (select_candidates config g last_accessed counts now target_count)
  unfolding start_service
  select_candidates-IsUnreferenced config g start now last_accessed target_count =
      let counts = (start_service start g).ref_counts in
      All-map
        (λ c (listed, uncounted, old, _).
          (listed, counts_of-IsUnreferenced (lru.entries g.nodes) c.drv_id uncounted, old))
        (select_candidates config g last_accessed counts now target_count)
        (select_candidates-IsEvictable config g last_accessed counts now target_count)
