-- ===== src/Graph/Failures/Aging.antt =====
-- What `evict_stale_failures` of backend/graph/src/graph.rs forgets.
use eka_ci.Prelude.{
  ℕ, ◌+◌, ◌<◌, ◌≤◌, ◌≡◌, refl, ap, true, false, none, some, List, [], ◌∷◌, if◌then◌else◌, HashMap,
  get, remove, contains, ℕ_eq, arith, get-remove, keys, Bool-cases, inl, inr, ==_iff, ◌==◌,
}
use eka_ci.Drv.{DrvId}
use eka_ci.Graph.Cache.{LruCache}
use eka_ci.Graph.State.{GraphNode, BuildGraph, get_node}
use eka_ci.Graph.Failures.{stale, remove_all, clear_failure, evict_stale_failures}
use eka_ci.Graph.Search.Reachable.{IsDistinct}

get-remove_all :
    {V : Type 0} (ds : List DrvId) (d : DrvId) (m : HashMap DrvId V)
    → get d (remove_all ds m) ≡ (if contains ds d then none else get d m)
unfolding remove_all contains
get-remove_all [] d m = refl
get-remove_all (x ∷ ds) d m = ground (arith, get-remove_all ds d (remove x m), get-remove x d m)

contains-stale_old :
    (now ttl : ℕ) (d : DrvId) (ts : ℕ) (m : HashMap DrvId ℕ)
    → get d m ≡ some ts
    → ts + ttl < now
    → contains (stale now ttl m) d ≡ true
unfolding stale contains get
contains-stale_old now ttl d ts [] e h = cc
contains-stale_old now ttl d ts ((j, tj) ∷ m) e h =
    ground (arith, λ (e' : get d m ≡ some ts). contains-stale_old now ttl d ts m e' h)

contains-stale-keys :
    (now ttl : ℕ) (d : DrvId) (m : HashMap DrvId ℕ)
    → contains (keys m) d ≡ false
    → contains (stale now ttl m) d ≡ false
unfolding stale contains keys
contains-stale-keys now ttl d [] h = refl
contains-stale-keys now ttl d ((j, tj) ∷ m) h = ground (arith, contains-stale-keys now ttl d m)

contains-stale_fresh :
    (now ttl : ℕ) (d : DrvId) (ts : ℕ) (m : HashMap DrvId ℕ)
    → IsDistinct (keys m)
    → get d m ≡ some ts
    → now ≤ ts + ttl
    → contains (stale now ttl m) d ≡ false
unfolding stale contains get keys
contains-stale_fresh now ttl d ts [] u e h = refl
contains-stale_fresh now ttl d ts ((j, tj) ∷ m) u e h = elim (Bool-cases (j == d)) [
  | inl hit ↦ ground (
    arith,
    contains-stale-keys now ttl d m,
    ap (λ (k : ℕ). contains (keys m) k) ((==_iff j d).0 hit),
  )
  | inr miss ↦
      ground (arith, λ (e' : get d m ≡ some ts). contains-stale_fresh now ttl d ts m u.1 e' h)
]

-- A failure that is at most as old as the time to live stays on record, with the derivations that
-- it blocks.
pub evict_stale_failures_keeps :
    {C : Type 0} ⦃lru : LruCache GraphNode C⦄ (now : ℕ) (g : BuildGraph C) (d : DrvId) (ts : ℕ)
    → IsDistinct (keys g.failed_drvs)
    → get d g.failed_drvs ≡ some ts
    → now ≤ ts + g.failure_ttl
    → let g' = (evict_stale_failures now g).0 in
      (get d g'.failed_drvs ≡ some ts)
      × (get d g'.transitive_failure_map ≡ get d g.transitive_failure_map)
unfolding evict_stale_failures
evict_stale_failures_keeps now g d ts u e h = ground (
  arith,
  get-remove_all (stale now g.failure_ttl g.failed_drvs) d g.failed_drvs,
  get-remove_all (stale now g.failure_ttl g.failed_drvs) d g.transitive_failure_map,
  contains-stale_fresh now g.failure_ttl d ts g.failed_drvs u e h,
)

-- An older failure is forgotten together with the derivations that it blocks, and no node changes.
-- If the derivation is then built with success, clearing its failure releases none of them: the
-- graph stays as it is.
pub evict_stale_failures_strands :
    {C : Type 0} ⦃lru : LruCache GraphNode C⦄ (now : ℕ) (g : BuildGraph C) (d : DrvId) (ts : ℕ)
    → get d g.failed_drvs ≡ some ts
    → ts + g.failure_ttl < now
    → let g' = (evict_stale_failures now g).0 in
      (get d g'.failed_drvs ≡ none)
      × ((j : DrvId) → get_node g' j ≡ get_node g j)
      × (clear_failure d g' ≡ (g', []))
unfolding evict_stale_failures clear_failure get_node
evict_stale_failures_strands now g d ts e h =
    let old = contains-stale_old now g.failure_ttl d ts g.failed_drvs e h in
    (
      ground (arith, get-remove_all (stale now g.failure_ttl g.failed_drvs) d g.failed_drvs),
      λ j. refl,
      ground (
        arith,
        get-remove_all (stale now g.failure_ttl g.failed_drvs) d g.transitive_failure_map,
      ),
    )
