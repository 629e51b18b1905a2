-- ===== src/Graph/Search/Radii.antt =====
-- `blast_radius_per_seed` of backend/graph/src/graph.rs.
use eka_ci.Prelude.{
  ℕ, ◌≡◌, refl, ap, none, some, List, [], ◌∷◌, if◌then◌else◌, HashMap, get, insert, contains, ℕ_eq,
  get-insert, arith, ==_iff,
}
use eka_ci.Drv.{DrvId}
use eka_ci.Graph.Cache.{LruCache}
use eka_ci.Graph.State.{GraphNode, BuildGraph}
use eka_ci.Graph.Search.{blast_radius, blast_radius_from, blast_radius_per_seed}

module _ {C : Type 0} ⦃lru : LruCache GraphNode C⦄ where
  get-blast_radius_from :
      (g : BuildGraph C) (seeds : List DrvId) (d : DrvId) (out : HashMap DrvId ℕ)
      → get d (blast_radius_from g seeds out)
        ≡ (if contains seeds d then some (blast_radius g d) else get d out)
  unfolding blast_radius_from contains
  get-blast_radius_from g [] d out = refl
  get-blast_radius_from g (seed ∷ seeds) d out = ground (
    arith,
    get-blast_radius_from g seeds d (insert seed (blast_radius g seed) out),
    get-insert seed d (blast_radius g seed) out,
    λ (s : seed ≡ d). ap (λ (k : ℕ). blast_radius g k) s,
    ==_iff seed d,
  )

  -- The map holds for every seed, given once or more often, its own radius: the number of the other
  -- derivations that depend on it, and 0 for one that the graph does not hold. It has no other key.
  pub get-blast_radius_per_seed :
      (g : BuildGraph C) (seeds : List DrvId) (d : DrvId)
      → get d (blast_radius_per_seed g seeds)
        ≡ (if contains seeds d then some (blast_radius g d) else none)
  unfolding blast_radius_per_seed get
  get-blast_radius_per_seed g seeds d = get-blast_radius_from g seeds d []
