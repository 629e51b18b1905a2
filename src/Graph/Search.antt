-- ===== src/Graph/Search.antt =====
-- backend/graph/src/graph.rs: the breadth-first searches along the dependents of a node. The
-- `while` loop takes fuel, and `Graph/Search/Ends.antt` shows that the fuel given is enough.
pub mod Ends
pub mod Reachable
pub mod Radii
use eka_ci.Prelude.{
  ℕ, zero, suc, ◌+◌, Bool, true, false, Option, none, some, List, [], ◌∷◌, ◌++◌, if◌then◌else◌,
  HashMap, insert, contains, set_insert, set_remove, ℕ_eq, length,
}
use eka_ci.Drv.{DrvId}
use eka_ci.Graph.Cache.{LruCache}
use eka_ci.Graph.State.{GraphNode, BuildGraph, get_dependents}

-- `queue.pop_front` takes the head, `queue.push_back` adds at the end.
pub record Search : Type 0 where
  pub visited : List DrvId
  pub queue : List DrvId

-- `if visited.insert(d) { queue.push_back(d); }`.
unfoldable pub visit : DrvId → Search → Search
visit d s =
    if contains s.visited d
    then s
    else record { visited = set_insert d s.visited; queue = s.queue ++ d ∷ [] }

unfoldable pub visit_all : List DrvId → Search → Search
visit_all [] s = s
visit_all (d ∷ ds) s = visit_all ds (visit d s)

-- All the ids that a search can meet.
unfoldable pub all_dependents : List (DrvId × GraphNode) → List DrvId
all_dependents [] = []
all_dependents ((_, n) ∷ es) = n.dependents ++ all_dependents es

abbrev pub start : DrvId → Search
start d = record { visited = d ∷ []; queue = d ∷ [] }

abbrev pub nothing : Search
nothing = record { visited = []; queue = [] }

-- The fuel never runs out: see `Graph/Search/Ends.antt`.
abbrev pub from_loop : Option (List DrvId) → List DrvId
from_loop none = []
from_loop (some visited) = visited

module _ {C : Type 0} ⦃lru : LruCache GraphNode C⦄ where
  -- The body of the loop, after `current` left the queue.
  unfoldable pub expand : BuildGraph C → DrvId → Search → Search
  expand g current s = elim (lru.peek current g.nodes) [
    | none ↦ s
    | some node ↦ visit_all node.dependents s
  ]

  unfoldable pub loop : BuildGraph C → ℕ → Search → Option (List DrvId)
  loop g zero s = elim s.queue [ [] ↦ some s.visited | _ ∷ _ ↦ none ]
  loop g (suc fuel) s = elim s.queue [
    | [] ↦ some s.visited
    | current ∷ rest ↦ loop g fuel (expand g current (record s { queue = rest }))
  ]

  abbrev pub fuel_for : BuildGraph C → Search → ℕ
  fuel_for g s = length (all_dependents (lru.entries g.nodes)) + length s.queue

  unfoldable pub search : BuildGraph C → Search → List DrvId
  search g s = from_loop (loop g (fuel_for g s) s)

  unfoldable pub get_all_transitive_dependents : BuildGraph C → DrvId → List DrvId
  get_all_transitive_dependents g d = set_remove d (search g (start d))

  abbrev pub is_present : BuildGraph C → DrvId → Bool
  is_present g d = elim (lru.peek d g.nodes) [ none ↦ false | some _ ↦ true ]

  unfoldable pub seed_all : BuildGraph C → List DrvId → Search → Search
  seed_all g [] s = s
  seed_all g (seed ∷ seeds) s = seed_all g seeds (if is_present g seed then visit seed s else s)

  unfoldable pub reverse_reachable_from_set : BuildGraph C → List DrvId → List DrvId
  reverse_reachable_from_set g seeds = search g (seed_all g seeds nothing)

  unfoldable pub blast_radius : BuildGraph C → DrvId → ℕ
  blast_radius g seed =
      if is_present g seed then length (get_all_transitive_dependents g seed) else 0

  -- The loop over the seeds, with the map so far.
  unfoldable pub blast_radius_from : BuildGraph C → List DrvId → HashMap DrvId ℕ → HashMap DrvId ℕ
  blast_radius_from g [] out = out
  blast_radius_from g (seed ∷ seeds) out =
      blast_radius_from g seeds (insert seed (blast_radius g seed) out)

  unfoldable pub blast_radius_per_seed : BuildGraph C → List DrvId → HashMap DrvId ℕ
  blast_radius_per_seed g seeds = blast_radius_from g seeds []
