-- ===== src/Graph/Search/Reachable.antt =====
-- What the searches of backend/graph/src/graph.rs find.
use eka_ci.Prelude.{
  ℕ, zero, suc, ◌≡◌, ◌≢◌, ◌↔◌, ◌⊎◌, refl, ◌||◌, ◌&&◌, not, true, false, some, List, [], ◌∷◌,
  contains, set_insert, set_remove, ℕ_eq, retain, arith, contains-set_insert, contains-set_remove,
  contains-append, List-cases, inl, inr, ==_iff, Bool-cases,
}
use eka_ci.Drv.{DrvId}
use eka_ci.Graph.Cache.{LruCache}
use eka_ci.Graph.State.{GraphNode, BuildGraph, get_dependents}
use eka_ci.Graph.Search.{
  Search, visit, visit_all, expand, loop, fuel_for, search, start, get_all_transitive_dependents,
  nothing, is_present, seed_all, reverse_reachable_from_set,
}
use eka_ci.Graph.Search.Ends.{search_returns}

-- A list that holds no id twice.
abbrev pub IsDistinct : List DrvId → Type 0
IsDistinct [] = Unit {0}
IsDistinct (d ∷ ds) = (contains ds d ≡ false) × IsDistinct ds

set_insert-IsDistinct : (d : DrvId) (ds : List DrvId) → IsDistinct ds → IsDistinct (set_insert d ds)
unfolding set_insert
set_insert-IsDistinct d ds h = ground arith

set_remove-IsDistinct : (d : DrvId) (ds : List DrvId) → IsDistinct ds → IsDistinct (set_remove d ds)
unfolding set_remove
set_remove-IsDistinct d [] h = tt
set_remove-IsDistinct d (x ∷ xs) h =
    ground (arith, set_remove-IsDistinct d xs h.1, contains-set_remove d x xs)

-- What `visit_all` adds to the visited ids and to the queue.
pub visited-visit_all :
    (ds : List DrvId) (s : Search) (x : DrvId)
    → contains (visit_all ds s).visited x ≡ (contains s.visited x || contains ds x)
unfolding visit_all visit contains
visited-visit_all [] s x = ground arith
visited-visit_all (d ∷ ds) s x =
    ground
      (arith, visited-visit_all ds (visit d s) x, contains-set_insert d x s.visited, ==_iff d x)

-- Every id that is newly visited is queued.
queue-visit_all :
    (ds : List DrvId) (s : Search) (x : DrvId)
    → contains (visit_all ds s).queue x
      ≡ (contains s.queue x || (contains ds x && not (contains s.visited x)))
unfolding visit_all visit contains
queue-visit_all [] s x = ground arith
queue-visit_all (d ∷ ds) s x = ground (
  arith,
  queue-visit_all ds (visit d s) x,
  contains-set_insert d x s.visited,
  contains-append s.queue (d ∷ []) x,
  ==_iff d x,
)

visit_all-IsDistinct :
    (ds : List DrvId) (s : Search) → IsDistinct s.visited → IsDistinct (visit_all ds s).visited
unfolding visit_all visit
visit_all-IsDistinct [] s h = h
visit_all-IsDistinct (d ∷ ds) s h =
    visit_all-IsDistinct ds (visit d s) (ground (arith, set_insert-IsDistinct d s.visited h))

module _ {C : Type 0} ⦃lru : LruCache GraphNode C⦄ (g : BuildGraph C) where
  -- `v` is recorded as a direct dependent of `u`.
  abbrev pub DependsOn : DrvId → DrvId → Type 0
  DependsOn v u = contains (get_dependents g u) v ≡ true

  -- `v` is one of the seeds, or depends on one of them, directly or through others.
  pub data Reach (seeds : List DrvId) : DrvId → Type 0 where
    here : {v : DrvId} → contains seeds v ≡ true → Reach seeds v
    step : {u v : DrvId} → Reach seeds u → DependsOn v u → Reach seeds v

  expand-get_dependents : (u : DrvId) (s : Search) → expand g u s ≡ visit_all (get_dependents g u) s
  unfolding expand get_dependents visit_all
  expand-get_dependents u s = ground arith

  module _ (seeds : List DrvId) where
    record Inv (s : Search) : Type 0 where
      distinct : IsDistinct s.visited
      seeded : (v : DrvId) → contains seeds v ≡ true → contains s.visited v ≡ true
      queued : (v : DrvId) → contains s.queue v ≡ true → contains s.visited v ≡ true
      sound : (v : DrvId) → contains s.visited v ≡ true → Reach seeds v
      closed :
          (u v : DrvId)
          → contains s.visited u ≡ true
          → DependsOn v u
          → (contains s.queue u ≡ true) ⊎ (contains s.visited v ≡ true)

    Inv-expand :
        (s : Search) (u : DrvId) (rest : List DrvId)
        → s.queue ≡ u ∷ rest
        → Inv s
        → Inv (expand g u (record s { queue = rest }))
    unfolding contains
    Inv-expand s u rest e h =
        let s' = record s { queue = rest } in
        let ds = get_dependents g u in
        let from_u : Reach seeds u = sound u (queued u (rw e (ground arith))) in
        rw (expand-get_dependents u s') (record {
          distinct = visit_all-IsDistinct ds s' distinct;
          seeded = λ v m. ground (arith, visited-visit_all ds s' v, seeded v m);
          queued =
              λ v m. ground (arith, visited-visit_all ds s' v, queue-visit_all ds s' v, queued v);
          sound = λ v m. elim (Bool-cases (contains s.visited v)) [
            | inl old ↦ sound v old
            | inr fresh ↦ step from_u (ground (arith, visited-visit_all ds s' v))
          ];
          closed = λ x v m d. ground (
            arith,
            visited-visit_all ds s' v,
            visited-visit_all ds s' x,
            queue-visit_all ds s' x,
            λ (o : contains s.visited x ≡ true). closed x v o d,
            ==_iff u x,
          );
        })
      where
        open h use {distinct, seeded, queued, sound, closed}

    loop-Inv :
        (fuel : ℕ) (s : Search) (visited : List DrvId)
        → loop g fuel s ≡ some visited
        → Inv s
        → Inv (record { visited = visited; queue = [] })
    unfolding loop
    loop-Inv zero s visited e h = elim (List-cases s.queue) [
      | inl done ↦ ground arith
      | inr (u, rest, more) ↦ ground arith
    ]
    loop-Inv (suc fuel) s visited e h = elim (List-cases s.queue) [
      | inl done ↦ ground arith
      | inr (u, rest, more) ↦
          loop-Inv fuel (expand g u (record s { queue = rest })) visited (rw (more, loop) at e)
            (Inv-expand s u rest more h)
    ]

    complete :
        (visited : List DrvId)
        → Inv (record { visited = visited; queue = [] })
        → {v : DrvId} → Reach seeds v
        → contains visited v ≡ true
    unfolding contains
    complete visited h (here m) = h.seeded _ m
    complete visited h (step {u} {v} r d) = elim (h.closed u v (complete visited h r) d) [
      | inl waiting ↦ cc
      | inr done ↦ done
    ]

    Inv-seeded : Inv (visit_all seeds nothing)
    unfolding contains
    Inv-seeded = record {
      distinct = visit_all-IsDistinct seeds nothing tt;
      seeded = λ v m. ground (arith, visited-visit_all seeds nothing v);
      queued =
          λ v m. ground (arith, visited-visit_all seeds nothing v, queue-visit_all seeds nothing v);
      sound = λ v m. here (ground (arith, visited-visit_all seeds nothing v));
      closed = λ u v m d.
          inl (ground (arith, visited-visit_all seeds nothing u, queue-visit_all seeds nothing u));
    }

    -- A search from some seeds ends with each id that depends on one of them, once.
    pub search_finds :
        IsDistinct (search g (visit_all seeds nothing))
        × ((v : DrvId) → (contains (search g (visit_all seeds nothing)) v ≡ true) ↔ Reach seeds v)
    search_finds =
        let s = visit_all seeds nothing in
        let inv = loop-Inv (fuel_for g s) s (search g s) (search_returns g s) Inv-seeded in
        (inv.distinct, λ v. (inv.sound v, complete (search g s) inv))

  -- The ids of a list that are in the cache.
  pub present : List DrvId → List DrvId
  present seeds = retain (is_present g) seeds

  seed_all-visit_all :
      (seeds : List DrvId) (s : Search) → seed_all g seeds s ≡ visit_all (present seeds) s
  unfolding seed_all visit_all present retain
  seed_all-visit_all [] s = refl
  seed_all-visit_all (d ∷ ds) s = elim (Bool-cases (is_present g d)) [
    | inl e ↦ ground (arith, seed_all-visit_all ds (visit d s))
    | inr e ↦ ground (arith, seed_all-visit_all ds s)
  ]

-- The transitive dependents of a derivation are the other ids that can be reached from it along
-- the recorded dependents, each listed once. The search ends on every graph, one with cycles
-- included.
pub get_all_transitive_dependents_reach :
    {C : Type 0} ⦃lru : LruCache GraphNode C⦄ (g : BuildGraph C) (d : DrvId)
    → IsDistinct (get_all_transitive_dependents g d)
      × ((v : DrvId)
          → (contains (get_all_transitive_dependents g d) v ≡ true)
            ↔ ((v ≢ d) × Reach g (d ∷ []) v))
unfolding get_all_transitive_dependents visit_all visit contains set_insert
get_all_transitive_dependents_reach g d =
    let (distinct, found) = rw start-visit_all at (search_finds g (d ∷ [])) in
    (
      set_remove-IsDistinct d (search g (start d)) distinct,
      λ v. ground (arith, contains-set_remove d v (search g (start d)), found v, ==_iff d v),
    )
  where
    start-visit_all : visit_all (d ∷ []) nothing ≡ start d
    start-visit_all = refl

-- The set that is reachable from several seeds holds exactly what can be reached from those seeds
-- that are in the cache, each id once.
pub reverse_reachable_from_set_reach :
    {C : Type 0} ⦃lru : LruCache GraphNode C⦄ (g : BuildGraph C) (seeds : List DrvId)
    → IsDistinct (reverse_reachable_from_set g seeds)
      × ((v : DrvId)
          → (contains (reverse_reachable_from_set g seeds) v ≡ true) ↔ Reach g (present g seeds) v)
unfolding reverse_reachable_from_set
reverse_reachable_from_set_reach g seeds =
    rw (seed_all-visit_all g seeds nothing) (search_finds g (present g seeds))
