-- ===== src/Graph/Failures/Spread.antt =====
-- What `propagate_failure` and `clear_failure` of backend/graph/src/graph.rs do to the nodes.
use mathlib.Core.Option
use eka_ci.Prelude.{
  ℕ, ◌≡◌, ◌≢◌, ◌↔◌, refl, ap, Bool, true, not, ◌&&◌, some, List, [], ◌∷◌, if◌then◌else◌, get,
  remove, contains, set_insert, set_remove, is_empty, ℕ_eq, arith, get-insert_self, get-remove,
  contains-append, contains-set_insert, Option-cases, inl, inr, ==_iff, ◌==◌, ==-refl,
}
use eka_ci.Drv.{DrvId, queued}
use eka_ci.Graph.Cache.{LruCache}
use eka_ci.Graph.State.{GraphNode, BuildGraph, set_state, get_node}
use eka_ci.Graph.Search.{get_all_transitive_dependents}
use eka_ci.Graph.Search.Reachable.{Reach, get_all_transitive_dependents_reach}
use eka_ci.Graph.Failures.{
  block, unblock, mark_blocked, mark_all, propagate_failure, clear_one, clear_all, clear_failure,
}

block_idem : (f : DrvId) (n : GraphNode) → block f (block f n) ≡ block f n
unfolding set_insert
block_idem f n = ground (arith, contains-set_insert f f n.blocking_failures, ==-refl f)

set_remove_idem : (f : DrvId) (xs : List DrvId) → set_remove f (set_remove f xs) ≡ set_remove f xs
unfolding set_remove
set_remove_idem f [] = refl
set_remove_idem f (x ∷ xs) = ground (arith, set_remove_idem f xs)

-- A node when one of its blocking failures is cleared.
abbrev pub is_free : DrvId → GraphNode → Bool
is_free f n = is_empty (set_remove f n.blocking_failures)

unfoldable pub settle : DrvId → GraphNode → GraphNode
settle f n = if is_free f n then set_state queued (unblock f n) else unblock f n

settle_idem : (f : DrvId) (n : GraphNode) → settle f (settle f n) ≡ settle f n
unfolding settle
settle_idem f n = ground (arith, set_remove_idem f n.blocking_failures)

is_free-settle : (f : DrvId) (n : GraphNode) → is_free f (settle f n) ≡ is_free f n
unfolding settle
is_free-settle f n = ground (arith, set_remove_idem f n.blocking_failures)

module _ {C : Type 0} ⦃lru : LruCache GraphNode C⦄ where
  peek-mark_blocked :
      (f d j : DrvId) (g : BuildGraph C)
      → get_node (mark_blocked f d g) j
        ≡ (if d == j then Option.map (block f) (get_node g j) else get_node g j)
  unfolding mark_blocked get_node
  peek-mark_blocked f d j g = lru.peek-modify d j (block f) g.nodes

  pub peek-mark_all :
      (f : DrvId) (ds : List DrvId) (j : DrvId) (g : BuildGraph C)
      → get_node (mark_all f ds g) j
        ≡ (if contains ds j then Option.map (block f) (get_node g j) else get_node g j)
  unfolding mark_all contains
  peek-mark_all f [] j g = refl
  peek-mark_all f (d ∷ ds) j g = elim (Option-cases (get_node g j)) [
    | inl e ↦ ground (arith, peek-mark_all f ds j (mark_blocked f d g), peek-mark_blocked f d j g)
    | inr (n, e) ↦ ground (
      arith,
      peek-mark_all f ds j (mark_blocked f d g),
      peek-mark_blocked f d j g,
      block_idem f n,
    )
  ]

  peek-clear_one :
      (f d j : DrvId) (g : BuildGraph C)
      → get_node (clear_one f d g).0 j
        ≡ (if d == j then Option.map (settle f) (get_node g j) else get_node g j)
  unfolding clear_one get_node settle
  peek-clear_one f d j g =
      let cleared = lru.modify d (unblock f) g.nodes in
      elim (Option-cases (lru.peek d g.nodes)) [
        | inl e ↦
            rw (e, clear_one)
              (ground (arith, λ (s : d ≡ j). ap (λ (k : ℕ). lru.peek k g.nodes) s, ==_iff d j))
        | inr (n, e) ↦
            rw (e, clear_one)
              (ground (
                arith,
                lru.peek-modify d j (unblock f) g.nodes,
                lru.peek-modify d j (set_state queued) cleared,
                λ (s : d ≡ j). ap (λ (k : ℕ). lru.peek k g.nodes) s,
                ==_iff d j,
              ))
      ]

  contains-clear_one :
      (f d j : DrvId) (g : BuildGraph C) (n : GraphNode)
      → get_node g j ≡ some n
      → contains (clear_one f d g).1 j ≡ (d == j && is_free f n)
  unfolding clear_one get_node contains
  contains-clear_one f d j g n e = elim (Option-cases (lru.peek d g.nodes)) [
    | inl gone ↦
        rw (gone, clear_one)
          (ground (arith, λ (s : d ≡ j). ap (λ (k : ℕ). lru.peek k g.nodes) s, ==_iff d j))
    | inr (m, there) ↦
        rw (there, clear_one)
          (ground (arith, λ (s : d ≡ j). ap (λ (k : ℕ). lru.peek k g.nodes) s, ==_iff d j))
  ]

  pub peek-clear_all :
      (f : DrvId) (ds : List DrvId) (j : DrvId) (g : BuildGraph C)
      → get_node (clear_all f ds g).0 j
        ≡ (if contains ds j then Option.map (settle f) (get_node g j) else get_node g j)
  unfolding clear_all contains
  peek-clear_all f [] j g = refl
  peek-clear_all f (d ∷ ds) j g = elim (Option-cases (get_node g j)) [
    | inl e ↦ ground (arith, peek-clear_all f ds j (clear_one f d g).0, peek-clear_one f d j g)
    | inr (n, e) ↦
        ground (
          arith,
          peek-clear_all f ds j (clear_one f d g).0,
          peek-clear_one f d j g,
          settle_idem f n,
        )
  ]

  pub contains-clear_all :
      (f : DrvId) (ds : List DrvId) (j : DrvId) (g : BuildGraph C) (n : GraphNode)
      → get_node g j ≡ some n
      → contains (clear_all f ds g).1 j ≡ (contains ds j && is_free f n)
  unfolding clear_all contains
  contains-clear_all f [] j g n e = refl
  contains-clear_all f (d ∷ ds) j g n e = ground (
    arith,
    contains-append (clear_one f d g).1 (clear_all f ds (clear_one f d g).0).1 j,
    contains-clear_one f d j g n e,
    peek-clear_one f d j g,
    contains-clear_all f ds j (clear_one f d g).0 n,
    contains-clear_all f ds j (clear_one f d g).0 (settle f n),
    is_free-settle f n,
  )

map-clear_all :
    {C : Type 0} ⦃lru : LruCache GraphNode C⦄ (f : DrvId) (ds : List DrvId) (g : BuildGraph C)
    → (clear_all f ds g).0.transitive_failure_map ≡ g.transitive_failure_map
unfolding clear_all clear_one
map-clear_all f [] g = refl
map-clear_all f (d ∷ ds) g = ground (arith, map-clear_all f ds (clear_one f d g).0)

-- When a derivation fails, exactly the other nodes that depend on it, directly or through others,
-- go to the state of a transitive failure with this failure on record, and the nodes that do not
-- depend on it stay as they are. The ids given back are those that the map of failures records.
pub propagate_failure_blocks :
    {C : Type 0} ⦃lru : LruCache GraphNode C⦄ (f j : DrvId) (g : BuildGraph C) (n : GraphNode)
    → get_node g j ≡ some n
    → let (g', blocked) = propagate_failure f g in
      ((contains blocked j ≡ true) ↔ ((j ≢ f) × Reach g (f ∷ []) j))
      × (get_node g' j ≡ some (if contains blocked j then block f n else n))
      × (get f g'.transitive_failure_map ≡ some blocked)
unfolding propagate_failure get_node
propagate_failure_blocks f j g n e =
    let blocked = get_all_transitive_dependents g f in
    (
      (get_all_transitive_dependents_reach g f).1 j,
      ground (arith, peek-mark_all f blocked j g),
      get-insert_self f blocked (mark_all f blocked g).transitive_failure_map,
    )

-- Clearing a failure takes it off every node that it was recorded to block: a node with no other
-- blocking failure is queued and given back, one with others keeps its state, and all other nodes
-- stay as they are. The record of the failure is gone, so that to clear it again does nothing.
pub clear_failure_unblocks :
    {C : Type 0} ⦃lru : LruCache GraphNode C⦄ (f j : DrvId) (g : BuildGraph C) (n : GraphNode)
    (blocked : List DrvId)
    → get_node g j ≡ some n
    → get f g.transitive_failure_map ≡ some blocked
    → let (g', unblocked) = clear_failure f g in
      (contains unblocked j ≡ (contains blocked j && is_free f n))
      × (get_node g' j
          ≡ some (
              if not (contains blocked j)
              then n
              else if is_free f n
              then set_state queued (unblock f n)
              else unblock f n))
      × (clear_failure f g' ≡ (g', []))
unfolding clear_failure settle get_node
clear_failure_unblocks f j g n blocked e h =
    let g₀ = record g { transitive_failure_map = remove f g.transitive_failure_map } in
    rw (h, clear_failure)
      (ground (
        arith,
        peek-clear_all f blocked j g₀,
        contains-clear_all f blocked j g₀ n e,
        map-clear_all f blocked g₀,
        get-remove f f g.transitive_failure_map,
        ==-refl f,
      ))
