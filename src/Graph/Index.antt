-- ===== src/Graph/Index.antt =====
-- The index by state of backend/graph/src/graph.rs: each node of the cache is listed under its
-- state, and under no other.
pub mod Steps
use mathlib.Core.Option
use eka_ci.Prelude.{
  ℕ, ◌≡◌, ◌≢◌, refl, ap, Bool, true, false, not, ◌&&◌, ◌||◌, Option, none, some, List, [], ◌∷◌,
  if◌then◌else◌, get, insert, get-insert, get-modify, contains, contains-set_insert,
  contains-set_remove, set_remove, ℕ_eq, arith, Option-cases, Bool-cases, set_insert, inl, inr,
  ==_iff, ◌==◌,
}
use eka_ci.Drv.{
  DrvId, Drv, DrvBuildState, DrvBuildState_eq, eq_state, eq_state_iff, queued, transitive_failure,
}
use eka_ci.Graph.Cache.{LruCache}
use eka_ci.Graph.State.{
  GraphNode, BuildGraph, StateIndex, from_drv, or_empty, index_insert, index_remove, set_state,
  get_drvs_by_state, insert_node, add_edge, update_state, get_node,
}
use eka_ci.Graph.Failures.{block, unblock, mark_blocked, mark_all, propagate_failure, clear_one}

abbrev pub listed : StateIndex → DrvBuildState → DrvId → Bool
listed m s d = contains (or_empty (get s m)) d

pub listed-index_insert :
    (s t : DrvBuildState) (i d : DrvId) (m : StateIndex)
    → listed (index_insert s i m) t d ≡ (eq_state s t && i == d || listed m t d)
unfolding index_insert
listed-index_insert s t i d m = elim (Bool-cases (eq_state s t)) [
  | inl hit ↦
      let same : s ≡ t = (eq_state_iff s t).0 hit in
      rw (get-insert s t (set_insert i (or_empty (get s m))) m, hit, ← same)
        (contains-set_insert i d (or_empty (get s m)))
  | inr miss ↦ rw (get-insert s t (set_insert i (or_empty (get s m))) m, miss) refl
]

pub listed-index_remove :
    (s t : DrvBuildState) (i d : DrvId) (m : StateIndex)
    → listed (index_remove s i m) t d ≡ (not (eq_state s t && i == d) && listed m t d)
unfolding index_remove contains
listed-index_remove s t i d m = elim (Bool-cases (eq_state s t)) [
  | inl hit ↦
      rw (get-modify s t (set_remove i) m, hit)
        (elim (Option-cases (get t m)) [
          | inl e ↦ rw e (ground arith)
          | inr (ds, e) ↦ rw e (contains-set_remove i d ds)
        ])
  | inr miss ↦ rw (get-modify s t (set_remove i) m, miss) refl
]

module _ {C : Type 0} ⦃lru : LruCache GraphNode C⦄ where
  -- Each node of the cache is listed under its state, and under no other.
  abbrev pub IsIndexed : BuildGraph C → Type 0
  IsIndexed g =
      (d : DrvId) (n : GraphNode) (s : DrvBuildState)
      → get_node g d ≡ some n
      → contains (get_drvs_by_state g s) d ≡ eq_state n.build_state s

  -- A node takes a new state, and its id moves in the index.
  pub move-IsIndexed :
      (g : BuildGraph C) (d : DrvId) (old : GraphNode) (new : GraphNode → GraphNode)
      (s : DrvBuildState)
      → ((n : GraphNode) → (new n).build_state ≡ s)
      → lru.peek d g.nodes ≡ some old
      → IsIndexed g
      → IsIndexed (record g {
        nodes = lru.modify d new g.nodes;
        by_state = index_insert s d (index_remove old.build_state d g.by_state);
      })
  unfolding get_node get_drvs_by_state
  move-IsIndexed g d old new s moved found h e n t held = ground (
    arith,
    lru.peek-modify d e new g.nodes,
    listed-index_insert s t d e (index_remove old.build_state d g.by_state),
    listed-index_remove old.build_state t d e g.by_state,
    h e n t,
    h d old t found,
    moved old,
    ==_iff d e,
    eq_state_iff s t,
    eq_state_iff old.build_state t,
  )
