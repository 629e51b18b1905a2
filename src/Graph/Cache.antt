-- ===== src/Graph/Cache.antt =====
-- What backend/graph/src/graph.rs relies on of the crate `lru`, which is not part of the
-- repository: a cache from ids to values that drops at most one entry when one is pushed.
pub mod Listed
use mathlib.Core.Option
use eka_ci.Prelude.{
  ℕ, suc, ◌≡◌, ◌≢◌, ◌∙◌, sym, refl, Bool, true, false, Option, none, some, List, [], ◌∷◌,
  if◌then◌else◌, ◌==◌, ==_iff, HashMap, get, remove, get-remove, get-modify, ℕ_eq, ltb, length,
  arith, Option-cases, inl, inr,
}
use eka_ci.Prelude as Prelude

pub record LruCache (V : Type 0) (C : Type 0) : Type 0 where
  pub new : ℕ → C
  pub peek : ℕ → C → Option V
  -- The entry that has to go, or the old entry of the key, comes second.
  pub push : ℕ → V → C → C × Option (ℕ × V)
  -- A write through `peek_mut`.
  pub modify : ℕ → (V → V) → C → C
  -- All entries, in the order of `iter`.
  pub entries : C → List (ℕ × V)
  pub peek-new : (n k : ℕ) → peek k (new n) ≡ none
  pub peek-modify :
      (k j : ℕ) (f : V → V) (c : C)
      → peek j (modify k f c) ≡ (if k == j then Option.map f (peek j c) else peek j c)
  pub peek-push_self : (k : ℕ) (v : V) (c : C) → peek k (push k v c).0 ≡ some v
  pub peek-push_kept :
      (k j : ℕ) (v : V) (c : C) → (push k v c).1 ≡ none → k ≢ j → peek j (push k v c).0 ≡ peek j c
  pub peek-push_evicted :
      (k j i : ℕ) (v w : V) (c : C)
      → (push k v c).1 ≡ some (i, w)
      → k ≢ j
      → peek j (push k v c).0 ≡ (if i == j then none else peek j c)
  pub push-evicted : (k i : ℕ) (v w : V) (c : C) → (push k v c).1 ≡ some (i, w) → peek i c ≡ some w
  pub push_old : (k : ℕ) (v w : V) (c : C) → peek k c ≡ some w → (push k v c).1 ≡ some (k, w)
  pub get-entries : (c : C) (k : ℕ) → get k (entries c) ≡ peek k c

-- What else is in the cache after a push was there before.
pub peek-push_before :
    {V C : Type 0} ⦃lru : LruCache V C⦄ (k j : ℕ) (v w : V) (c : C)
    → k ≢ j
    → lru.peek j (lru.push k v c).0 ≡ some w
    → lru.peek j c ≡ some w
peek-push_before ⦃lru⦄ k j v w c ne h = elim (Option-cases (lru.push k v c).1) [
  | inl e ↦ sym (lru.peek-push_kept k j v c e ne) ∙ h
  | inr ((i, u), e) ↦ ground (arith, lru.peek-push_evicted k j i v u c e ne)
]
