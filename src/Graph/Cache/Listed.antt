-- ===== src/Graph/Cache/Listed.antt =====
-- A cache that meets what is assumed of the crate `lru`, for the inputs of the tests.
use eka_ci.Prelude.{
  ℕ, suc, ◌≡◌, ◌≢◌, refl, Bool, true, false, Option, none, some, List, [], ◌∷◌, if◌then◌else◌, ◌==◌,
  get, remove, get-remove, get-modify, get-nil, ℕ_eq, ltb, length, arith,
}
use eka_ci.Prelude as Prelude
use eka_ci.Graph.Cache.{LruCache}

module _ {V : Type 0} where
  abbrev pub last_key : List (ℕ × V) → Option ℕ
  last_key [] = none
  last_key ((k, v) ∷ []) = some k
  last_key ((k, v) ∷ e ∷ es) = last_key (e ∷ es)

  unfoldable pub evict : ℕ → V → List (ℕ × V) → List (ℕ × V) × Option (ℕ × V)
  evict k v c = elim (last_key c) [
    | none ↦ ((k, v) ∷ c, none)
    | some i ↦ elim (get i c) [
      | none ↦ ((k, v) ∷ c, none)
      | some w ↦ ((k, v) ∷ remove i c, some (i, w))
    ]
  ]

  unfoldable pub push_list : ℕ → ℕ → V → List (ℕ × V) → List (ℕ × V) × Option (ℕ × V)
  push_list cap k v c = elim (get k c) [
    | some w ↦ ((k, v) ∷ remove k c, some (k, w))
    | none ↦ if ltb (length c) cap then ((k, v) ∷ c, none) else evict k v c
  ]

  pub list_push_self :
      (cap k : ℕ) (v : V) (c : List (ℕ × V)) → get k (push_list cap k v c).0 ≡ some v
  unfolding push_list evict get
  list_push_self cap k v c = ground arith

  pub list_push_kept :
      (cap k j : ℕ) (v : V) (c : List (ℕ × V))
      → (push_list cap k v c).1 ≡ none
      → k ≢ j
      → get j (push_list cap k v c).0 ≡ get j c
  unfolding push_list evict get
  list_push_kept cap k j v c h ne = ground arith

  pub list_push_evicted :
      (cap k j i : ℕ) (v w : V) (c : List (ℕ × V))
      → (push_list cap k v c).1 ≡ some (i, w)
      → k ≢ j
      → get j (push_list cap k v c).0 ≡ (if i == j then none else get j c)
  unfolding push_list evict get
  list_push_evicted cap k j i v w c h ne = ground (arith, get-remove k j c, get-remove i j c)

  pub list_push_took :
      (cap k i : ℕ) (v w : V) (c : List (ℕ × V))
      → (push_list cap k v c).1 ≡ some (i, w)
      → get i c ≡ some w
  unfolding push_list evict
  list_push_took cap k i v w c h = ground arith

  pub list_push_old :
      (cap k : ℕ) (v w : V) (c : List (ℕ × V))
      → get k c ≡ some w
      → (push_list cap k v c).1 ≡ some (k, w)
  unfolding push_list
  list_push_old cap k v w c h = ground arith

  -- A cache with a capacity, which drops the entry that was pushed first.
  instance abbrev pub list_cache : LruCache V (ℕ × List (ℕ × V))
  list_cache = record {
    new = λ n. (n, []);
    peek = λ k c. get k c.1;
    push = λ k v c. ((c.0, (push_list c.0 k v c.1).0), (push_list c.0 k v c.1).1);
    modify = λ k f c. (c.0, Prelude.modify k f c.1);
    entries = λ c. c.1;
    peek-new = λ n k. get-nil k;
    peek-modify = λ k j f c. get-modify k j f c.1;
    peek-push_self = λ k v c. list_push_self c.0 k v c.1;
    peek-push_kept = λ k j v c. list_push_kept c.0 k j v c.1;
    peek-push_evicted = λ k j i v w c. list_push_evicted c.0 k j i v w c.1;
    push-evicted = λ k i v w c. list_push_took c.0 k i v w c.1;
    push_old = λ k v w c. list_push_old c.0 k v w c.1;
    get-entries = λ c k. refl;
  }
