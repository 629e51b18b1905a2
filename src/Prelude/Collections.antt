-- ===== src/Prelude/Collections.antt =====
-- The standard library's `HashSet` and `HashMap`, as lists without order guarantees.
use mathlib.Core.Path.{◌≡◌, refl, ap}
use mathlib.Core.Logic.{◌≢◌, inl, inr}
use mathlib.Core.Bool.{Bool, true, false, ◌&&◌, ◌||◌, not}
use mathlib.Core.Option
use mathlib.Core.Option.{Option, none, some}
use mathlib.Core.List.{List, [], ◌∷◌, ◌++◌}
use native.Mathlib.Omega.{arith}
use eka_ci.Prelude.Tests.{if◌then◌else◌, Bool-cases}
use eka_ci.Prelude.Equality.{Eq}
use eka_ci.Prelude.Lists.{retain}

-- Sets, and the `contains` of a vector.
module _ {ℓ} {A : Type ℓ} ⦃e : Eq A⦄ where
  unfoldable pub contains : List A → A → Bool
  contains [] a = false
  contains (x ∷ xs) a = e.eq x a || contains xs a

  unfoldable pub set_insert : A → List A → List A
  set_insert a xs = if contains xs a then xs else a ∷ xs

  unfoldable pub set_remove : A → List A → List A
  set_remove a [] = []
  set_remove a (x ∷ xs) = if e.eq x a then set_remove a xs else x ∷ set_remove a xs

  pub contains-set_insert :
      (a b : A) (xs : List A) → contains (set_insert a xs) b ≡ (e.eq a b || contains xs b)
  unfolding contains set_insert
  contains-set_insert a b xs = elim (Bool-cases (contains xs a)) [
    | inl old ↦ ground (arith, e.eq_iff a b)
    | inr new ↦ ground arith
  ]

  pub contains-set_remove :
      (a b : A) (xs : List A) → contains (set_remove a xs) b ≡ (not (e.eq a b) && contains xs b)
  unfolding contains set_remove
  contains-set_remove a b [] = ground arith
  contains-set_remove a b (x ∷ xs) =
      ground (arith, contains-set_remove a b xs, e.eq_iff a b, e.eq_iff x b, e.eq_iff x a)

  pub contains-append :
      (xs ys : List A) (a : A) → contains (xs ++ ys) a ≡ (contains xs a || contains ys a)
  unfolding contains
  contains-append [] ys a = refl
  contains-append (x ∷ xs) ys a = ground (arith, contains-append xs ys a)

  -- Maps.

  pub contains-retain :
      (p : A → Bool) (xs : List A) (a : A) → contains (retain p xs) a ≡ (contains xs a && p a)
  unfolding contains retain
  contains-retain p [] a = refl
  contains-retain p (x ∷ xs) a =
      let same = λ (h : e.eq x a ≡ true). ap p ((e.eq_iff x a).0 h) in
      elim (Bool-cases (e.eq x a)) [
        | inl here ↦ ground (arith, here, contains-retain p xs a, same here)
        | inr other ↦ ground (arith, other, contains-retain p xs a)
      ]

abbrev pub HashMap {ℓ κ} : Type ℓ → Type κ → Type (ℓ ⊔ κ)
HashMap K V = List (K × V)

module _ {ℓ κ} {K : Type ℓ} {V : Type κ} ⦃e : Eq K⦄ where
  unfoldable pub get : K → HashMap K V → Option V
  get k [] = none
  get k ((j, v) ∷ m) = if e.eq j k then some v else get k m

  unfoldable pub insert : K → V → HashMap K V → HashMap K V
  insert k v [] = (k, v) ∷ []
  insert k v ((j, w) ∷ m) = if e.eq j k then (k, v) ∷ m else (j, w) ∷ insert k v m

  unfoldable pub remove : K → HashMap K V → HashMap K V
  remove k [] = []
  remove k ((j, w) ∷ m) = if e.eq j k then remove k m else (j, w) ∷ remove k m

  -- A write through `get_mut`.
  unfoldable pub modify : K → (V → V) → HashMap K V → HashMap K V
  modify k f [] = []
  modify k f ((j, w) ∷ m) = if e.eq j k then (j, f w) ∷ m else (j, w) ∷ modify k f m

  pub get-nil : (k : K) → get k [] ≡ none
  unfolding get
  get-nil k = refl

  pub get-insert :
      (k j : K) (v : V) (m : HashMap K V)
      → get j (insert k v m) ≡ (if e.eq k j then some v else get j m)
  unfolding get insert
  get-insert k j v [] = refl
  get-insert k j v ((i, w) ∷ m) =
      ground (arith, e.eq_iff k j, e.eq_iff i k, e.eq_iff i j, get-insert k j v m)

  pub get-insert_ne : (k j : K) (v : V) (m : HashMap K V) → k ≢ j → get j (insert k v m) ≡ get j m
  get-insert_ne k j v m h = ground (arith, get-insert k j v m, e.eq_iff k j)

  pub get-insert_self : (k : K) (v : V) (m : HashMap K V) → get k (insert k v m) ≡ some v
  get-insert_self k v m = ground (arith, get-insert k k v m, e.eq_iff k k)

  pub get-insert_keeps :
      (k j : K) (v w : V) (m : HashMap K V)
      → get j m ≡ some w
      → (k ≡ j → v ≡ w)
      → get j (insert k v m) ≡ some w
  get-insert_keeps k j v w m h same = elim (Bool-cases (e.eq k j)) [
    | inl hit ↦ rw (get-insert k j v m, hit) (ap some (same ((e.eq_iff k j).0 hit)))
    | inr miss ↦ rw (get-insert k j v m, miss) h
  ]

  pub get-remove :
      (k j : K) (m : HashMap K V) → get j (remove k m) ≡ (if e.eq k j then none else get j m)
  unfolding get remove
  get-remove k j [] = ground arith
  get-remove k j ((i, w) ∷ m) =
      ground (arith, e.eq_iff k j, e.eq_iff i k, e.eq_iff i j, get-remove k j m)

  pub get-modify :
      (k j : K) (f : V → V) (m : HashMap K V)
      → get j (modify k f m) ≡ (if e.eq k j then Option.map f (get j m) else get j m)
  unfolding get modify
  get-modify k j f [] = ground arith
  get-modify k j f ((i, w) ∷ m) =
      ground (arith, e.eq_iff k j, e.eq_iff i k, e.eq_iff i j, get-modify k j f m)

  unfoldable pub keys : HashMap K V → List K
  keys [] = []
  keys ((k, v) ∷ m) = k ∷ keys m

  unfoldable pub contains_key : HashMap K V → K → Bool
  contains_key [] k = false
  contains_key ((j, w) ∷ m) k = e.eq j k || contains_key m k
