-- ===== src/Prelude/Ordered/SortBy.antt =====
-- `sort_by` with a comparison: a stable sort, with what a prefix of its result is.
use Prim.Native.Nat.{ℕ, zero, suc}
use mathlib.Core.Path.{◌≡◌}
use mathlib.Core.Logic.{inl, inr}
use mathlib.Core.Bool.{Bool, true, false}
use mathlib.Core.List.{List, [], ◌∷◌, Perm}
use mathlib.Core.List.Perm
use native.Mathlib.Omega.{arith}
use eka_ci.Prelude.Tests.{if◌then◌else◌, Bool-cases}
use eka_ci.Prelude.Lists.{All, All-map, All-take, All-skip, take, skip, length}

-- What makes `lt` the strict part of a total preorder.
pub record IsWeak {ℓ} {A : Type ℓ} (lt : A → A → Bool) : Type ℓ where
  pub asym : (a b : A) → lt a b ≡ true → lt b a ≡ false
  pub at_most_trans : (a b c : A) → lt b a ≡ false → lt c b ≡ false → lt c a ≡ false

module _ {ℓ} {A : Type ℓ} (lt : A → A → Bool) where
  unfoldable pub insert_by : A → List A → List A
  insert_by a [] = a ∷ []
  insert_by a (x ∷ xs) = if lt x a then x ∷ insert_by a xs else a ∷ x ∷ xs

  unfoldable pub sort_by : List A → List A
  sort_by [] = []
  sort_by (x ∷ xs) = insert_by x (sort_by xs)

  -- Nothing in the list comes before `a`.
  abbrev pub IsLeast : A → List A → Type 0
  IsLeast a = All (λ x. lt x a ≡ false)

  abbrev pub IsSortedBy : List A → Type 0
  IsSortedBy [] = Unit
  IsSortedBy (x ∷ xs) = IsLeast x xs × IsSortedBy xs

  insert_by-Perm : (a : A) (xs : List A) → Perm (insert_by a xs) (a ∷ xs)
  unfolding insert_by
  insert_by-Perm a [] = Perm.rfl
  insert_by-Perm a (x ∷ xs) = elim (Bool-cases (lt x a)) [
    | inl before ↦ rw before (Perm.trans (Perm.cons x (insert_by-Perm a xs)) (Perm.swap a x xs))
    | inr after ↦ rw after Perm.rfl
  ]

  pub sort_by-Perm : (xs : List A) → Perm (sort_by xs) xs
  unfolding sort_by
  sort_by-Perm [] = Perm.rfl
  sort_by-Perm (x ∷ xs) = Perm.trans (insert_by-Perm x (sort_by xs)) (Perm.cons x (sort_by-Perm xs))

  All-insert_by {κ} :
      (P : A → Type κ) (a : A) (xs : List A) → P a → All P xs → All P (insert_by a xs)
  unfolding insert_by
  All-insert_by P a [] h k = (h, tt)
  All-insert_by P a (x ∷ xs) h k = elim (Bool-cases (lt x a)) [
    | inl before ↦ rw before (k.0, All-insert_by P a xs h k.1)
    | inr after ↦ rw after (h, k)
  ]

  pub All-sort_by {κ} : (P : A → Type κ) (xs : List A) → All P xs → All P (sort_by xs)
  unfolding sort_by
  All-sort_by P [] h = tt
  All-sort_by P (x ∷ xs) h = All-insert_by P x (sort_by xs) h.0 (All-sort_by P xs h.1)

  length-insert_by : (a : A) (xs : List A) → length (insert_by a xs) ≡ suc (length xs)
  unfolding insert_by
  length-insert_by a [] = omega arith
  length-insert_by a (x ∷ xs) = ground (arith, length-insert_by a xs)

  pub length-sort_by : (xs : List A) → length (sort_by xs) ≡ length xs
  unfolding sort_by
  length-sort_by [] = omega arith
  length-sort_by (x ∷ xs) = omega (arith, length-insert_by x (sort_by xs), length-sort_by xs)

  module _ (weak : IsWeak lt) where
    insert_by-IsSortedBy : (a : A) (xs : List A) → IsSortedBy xs → IsSortedBy (insert_by a xs)
    unfolding insert_by
    insert_by-IsSortedBy a [] h = (tt, tt)
    insert_by-IsSortedBy a (x ∷ xs) h = elim (Bool-cases (lt x a)) [
      | inl before ↦ rw before (
        All-insert_by (λ y. lt y x ≡ false) a xs (weak.asym x a before) h.0,
        insert_by-IsSortedBy a xs h.1,
      )
      | inr after ↦ rw after ((after, All-map (λ y p. weak.at_most_trans a x y after p) xs h.0), h)
    ]

    pub sort_by-IsSortedBy : (xs : List A) → IsSortedBy (sort_by xs)
    unfolding sort_by
    sort_by-IsSortedBy [] = tt
    sort_by-IsSortedBy (x ∷ xs) = insert_by-IsSortedBy x (sort_by xs) (sort_by-IsSortedBy xs)

  pub take-IsSortedBy : (n : ℕ) (xs : List A) → IsSortedBy xs → IsSortedBy (take n xs)
  take-IsSortedBy zero xs h = tt
  take-IsSortedBy (suc n) [] h = tt
  take-IsSortedBy (suc n) (x ∷ xs) h =
      (All-take (λ y. lt y x ≡ false) n xs h.0, take-IsSortedBy n xs h.1)

  -- What is cut off comes before nothing that is kept.
  pub take-IsLeast-skip :
      (n : ℕ) (xs : List A) → IsSortedBy xs → All (λ x. IsLeast x (skip n xs)) (take n xs)
  unfolding skip
  take-IsLeast-skip zero xs h = tt
  take-IsLeast-skip (suc n) [] h = tt
  take-IsLeast-skip (suc n) (x ∷ xs) h =
      (All-skip (λ y. lt y x ≡ false) n xs h.0, take-IsLeast-skip n xs h.1)
