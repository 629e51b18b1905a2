-- ===== src/Prelude/Ordered/Sorted.antt =====
-- `slice::sort` and `Vec::dedup`: together they give the members in strictly ascending order.
use mathlib.Core.Path.{◌≡◌, refl}
use mathlib.Core.Logic.{inl, inr}
use mathlib.Core.Bool.{true, false, ◌||◌}
use mathlib.Core.List.{List, [], ◌∷◌}
use native.Mathlib.Omega.{arith}
use eka_ci.Prelude.Tests.{if◌then◌else◌, Bool-cases}
use eka_ci.Prelude.Equality.{Eq}
use eka_ci.Prelude.Lists.{All, All-map, is_empty}
use eka_ci.Prelude.Collections.{contains}
use eka_ci.Prelude.Ordered.{
  Order, IsAscending, IsAscending-unique, IsBelow-lacks, btree_insert, btree_collect,
  btree_collect-contains, btree_collect-IsAscending,
}

module _ {ℓ} {A : Type ℓ} ⦃e : Eq A⦄ ⦃o : Order A⦄ where
  -- `slice::sort`.
  unfoldable pub sort_insert : A → List A → List A
  sort_insert a [] = a ∷ []
  sort_insert a (x ∷ xs) = if o.lt x a then x ∷ sort_insert a xs else a ∷ x ∷ xs

  unfoldable pub sort : List A → List A
  sort [] = []
  sort (x ∷ xs) = sort_insert x (sort xs)

  -- `Vec::dedup`.
  unfoldable pub dedup : List A → List A
  dedup [] = []
  dedup (x ∷ []) = x ∷ []
  dedup (x ∷ y ∷ xs) = let rest = dedup (y ∷ xs) in if e.eq x y then rest else x ∷ rest

  sort_insert-contains :
      (a b : A) (xs : List A) → contains (sort_insert a xs) b ≡ (e.eq a b || contains xs b)
  unfolding contains sort_insert
  sort_insert-contains a b [] = refl
  sort_insert-contains a b (x ∷ xs) = ground (arith, sort_insert-contains a b xs)

  pub sort-contains : (b : A) (xs : List A) → contains (sort xs) b ≡ contains xs b
  unfolding contains sort
  sort-contains b [] = refl
  sort-contains b (x ∷ xs) = ground (arith, sort_insert-contains x b (sort xs), sort-contains b xs)

  pub dedup-contains : (b : A) (xs : List A) → contains (dedup xs) b ≡ contains xs b
  unfolding contains dedup
  dedup-contains b [] = refl
  dedup-contains b (x ∷ []) = refl
  dedup-contains b (x ∷ y ∷ xs) =
      ground (arith, dedup-contains b (y ∷ xs), e.eq_iff x y, e.eq_iff x b, e.eq_iff y b)

  is_empty-sort_insert : (a : A) (xs : List A) → is_empty (sort_insert a xs) ≡ false
  unfolding sort_insert
  is_empty-sort_insert a [] = refl
  is_empty-sort_insert a (x ∷ xs) = ground arith

  pub is_empty-sort : (xs : List A) → is_empty (sort xs) ≡ is_empty xs
  unfolding sort
  is_empty-sort [] = refl
  is_empty-sort (x ∷ xs) = is_empty-sort_insert x (sort xs)

  -- Ascending, with repetitions.
  abbrev pub IsAtMost : A → List A → Type 0
  IsAtMost a = All (λ x. o.lt x a ≡ false)

  abbrev pub IsSorted : List A → Type 0
  IsSorted [] = Unit
  IsSorted (x ∷ xs) = IsAtMost x xs × IsSorted xs

  at_most_trans : (a b c : A) → o.lt b a ≡ false → o.lt c b ≡ false → o.lt c a ≡ false
  at_most_trans a b c p q =
      ground (arith, o.trans b c a, o.trans c a b, o.connex b c, o.irrefl b, p, q)

  IsAtMost-sort_insert :
      (a b : A) (xs : List A) → o.lt b a ≡ false → IsAtMost a xs → IsAtMost a (sort_insert b xs)
  unfolding sort_insert
  IsAtMost-sort_insert a b [] h least = (h, tt)
  IsAtMost-sort_insert a b (x ∷ xs) h least =
      ground (arith, h, least.0, least.1, IsAtMost-sort_insert a b xs h least.1)

  sort_insert-IsSorted : (a : A) (xs : List A) → IsSorted xs → IsSorted (sort_insert a xs)
  unfolding sort_insert
  sort_insert-IsSorted a [] h = (tt, tt)
  sort_insert-IsSorted a (x ∷ xs) h = elim (Bool-cases (o.lt x a)) [
    | inl before ↦ rw before (
      IsAtMost-sort_insert x a xs (ground (arith, o.trans x a x, o.irrefl x)) h.0,
      sort_insert-IsSorted a xs h.1,
    )
    | inr after ↦ rw after ((after, All-map (λ y p. at_most_trans a x y after p) xs h.0), h)
  ]

  pub sort-IsSorted : (xs : List A) → IsSorted (sort xs)
  unfolding sort
  sort-IsSorted [] = tt
  sort-IsSorted (x ∷ xs) = sort_insert-IsSorted x (sort xs) (sort-IsSorted xs)

  All-dedup {κ} : (P : A → Type κ) (xs : List A) → All P xs → All P (dedup xs)
  unfolding dedup
  All-dedup P [] h = h
  All-dedup P (x ∷ []) h = h
  All-dedup P (x ∷ y ∷ xs) h = elim (Bool-cases (e.eq x y)) [
    | inl same ↦ rw same (All-dedup P (y ∷ xs) h.1)
    | inr other ↦ rw other (h.0, All-dedup P (y ∷ xs) h.1)
  ]

  below_of_at_most :
      (x y z : A) → o.lt y x ≡ false → e.eq x y ≡ false → o.lt z y ≡ false → o.lt x z ≡ true
  below_of_at_most x y z p other q =
      ground (arith, e.eq_iff x y, o.connex x y, o.connex y z, o.trans x y z, p, other, q)

  dedup-IsAscending : (xs : List A) → IsSorted xs → IsAscending (dedup xs)
  unfolding dedup
  dedup-IsAscending [] h = tt
  dedup-IsAscending (x ∷ []) h = (tt, tt)
  dedup-IsAscending (x ∷ y ∷ xs) h = elim (Bool-cases (e.eq x y)) [
    | inl same ↦ rw same (dedup-IsAscending (y ∷ xs) h.1)
    | inr other ↦
        let least : IsAtMost y (y ∷ xs) = (o.irrefl y, h.1.0) in
        rw other (
          All-map (λ z q. below_of_at_most x y z h.0.0 other q) (dedup (y ∷ xs))
              (All-dedup (λ z. o.lt z y ≡ false) (y ∷ xs) least),
          dedup-IsAscending (y ∷ xs) h.1,
        )
  ]

  -- A vector sorted and freed of repetitions is the `BTreeSet` of its entries.
  pub dedup-sort : (xs : List A) → dedup (sort xs) ≡ btree_collect xs
  dedup-sort xs =
      IsAscending-unique (dedup (sort xs)) (btree_collect xs)
        (dedup-IsAscending (sort xs) (sort-IsSorted xs)) (btree_collect-IsAscending xs)
        (λ a. rw (dedup-contains a (sort xs), sort-contains a xs, btree_collect-contains a xs) refl)

  abbrev pub IsUnique : List A → Type 0
  IsUnique [] = Unit
  IsUnique (x ∷ xs) = (contains xs x ≡ false) × IsUnique xs

  sort_insert-eq-btree_insert :
      (a : A) (xs : List A) → contains xs a ≡ false → sort_insert a xs ≡ btree_insert a xs
  unfolding contains sort_insert btree_insert
  sort_insert-eq-btree_insert a [] h = refl
  sort_insert-eq-btree_insert a (x ∷ xs) h = ground (
    arith,
    h,
    sort_insert-eq-btree_insert a xs,
    e.eq_iff x a,
    o.connex x a,
    o.trans a x a,
    o.irrefl a,
  )

  -- A vector without repetitions needs no `dedup`.
  pub sort-eq-btree_collect : (xs : List A) → IsUnique xs → sort xs ≡ btree_collect xs
  unfolding sort btree_collect
  sort-eq-btree_collect [] h = refl
  sort-eq-btree_collect (x ∷ xs) h =
      let absent : contains (btree_collect xs) x ≡ false = rw (btree_collect-contains x xs) h.0 in
      rw (sort-eq-btree_collect xs h.1) (sort_insert-eq-btree_insert x (btree_collect xs) absent)

  pub IsUnique-of_IsAscending : (xs : List A) → IsAscending xs → IsUnique xs
  IsUnique-of_IsAscending [] h = tt
  IsUnique-of_IsAscending (x ∷ xs) h = (IsBelow-lacks x xs h.0, IsUnique-of_IsAscending xs h.1)
