-- ===== src/Prelude/Ordered.antt =====
-- `Ord`, and the standard library's ordered collections: a `BTreeSet` and a `BTreeMap` are lists in
-- ascending order.
pub mod Sorted
pub mod Maps
pub mod SortBy
use Prim.Native.Nat.{ℕ}
use mathlib.Core.Path.{◌≡◌, refl, subst, sym, ap₂}
use mathlib.Core.Logic.{inl, inr}
use mathlib.Core.Bool.{Bool, true, false, ◌&&◌, ◌||◌, not}
use mathlib.Core.Option.{Option, none, some}
use mathlib.Core.List.{List, [], ◌∷◌}
use native.Mathlib.Omega.{arith}
use eka_ci.Prelude.Tests.{ltb, ◌==◌, if◌then◌else◌, Bool-cases}
use eka_ci.Prelude.Equality.{Eq, eq_refl}
use eka_ci.Prelude.Lists.{All, All-map}
use eka_ci.Prelude.Collections.{get, contains, HashMap}
use eka_ci.Prelude.Text.{Text}

pub record Order {ℓ} (A : Type ℓ) : Type ℓ where
  pub lt : A → A → Bool
  pub irrefl : (a : A) → lt a a ≡ false
  pub trans : (a b c : A) → lt a b ≡ true → lt b c ≡ true → lt a c ≡ true
  pub connex : (a b : A) → lt a b ≡ false → lt b a ≡ false → a ≡ b

pub ltb_irrefl : (a : ℕ) → ltb a a ≡ false
ltb_irrefl a = ground arith

pub ltb_trans : (a b c : ℕ) → ltb a b ≡ true → ltb b c ≡ true → ltb a c ≡ true
ltb_trans a b c p q = ground arith

pub ltb_connex : (a b : ℕ) → ltb a b ≡ false → ltb b a ≡ false → a ≡ b
ltb_connex a b p q = ground arith

instance abbrev pub ℕ_order : Order ℕ
ℕ_order = record { lt = ltb; irrefl = ltb_irrefl; trans = ltb_trans; connex = ltb_connex }

-- The order of `str`: by code points, as by the bytes that encode them.
unfoldable pub lt_text : Text → Text → Bool
lt_text [] [] = false
lt_text [] (y ∷ ys) = true
lt_text (x ∷ xs) [] = false
lt_text (x ∷ xs) (y ∷ ys) = ltb x y || ((x == y) && lt_text xs ys)

pub lt_text_irrefl : (a : Text) → lt_text a a ≡ false
unfolding lt_text
lt_text_irrefl [] = refl
lt_text_irrefl (x ∷ xs) = ground (arith, lt_text_irrefl xs)

pub lt_text_trans : (a b c : Text) → lt_text a b ≡ true → lt_text b c ≡ true → lt_text a c ≡ true
unfolding lt_text
lt_text_trans [] [] c p q = q
lt_text_trans [] (y ∷ ys) [] p q = q
lt_text_trans [] (y ∷ ys) (z ∷ zs) p q = refl
lt_text_trans (x ∷ xs) [] c p q = ground arith
lt_text_trans (x ∷ xs) (y ∷ ys) [] p q = q
lt_text_trans (x ∷ xs) (y ∷ ys) (z ∷ zs) p q = ground (arith, lt_text_trans xs ys zs)

pub lt_text_connex : (a b : Text) → lt_text a b ≡ false → lt_text b a ≡ false → a ≡ b
unfolding lt_text
lt_text_connex [] [] p q = refl
lt_text_connex [] (y ∷ ys) p q = ground arith
lt_text_connex (x ∷ xs) [] p q = ground arith
lt_text_connex (x ∷ xs) (y ∷ ys) p q = ground (arith, lt_text_connex xs ys)

instance abbrev pub Text_order : Order Text
Text_order = record {
  lt = lt_text;
  irrefl = lt_text_irrefl;
  trans = lt_text_trans;
  connex = lt_text_connex;
}

module _ {ℓ} {A : Type ℓ} ⦃e : Eq A⦄ ⦃o : Order A⦄ where
  -- Strictly ascending.
  abbrev pub IsBelow : A → List A → Type 0
  IsBelow a = All (λ x. o.lt a x ≡ true)

  abbrev pub IsAscending : List A → Type 0
  IsAscending [] = Unit
  IsAscending (x ∷ xs) = IsBelow x xs × IsAscending xs

  pub IsBelow-trans : (a b : A) (xs : List A) → o.lt a b ≡ true → IsBelow b xs → IsBelow a xs
  IsBelow-trans a b xs h below = All-map (λ x p. o.trans a b x h p) xs below

  pub IsBelow-lacks : (a : A) (xs : List A) → IsBelow a xs → contains xs a ≡ false
  unfolding contains
  IsBelow-lacks a [] h = refl
  IsBelow-lacks a (x ∷ xs) h = ground (arith, h.0, IsBelow-lacks a xs h.1, e.eq_iff x a, o.irrefl a)

  lt_of_not_lt : (a x : A) → o.lt a x ≡ false → e.eq x a ≡ false → o.lt x a ≡ true
  lt_of_not_lt a x h other = ground (arith, h, other, e.eq_iff x a, o.connex a x h)

  -- `BTreeSet::insert`.
  unfoldable pub btree_insert : A → List A → List A
  btree_insert a [] = a ∷ []
  btree_insert a (x ∷ xs) =
      if o.lt a x then a ∷ x ∷ xs else if e.eq x a then x ∷ xs else x ∷ btree_insert a xs

  -- `collect` into a `BTreeSet`.
  unfoldable pub btree_collect : List A → List A
  btree_collect [] = []
  btree_collect (x ∷ xs) = btree_insert x (btree_collect xs)

  pub btree_insert-contains :
      (a b : A) (xs : List A) → contains (btree_insert a xs) b ≡ (e.eq a b || contains xs b)
  unfolding contains btree_insert
  btree_insert-contains a b [] = refl
  btree_insert-contains a b (x ∷ xs) =
      ground (arith, btree_insert-contains a b xs, e.eq_iff x a, e.eq_iff x b, e.eq_iff a b)

  pub btree_collect-contains : (b : A) (xs : List A) → contains (btree_collect xs) b ≡ contains xs b
  unfolding contains btree_collect
  btree_collect-contains b [] = refl
  btree_collect-contains b (x ∷ xs) =
      ground (arith, btree_insert-contains x b (btree_collect xs), btree_collect-contains b xs)

  btree_insert-IsBelow :
      (a b : A) (xs : List A) → o.lt a b ≡ true → IsBelow a xs → IsBelow a (btree_insert b xs)
  unfolding btree_insert
  btree_insert-IsBelow a b [] h below = (h, tt)
  btree_insert-IsBelow a b (x ∷ xs) h below =
      ground (arith, h, below.0, below.1, btree_insert-IsBelow a b xs h below.1)

  pub btree_insert-IsAscending :
      (a : A) (xs : List A) → IsAscending xs → IsAscending (btree_insert a xs)
  unfolding btree_insert
  btree_insert-IsAscending a [] h = (tt, tt)
  btree_insert-IsAscending a (x ∷ xs) h = elim (Bool-cases (o.lt a x)) [
    | inl before ↦ rw before ((before, IsBelow-trans a x xs before h.0), h)
    | inr after ↦ rw after (elim (Bool-cases (e.eq x a)) [
      | inl same ↦ rw same h
      | inr other ↦ rw other (
        btree_insert-IsBelow x a xs (lt_of_not_lt a x after other) h.0,
        btree_insert-IsAscending a xs h.1,
      )
    ])
  ]

  pub btree_collect-IsAscending : (xs : List A) → IsAscending (btree_collect xs)
  unfolding btree_collect
  btree_collect-IsAscending [] = tt
  btree_collect-IsAscending (x ∷ xs) =
      btree_insert-IsAscending x (btree_collect xs) (btree_collect-IsAscending xs)

  -- `BTreeSet::difference`.
  unfoldable pub difference : List A → List A → List A
  difference [] ys = []
  difference (x ∷ xs) ys = if contains ys x then difference xs ys else x ∷ difference xs ys

  pub difference-contains :
      (xs ys : List A) (a : A)
      → contains (difference xs ys) a ≡ (contains xs a && not (contains ys a))
  unfolding contains difference
  difference-contains [] ys a = refl
  difference-contains (x ∷ xs) ys a = elim (Bool-cases (contains ys x)) [
    | inl h ↦ ground (arith, h, difference-contains xs ys a, e.eq_iff x a)
    | inr h ↦ ground (arith, h, difference-contains xs ys a, e.eq_iff x a)
  ]

  IsBelow-member : (a b : A) (xs : List A) → IsBelow a xs → contains xs b ≡ true → o.lt a b ≡ true
  unfolding contains
  IsBelow-member a b [] below h = ground arith
  IsBelow-member a b (x ∷ xs) below h =
      ground (arith, below.0, e.eq_iff x b, IsBelow-member a b xs below.1)

  -- Each head is a member of the other list, so neither is below the other.
  heads_eq :
      (x y : A) (xs ys : List A)
      → IsBelow x xs
      → IsBelow y ys
      → contains (y ∷ ys) x ≡ true
      → contains (x ∷ xs) y ≡ true
      → x ≡ y
  unfolding contains
  heads_eq x y xs ys hx hy p q = ground (
    arith,
    e.eq_iff y x,
    e.eq_iff x y,
    IsBelow-member y x ys hy,
    IsBelow-member x y xs hx,
    o.trans x y x,
    o.irrefl x,
  )

  tails_eq :
      (x : A) (xs ys : List A)
      → IsBelow x xs
      → IsBelow x ys
      → ((a : A) → contains (x ∷ xs) a ≡ contains (x ∷ ys) a)
      → (a : A) → contains xs a ≡ contains ys a
  unfolding contains
  tails_eq x xs ys hx hy h a = elim (Bool-cases (e.eq x a)) [
    | inl same ↦
        subst (λ b. contains xs b ≡ contains ys b) ((e.eq_iff x a).0 same)
          (rw (IsBelow-lacks x xs hx, IsBelow-lacks x ys hy) refl)
    | inr other ↦ ground (arith, other, h a)
  ]

  -- A strictly ascending list is the list of its members.
  pub IsAscending-unique :
      (xs ys : List A)
      → IsAscending xs
      → IsAscending ys
      → ((a : A) → contains xs a ≡ contains ys a)
      → xs ≡ ys
  unfolding contains
  IsAscending-unique [] [] hx hy h = refl
  IsAscending-unique [] (y ∷ ys) hx hy h = ground (arith, h y, eq_refl e y)
  IsAscending-unique (x ∷ xs) [] hx hy h = ground (arith, h x, eq_refl e x)
  IsAscending-unique (x ∷ xs) (y ∷ ys) hx hy h =
      let x_in : contains (y ∷ ys) x ≡ true = ground (arith, h x, eq_refl e x) in
      let y_in : contains (x ∷ xs) y ≡ true = ground (arith, h y, eq_refl e y) in
      let heads : x ≡ y = heads_eq x y xs ys hx.0 hy.0 x_in y_in in
      let below = subst (λ a. IsBelow a ys) (sym heads) hy.0 in
      let agree = subst (λ b. (a : A) → contains (x ∷ xs) a ≡ contains (b ∷ ys) a) (sym heads) h in
      ap₂ ◌∷◌ heads (IsAscending-unique xs ys hx.1 hy.1 (tails_eq x xs ys hx.0 below agree))
