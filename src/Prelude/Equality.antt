-- ===== src/Prelude/Equality.antt =====
-- `PartialEq` as an interface: a Boolean test that decides equality.
use Prim.Native.Nat.{ℕ}
use mathlib.Core.Path.{◌≡◌, refl}
use mathlib.Core.Logic.{◌↔◌}
use mathlib.Core.Bool.{Bool, true, false, ◌&&◌}
use mathlib.Core.Option.{Option, none, some}
use mathlib.Core.List.{List, [], ◌∷◌}
use native.Mathlib.Omega.{arith}
use eka_ci.Prelude.Tests.{◌==◌, ==_iff}

pub record Eq {ℓ} (A : Type ℓ) : Type ℓ where
  pub eq : A → A → Bool
  pub eq_iff : (a b : A) → (eq a b ≡ true) ↔ (a ≡ b)

instance abbrev pub ℕ_eq : Eq ℕ
ℕ_eq = record { eq = λ a b. a == b; eq_iff = ==_iff }

module _ {ℓ} {A : Type ℓ} where
  pub eq_refl : (e : Eq A) (a : A) → e.eq a a ≡ true
  eq_refl e a = (e.eq_iff a a).1 refl

  unfoldable pub eq_list : (A → A → Bool) → List A → List A → Bool
  eq_list f [] [] = true
  eq_list f (x ∷ xs) (y ∷ ys) = f x y && eq_list f xs ys
  eq_list f _ _ = false

  pub eq_list_iff : (e : Eq A) (xs ys : List A) → (eq_list e.eq xs ys ≡ true) ↔ (xs ≡ ys)
  unfolding eq_list
  eq_list_iff e [] [] = ground arith
  eq_list_iff e [] (y ∷ ys) = ground arith
  eq_list_iff e (x ∷ xs) [] = ground arith
  eq_list_iff e (x ∷ xs) (y ∷ ys) = ground (arith, e.eq_iff x y, eq_list_iff e xs ys)

  unfoldable pub eq_option : (A → A → Bool) → Option A → Option A → Bool
  eq_option f none none = true
  eq_option f (some x) (some y) = f x y
  eq_option f _ _ = false

  pub eq_option_iff : (e : Eq A) (x y : Option A) → (eq_option e.eq x y ≡ true) ↔ (x ≡ y)
  unfolding eq_option
  eq_option_iff e none none = ground arith
  eq_option_iff e none (some y) = ground arith
  eq_option_iff e (some x) none = ground arith
  eq_option_iff e (some x) (some y) = ground (arith, e.eq_iff x y)
