-- ===== src/Prelude/Ordered/Maps.antt =====
-- `BTreeMap`: an association list in ascending order of its keys, read by `get`.
use mathlib.Core.Path.{◌≡◌, refl}
use mathlib.Core.Bool.{false}
use mathlib.Core.Option.{none, some}
use mathlib.Core.List.{[], ◌∷◌}
use native.Mathlib.Omega.{arith}
use eka_ci.Prelude.Tests.{if◌then◌else◌}
use eka_ci.Prelude.Equality.{Eq}
use eka_ci.Prelude.Collections.{get, contains, HashMap, keys}
use eka_ci.Prelude.Ordered.{Order, IsAscending, btree_insert, btree_insert-IsAscending}

module _ {ℓ κ} {K : Type ℓ} {V : Type κ} ⦃e : Eq K⦄ ⦃o : Order K⦄ where
  unfoldable pub map_insert : K → V → HashMap K V → HashMap K V
  map_insert k v [] = (k, v) ∷ []
  map_insert k v ((j, w) ∷ m) =
      if o.lt k j
      then (k, v) ∷ (j, w) ∷ m
      else if e.eq j k
      then (k, v) ∷ m
      else (j, w) ∷ map_insert k v m

  -- The keys with what they are bound to.
  pub get-map_insert :
      (k j : K) (v : V) (m : HashMap K V)
      → get j (map_insert k v m) ≡ (if e.eq k j then some v else get j m)
  unfolding get map_insert
  get-map_insert k j v [] = refl
  get-map_insert k j v ((i, w) ∷ m) =
      ground (arith, e.eq_iff k j, e.eq_iff i k, e.eq_iff i j, get-map_insert k j v m)

  pub keys-map_insert :
      (k : K) (v : V) (m : HashMap K V) → keys (map_insert k v m) ≡ btree_insert k (keys m)
  unfolding keys map_insert btree_insert
  keys-map_insert k v [] = refl
  keys-map_insert k v ((i, w) ∷ m) = ground (arith, e.eq_iff i k, keys-map_insert k v m)

  pub map_insert-IsAscending :
      (k : K) (v : V) (m : HashMap K V)
      → IsAscending (keys m)
      → IsAscending (keys (map_insert k v m))
  map_insert-IsAscending k v m h =
      rw (keys-map_insert k v m) (btree_insert-IsAscending k (keys m) h)

  pub get_of_lacks : (k : K) (m : HashMap K V) → contains (keys m) k ≡ false → get k m ≡ none
  unfolding get keys contains
  get_of_lacks k [] h = refl
  get_of_lacks k ((j, w) ∷ m) h = ground (arith, h, get_of_lacks k m)
