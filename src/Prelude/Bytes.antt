-- ===== src/Prelude/Bytes.antt =====
-- A `String` measured in the bytes of its UTF-8 encoding: `len`, slices and numbers written out.
use Prim.Native.Nat.{ℕ, zero, suc, ◌+◌, ◌-◌, ◌%◌, ◌/◌, ◌≤◌, ◌<◌}
use mathlib.Core.Path.{◌≡◌, refl}
use mathlib.Core.Option.{Option, none, some}
use mathlib.Core.List.{[], ◌∷◌, ◌++◌}
use mathlib.Core.Logic.{◌⊎◌, inl, inr}
use native.Mathlib.Omega.{arith}
use eka_ci.Prelude.Tests.{ltb, leb, if◌then◌else◌}
use eka_ci.Prelude.Text.{Text}

-- `char::len_utf8`.
unfoldable pub len_utf8 : ℕ → ℕ
len_utf8 c = if ltb c 128 then 1 else if ltb c 2048 then 2 else if ltb c 65536 then 3 else 4

unfoldable pub byte_len : Text → ℕ
byte_len [] = 0
byte_len (c ∷ s) = len_utf8 c + byte_len s

-- `&s[..n]`; `none` is the panic where `n` is past the end or within a character.
unfoldable pub slice_to : ℕ → Text → Option Text
slice_to zero s = some []
slice_to (suc n) [] = none
slice_to (suc n) (c ∷ s) =
    if leb (len_utf8 c) (suc n)
    then (elim (slice_to (suc n - len_utf8 c) s) as (λ o. Option Text) [
      | none ↦ none
      | some r ↦ some (c ∷ r)
    ])
    else none

-- `&s[n..]`; `none` is the panic.
unfoldable pub slice_from : ℕ → Text → Option Text
slice_from zero s = some s
slice_from (suc n) [] = none
slice_from (suc n) (c ∷ s) =
    let rest = slice_from (suc n - len_utf8 c) s in if leb (len_utf8 c) (suc n) then rest else none

-- The slice up to the last boundary of a character at a position or in front of it, which a loop
-- over `is_char_boundary` finds.
unfoldable pub slice_within : ℕ → Text → Text
slice_within n [] = []
slice_within n (c ∷ s) =
    let rest = slice_within (n - len_utf8 c) s in if leb (len_utf8 c) n then c ∷ rest else []

-- `Display` of a `usize`, from the last digit on. Every round leaves a smaller number, so one round
-- more than the number itself is enough.
unfoldable pub write_digits : (rounds n : ℕ) → Text → Text
write_digits zero n written = written
write_digits (suc rounds) n written = elim (n / 10) as (λ q. Text) [
  | zero ↦ (b'0' + n % 10) ∷ written
  | suc q ↦ write_digits rounds (suc q) ((b'0' + n % 10) ∷ written)
]

unfoldable pub decimal : ℕ → Text
decimal n = write_digits (suc n) n []

zero_or_suc : (n : ℕ) → (n ≡ 0) ⊎ ((m : ℕ) × (n ≡ suc m))
zero_or_suc zero = inl refl
zero_or_suc (suc n) = inr (n, refl)

-- More rounds write the same digits.
write_digits-suc :
    (rounds n : ℕ) (written : Text)
    → n < rounds
    → write_digits (suc rounds) n written ≡ write_digits rounds n written
unfolding write_digits
write_digits-suc zero n written h = absurd (omega (arith, h))
write_digits-suc (suc rounds) n written h = elim (zero_or_suc (n / 10)) [
  | inl last ↦ rw (last, write_digits) refl
  | inr (q, more) ↦
      rw (more, write_digits)
        (write_digits-suc rounds (suc q) ((b'0' + n % 10) ∷ written) (omega (arith, h, more)))
]

pub byte_len-append : (s t : Text) → byte_len (s ++ t) ≡ byte_len s + byte_len t
unfolding byte_len
byte_len-append [] t = omega arith
byte_len-append (c ∷ s) t = omega (arith, byte_len-append s t)

pub byte_len-slice_within : (n : ℕ) (s : Text) → byte_len (slice_within n s) ≤ n
unfolding byte_len slice_within
byte_len-slice_within n [] = omega arith
byte_len-slice_within n (c ∷ s) = ground (arith, byte_len-slice_within (n - len_utf8 c) s)
