-- ===== src/Prelude/Text.antt =====
-- `String` and `str` as lists of code points, with the operations that the code calls.
use Prim.Native.Char.{code}
use Prim.Native.String.{String}
use Prim.Native.Nat.{ℕ, ◌+◌}
use mathlib.Core.Bool.{Bool, true, false, ◌&&◌, ◌||◌}
use mathlib.Core.Option.{Option, none, some}
use mathlib.Core.List.{List, [], ◌∷◌, ◌++◌, map}
use eka_ci.Prelude.Tests.{◌==◌, leb, if◌then◌else◌}
use eka_ci.Prelude.Equality.{Eq, ℕ_eq, eq_list, eq_list_iff}

abbrev pub Text : Type 0
Text = List ℕ

abbrev pub text : String → Text
text String.[] = []
text (String.◌∷◌ c s) = code c ∷ text s

instance abbrev pub Text_eq : Eq Text
Text_eq = record { eq = eq_list ℕ_eq.eq; eq_iff = eq_list_iff ℕ_eq }

-- `str::strip_prefix` and `str::starts_with`.
unfoldable pub strip_prefix : Text → Text → Option Text
strip_prefix s [] = some s
strip_prefix [] (p ∷ ps) = none
strip_prefix (c ∷ s) (p ∷ ps) = if c == p then strip_prefix s ps else none

unfoldable pub starts_with : Text → Text → Bool
starts_with s [] = true
starts_with [] (p ∷ ps) = false
starts_with (c ∷ s) (p ∷ ps) = (c == p) && starts_with s ps

-- `str::ends_with`.
unfoldable pub ends_with : Text → Text → Bool
ends_with [] p = Text_eq.eq [] p
ends_with (c ∷ s) p = Text_eq.eq (c ∷ s) p || ends_with s p

-- `str::strip_suffix`.
unfoldable pub strip_suffix : Text → Text → Option Text
strip_suffix [] p = if Text_eq.eq [] p then some [] else none
strip_suffix (c ∷ s) p =
    if Text_eq.eq (c ∷ s) p
    then some []
    else elim (strip_suffix s p) [ none ↦ none | some r ↦ some (c ∷ r) ]

-- `str::contains` of a text.
unfoldable pub contains_text : Text → Text → Bool
unfolding starts_with
contains_text [] p = starts_with [] p
contains_text (c ∷ s) p = starts_with (c ∷ s) p || contains_text s p

-- `to_ascii_lowercase`, and `to_lowercase` on texts that are ASCII.
unfoldable pub to_ascii_lowercase : Text → Text
to_ascii_lowercase = map λ c. if leb b'A' c && leb c b'Z' then c + 32 else c

-- `join` of a vector of texts.
unfoldable pub join_with : Text → List Text → Text
join_with sep [] = []
join_with sep (part ∷ []) = part
join_with sep (part ∷ rest ∷ parts) = part ++ (sep ++ join_with sep (rest ∷ parts))
