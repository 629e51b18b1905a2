-- ===== src/Changes/Names.antt =====
-- The names of derivations: backend/evaluator/src/utils.rs and `drv_name_from_path` of
-- backend/change_summary/src/classify.rs.
-- A part of a name that is one character of several bytes makes the code panic; the test for this is
-- `panics_on`, and what the functions give for such a name means nothing.
pub mod Parts
use eka_ci.Prelude.{
  ℕ, zero, suc, ◌+◌, ◌-◌, ◌≤◌, ◌<◌, ◌≡◌, refl, ap, ◌==◌, Bool, true, false, not, ◌&&◌, ◌||◌, Option,
  none, some, List, [], ◌∷◌, if◌then◌else◌, any, all, leb, ltb, arith, Bool-cases, inl, inr,
  reverse, length, take, skip,
}
use eka_ci.Prelude.Text.{Text, text, strip_suffix, join_with}
use eka_ci.Prelude.Bytes.{byte_len}
use eka_ci.Scheduler.Features.{split}

unfoldable pub is_ascii_digit : ℕ → Bool
is_ascii_digit c = leb b'0' c && leb c b'9'

-- The test of the first two characters, for `v1` and `r1`.
is_revision : Text → Bool
unfolding is_ascii_digit
is_revision (first ∷ second ∷ rest) = ((first == b'v') || (first == b'r')) && is_ascii_digit second
is_revision _ = false

starts_with_digit : Text → Bool
unfolding is_ascii_digit
starts_with_digit [] = false
starts_with_digit (c ∷ s) = is_ascii_digit c

unfoldable pub looks_like_version : Text → Bool
unfolding is_revision starts_with_digit
looks_like_version s =
    if ltb (byte_len s) 2
    then false
    else if is_revision s
    then true
    else if any is_ascii_digit s && all (λ c. is_ascii_digit c || (c == b'.')) s
    then true
    else starts_with_digit s

-- `nth(1).unwrap()` panics on a text of two bytes or more that is one character.
unfoldable pub is_short : Text → Bool
is_short s = leb 2 (byte_len s) && ltb (length s) 2

-- The loop over `parts.iter().enumerate().rev()`, with the parts from the last one on: the index of
-- a part is the number of parts in front of it.
unfoldable pub first_version_idx : List Text → ℕ → ℕ
first_version_idx [] idx = idx
first_version_idx (part ∷ parts) idx =
    if looks_like_version part then first_version_idx parts (length parts) else idx

-- `join("-")`.
abbrev pub join : List Text → Text
join = join_with (text "-")

abbrev version_idx : List Text → ℕ
version_idx parts = first_version_idx (reverse parts) (length parts)

-- Whether that loop, over the parts from the last one on, meets a part on which it panics.
unfoldable pub loop_panics : List Text → Bool
loop_panics [] = false
loop_panics (part ∷ parts) = is_short part || (looks_like_version part && loop_panics parts)

unfoldable pub panics_on : Text → Bool
panics_on name =
    let parts = split b'-' name in if length parts == 1 then false else loop_panics (reverse parts)

unfoldable pub pname_from_name : Text → Text
pname_from_name name =
    let parts = split b'-' name in
    let keep_parts = version_idx parts in
    if length parts == 1
    then name
    else if keep_parts == 0
    then name
    else join (take keep_parts parts)

unfoldable pub version_from_name : Text → Option Text
version_from_name name =
    let parts = split b'-' name in
    let idx = version_idx parts in
    if length parts == 1
    then none
    else if (idx == 0) || (idx == length parts)
    then none
    else some (join (skip idx parts))

-- The text after the last slash, `rsplit('/').next()`.
unfoldable pub after_last_slash : Text → Text
after_last_slash [] = []
after_last_slash (c ∷ s) =
    let rest = after_last_slash s in if any (λ d. d == b'/') (c ∷ s) then rest else c ∷ s

-- The part of `split_once('-')` behind the dash, or the whole text where there is none.
unfoldable pub after_dash : Text → Option Text
after_dash [] = none
after_dash (c ∷ s) = let rest = after_dash s in if c == b'-' then some s else rest

-- `unwrap_or`.
abbrev pub unwrap_or {ℓ} : {A : Type ℓ} → Option A → A → A
unwrap_or none d = d
unwrap_or (some a) d = a

unfoldable pub drv_name_from_path : Text → Text
drv_name_from_path drv_path =
    let after_store = after_last_slash drv_path in
    let no_drv = unwrap_or (strip_suffix after_store (text ".drv")) after_store in
    unwrap_or (after_dash no_drv) no_drv
