-- ===== src/Drv/Identifier.antt =====
-- backend/shared/src/types/drv_id.rs: derivation identifiers, `hash-name.drv`.
pub mod Split
pub mod Parsed
mod Tests
use eka_ci.Prelude.{
  ℕ, ◌==◌, Bool, true, false, not, ◌&&◌, ◌||◌, Option, none, some, List, [], ◌∷◌, ◌++◌,
  if◌then◌else◌, leb, ltb, is_empty, any, all,
}
use eka_ci.Prelude.Text.{Text, Text_eq, text}
use eka_ci.Prelude.Bytes.{byte_len, slice_to}

-- `str::rsplit_once` at a character.
unfoldable pub rsplit_once : ℕ → Text → Option (Text × Text)
rsplit_once sep [] = none
rsplit_once sep (c ∷ s) = elim (rsplit_once sep s) [
  | none ↦ if c == sep then some ([], s) else none
  | some (before, after) ↦ some (c ∷ before, after)
]

-- `str::split_once` at a character.
unfoldable pub split_once : ℕ → Text → Option (Text × Text)
split_once sep [] = none
split_once sep (c ∷ s) =
    let rest = split_once sep s in
    if c == sep
    then some ([], s)
    else elim rest [ none ↦ none | some (before, after) ↦ some (c ∷ before, after) ]

unfoldable pub strip_store_path : Text → Text
strip_store_path path = elim (rsplit_once b'/' path) [
  | none ↦ path
  | some (_, file_name) ↦ file_name
]

abbrev pub nix_base32_alphabet : Text
nix_base32_alphabet = text "0123456789abcdfghijklmnpqrsvwxyz"

abbrev pub drv_id_max_len : ℕ
drv_id_max_len = 211

-- The tests of bytes are tests of characters here: every byte of a character that is not ASCII fails
-- them, and so does its code point.
unfoldable pub is_base32 : ℕ → Bool
is_base32 c = any (λ d. d == c) nix_base32_alphabet

unfoldable pub is_ascii_alphanumeric : ℕ → Bool
is_ascii_alphanumeric c =
    (leb b'0' c && leb c b'9') || (leb b'A' c && leb c b'Z') || (leb b'a' c && leb c b'z')

unfoldable pub is_valid_name_byte : ℕ → Bool
is_valid_name_byte c =
    is_ascii_alphanumeric c
    || (c == b'+')
    || (c == b'-')
    || (c == b'.')
    || (c == b'_')
    || (c == b'?')
    || (c == b'=')

-- The tests of the two parts of the stem.
unfoldable pub check_parts : Text → Text → Bool
check_parts hash name =
    if is_empty hash || is_empty name
    then false
    else if not (byte_len hash == 32)
    then false
    else if not (all is_base32 hash)
    then false
    else all is_valid_name_byte name

abbrev pub check_split : Option (Text × Text) → Bool
check_split none = false
check_split (some (hash, name)) = check_parts hash name

unfoldable pub check_stem : Text → Bool
check_stem stem = check_split (split_once b'-' stem)

abbrev pub check_extension : Option (Text × Text) → Bool
check_extension none = false
check_extension (some (stem, extension)) =
    if Text_eq.eq extension (text "drv") then check_stem stem else false

unfoldable pub check_id : Text → Bool
check_id id =
    if is_empty id || ltb drv_id_max_len (byte_len id)
    then false
    else check_extension (rsplit_once b'.' id)

-- `TryFrom<&str>`; nothing is `InvalidDrvId`.
unfoldable pub try_from : Text → Option Text
try_from value = let id = strip_store_path value in if check_id id then some id else none

unfoldable pub store_path : Text → Text
store_path id = text "/nix/store/" ++ id

-- `&self.0[..32]`; nothing is the panic of a slice.
unfoldable pub drv_hash : Text → Option Text
drv_hash id = slice_to 32 id
