-- ===== src/Drv/Identifier/Parsed.antt =====
-- What `DrvId::try_from` accepts.
use eka_ci.Prelude.{
  ℕ, zero, suc, ◌-◌, ◌≤◌, ◌≡◌, refl, sym, ap, ap₂, ◌∙◌, subst, ◌==◌, Bool, true, false, ◌↔◌, ◌⊎◌,
  inl, inr, some, [], ◌∷◌, ◌++◌, all, all-append, any, is_empty, arith, eq_list, Bool-cases,
}
use mathlib.Core.List.{append_assoc}
use eka_ci.Prelude.Text.{Text, text, Text_eq}
use eka_ci.Prelude.Bytes.{byte_len, slice_to, len_utf8}
use eka_ci.Drv.Identifier.{
  rsplit_once, split_once, strip_store_path, is_base32, is_valid_name_byte, is_ascii_alphanumeric,
  check_parts, check_split, check_stem, check_extension, check_id, try_from, store_path, drv_hash,
  drv_id_max_len,
}
use eka_ci.Drv.Identifier.Split.{
  is_other, all-weaken, is_empty-append, rsplit_once-none, rsplit_once-append, rsplit_once_cases,
  split_once-append, split_once_cases,
}

-- `hash-name.drv`, with a hash of 32 characters of base 32 and a name of characters that Nix accepts.
unfoldable pub IsDrvId : Text → Type 0
IsDrvId id =
    (hash name : Text) × (id ≡ hash ++ (b'-' ∷ (name ++ text ".drv")))
    × (byte_len hash ≡ 32)
    × (all is_base32 hash ≡ true)
    × (is_empty name ≡ false)
    × (all is_valid_name_byte name ≡ true)
    × (byte_len id ≤ drv_id_max_len)

-- What stands behind the last slash.
abbrev pub IsFileName : Text → Text → Type 0
IsFileName id path = (path ≡ id) ⊎ ((dir : Text) × (path ≡ dir ++ (b'/' ∷ id)))

-- A test that a character fails is passed by others only.
differs : (p : ℕ → Bool) (sep c : ℕ) → p sep ≡ false → p c ≡ true → is_other sep c ≡ true
differs p sep c fails passes = elim (Bool-cases (c == sep)) [
  | inl same ↦ let here : c ≡ sep = ground (arith, same) in ground (arith, fails, passes, ap p here)
  | inr other ↦ rw other refl
]

base32-no_dash : (s : Text) → all is_base32 s ≡ true → all (is_other b'-') s ≡ true
unfolding is_base32 any
base32-no_dash = all-weaken is_base32 (is_other b'-') (λ c h. differs is_base32 b'-' c refl h)

IsDrvId-no_slash : (id : Text) → IsDrvId id → all (is_other b'/') id ≡ true
unfolding IsDrvId is_base32 any is_valid_name_byte is_ascii_alphanumeric all
IsDrvId-no_slash id (hash, name, shape, _, base32, _, valid, _) = rw shape (
    all-append (is_other b'/') hash (b'-' ∷ (name ++ text ".drv"))
      (all-weaken is_base32 (is_other b'/') (λ c h. differs is_base32 b'/' c refl h) hash base32)
      (all-append (is_other b'/') name (text ".drv")
        (all-weaken is_valid_name_byte (is_other b'/')
          (λ c h. differs is_valid_name_byte b'/' c refl h) name valid)
        refl))

check_parts-IsValid :
    (hash name : Text)
    → (check_parts hash name ≡ true) ↔ (
        (byte_len hash ≡ 32)
        × (all is_base32 hash ≡ true)
        × (is_empty name ≡ false)
        × (all is_valid_name_byte name ≡ true))
unfolding check_parts byte_len
check_parts-IsValid [] name = ground arith
check_parts-IsValid (c ∷ hash) name = ground arith

check_stem_iff :
    (stem : Text)
    → (check_stem stem ≡ true) ↔ (
        (hash name : Text) × (stem ≡ hash ++ (b'-' ∷ name))
        × (byte_len hash ≡ 32)
        × (all is_base32 hash ≡ true)
        × (is_empty name ≡ false)
        × (all is_valid_name_byte name ≡ true))
unfolding check_stem
check_stem_iff stem = (
  (λ accepted. elim (split_once_cases b'-' stem) [
    | inl e ↦ ground (arith, e, accepted)
    | inr (hash, name, e, shape) ↦
        let valid : check_parts hash name ≡ true = ap check_split (sym e) ∙ accepted in
        let (long, base32, named, ok) = (check_parts-IsValid hash name).0 valid in
        (hash, name, shape, long, base32, named, ok)
  ]),
  λ (hash, name, shape, long, base32, named, ok).
      let split : split_once b'-' stem ≡ some (hash, name) =
        rw shape (split_once-append b'-' hash name (base32-no_dash hash base32)) in
      rw split ((check_parts-IsValid hash name).1 (long, base32, named, ok)),
)

check_id_iff : (id : Text) → (check_id id ≡ true) ↔ IsDrvId id
unfolding check_id check_stem IsDrvId all eq_list
check_id_iff id = (
  (λ accepted.
      let small : byte_len id ≤ drv_id_max_len = ground (arith, accepted) in
      let rest : check_extension (rsplit_once b'.' id) ≡ true = ground (arith, accepted) in
      elim (rsplit_once_cases b'.' id) [
        | inl (e, _) ↦ ground (arith, e, rest)
        | inr (stem, extension, e, shape, _) ↦
            let end : check_extension (some (stem, extension)) ≡ true =
              ap check_extension (sym e) ∙ rest in
            let drv : Text_eq.eq extension (text "drv") ≡ true = ground (arith, end) in
            let stem_ok : check_stem stem ≡ true = ground (arith, end) in
            let (hash, name, split, long, base32, named, valid) = (check_stem_iff stem).0 stem_ok in
            (
              hash,
              name,
              shape
                  ∙ ap₂ (λ s e. s ++ (b'.' ∷ e)) split
                      ((Text_eq.eq_iff extension (text "drv")).0 drv)
                  ∙ append_assoc hash (b'-' ∷ name) (text ".drv"),
              long,
              base32,
              named,
              valid,
              small,
            )
      ]),
  λ (hash, name, shape, long, base32, named, valid, small).
      let stem_ok : check_stem (hash ++ (b'-' ∷ name)) ≡ true =
        (check_stem_iff (hash ++ (b'-' ∷ name))).1 (hash, name, refl, long, base32, named, valid) in
      let split : rsplit_once b'.' id ≡ some (hash ++ (b'-' ∷ name), text "drv") =
        ap (rsplit_once b'.') (shape ∙ sym (append_assoc hash (b'-' ∷ name) (text ".drv")))
        ∙ rsplit_once-append b'.' (hash ++ (b'-' ∷ name)) (text "drv") refl in
      let end : check_extension (rsplit_once b'.' id) ≡ true = rw split stem_ok in
      let full : is_empty id ≡ false = rw shape (is_empty-append hash (name ++ text ".drv")) in
      rw (full, end) (ground (arith, small)),
)

strip_store_path-slash :
    (dir id : Text) → all (is_other b'/') id ≡ true → strip_store_path (dir ++ (b'/' ∷ id)) ≡ id
unfolding strip_store_path
strip_store_path-slash dir id h = rw (strip_store_path, rsplit_once-append b'/' dir id h) refl

strip_store_path-whole : (id : Text) → all (is_other b'/') id ≡ true → strip_store_path id ≡ id
unfolding strip_store_path
strip_store_path-whole id h = rw (strip_store_path, rsplit_once-none b'/' id h) refl

-- An identifier is found behind its last slash.
strip_store_path-IsDrvId :
    (path id : Text) → IsDrvId id → IsFileName id path → strip_store_path path ≡ id
strip_store_path-IsDrvId path id valid (inl whole) =
    ap strip_store_path whole ∙ strip_store_path-whole id (IsDrvId-no_slash id valid)
strip_store_path-IsDrvId path id valid (inr (dir, behind)) =
    ap strip_store_path behind ∙ strip_store_path-slash dir id (IsDrvId-no_slash id valid)

strip_store_path-IsFileName : (path : Text) → IsFileName (strip_store_path path) path
unfolding strip_store_path
strip_store_path-IsFileName path = elim (rsplit_once_cases b'/' path) [
  | inl (e, _) ↦ rw (strip_store_path, e) (inl refl)
  | inr (dir, id, e, shape, _) ↦ rw (strip_store_path, e) (inr (dir, shape))
]

-- A text is accepted as the identifier that stands behind its last slash, or that it is as a whole,
-- exactly if that is a hash of 32 characters of Nix's base 32, a dash, a name that is not empty and
-- has only characters that Nix accepts, and the extension, of 211 bytes at most together.
pub try_from_iff : (path id : Text) → (try_from path ≡ some id) ↔ (IsDrvId id × IsFileName id path)
unfolding try_from
try_from_iff path id = (
  (λ accepted. elim (Bool-cases (check_id (strip_store_path path))) [
    | inl ok ↦
        let same : strip_store_path path ≡ id = ground (arith, ok, accepted) in
        (
          (check_id_iff id).0 (ap check_id (sym same) ∙ ok),
          subst (λ i. IsFileName i path) same (strip_store_path-IsFileName path),
        )
    | inr bad ↦ ground (arith, bad, accepted)
  ]),
  λ (valid, place).
      let same : strip_store_path path ≡ id = strip_store_path-IsDrvId path id valid place in
      rw (same, (check_id_iff id).1 valid) refl,
)

slice_to-append : (n : ℕ) (s t : Text) → n ≡ byte_len s → slice_to n (s ++ t) ≡ some s
unfolding slice_to byte_len len_utf8
slice_to-append zero [] t e = refl
slice_to-append (suc n) [] t e = ground (arith, e)
slice_to-append zero (c ∷ s) t e = ground (arith, e)
slice_to-append (suc n) (c ∷ s) t e =
    let fits : len_utf8 c ≤ suc n = omega (arith, e) in
    rw (slice_to-append (suc n - len_utf8 c) s t (omega (arith, e))) (ground (arith, fits))

-- The store path of an accepted identifier is read back as the identifier, and the slice of its hash
-- never fails: it is the 32 characters of base 32 in front of the first dash.
pub try_from-store_path :
    (path id : Text)
    → try_from path ≡ some id
    → (try_from (store_path id) ≡ some id)
      × ((hash name : Text) × (drv_hash id ≡ some hash)
          × (all is_base32 hash ≡ true)
          × (split_once b'-' id ≡ some (hash, name)))
unfolding store_path drv_hash IsDrvId
try_from-store_path path id accepted =
    let valid = ((try_from_iff path id).0 accepted).0 in
    let (hash, name, shape, long, base32, _, _, _) = valid in
    (
      (try_from_iff (store_path id) id).1 (valid, inr (text "/nix/store", refl)),
      (
        hash,
        name ++ text ".drv",
        ap (slice_to 32) shape ∙ slice_to-append 32 hash (b'-' ∷ (name ++ text ".drv")) (sym long),
        base32,
        ap (split_once b'-') shape
            ∙ split_once-append b'-' hash (name ++ text ".drv") (base32-no_dash hash base32),
      ),
    )
