-- ===== src/Changes/Names/Parts.antt =====
-- A derivation name is its package name, a dash and its version.
use eka_ci.Prelude.{
  All, All-append, all, ltb, true, Bool, ℕ, zero, suc, ◌≤◌, ◌<◌, ◌≡◌, refl, ap, ◌∙◌, sym, ◌==◌,
  false, Option, none, some, List, [], ◌∷◌, ◌++◌, arith, Bool-cases, inl, inr, reverse, length,
  take, List-cases, length-reverse, take-all, skip, ==_iff,
}
use mathlib.Core.List.{append_assoc, reverse-cons}
use eka_ci.Prelude.Text.{Text, join_with}
use eka_ci.Prelude.Bytes.{byte_len, len_utf8}
use eka_ci.Scheduler.Features.{split, extend}
use eka_ci.Changes.Names.{
  first_version_idx, join, version_idx, panics_on, loop_panics, is_short, pname_from_name,
  version_from_name,
}

join-extend : (c : ℕ) (parts : List Text) → join (extend c parts) ≡ c ∷ join parts
unfolding join_with
join-extend c [] = refl
join-extend c (part ∷ []) = refl
join-extend c (part ∷ rest ∷ parts) = refl

-- A text has a part at least.
split-cons : (s : Text) → (part : Text) × (parts : List Text) × (split b'-' s ≡ part ∷ parts)
unfolding split
split-cons [] = ([], [], refl)
split-cons (c ∷ s) = elim (Bool-cases (c == b'-')) [
  | inl e ↦ ([], split b'-' s, rw e refl)
  | inr e ↦ elim (List-cases (split b'-' s)) [
    | inl empty ↦ (c ∷ [], [], rw (e, empty) refl)
    | inr (part, parts, h) ↦ (c ∷ part, parts, rw (e, h) refl)
  ]
]

join-nil_cons :
    (parts : List Text) (part : Text) (rest : List Text)
    → parts ≡ part ∷ rest
    → join ([] ∷ parts) ≡ b'-' ∷ join parts
unfolding join_with
join-nil_cons parts part rest h = rw h refl

-- Joining the parts of a text gives the text back.
pub join-split : (s : Text) → join (split b'-' s) ≡ s
unfolding split join_with
join-split [] = refl
join-split (c ∷ s) = elim (Bool-cases (c == b'-')) [
  | inl e ↦
      let (part, rest, h) = split-cons s in
      rw (e, join-nil_cons (split b'-' s) part rest h, join-split s)
        (ap (λ (d : ℕ). d ∷ s) (sym ((==_iff c b'-').0 e)))
  | inr e ↦ rw (e, join-extend c (split b'-' s), join-split s) refl
]

-- The parts in front of an index and those from it on.
join-take-skip :
    (n : ℕ) (parts : List Text)
    → suc n < length parts
    → join (take (suc n) parts) ++ (b'-' ∷ join (skip (suc n) parts)) ≡ join parts
unfolding join_with skip
join-take-skip n [] h = absurd (omega (arith, h))
join-take-skip n (part ∷ []) h = absurd (omega (arith, h))
join-take-skip zero (part ∷ rest ∷ parts) h = refl
join-take-skip (suc n) (part ∷ rest ∷ parts) h =
    append_assoc part (b'-' ∷ join (take (suc n) (rest ∷ parts))) (b'-' ∷ join (skip n parts))
    ∙ ap (λ (s : Text). part ++ (b'-' ∷ s)) (join-take-skip n (rest ∷ parts) (omega (arith, h)))

first_version_idx-le :
    (parts : List Text) (idx : ℕ) → length parts ≤ idx → first_version_idx parts idx ≤ idx
unfolding first_version_idx
first_version_idx-le [] idx h = omega arith
first_version_idx-le (part ∷ parts) idx h =
    ground (arith, h, first_version_idx-le parts (length parts))

version_idx-le : (parts : List Text) → version_idx parts ≤ length parts
version_idx-le parts =
    first_version_idx-le (reverse parts) (length parts) (omega (arith, length-reverse parts))

take_whole : {idx : ℕ} (parts : List Text) → idx ≡ length parts → take idx parts ≡ parts
take_whole parts h = rw h (take-all parts)

-- What `Names` reads from a name: the package name, and behind a dash the version if there is one.
abbrev pub put_together : Text → Option Text → Text
put_together pname none = pname
put_together pname (some version) = pname ++ (b'-' ∷ version)

parts_joined :
    (idx : ℕ) (parts : List Text)
    → ¬ idx ≡ 0
    → idx < length parts
    → join (take idx parts) ++ (b'-' ∷ join (skip idx parts)) ≡ join parts
parts_joined zero parts h k = absurd (h refl)
parts_joined (suc n) parts h k = join-take-skip n parts k

put_together_names :
    (name : Text) → put_together (pname_from_name name) (version_from_name name) ≡ name
unfolding pname_from_name version_from_name
put_together_names name =
    let parts = split b'-' name in
    elim (Bool-cases (length parts == 1)) [
      | inl one ↦ rw one refl
      | inr more ↦ elim (Bool-cases (version_idx parts == 0)) [
        | inl none_kept ↦ rw (more, none_kept) refl
        | inr kept ↦ elim (Bool-cases (version_idx parts == length parts)) [
          | inl whole ↦
              rw
                (
                  more,
                  kept,
                  whole,
                  take_whole parts ((==_iff (version_idx parts) (length parts)).0 whole),
                )
                (join-split name)
          | inr cut ↦
              rw (more, kept, cut)
                (parts_joined (version_idx parts) parts (ground (arith, kept))
                    (ground (arith, cut, version_idx-le parts))
                  ∙ join-split name)
        ]
      ]
    ]

abbrev pub is_ascii : ℕ → Bool
is_ascii c = ltb c 128

byte_len-is_ascii : (s : Text) → all is_ascii s ≡ true → byte_len s ≡ length s
unfolding all byte_len len_utf8
byte_len-is_ascii [] h = refl
byte_len-is_ascii (c ∷ s) h = ground (arith, h, byte_len-is_ascii s)

is_short-is_ascii : (s : Text) → all is_ascii s ≡ true → is_short s ≡ false
unfolding is_short
is_short-is_ascii s h = ground (arith, byte_len-is_ascii s h)

abbrev AreAscii : List Text → Type 0
AreAscii = All λ part. all is_ascii part ≡ true

extend-AreAscii :
    (c : ℕ) (parts : List Text) → is_ascii c ≡ true → AreAscii parts → AreAscii (extend c parts)
unfolding all
extend-AreAscii c [] h parts = (rw h refl, tt)
extend-AreAscii c (part ∷ parts) h (first, rest) = (rw h first, rest)

split-AreAscii : (s : Text) → all is_ascii s ≡ true → AreAscii (split b'-' s)
unfolding all split
split-AreAscii [] h = (refl, tt)
split-AreAscii (c ∷ s) h =
    let head : is_ascii c ≡ true = ground (arith, h) in
    let rest = split-AreAscii s (ground (arith, h)) in
    elim (Bool-cases (c == b'-')) [
      | inl dash ↦ rw dash (refl, rest)
      | inr other ↦ rw other (extend-AreAscii c (split b'-' s) head rest)
    ]

reverse-AreAscii : (parts : List Text) → AreAscii parts → AreAscii (reverse parts)
reverse-AreAscii [] h = h
reverse-AreAscii (part ∷ parts) (first, rest) = rw (reverse-cons part parts) (
    All-append (λ part. all is_ascii part ≡ true) (reverse parts) (part ∷ [])
      (reverse-AreAscii parts rest) (first, tt))

loop_panics-AreAscii : (parts : List Text) → AreAscii parts → loop_panics parts ≡ false
unfolding loop_panics
loop_panics-AreAscii [] h = refl
loop_panics-AreAscii (part ∷ parts) (first, rest) =
    ground (arith, is_short-is_ascii part first, loop_panics-AreAscii parts rest)

-- For every name that is ASCII, as Nix demands of names, the loops that read the package name and the version
-- do not panic, and the two make up the whole name: the package name, a dash and the version where a
-- version is found, and the package name alone where none is.
pub pname_from_name-version_from_name :
    (name : Text)
    → all is_ascii name ≡ true
    → (panics_on name ≡ false)
      × (put_together (pname_from_name name) (version_from_name name) ≡ name)
unfolding panics_on
pname_from_name-version_from_name name ascii =
    let parts = split b'-' name in
    let calm =
      loop_panics-AreAscii (reverse parts) (reverse-AreAscii parts (split-AreAscii name ascii)) in
    (ground (arith, calm), put_together_names name)
