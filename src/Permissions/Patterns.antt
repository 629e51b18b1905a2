-- ===== src/Permissions/Patterns.antt =====
-- The patterns of backend/server/src/cache_permissions.rs that end in a slash and a star.
use eka_ci.Prelude.{
  ◌≡◌, refl, true, some, [], ◌∷◌, ◌++◌, arith, Bool-cases, inl, inr, ==-refl, length, length-append,
  ap, eq_list,
}
use eka_ci.Prelude.Text.{Text, text, Text_eq, strip_suffix, starts_with}
use eka_ci.Permissions.{matches_glob_pattern}

longer_differs : (xs ys : Text) → Text_eq.eq (xs ++ ys) ys ≡ true → length xs ≡ 0
longer_differs xs ys same =
    omega (arith, ap length ((Text_eq.eq_iff (xs ++ ys) ys).0 same), length-append xs ys)

strip_suffix-append : (p s : Text) → strip_suffix (p ++ s) s ≡ some p
unfolding strip_suffix eq_list
strip_suffix-append [] [] = refl
strip_suffix-append [] (c ∷ s) = rw ((Text_eq.eq_iff (c ∷ s) (c ∷ s)).1 refl) refl
strip_suffix-append (c ∷ p) s = elim (Bool-cases (Text_eq.eq (c ∷ p ++ s) s)) [
  | inl e ↦ ground (arith, longer_differs (c ∷ p) s e)
  | inr e ↦ rw (e, strip_suffix-append p s) refl
]

starts_with-append : (p rest : Text) → starts_with (p ++ rest) p ≡ true
unfolding starts_with
starts_with-append [] rest = refl
starts_with-append (c ∷ p) rest = ground (arith, ==-refl c, starts_with-append p rest)

-- The pattern of a directory, a text with a slash and a star behind it, matches every branch that
-- continues the text, with a slash or without.
pub matches_glob_pattern-append :
    (directory rest : Text)
    → matches_glob_pattern (directory ++ rest) (directory ++ text "/*") ≡ true
unfolding matches_glob_pattern
matches_glob_pattern-append directory rest =
    elim (Bool-cases (Text_eq.eq (directory ++ text "/*") (text "*"))) [
      | inl e ↦ rw e refl
      | inr e ↦
          rw (e, strip_suffix-append directory (text "/*")) (starts_with-append directory rest)
    ]
