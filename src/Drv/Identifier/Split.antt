-- ===== src/Drv/Identifier/Split.antt =====
-- Texts that are split at a character.
use eka_ci.Prelude.{
  ℕ, ◌≡◌, refl, ap, ◌==◌, Bool, true, false, not, ◌⊎◌, inl, inr, none, some, [], ◌∷◌, ◌++◌, all,
  is_empty, arith, Bool-cases,
}
use eka_ci.Prelude.Text.{Text, Text_eq}
use eka_ci.Drv.Identifier.{rsplit_once, split_once}

abbrev pub is_other : ℕ → ℕ → Bool
is_other sep c = not (c == sep)

pub all-weaken :
    (p q : ℕ → Bool)
    → ((c : ℕ) → p c ≡ true → q c ≡ true)
    → (s : Text) → all p s ≡ true
    → all q s ≡ true
unfolding all
all-weaken p q f [] h = refl
all-weaken p q f (c ∷ s) h =
    let head : p c ≡ true = ground (arith, h) in
    let tail : all p s ≡ true = ground (arith, h) in rw (f c head) (all-weaken p q f s tail)

pub is_empty-append : (xs ys : Text) → is_empty (xs ++ (b'-' ∷ ys)) ≡ false
is_empty-append [] ys = refl
is_empty-append (x ∷ xs) ys = refl

pub rsplit_once-none : (sep : ℕ) (s : Text) → all (is_other sep) s ≡ true → rsplit_once sep s ≡ none
unfolding all rsplit_once
rsplit_once-none sep [] h = refl
rsplit_once-none sep (c ∷ s) h =
    let tail : all (is_other sep) s ≡ true = ground (arith, h) in
    rw (rsplit_once-none sep s tail) (ground (arith, h))

pub rsplit_once-append :
    (sep : ℕ) (s t : Text)
    → all (is_other sep) t ≡ true
    → rsplit_once sep (s ++ (sep ∷ t)) ≡ some (s, t)
unfolding rsplit_once
rsplit_once-append sep [] t h = rw (rsplit_once-none sep t h) (ground arith)
rsplit_once-append sep (c ∷ s) t h = rw (rsplit_once-append sep s t h) refl

pub rsplit_once_cases :
    (sep : ℕ) (s : Text)
    → ((rsplit_once sep s ≡ none) × (all (is_other sep) s ≡ true))
      ⊎ ((before after : Text) × (rsplit_once sep s ≡ some (before, after))
          × (s ≡ before ++ (sep ∷ after))
          × (all (is_other sep) after ≡ true))
unfolding all rsplit_once
rsplit_once_cases sep [] = inl (refl, refl)
rsplit_once_cases sep (c ∷ s) = elim (rsplit_once_cases sep s) [
  | inl (e, h) ↦ elim (Bool-cases (c == sep)) [
    | inl same ↦
        let here : c ≡ sep = ground (arith, same) in inr ([], s, rw (e, same) refl, rw here refl, h)
    | inr other ↦ inl (rw (e, other) refl, rw (other, h) refl)
  ]
  | inr (before, after, e, shape, h) ↦ inr (c ∷ before, after, rw e refl, ap (λ t. c ∷ t) shape, h)
]

pub split_once-append :
    (sep : ℕ) (s t : Text)
    → all (is_other sep) s ≡ true
    → split_once sep (s ++ (sep ∷ t)) ≡ some (s, t)
unfolding all split_once
split_once-append sep [] t h = ground arith
split_once-append sep (c ∷ s) t h =
    let tail : all (is_other sep) s ≡ true = ground (arith, h) in
    let head : (c == sep) ≡ false = ground (arith, h) in
    rw (head, split_once-append sep s t tail) refl

pub split_once_cases :
    (sep : ℕ) (s : Text)
    → (split_once sep s ≡ none)
      ⊎ ((before after : Text) × (split_once sep s ≡ some (before, after))
          × (s ≡ before ++ (sep ∷ after)))
unfolding split_once
split_once_cases sep [] = inl refl
split_once_cases sep (c ∷ s) = elim (Bool-cases (c == sep)) [
  | inl same ↦
      let here : c ≡ sep = ground (arith, same) in inr ([], s, rw same refl, ap (λ d. d ∷ s) here)
  | inr other ↦ elim (split_once_cases sep s) [
    | inl e ↦ inl (rw (other, e) refl)
    | inr (before, after, e, shape) ↦
        inr (c ∷ before, after, rw (other, e) refl, ap (λ t. c ∷ t) shape)
  ]
]
