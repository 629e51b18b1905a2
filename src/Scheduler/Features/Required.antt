-- ===== src/Scheduler/Features/Required.antt =====
-- The required features of a derivation, from the text that lists them.
use eka_ci.Prelude.{
  ◌≡◌, refl, ap, false, some, List, [], ◌∷◌, ◌++◌, contains, arith, All, ℕ_eq, ap₂,
}
use eka_ci.Prelude.Text.{Text}
use eka_ci.Scheduler.Features.{trim, split, required_features}

-- The features with commas between them.
unfoldable pub join : Text → List Text → Text
join f [] = f
join f (g ∷ gs) = f ++ b',' ∷ join g gs

split-plain : (f : Text) → contains f b',' ≡ false → split b',' f ≡ f ∷ []
unfolding split contains
split-plain [] plain = refl
split-plain (c ∷ f) plain = ground (arith, plain, split-plain f)

split-append :
    (f rest : Text) → contains f b',' ≡ false → split b',' (f ++ b',' ∷ rest) ≡ f ∷ split b',' rest
unfolding split contains
split-append [] rest plain = refl
split-append (c ∷ f) rest plain = ground (arith, plain, split-append f rest)

-- A feature as a list of features can name it: without a comma, and without white space around it.
abbrev pub IsPlain : Text → Type 0
IsPlain f = (contains f b',' ≡ false) × (trim f ≡ f)

-- Features that are joined by commas are read back as they were.
pub required_features-join :
    (f : Text) (fs : List Text)
    → IsPlain f
    → All IsPlain fs
    → required_features (some (join f fs)) ≡ f ∷ fs
unfolding required_features join
required_features-join f [] plain rest = rw (split-plain f plain.0) (ap (λ h. h ∷ []) plain.1)
required_features-join f (g ∷ gs) plain rest =
    rw (split-append f (join g gs) plain.0)
      (ap₂ (λ h t. h ∷ t) plain.1 (required_features-join g gs rest.0 rest.1))
