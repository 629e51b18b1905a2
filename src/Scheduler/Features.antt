-- ===== src/Scheduler/Features.antt =====
-- The system features of backend/server/src/scheduler/build.rs and build/system_queue.rs.
pub mod Required
use eka_ci.Prelude.{
  ℕ, ◌≡◌, refl, ◌==◌, Bool, true, false, not, ◌&&◌, ◌||◌, Option, none, some, List, [], ◌∷◌, map,
  if◌then◌else◌, contains, is_empty, any, all, leb, arith, Bool-cases, inl, inr, reverse, ℕ_eq,
}
use eka_ci.Prelude.Text.{Text, Text_eq}

-- `char::is_whitespace`.
unfoldable pub is_whitespace : ℕ → Bool
is_whitespace c =
    (leb 9 c && leb c 13)
    || contains (32 ∷ 133 ∷ 160 ∷ 5760 ∷ 8232 ∷ 8233 ∷ 8239 ∷ 8287 ∷ 12288 ∷ []) c
    || (leb 8192 c && leb c 8202)

unfoldable pub trim_start : Text → Text
trim_start [] = []
trim_start (c ∷ s) = let rest = trim_start s in if is_whitespace c then rest else c ∷ s

unfoldable pub trim : Text → Text
trim s = reverse (trim_start (reverse (trim_start s)))

-- A character in front of the first part.
abbrev pub extend : ℕ → List Text → List Text
extend c [] = (c ∷ []) ∷ []
extend c (part ∷ parts) = (c ∷ part) ∷ parts

-- `str::split` at a character.
unfoldable pub split : ℕ → Text → List Text
split at [] = [] ∷ []
split at (c ∷ s) = let rest = split at s in if c == at then [] ∷ rest else extend c rest

-- `required_system_features`, parsed.
unfoldable pub required_features : Option Text → List Text
required_features none = []
required_features (some s) = map trim (split b',' s)

pub record BuilderFeatures : Type 0 where
  pub supported : List Text
  pub mandatory : List Text

-- The two checks of one builder, as `loop_builds` and `can_handle_drv` make them.
unfoldable pub can_run : List Text → BuilderFeatures → Bool
can_run required b =
    if not (is_empty b.mandatory) && not (any (contains b.mandatory) required)
    then false
    else all (contains b.supported) required

-- The closure of `PlatformQueue::poll_for_builds`.
unfoldable pub can_handle_drv : List BuilderFeatures → Option Text → Bool
can_handle_drv builders features = any (can_run (required_features features)) builders

-- `BuilderFeatureSnapshot::can_build`, which the ingress asks.
unfoldable pub can_build : List BuilderFeatures → Option Text → Bool
can_build builders features =
    if is_empty (required_features features)
    then true
    else any (can_run (required_features features)) builders

-- The early check of the ingress accepts what the platform's queue accepts, and besides that every
-- derivation that requires no feature.
pub can_build_lem :
    (builders : List BuilderFeatures) (features : Option Text)
    → can_build builders features
      ≡ (is_empty (required_features features) || can_handle_drv builders features)
unfolding can_build can_handle_drv
can_build_lem builders features = elim (Bool-cases (is_empty (required_features features))) [
  | inl e ↦ rw e refl
  | inr e ↦ rw e refl
]

overlap :
    (b : BuilderFeatures) (required : List Text)
    → ((f : Text) → contains b.mandatory f ≡ true → contains b.supported f ≡ false)
    → any (contains b.mandatory) required ≡ true
    → all (contains b.supported) required ≡ false
unfolding any all
overlap b [] apart met = ground (arith, met)
overlap b (f ∷ required) apart met = ground (arith, met, apart f, overlap b required apart)

-- A builder with mandatory features, none of which it lists as supported, can run nothing,
-- whatever a derivation requires.
pub can_run-apart :
    (b : BuilderFeatures) (required : List Text)
    → is_empty b.mandatory ≡ false
    → ((f : Text) → contains b.mandatory f ≡ true → contains b.supported f ≡ false)
    → can_run required b ≡ false
unfolding can_run
can_run-apart b required has apart = elim (Bool-cases (any (contains b.mandatory) required)) [
  | inl e ↦ ground (arith, has, e, overlap b required apart e)
  | inr e ↦ ground (arith, has, e)
]
