-- ===== src/Changes/Render/Panics.antt =====
-- When `render` panics: its slices must end between two characters.
use eka_ci.Prelude.{
  ℕ, zero, suc, ◌-◌, ◌<◌, ◌≡◌, ◌↔◌, refl, ap, true, Option, none, some, [], ◌∷◌, ◌++◌, leb, ltb,
  arith, if◌then◌else◌, Bool-cases, Option-cases, inl, inr,
}
use eka_ci.Prelude.Text.{Text}
use eka_ci.Prelude.Bytes.{byte_len, len_utf8, slice_to}
use eka_ci.Drv.{DrvId}
use eka_ci.Changes.Summary.{ChangeSummary}
use eka_ci.Changes.Render.Sections.{RenderConfig, RenderTruncation}
use eka_ci.Changes.Render.Rows.{short_sha}
use eka_ci.Changes.Render.{
  RenderOptions, render, pass, last_pass, soft_limit, Rendered, render_with_config, banner,
  and_then, truncated_error, max_error_len,
}

abbrev Returns {ℓ} : {A : Type ℓ} → Option A → Type ℓ
Returns {A} o = (a : A) × (o ≡ some a)

-- A position between two characters, or at an end.
abbrev pub IsCut : ℕ → Text → Type 0
IsCut n s = (front back : Text) × (s ≡ front ++ back) × (byte_len front ≡ n)

len_utf8-pos : (c : ℕ) → 0 < len_utf8 c
unfolding len_utf8
len_utf8-pos c = ground arith

slice_to-IsCut : (n : ℕ) (s r : Text) → slice_to n s ≡ some r → IsCut n s
unfolding slice_to byte_len
slice_to-IsCut zero s r h = ([], s, refl, refl)
slice_to-IsCut (suc n) [] r h = absurd (ground (arith, h))
slice_to-IsCut (suc n) (c ∷ s) r h = elim (Bool-cases (leb (len_utf8 c) (suc n))) [
  | inl fits ↦ elim (Option-cases (slice_to (suc n - len_utf8 c) s)) [
    | inl stuck ↦ absurd (ground (arith, h, fits, stuck))
    | inr (rest, found) ↦
        let (front, back, parts, size) = slice_to-IsCut (suc n - len_utf8 c) s rest found in
        (c ∷ front, back, ap (λ (t : Text). c ∷ t) parts, ground (arith, size, fits))
  ]
  | inr within ↦ absurd (ground (arith, h, within))
]

slice_to-append :
    (n : ℕ) (front back : Text) → byte_len front ≡ n → slice_to n (front ++ back) ≡ some front
unfolding slice_to byte_len
slice_to-append zero [] back h = refl
slice_to-append zero (c ∷ front) back h = absurd (omega (arith, h, len_utf8-pos c))
slice_to-append (suc n) [] back h = absurd (omega (arith, h))
slice_to-append (suc n) (c ∷ front) back h =
    let fits : leb (len_utf8 c) (suc n) ≡ true = ground (arith, h) in
    rw (fits, slice_to-append (suc n - len_utf8 c) front back (omega (arith, h))) refl

slice_to-Returns_iff : (n : ℕ) (s : Text) → Returns (slice_to n s) ↔ IsCut n s
slice_to-Returns_iff n s = (
  λ (r, h). slice_to-IsCut n s r h,
  λ (front, back, parts, size). (front, rw parts (slice_to-append n front back size)),
)

-- A text that is not sliced, or is sliced between two characters.
abbrev pub IsSliced : ℕ → Text → Type 0
IsSliced n s = ltb n (byte_len s) ≡ true → IsCut n s

guarded_iff {ℓ} :
    {A : Type ℓ} (n : ℕ) (s : Text) (o : Option A) (a : A)
    → (Returns o ↔ IsCut n s)
    → Returns (if ltb n (byte_len s) then o else some a) ↔ IsSliced n s
guarded_iff n s o a iff = elim (Bool-cases (ltb n (byte_len s))) [
  | inl long ↦ rw long (λ h _. iff.0 h, λ h. iff.1 (h refl))
  | inr short ↦ rw short (λ h long. absurd (ground (arith, long)), λ h. (a, refl))
]

-- The error of the banner can be cut.
abbrev pub IsShown : Option Text → Type 0
IsShown none = Unit
IsShown (some error) = IsSliced max_error_len error

Returns-and_then {ℓ κ} :
    {A : Type ℓ} {B : Type κ} (o : Option A) (f : A → B)
    → Returns (and_then o (λ a. some (f a))) ↔ Returns o
Returns-and_then none f =
    (λ (b, h). absurd (ground (arith, h)), λ (a, h). absurd (ground (arith, h)))
Returns-and_then (some a) f = (λ _. (a, refl), λ _. (f a, refl))

iff_trans {ℓ κ μ} : {A : Type ℓ} {B : Type κ} {C : Type μ} → (A ↔ B) → (B ↔ C) → A ↔ C
iff_trans p q = (λ a. q.0 (p.0 a), λ c. p.1 (q.1 c))

banner-Returns_iff : (error : Option Text) → Returns (banner error) ↔ IsShown error
unfolding banner truncated_error
banner-Returns_iff none = (λ _. tt, λ _. ([], refl))
banner-Returns_iff (some error) = iff_trans (Returns-and_then (truncated_error error) _) (
    guarded_iff max_error_len error _ error (
      iff_trans (Returns-and_then (slice_to max_error_len error) _)
        (slice_to-Returns_iff max_error_len error)))

short_sha-Returns_iff : (sha : Text) → Returns (short_sha sha) ↔ IsSliced 12 sha
unfolding short_sha
short_sha-Returns_iff sha = guarded_iff 12 sha (slice_to 12 sha) sha (slice_to-Returns_iff 12 sha)

-- Every slice of a summary's texts is cut between two characters.
abbrev pub IsPrintable : ChangeSummary → RenderOptions → Type 0
IsPrintable summary options =
    IsShown options.config_load_error × IsSliced 12 summary.head_sha × IsSliced 12 summary.base_sha

chain_iff :
    (top head base : Option Text) (f : Text → Text → Text → Text)
    → Returns (and_then top (λ t. and_then head (λ h. and_then base (λ b. some (f t h b)))))
      ↔ (Returns top × Returns head × Returns base)
chain_iff none head base f =
    (λ (b, h). absurd (ground (arith, h)), λ ((a, h), _, _). absurd (ground (arith, h)))
chain_iff (some t) none base f =
    (λ (b, h). absurd (ground (arith, h)), λ (_, (a, h), _). absurd (ground (arith, h)))
chain_iff (some t) (some s) none f =
    (λ (b, h). absurd (ground (arith, h)), λ (_, _, (a, h)). absurd (ground (arith, h)))
chain_iff (some t) (some s) (some b) f =
    (λ _. ((t, refl), (s, refl), (b, refl)), λ _. (f t s b, refl))

render_with_config-Returns_iff :
    (path_of : DrvId → Text) (summary : ChangeSummary) (config : RenderConfig)
    (truncation : RenderTruncation) (options : RenderOptions)
    → Returns (render_with_config path_of summary config truncation options)
      ↔ IsPrintable summary options
unfolding render_with_config
render_with_config-Returns_iff path_of summary config truncation options =
    iff_trans
      (chain_iff (banner options.config_load_error) (short_sha summary.head_sha)
        (short_sha summary.base_sha) _)
      (
        λ (t, h, b). (
          (banner-Returns_iff options.config_load_error).0 t,
          (short_sha-Returns_iff summary.head_sha).0 h,
          (short_sha-Returns_iff summary.base_sha).0 b,
        ),
        λ (t, h, b). (
          (banner-Returns_iff options.config_load_error).1 t,
          (short_sha-Returns_iff summary.head_sha).1 h,
          (short_sha-Returns_iff summary.base_sha).1 b,
        ),
      )

pass-Returns :
    (o : Option Text) (t : RenderTruncation) (later : Rendered)
    → Returns o
    → Returns later
    → Returns (pass o t later)
unfolding pass
pass-Returns o t later (s, h) k = rw h (elim (Bool-cases (leb (byte_len s) soft_limit)) [
  | inl fits ↦ rw fits ((s, t), refl)
  | inr long ↦ rw long k
])

last_pass-Returns : (o : Option Text) (t : RenderTruncation) → Returns o → Returns (last_pass o t)
unfolding last_pass
last_pass-Returns o t (s, h) = rw h (_, refl)

first_pass :
    (o : Option Text) (t : RenderTruncation) (later : Rendered)
    → Returns (pass o t later)
    → Returns o
unfolding pass
first_pass none t later (d, h) = absurd (ground (arith, h))
first_pass (some s) t later r = (s, refl)

-- `render` returns a text, and does not panic, just if each text that it slices, the error of the
-- configuration at 200 bytes and the two hashes at 12, is no longer than that or has the end of a
-- character there.
pub render-Returns_iff :
    (path_of : DrvId → Text) (summary : ChangeSummary) (options : RenderOptions)
    → ((result : Text × RenderTruncation) × (render path_of summary options ≡ some result))
      ↔ IsPrintable summary options
unfolding render
render-Returns_iff path_of summary options =
    let written : (c : RenderConfig) (t : RenderTruncation)
        → Returns (render_with_config path_of summary c t options) ↔ IsPrintable summary options =
      λ c t. render_with_config-Returns_iff path_of summary c t options in
    (
      λ r. (written _ _).0 (first_pass _ _ _ r),
      λ p. pass-Returns _ _ _ ((written _ _).1 p) (
          pass-Returns _ _ _ ((written _ _).1 p) (
            pass-Returns _ _ _ ((written _ _).1 p) (
              pass-Returns _ _ _ ((written _ _).1 p) (last_pass-Returns _ _ ((written _ _).1 p))))),
    )
