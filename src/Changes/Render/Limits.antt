-- ===== src/Changes/Render/Limits.antt =====
-- What `render` returns fits the limit of the Checks API, and says what was dropped.
use eka_ci.Prelude.{
  ℕ, ◌-◌, ◌≤◌, ◌≡◌, Bool, true, false, Option, none, some, leb, min, arith, Bool-cases, inl, inr,
}
use eka_ci.Prelude.Text.{Text}
use eka_ci.Prelude.Bytes.{byte_len, len_utf8, byte_len-append, slice_within, byte_len-slice_within}
use eka_ci.Drv.{DrvId}
use eka_ci.Changes.Summary.{ChangeSummary}
use eka_ci.Changes.Render.Sections.{RenderTruncation}
use eka_ci.Changes.Render.{
  RenderOptions, render, pass, last_pass, hard_truncate, marker, hard_limit, soft_limit, Rendered,
}

-- A text that is cut has at most as many bytes as the limit, if the marker has.
pub byte_len-hard_truncate :
    (s : Text) (limit : ℕ) → byte_len marker ≤ limit → byte_len (hard_truncate s limit) ≤ limit
unfolding hard_truncate
byte_len-hard_truncate s limit h =
    let cut = min (limit - byte_len marker) (byte_len s) in
    elim (Bool-cases (leb (byte_len s) limit)) [
      | inl fits ↦ rw fits (ground (arith, fits))
      | inr long ↦
          rw (long, byte_len-append (slice_within cut s) marker)
            (omega (arith, h, byte_len-slice_within cut s))
    ]

-- What holds of the text and of the flags, where there is a result.
abbrev pub Holds : (Text → RenderTruncation → Type 0) → Rendered → Type 0
Holds P none = Unit
Holds P (some (s, truncation)) = P s truncation

Holds-pass :
    (P : Text → RenderTruncation → Type 0) (o : Option Text) (t : RenderTruncation)
    (later : Rendered)
    → ((s : Text) → byte_len s ≤ soft_limit → P s t)
    → Holds P later
    → Holds P (pass o t later)
unfolding pass
Holds-pass P none t later fits h = tt
Holds-pass P (some s) t later fits h = elim (Bool-cases (leb (byte_len s) soft_limit)) [
  | inl e ↦ rw e (fits s (ground (arith, e)))
  | inr e ↦ rw e h
]

marker_fits : byte_len marker ≤ hard_limit
unfolding byte_len len_utf8
marker_fits = omega arith

Holds-last_pass :
    (P : Text → RenderTruncation → Type 0) (o : Option Text) (t : RenderTruncation)
    → ((s : Text) → byte_len s ≤ hard_limit → P s t)
    → Holds P (last_pass o t)
unfolding last_pass
Holds-last_pass P none t fits = tt
Holds-last_pass P (some s) t fits = elim (Bool-cases (leb (byte_len s) hard_limit)) [
  | inl e ↦ rw e (fits s (ground (arith, e)))
  | inr e ↦
      rw e (fits (hard_truncate s hard_limit) (byte_len-hard_truncate s hard_limit marker_fits))
]

-- A result has at most 65,535 bytes, and at most 60,000 where the table is not collapsed.
abbrev pub IsWithin : Text → RenderTruncation → Type 0
IsWithin s t = (byte_len s ≤ hard_limit) × (t.collapsed_to_counts ≡ false → byte_len s ≤ soft_limit)

-- What is dropped first is dropped wherever something later is.
abbrev pub IsInOrder : Bool → RenderTruncation → Type 0
IsInOrder line t =
    (t.collapsed_to_counts ≡ true → t.dropped_license ≡ true)
    × (t.dropped_rebuild_only ≡ true → (t.dropped_license ≡ true) × (line ≡ true))
    × (t.dropped_license ≡ true → t.dropped_maintainers ≡ true)

-- Whatever the summary holds, a rendered text has at most 65,535 bytes, at most 60,000 where the
-- package table is not collapsed; license changes are dropped only with maintainer changes, the
-- rebuild-only line only with license changes and only if the options ask for it, and the table is
-- collapsed only with license changes dropped.
pub render-IsWithin :
    (path_of : DrvId → Text) (summary : ChangeSummary) (options : RenderOptions)
    → Holds
        (λ s t. IsWithin s t × IsInOrder options.include_rebuild_only t)
        (render path_of summary options)
unfolding render
render-IsWithin path_of summary options =
    let P : Text → RenderTruncation → Type 0 =
      λ s t. IsWithin s t × IsInOrder options.include_rebuild_only t in
    Holds-pass P _ _ _ (λ s h. ground (arith, h))
      (Holds-pass P _ _ _ (λ s h. ground (arith, h))
        (Holds-pass P _ _ _ (λ s h. ground (arith, h))
          (Holds-pass P _ _ _ (λ s h. ground (arith, h))
            (Holds-last_pass P _ _ (λ s h. ground (arith, h))))))
