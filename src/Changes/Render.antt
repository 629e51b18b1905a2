-- ===== src/Changes/Render.antt =====
-- backend/change_summary/src/render.rs: the passes that fit a summary into the limit of a check, and
-- the document that each pass writes. `none` stands for a panic.
mod Tests
pub mod Rows
pub mod Sections
pub mod Limits
pub mod Counted
pub mod Panics
use eka_ci.Prelude.{
  ℕ, ◌-◌, Bool, true, false, not, Option, none, some, List, [], ◌∷◌, ◌++◌, leb, ltb, min,
  if◌then◌else◌,
}
use eka_ci.Prelude.Text.{Text, text}
use eka_ci.Prelude.Bytes.{byte_len, slice_to, slice_within}
use eka_ci.Drv.{DrvId}
use eka_ci.Changes.Summary.{ChangeSummary}
use eka_ci.Changes.Render.Rows.{concat, short_sha}
use eka_ci.Changes.Render.Sections.{
  RenderConfig, RenderTruncation, render_packages_section, render_impact_section,
  render_truncation_footer, is_any,
}

-- `GITHUB_CHECK_SUMMARY_SOFT_LIMIT` and `GITHUB_CHECK_SUMMARY_HARD_LIMIT`.
abbrev pub soft_limit : ℕ
soft_limit = 60000

abbrev pub hard_limit : ℕ
hard_limit = 65535

pub record RenderOptions : Type 0 where
  pub include_rebuild_only : Bool
  pub config_load_error : Option Text

abbrev pub max_error_len : ℕ
max_error_len = 200

abbrev pub and_then {ℓ κ} : {A : Type ℓ} {B : Type κ} → Option A → (A → Option B) → Option B
and_then none f = none
and_then (some a) f = f a

-- The error that the banner shows.
unfoldable pub truncated_error : Text → Option Text
truncated_error error =
    if ltb max_error_len (byte_len error)
    then and_then (slice_to max_error_len error) (λ s. some (s ++ text "…"))
    else some error

unfoldable pub banner : Option Text → Option Text
banner none = some []
banner (some error) = and_then (truncated_error error) (λ shown. some (
    concat (
      text "> ⚠ `.ekaci/config.json` failed to parse — using defaults. Error: "
      ∷ shown
      ∷ text "\n\n"
      ∷ [])))

-- What follows the banner, with the two short hashes.
unfoldable pub document :
    (DrvId → Text) → ChangeSummary → RenderConfig → RenderTruncation → (head base : Text) → Text
document path_of summary config truncation head base = concat (
    text "## Change summary for `"
    ∷ head
    ∷ text "` ← `"
    ∷ base
    ∷ text "`\n\n"
    ∷ (if not summary.metadata_available
        then text
            "> ⚠ Package metadata unavailable for this commit (eval failed); package names below are best-effort heuristics from drv paths.\n\n"
        else [])
    ∷ render_packages_section summary config
    ∷ text "\n"
    ∷ render_impact_section path_of summary.rebuild_impact
    ∷ (if is_any truncation
        then text "\n" ++ render_truncation_footer truncation summary.head_sha
        else [])
    ∷ [])

unfoldable pub render_with_config :
    (DrvId → Text) → ChangeSummary → RenderConfig → RenderTruncation → RenderOptions → Option Text
render_with_config path_of summary config truncation options =
    and_then (banner options.config_load_error) (λ top.
      and_then (short_sha summary.head_sha) (λ head.
        and_then (short_sha summary.base_sha)
          (λ base. some (top ++ document path_of summary config truncation head base))))

abbrev pub marker : Text
marker = text "\n\n_…(truncated, full payload via API)_\n"

unfoldable pub hard_truncate : Text → ℕ → Text
hard_truncate s limit =
    if leb (byte_len s) limit
    then s
    else slice_within (min (limit - byte_len marker) (byte_len s)) s ++ marker

abbrev pub Rendered : Type 0
Rendered = Option (Text × RenderTruncation)

-- A pass: its text where it fits, and the later passes otherwise.
unfoldable pub pass : Option Text → RenderTruncation → Rendered → Rendered
pass none truncation later = none
pass (some s) truncation later = if leb (byte_len s) soft_limit then some (s, truncation) else later

-- The last pass.
unfoldable pub last_pass : Option Text → RenderTruncation → Rendered
last_pass none truncation = none
last_pass (some s) truncation =
    some (if leb (byte_len s) hard_limit then s else hard_truncate s hard_limit, truncation)

abbrev pub no_truncation : RenderTruncation
no_truncation = record {
  dropped_maintainers = false;
  dropped_license = false;
  dropped_rebuild_only = false;
  collapsed_to_counts = false;
}

unfoldable pub render : (DrvId → Text) → ChangeSummary → RenderOptions → Rendered
render path_of summary options =
    let line = options.include_rebuild_only in
    let c0 : RenderConfig = record {
      include_maintainers = true;
      include_license = true;
      include_rebuild_only_line = line;
      collapse_table = false;
    } in
    let c1 : RenderConfig = record c0 { include_maintainers = false } in
    let c2 : RenderConfig = record c1 { include_license = false } in
    let c3 : RenderConfig = record c2 { include_rebuild_only_line = false } in
    let c4 : RenderConfig = record c3 { collapse_table = true } in
    let t1 : RenderTruncation = record no_truncation { dropped_maintainers = true } in
    let t2 : RenderTruncation = record t1 { dropped_license = true } in
    let t3 : RenderTruncation = record t2 { dropped_rebuild_only = line } in
    let t4 : RenderTruncation = record t3 { collapsed_to_counts = true } in
    let written =
      λ (c : RenderConfig) (t : RenderTruncation). render_with_config path_of summary c t options in
    pass (written c0 no_truncation) no_truncation (
      pass (written c1 t1) t1
        (pass (written c2 t2) t2 (pass (written c3 t3) t3 (last_pass (written c4 t4) t4))))
