-- ===== src/Changes/Render/Rows.antt =====
-- The rows of the table of packages and the entries of the table of systems, from render.rs.
use eka_ci.Prelude.{ℕ, Option, none, some, List, [], ◌∷◌, ◌++◌, map, if◌then◌else◌, is_empty, ltb}
use eka_ci.Prelude.Text.{Text, text, join_with, strip_suffix}
use eka_ci.Prelude.Bytes.{byte_len, slice_to, decimal}
use eka_ci.Drv.{DrvId}
use eka_ci.Changes.Names.{unwrap_or, after_last_slash, after_dash}
use eka_ci.Changes.Classify.{
  PackageChange, added, removed, version_bump, renamed, rebuild_only, license_change,
  maintainer_change,
}
use eka_ci.Changes.Summary.{TopBlastRadiusEntry, PerSystemImpact}

-- The texts of `format!`, one behind the other.
abbrev pub concat : List Text → Text
concat [] = []
concat (s ∷ ss) = s ++ concat ss

unfoldable pub format_str_list : List Text → Text
format_str_list items = if is_empty items then text "(none)" else join_with (text ", ") items

unfoldable pub format_maintainer_diff : List Text → List Text → Text
format_maintainer_diff more fewer =
    let parts = map (λ a. b'+' ∷ a) more ++ map (λ r. b'-' ∷ r) fewer in
    if is_empty parts then text "(no change)" else join_with (text ", ") parts

unfoldable pub render_package_row : PackageChange → Text
render_package_row (added attr_path pname version _) = concat (
    text "| Added | `"
    ∷ unwrap_or pname attr_path
    ∷ text "` | "
    ∷ unwrap_or version (text "(no version)")
    ∷ text " |"
    ∷ [])
render_package_row (removed attr_path pname version) = concat (
    text "| Removed | `"
    ∷ unwrap_or pname attr_path
    ∷ text "` | (was "
    ∷ unwrap_or version (text "?")
    ∷ text ") |"
    ∷ [])
render_package_row (version_bump _ pname old new _) =
    concat (text "| Bump | `" ∷ pname ∷ text "` | " ∷ old ∷ text " → " ∷ new ∷ text " |" ∷ [])
render_package_row (renamed _ pname_old pname_new version _) = concat (
    text "| Renamed | `"
    ∷ pname_old
    ∷ text " → "
    ∷ pname_new
    ∷ text "` | "
    ∷ unwrap_or version (text "?")
    ∷ text " |"
    ∷ [])
render_package_row (rebuild_only _ _ _ _) = []
render_package_row (license_change _ pname old new _) = concat (
    text "| License | `"
    ∷ pname
    ∷ text "` | "
    ∷ format_str_list old
    ∷ text " → "
    ∷ format_str_list new
    ∷ text " |"
    ∷ [])
render_package_row (maintainer_change _ pname more fewer _) = concat (
    text "| Maintainers | `"
    ∷ pname
    ∷ text "` | "
    ∷ format_maintainer_diff more fewer
    ∷ text " |"
    ∷ [])

-- `trim_end_matches(".drv")`: the suffix is taken off as often as it is there. A round takes four
-- characters, so as many rounds as there are characters are enough.
unfoldable pub trim_drv : List ℕ → Text → Text
trim_drv [] s = s
trim_drv (_ ∷ rounds) s = elim (strip_suffix s (text ".drv")) as (λ o. Text) [
  | none ↦ s
  | some r ↦ trim_drv rounds r
]

unfoldable pub extract_pname_from_drv : Text → Text
extract_pname_from_drv drv_path =
    let tail = after_last_slash drv_path in
    let stem = trim_drv tail tail in
    elim (after_dash stem) as (λ o. Text) [
      | none ↦ stem
      | some rest ↦ if is_empty rest then stem else rest
    ]

-- The path that a `DrvId` stands for.
module _ (path_of : DrvId → Text) where
  unfoldable pub format_blast_entry : TopBlastRadiusEntry → Text
  format_blast_entry entry = concat (
      text "`"
      ∷ unwrap_or entry.pname (extract_pname_from_drv (path_of entry.drv_path))
      ∷ text "` ("
      ∷ decimal entry.blast_radius
      ∷ text ")"
      ∷ [])

  unfoldable pub render_top_blast_radius : PerSystemImpact → Text
  render_top_blast_radius sys =
      if is_empty sys.top_blast_radius
      then text "_(none)_"
      else join_with (text ", ") (map format_blast_entry sys.top_blast_radius)

-- `none` is the panic of a slice that ends within a character.
unfoldable pub short_sha : Text → Option Text
short_sha sha = if ltb 12 (byte_len sha) then slice_to 12 sha else some sha
