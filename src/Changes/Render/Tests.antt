-- ===== src/Changes/Render/Tests.antt =====
-- Inputs for the theorems about the renderer.
use eka_ci.Prelude.{◌≡◌, ◌↔◌, true, false, none, some, List, [], ◌∷◌}
use eka_ci.Prelude.Text.{Text, text}
use eka_ci.Prelude.Bytes.{decimal}
use eka_ci.Drv.{DrvId}
use eka_ci.Changes.Classify.{PackageChange, version_bump, rebuild_only, license_change}
use eka_ci.Changes.Summary.{ChangeSummary}
use eka_ci.Changes.Render.{RenderOptions, render}
use eka_ci.Changes.Render.Sections.{RenderConfig, RenderTruncation}
use eka_ci.Changes.Render.Limits.{Holds, IsWithin, IsInOrder, render-IsWithin}
use eka_ci.Changes.Render.Panics.{IsPrintable, render-Returns_iff}

abbrev changes : List PackageChange
changes =
    version_bump (text "hello") (text "hello") (text "2.12") (text "2.13") 1
    ∷ license_change (text "hello") (text "hello") [] (text "MIT" ∷ []) 1
    ∷ rebuild_only (text "world") none none 2
    ∷ []

abbrev summary : ChangeSummary
summary = record {
  head_sha = text "0123456789abcdef";
  base_sha = text "fedcba9876543210";
  metadata_available = true;
  package_changes = changes;
  rebuild_impact = record {
    per_system =
        record { system = text "x86_64-linux"; rebuild_count = 2; top_blast_radius = [] } ∷ [];
    total_unique_drvs = 7;
  };
}

abbrev options : RenderOptions
options = record { include_rebuild_only = true; config_load_error = some (text "unexpected end") }

abbrev path_of : DrvId → Text
path_of = decimal

-- A table without the licenses.
abbrev narrow : RenderConfig
narrow = record {
  include_maintainers = false;
  include_license = false;
  include_rebuild_only_line = true;
  collapse_table = false;
}

render-IsWithin_example :
    Holds (λ s t. IsWithin s t × IsInOrder true t) (render path_of summary options)
render-IsWithin_example = render-IsWithin path_of summary options

render-Returns_iff_example :
    ((result : Text × RenderTruncation) × (render path_of summary options ≡ some result))
    ↔ IsPrintable summary options
render-Returns_iff_example = render-Returns_iff path_of summary options
