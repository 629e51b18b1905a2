-- ===== src/Changes/Impact/Tests.antt =====
-- Inputs for the theorems about the rebuild impact: the small graph of Graph/Samples.
use eka_ci.Prelude.{◌≡◌, true, none, List, [], ◌∷◌}
use eka_ci.Prelude.Text.{Text, text}
use eka_ci.Graph.Cache.Listed.{list_cache}
use eka_ci.Graph.Samples.{small}
use eka_ci.Changes.Impact.{ImpactRow, build_rebuild_impact}
use eka_ci.Changes.Impact.Systems.{
  impacts_of, rows_of_system, systems_of, build_rebuild_impact-per_system,
}

abbrev linux : Text
linux = text "x86_64-linux"

abbrev rows : List ImpactRow
rows =
    record { drv_path = 1; pname = none; system = linux }
    ∷ record { drv_path = 2; pname = none; system = text "aarch64-darwin" }
    ∷ record { drv_path = 4; pname = none; system = linux }
    ∷ []

build_rebuild_impact-per_system_example :
    (build_rebuild_impact small 5 true rows).per_system
    ≡ impacts_of small 5 true (rows_of_system rows) (systems_of rows)
build_rebuild_impact-per_system_example = build_rebuild_impact-per_system small 5 true rows
