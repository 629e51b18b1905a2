-- ===== src/Changes/Summary.antt =====
-- backend/change_summary/src/types.rs: the change summary that the renderer reads. Times and the job's
-- name, which the renderer does not read, are left out.
use eka_ci.Prelude.{ℕ, Bool, Option, List}
use eka_ci.Prelude.Text.{Text}
use eka_ci.Drv.{DrvId}
use eka_ci.Changes.Classify.{PackageChange}

pub record TopBlastRadiusEntry : Type 0 where
  pub pname : Option Text
  pub drv_path : DrvId
  pub blast_radius : ℕ

pub record PerSystemImpact : Type 0 where
  pub system : Text
  pub rebuild_count : ℕ
  pub top_blast_radius : List TopBlastRadiusEntry

pub record ChangeSummaryRebuildImpact : Type 0 where
  pub per_system : List PerSystemImpact
  pub total_unique_drvs : ℕ

pub record ChangeSummary : Type 0 where
  pub head_sha : Text
  pub base_sha : Text
  pub metadata_available : Bool
  pub package_changes : List PackageChange
  pub rebuild_impact : ChangeSummaryRebuildImpact
