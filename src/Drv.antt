-- ===== src/Drv.antt =====
-- backend/shared/src/types/build_state.rs and drv.rs: the states of a derivation build.
-- A `DrvId` is modelled by a number that stands for the store path, since the code below compares
-- and orders these ids and does not look into them.
pub mod States
pub mod Identifier
use eka_ci.Prelude.{
  ℕ, Bool, true, false, ◌||◌, ◌≡◌, Option, none, some, ◌↔◌, arith, Eq, if◌then◌else◌,
}
use eka_ci.Prelude.Text.{Text, text, Text_eq, to_ascii_lowercase}

abbrev pub DrvId : Type 0
DrvId = ℕ

pub data DrvBuildResult : Type 0 where
  success failure : DrvBuildResult

pub data DrvBuildInterruptionKind : Type 0 where
  out_of_memory timeout cancelled process_death scheduler_death : DrvBuildInterruptionKind

pub data DrvBuildState : Type 0 where
  queued buildable failed_retry building : DrvBuildState
  completed : DrvBuildResult → DrvBuildState
  interrupted : DrvBuildInterruptionKind → DrvBuildState
  transitive_failure blocked unsatisfiable_requirements : DrvBuildState

unfoldable pub is_failure : DrvBuildState → Bool
is_failure (completed failure) = true
is_failure transitive_failure = true
is_failure (interrupted _) = true
is_failure unsatisfiable_requirements = true
is_failure _ = false

unfoldable pub is_terminal : DrvBuildState → Bool
is_terminal (completed _) = true
is_terminal transitive_failure = true
is_terminal (interrupted _) = true
is_terminal unsatisfiable_requirements = true
is_terminal _ = false

unfoldable pub is_retryable : DrvBuildInterruptionKind → Bool
is_retryable out_of_memory = true
is_retryable timeout = true
is_retryable process_death = true
is_retryable _ = false

-- The derived `PartialEq`.
eq_result : DrvBuildResult → DrvBuildResult → Bool
eq_result success success = true
eq_result failure failure = true
eq_result _ _ = false

eq_kind : DrvBuildInterruptionKind → DrvBuildInterruptionKind → Bool
eq_kind out_of_memory out_of_memory = true
eq_kind timeout timeout = true
eq_kind cancelled cancelled = true
eq_kind process_death process_death = true
eq_kind scheduler_death scheduler_death = true
eq_kind _ _ = false

unfoldable pub eq_state : DrvBuildState → DrvBuildState → Bool
unfolding eq_result eq_kind
eq_state queued queued = true
eq_state buildable buildable = true
eq_state failed_retry failed_retry = true
eq_state building building = true
eq_state (completed r) (completed s) = eq_result r s
eq_state (interrupted k) (interrupted l) = eq_kind k l
eq_state transitive_failure transitive_failure = true
eq_state blocked blocked = true
eq_state unsatisfiable_requirements unsatisfiable_requirements = true
eq_state _ _ = false

pub eq_state_iff : (s t : DrvBuildState) → (eq_state s t ≡ true) ↔ (s ≡ t)
unfolding eq_state
eq_state_iff s t = ground arith

instance abbrev pub DrvBuildState_eq : Eq DrvBuildState
DrvBuildState_eq = record { eq = eq_state; eq_iff = eq_state_iff }

-- The arms of `FromStr`; `none` is the error.
unfoldable pub match_state : Text → Option DrvBuildState
match_state l =
    let is = Text_eq.eq l in
    if is (text "queued")
    then some queued
    else if is (text "buildable")
    then some buildable
    else if is (text "failedretry") || is (text "failed_retry")
    then some failed_retry
    else if is (text "building")
    then some building
    else if is (text "transitivefailure") || is (text "transitive_failure")
    then some transitive_failure
    else if is (text "blocked")
    then some blocked
    else if is (text "unsatisfiablerequirements") || is (text "unsatisfiable_requirements")
    then some unsatisfiable_requirements
    else if is (text "success")
    then some (completed success)
    else if is (text "failure")
    then some (completed failure)
    else none

unfoldable pub from_str : Text → Option DrvBuildState
from_str s = match_state (to_ascii_lowercase s)

pub record Drv : Type 0 where
  pub drv_path : DrvId
  pub system : Text
  pub prefer_local_build : Bool
  pub required_system_features : Option Text
  pub is_fod : Bool
  pub build_state : DrvBuildState
  pub output_size : Option ℕ
  pub closure_size : Option ℕ
  pub pname : Option Text
  pub version : Option Text
  pub license_json : Option Text
  pub maintainers_json : Option Text
  pub meta_position : Option Text
  pub broken : Option Bool
  pub insecure : Option Bool
