-- ===== src/Drv/States.antt =====
-- Laws of the build states of backend/shared/src/types/build_state.rs.
use eka_ci.Prelude.{Option, none, some, ◌≡◌, refl, eq_list}
use eka_ci.Prelude.Text.{Text, text, to_ascii_lowercase}
use eka_ci.Drv.{
  DrvBuildState, success, failure, queued, buildable, failed_retry, building, completed,
  interrupted, transitive_failure, blocked, unsatisfiable_requirements, match_state, from_str,
}

-- The name of a state in the wire format, for the states that have one.
unfoldable pub state_name : DrvBuildState → Option Text
state_name queued = some (text "queued")
state_name buildable = some (text "buildable")
state_name failed_retry = some (text "failed_retry")
state_name building = some (text "building")
state_name (completed success) = some (text "success")
state_name (completed failure) = some (text "failure")
state_name (interrupted _) = none
state_name transitive_failure = some (text "transitive_failure")
state_name blocked = some (text "blocked")
state_name unsatisfiable_requirements = some (text "unsatisfiable_requirements")

parses :
    (t : DrvBuildState) (n s : Text)
    → some n ≡ some s
    → match_state n ≡ some t
    → match_state s ≡ some t
parses t n s e h = cc

match_state-state_name :
    (t : DrvBuildState) (s : Text) → state_name t ≡ some s → match_state s ≡ some t
unfolding state_name match_state eq_list
match_state-state_name queued s e = parses _ _ s e refl
match_state-state_name buildable s e = parses _ _ s e refl
match_state-state_name failed_retry s e = parses _ _ s e refl
match_state-state_name building s e = parses _ _ s e refl
match_state-state_name (completed success) s e = parses _ _ s e refl
match_state-state_name (completed failure) s e = parses _ _ s e refl
match_state-state_name (interrupted k) s e = cc
match_state-state_name transitive_failure s e = parses _ _ s e refl
match_state-state_name blocked s e = parses _ _ s e refl
match_state-state_name unsatisfiable_requirements s e = parses _ _ s e refl

-- A text that is the name of a state but for the case of its letters parses to that state.
pub from_str-state_name :
    (t : DrvBuildState) (name s : Text)
    → state_name t ≡ some name
    → to_ascii_lowercase s ≡ name
    → from_str s ≡ some t
unfolding from_str
from_str-state_name t name s named folded = rw folded (match_state-state_name t name named)
