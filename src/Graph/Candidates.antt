-- ===== src/Graph/Candidates.antt =====
-- backend/graph/src/eviction.rs: which nodes the eviction policy selects.
pub mod Safe
pub mod Ordered
pub mod Counted
use eka_ci.Prelude.{
  ℕ, ◌+◌, ◌-◌, ◌*◌, ◌^◌, Bool, true, false, not, ◌==◌, Option, none, some, List, [], ◌∷◌, ◌++◌,
  if◌then◌else◌, HashMap, get, insert, ℕ_eq, length, take, ltb, leb, Eq,
}
use eka_ci.Drv.{DrvId, DrvBuildState, completed, success, failure, transitive_failure}
use eka_ci.Graph.Cache.{LruCache}
use eka_ci.Graph.State.{GraphNode, BuildGraph, get_drvs_by_state}

pub data EvictionTier : Type 0 where
  tier1 tier2 tier3 : EvictionTier

-- The discriminants of the enum.
abbrev pub rank : EvictionTier → ℕ
rank tier1 = 1
rank tier2 = 2
rank tier3 = 3

pub data TargetState : Type 0 where
  transitive_failures completed_failures completed_successes : TargetState

abbrev pub target_state : EvictionTier → TargetState
target_state tier1 = transitive_failures
target_state tier2 = completed_failures
target_state tier3 = completed_successes

-- The state that the match of `select_from_tier` asks the graph for.
abbrev pub state_of : TargetState → DrvBuildState
state_of transitive_failures = transitive_failure
state_of completed_failures = completed failure
state_of completed_successes = completed success

pub record EvictionConfig : Type 0 where
  pub tier1_age_secs : ℕ
  pub tier2_age_secs : ℕ
  pub tier3_age_secs : ℕ

abbrev pub default_config : EvictionConfig
default_config = record { tier1_age_secs = 3600; tier2_age_secs = 21600; tier3_age_secs = 86400 }

-- In nanoseconds, as every time here.
abbrev pub min_age_for_tier : EvictionConfig → EvictionTier → ℕ
min_age_for_tier config tier1 = config.tier1_age_secs * 1_000_000_000
min_age_for_tier config tier2 = config.tier2_age_secs * 1_000_000_000
min_age_for_tier config tier3 = config.tier3_age_secs * 1_000_000_000

pub record EvictionCandidate : Type 0 where
  pub drv_id : DrvId
  pub tier : EvictionTier
  pub age : ℕ
  pub ref_count : ℕ

-- `unwrap_or`.
abbrev pub value_or : ℕ → Option ℕ → ℕ
value_or n none = n
value_or n (some m) = m

-- `Instant::duration_since` gives 0 for a time in the future.
abbrev pub age_at : ℕ → HashMap DrvId ℕ → DrvId → ℕ
age_at now last_accessed d = now - value_or now (get d last_accessed)

abbrev pub ref_count_of : HashMap DrvId ℕ → DrvId → ℕ
ref_count_of ref_counts d = value_or 0 (get d ref_counts)

-- The loop of `filter_map`.
unfoldable pub admit :
    EvictionConfig
    → HashMap DrvId ℕ
    → HashMap DrvId ℕ
    → EvictionTier
    → ℕ
    → List DrvId
    → List EvictionCandidate
admit config last_accessed ref_counts tier now [] = []
admit config last_accessed ref_counts tier now (d ∷ ds) =
    let rest = admit config last_accessed ref_counts tier now ds in
    if not (ref_count_of ref_counts d == 0)
    then rest
    else (if ltb (age_at now last_accessed d) (min_age_for_tier config tier)
        then rest
        else record {
          drv_id = d;
          tier = tier;
          age = age_at now last_accessed d;
          ref_count = ref_count_of ref_counts d;
        }
          ∷ rest)

-- `sort_by` with the ages compared in the descending order, which is stable.
unfoldable pub insert_by_age : EvictionCandidate → List EvictionCandidate → List EvictionCandidate
insert_by_age c [] = c ∷ []
insert_by_age c (x ∷ xs) =
    let rest = insert_by_age c xs in if leb x.age c.age then c ∷ x ∷ xs else x ∷ rest

unfoldable pub sort_by_age : List EvictionCandidate → List EvictionCandidate
sort_by_age [] = []
sort_by_age (c ∷ cs) = insert_by_age c (sort_by_age cs)

module _ {C : Type 0} ⦃lru : LruCache GraphNode C⦄ (config : EvictionConfig) (g : BuildGraph C)
    (last_accessed ref_counts : HashMap DrvId ℕ) (now : ℕ) where
  -- All the candidates of a tier, before the limit.
  unfoldable pub tier_candidates : EvictionTier → List EvictionCandidate
  tier_candidates tier = sort_by_age (
      admit config last_accessed ref_counts tier now
        (get_drvs_by_state g (state_of (target_state tier))))

  unfoldable pub select_from_tier : EvictionTier → ℕ → List EvictionCandidate
  select_from_tier tier limit = take limit (tier_candidates tier)

  -- The loop over the tiers, which breaks once there are enough candidates.
  unfoldable pub select_from_tiers :
      ℕ → List EvictionTier → List EvictionCandidate → List EvictionCandidate
  select_from_tiers target_count [] candidates = candidates
  select_from_tiers target_count (tier ∷ tiers) candidates =
      let rest =
        select_from_tiers target_count tiers
          (candidates ++ select_from_tier tier (target_count - length candidates)) in
      if leb target_count (length candidates) then candidates else rest

  unfoldable pub select_candidates : ℕ → List EvictionCandidate
  select_candidates target_count =
      take target_count (select_from_tiers target_count (tier1 ∷ tier2 ∷ tier3 ∷ []) [])

  -- `usize::MAX` on a machine with words of 64 bits.
  abbrev usize_max : ℕ
  usize_max = 2 ^ 64 - 1

  -- The counts of the three tiers, in their order.
  unfoldable pub count_candidates_by_tier : EvictionTier → ℕ
  count_candidates_by_tier tier = length (select_from_tier tier usize_max)
