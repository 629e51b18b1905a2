-- ===== src/Graph/Candidates/Counted.antt =====
-- How many candidates backend/graph/src/eviction.rs selects.
use eka_ci.Prelude.{
  ℕ, ◌≡◌, ◌≤◌, ◌-◌, ◌+◌, ◌^◌, min, refl, List, [], ◌∷◌, ◌++◌, HashMap, length, take, leb, ltb,
  arith, length-take, length-append, ◌==◌, Bool-cases, inl, inr,
}
use eka_ci.Drv.{DrvId}
use eka_ci.Graph.Cache.{LruCache}
use eka_ci.Graph.State.{GraphNode, BuildGraph, get_drvs_by_state}
use eka_ci.Graph.Candidates.{
  EvictionTier, tier1, tier2, tier3, target_state, state_of, EvictionConfig, EvictionCandidate,
  admit, insert_by_age, sort_by_age, tier_candidates, select_from_tier, select_from_tiers,
  select_candidates, count_candidates_by_tier, age_at, min_age_for_tier, ref_count_of,
}

length-insert_by_age :
    (c : EvictionCandidate) (xs : List EvictionCandidate)
    → length (insert_by_age c xs) ≡ length xs + 1
unfolding insert_by_age
length-insert_by_age c [] = refl
length-insert_by_age c (x ∷ xs) = ground (arith, length-insert_by_age c xs)

length-sort_by_age : (xs : List EvictionCandidate) → length (sort_by_age xs) ≡ length xs
unfolding sort_by_age
length-sort_by_age [] = refl
length-sort_by_age (x ∷ xs) =
    ground (arith, length-insert_by_age x (sort_by_age xs), length-sort_by_age xs)

length-admit-le :
    (config : EvictionConfig) (last_accessed ref_counts : HashMap DrvId ℕ) (tier : EvictionTier)
    (now : ℕ) (ds : List DrvId)
    → length (admit config last_accessed ref_counts tier now ds) ≤ length ds
unfolding admit
length-admit-le config last_accessed ref_counts tier now [] = omega arith
length-admit-le config last_accessed ref_counts tier now (d ∷ ds) =
    let rest = length-admit-le config last_accessed ref_counts tier now ds in
    elim (Bool-cases (ref_count_of ref_counts d == 0)) [
      | inr e ↦ rw e (omega (arith, rest))
      | inl e ↦
          elim (Bool-cases (ltb (age_at now last_accessed d) (min_age_for_tier config tier))) [
            | inl f ↦ rw (e, f) (omega (arith, rest))
            | inr f ↦ rw (e, f) (omega (arith, rest))
          ]
    ]

module _ {C : Type 0} ⦃lru : LruCache GraphNode C⦄ (config : EvictionConfig) (g : BuildGraph C)
    (last_accessed ref_counts : HashMap DrvId ℕ) (now : ℕ) where
  -- How many candidates the tiers have.
  total : List EvictionTier → ℕ
  total [] = 0
  total (tier ∷ tiers) =
      length (tier_candidates config g last_accessed ref_counts now tier) + total tiers

  length-select_from_tiers :
      (target_count : ℕ) (tiers : List EvictionTier) (candidates : List EvictionCandidate)
      → length candidates ≤ target_count
      → length
          (select_from_tiers config g last_accessed ref_counts now target_count tiers candidates)
        ≡ min target_count (length candidates + total tiers)
  unfolding select_from_tiers select_from_tier total
  length-select_from_tiers target_count [] candidates le = ground arith
  length-select_from_tiers target_count (tier ∷ tiers) candidates le =
      let limit = target_count - length candidates in
      let all = tier_candidates config g last_accessed ref_counts now tier in
      let size = length-append candidates (take limit all) in
      let limited = length-take limit all in
      elim (Bool-cases (leb target_count (length candidates))) [
        | inl e ↦ rw e (ground (arith, e))
        | inr e ↦ rw e (
            ground (
              arith,
              length-select_from_tiers target_count tiers (candidates ++ take limit all)
                  (ground (arith, size, limited)),
              size,
              limited,
            ))
      ]

  tier_candidates-le :
      (tier : EvictionTier)
      → length (tier_candidates config g last_accessed ref_counts now tier)
        ≤ length (get_drvs_by_state g (state_of (target_state tier)))
  unfolding tier_candidates
  tier_candidates-le tier =
      let listed = get_drvs_by_state g (state_of (target_state tier)) in
      omega (
        arith,
        length-sort_by_age (admit config last_accessed ref_counts tier now listed),
        length-admit-le config last_accessed ref_counts tier now listed,
      )

  count_lem :
      (tier : EvictionTier)
      → length (get_drvs_by_state g (state_of (target_state tier))) ≤ 2 ^ 64 - 1
      → count_candidates_by_tier config g last_accessed ref_counts now tier
        ≡ length (tier_candidates config g last_accessed ref_counts now tier)
  unfolding count_candidates_by_tier select_from_tier
  count_lem tier fits = omega (
    arith,
    fits,
    tier_candidates-le tier,
    length-take (2 ^ 64 - 1) (tier_candidates config g last_accessed ref_counts now tier),
  )

  -- The selection gives as many candidates as were asked for, or as many as the three tiers count
  -- together if these are fewer. The ids in a state fit a vector, whose length is a word of 64 bits.
  pub length-select_candidates :
      (target_count : ℕ)
      → ((tier : EvictionTier)
          → length (get_drvs_by_state g (state_of (target_state tier))) ≤ 2 ^ 64 - 1)
      → length (select_candidates config g last_accessed ref_counts now target_count)
        ≡ min target_count (
            count_candidates_by_tier config g last_accessed ref_counts now tier1
            + count_candidates_by_tier config g last_accessed ref_counts now tier2
            + count_candidates_by_tier config g last_accessed ref_counts now tier3)
  unfolding select_candidates total
  length-select_candidates target_count fits = omega (
    arith,
    count_lem tier1 (fits tier1),
    count_lem tier2 (fits tier2),
    count_lem tier3 (fits tier3),
    length-take target_count (
        select_from_tiers config g last_accessed ref_counts now target_count
          (tier1 ∷ tier2 ∷ tier3 ∷ []) []),
    length-select_from_tiers target_count (tier1 ∷ tier2 ∷ tier3 ∷ []) [] (omega arith),
  )
