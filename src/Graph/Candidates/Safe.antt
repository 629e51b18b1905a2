-- ===== src/Graph/Candidates/Safe.antt =====
-- What every candidate of backend/graph/src/eviction.rs satisfies.
use eka_ci.Prelude.{
  ℕ, ◌≡◌, ◌≤◌, ◌-◌, ◌==◌, refl, sym, ◌∙◌, Bool-cases, inl, inr, if◌then◌else◌, true, false, some,
  List, [], ◌∷◌, ◌++◌, HashMap, contains, ℕ_eq, length, ltb, leb, arith, All, All-append, All-take,
  All-map, ==-refl,
}
use eka_ci.Drv.{DrvId, eq_state_iff}
use eka_ci.Graph.Cache.{LruCache}
use eka_ci.Graph.State.{GraphNode, BuildGraph, get_drvs_by_state, get_node}
use eka_ci.Graph.Index.{IsIndexed}
use eka_ci.Graph.Candidates.{
  EvictionTier, tier1, tier2, tier3, target_state, state_of, EvictionConfig, min_age_for_tier,
  EvictionCandidate, age_at, ref_count_of, admit, insert_by_age, sort_by_age, tier_candidates,
  select_from_tier, select_from_tiers, select_candidates,
}

-- The insertion keeps what the new element and the old ones satisfy.
pub All-insert_by_age :
    (P : EvictionCandidate → Type 0) (c : EvictionCandidate) (xs : List EvictionCandidate)
    → P c
    → All P xs
    → All P (insert_by_age c xs)
unfolding insert_by_age
All-insert_by_age P c [] p h = (p, tt)
All-insert_by_age P c (x ∷ xs) p h =
    elim (leb x.age c.age) as (λ b. All P (if b then c ∷ x ∷ xs else x ∷ insert_by_age c xs)) [
      | true ↦ (p, h)
      | false ↦ (h.0, All-insert_by_age P c xs p h.1)
    ]

pub All-sort_by_age :
    (P : EvictionCandidate → Type 0) (xs : List EvictionCandidate)
    → All P xs
    → All P (sort_by_age xs)
unfolding sort_by_age
All-sort_by_age P [] h = tt
All-sort_by_age P (x ∷ xs) h = All-insert_by_age P x (sort_by_age xs) h.0 (All-sort_by_age P xs h.1)

module _ {C : Type 0} ⦃lru : LruCache GraphNode C⦄ (config : EvictionConfig) (g : BuildGraph C)
    (last_accessed ref_counts : HashMap DrvId ℕ) (now : ℕ) where
  -- The candidate is listed under its tier's state, its count of references is zero, and it was last used
  -- longer ago than its tier asks for.
  abbrev pub IsEvictable : EvictionCandidate → Type 0
  IsEvictable c =
      (contains (get_drvs_by_state g (state_of (target_state c.tier))) c.drv_id ≡ true)
      × (ref_count_of ref_counts c.drv_id ≡ 0)
      × (min_age_for_tier config c.tier ≤ age_at now last_accessed c.drv_id)
      × (c.age ≡ age_at now last_accessed c.drv_id)

  -- The candidates that one tier admits carry that tier.
  abbrev pub Admitted : EvictionTier → EvictionCandidate → Type 0
  Admitted tier c = IsEvictable c × (c.tier ≡ tier)

  admit-Admitted :
      (tier : EvictionTier) (ds : List DrvId)
      → ((d : DrvId)
          → contains ds d ≡ true
          → contains (get_drvs_by_state g (state_of (target_state tier))) d ≡ true)
      → All (Admitted tier) (admit config last_accessed ref_counts tier now ds)
  unfolding admit contains
  admit-Admitted tier [] sub = tt
  admit-Admitted tier (d ∷ ds) sub =
      let rest = admit-Admitted tier ds (λ e m. ground (arith, sub e, m)) in
      elim (Bool-cases (ref_count_of ref_counts d == 0)) [
        | inr e ↦ rw e rest
        | inl e ↦
            elim (Bool-cases (ltb (age_at now last_accessed d) (min_age_for_tier config tier))) [
              | inl f ↦ rw (e, f) rest
              | inr f ↦
                  rw (e, f)
                    (
                      (
                        (
                          sub d (ground (arith, ==-refl d)),
                          ground (arith, e),
                          ground (arith, f),
                          refl,
                        ),
                        refl,
                      ),
                      rest,
                    )
            ]
      ]

  tier_candidates-Admitted :
      (tier : EvictionTier)
      → All (Admitted tier) (tier_candidates config g last_accessed ref_counts now tier)
  unfolding tier_candidates
  tier_candidates-Admitted tier =
      let listed = get_drvs_by_state g (state_of (target_state tier)) in
      All-sort_by_age (Admitted tier) (admit config last_accessed ref_counts tier now listed)
        (admit-Admitted tier listed (λ d m. m))

  pub select_from_tier-Admitted :
      (tier : EvictionTier) (limit : ℕ)
      → All (Admitted tier) (select_from_tier config g last_accessed ref_counts now tier limit)
  unfolding select_from_tier
  select_from_tier-Admitted tier limit =
      All-take (Admitted tier) limit (tier_candidates config g last_accessed ref_counts now tier)
        (tier_candidates-Admitted tier)

  select_from_tiers-IsEvictable :
      (target_count : ℕ) (tiers : List EvictionTier) (candidates : List EvictionCandidate)
      → All IsEvictable candidates
      → All IsEvictable
          (select_from_tiers config g last_accessed ref_counts now target_count tiers candidates)
  unfolding select_from_tiers
  select_from_tiers-IsEvictable target_count [] candidates h = h
  select_from_tiers-IsEvictable target_count (tier ∷ tiers) candidates h =
      let limit = target_count - length candidates in
      let selected = select_from_tier config g last_accessed ref_counts now tier limit in
      elim (Bool-cases (leb target_count (length candidates))) [
        | inl e ↦ rw e h
        | inr e ↦ rw e (
            select_from_tiers-IsEvictable target_count tiers (candidates ++ selected) (
              All-append IsEvictable candidates selected h
                (All-map (λ c a. a.0) selected (select_from_tier-Admitted tier limit))))
      ]

  -- Every candidate is listed under the state of its tier, which is terminal, has no reference by the
  -- counts that the selection is given, and is at least as old as its tier asks for.
  pub select_candidates-IsEvictable :
      (target_count : ℕ)
      → All IsEvictable (select_candidates config g last_accessed ref_counts now target_count)
  unfolding select_candidates
  select_candidates-IsEvictable target_count =
      All-take IsEvictable target_count
        (select_from_tiers config g last_accessed ref_counts now target_count
          (tier1 ∷ tier2 ∷ tier3 ∷ []) [])
        (select_from_tiers-IsEvictable target_count (tier1 ∷ tier2 ∷ tier3 ∷ []) [] tt)

  -- The node of the candidate, if the cache holds it, is in the state of the candidate's tier.
  abbrev pub IsOfItsTier : EvictionCandidate → Type 0
  IsOfItsTier c =
      (n : GraphNode)
      → get_node g c.drv_id ≡ some n
      → n.build_state ≡ state_of (target_state c.tier)

  -- Where the index by state is right, no candidate that the cache holds is in a state other than
  -- its tier's: a transitive failure, a failure or a success.
  pub select_candidates-IsOfItsTier :
      (target_count : ℕ)
      → IsIndexed g
      → All IsOfItsTier (select_candidates config g last_accessed ref_counts now target_count)
  select_candidates-IsOfItsTier target_count indexed =
      All-map
        (λ c e n held.
          (eq_state_iff n.build_state (state_of (target_state c.tier))).0
            (sym (indexed c.drv_id n (state_of (target_state c.tier)) held) ∙ e.0))
        (select_candidates config g last_accessed ref_counts now target_count)
        (select_candidates-IsEvictable target_count)
