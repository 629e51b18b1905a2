-- ===== src/Graph/Candidates/Ordered.antt =====
-- The order in which backend/graph/src/eviction.rs gives its candidates.
use eka_ci.Prelude.{
  ℕ, ◌≡◌, ◌≤◌, ◌<◌, ◌-◌, ◌⊎◌, inl, inr, List, [], ◌∷◌, ◌++◌, HashMap, length, take, leb, arith, All,
  All-append, All-take, All-map, Bool-cases, ap, sym, ◌∙◌, zero, suc, ◌+◌,
}
use eka_ci.Drv.{DrvId}
use eka_ci.Graph.Cache.{LruCache}
use eka_ci.Graph.State.{GraphNode, BuildGraph}
use eka_ci.Graph.Candidates.{
  EvictionTier, tier1, tier2, tier3, rank, EvictionConfig, EvictionCandidate, insert_by_age,
  sort_by_age, tier_candidates, select_from_tier, select_from_tiers, select_candidates,
}
use eka_ci.Graph.Candidates.Safe.{All-insert_by_age, select_from_tier-Admitted}

-- A safer tier comes first, and within a tier the candidate that was used longest ago.
abbrev pub Precedes : EvictionCandidate → EvictionCandidate → Type 0
Precedes a b = (rank a.tier < rank b.tier) ⊎ ((a.tier ≡ b.tier) × (b.age ≤ a.age))

-- Each candidate precedes all that follow it.
abbrev pub IsOrdered : List EvictionCandidate → Type 0
IsOrdered [] = Unit
IsOrdered (x ∷ xs) = All (Precedes x) xs × IsOrdered xs

abbrev IsByAge : List EvictionCandidate → Type 0
IsByAge [] = Unit
IsByAge (x ∷ xs) = All (λ y. y.age ≤ x.age) xs × IsByAge xs

insert_by_age-IsByAge :
    (c : EvictionCandidate) (xs : List EvictionCandidate)
    → IsByAge xs
    → IsByAge (insert_by_age c xs)
unfolding insert_by_age
insert_by_age-IsByAge c [] h = (tt, tt)
insert_by_age-IsByAge c (x ∷ xs) h = elim (Bool-cases (leb x.age c.age)) [
  | inl e ↦
      let le : x.age ≤ c.age = ground (arith, e) in
      rw e ((le, All-map (λ y l. omega (arith, l, le)) xs h.0), h)
  | inr e ↦ rw e (
    All-insert_by_age (λ y. y.age ≤ x.age) c xs (ground (arith, e)) h.0,
    insert_by_age-IsByAge c xs h.1,
  )
]

sort_by_age-IsByAge : (xs : List EvictionCandidate) → IsByAge (sort_by_age xs)
unfolding sort_by_age
sort_by_age-IsByAge [] = tt
sort_by_age-IsByAge (x ∷ xs) = insert_by_age-IsByAge x (sort_by_age xs) (sort_by_age-IsByAge xs)

take-IsByAge : (n : ℕ) (xs : List EvictionCandidate) → IsByAge xs → IsByAge (take n xs)
take-IsByAge zero xs h = tt
take-IsByAge (suc n) [] h = tt
take-IsByAge (suc n) (x ∷ xs) h = (All-take (λ y. y.age ≤ x.age) n xs h.0, take-IsByAge n xs h.1)

take-IsOrdered : (n : ℕ) (xs : List EvictionCandidate) → IsOrdered xs → IsOrdered (take n xs)
take-IsOrdered zero xs h = tt
take-IsOrdered (suc n) [] h = tt
take-IsOrdered (suc n) (x ∷ xs) h = (All-take (Precedes x) n xs h.0, take-IsOrdered n xs h.1)

-- Candidates of one tier are ordered by their ages.
All-Precedes :
    (tier : EvictionTier) (x : EvictionCandidate) (xs : List EvictionCandidate)
    → x.tier ≡ tier
    → All (λ c. c.tier ≡ tier) xs
    → All (λ y. y.age ≤ x.age) xs
    → All (Precedes x) xs
All-Precedes tier x [] e t h = tt
All-Precedes tier x (y ∷ ys) e t h = (inr (e ∙ sym t.0, h.0), All-Precedes tier x ys e t.1 h.1)

one_tier-IsOrdered :
    (tier : EvictionTier) (xs : List EvictionCandidate)
    → All (λ c. c.tier ≡ tier) xs
    → IsByAge xs
    → IsOrdered xs
one_tier-IsOrdered tier [] t h = tt
one_tier-IsOrdered tier (x ∷ xs) t h =
    (All-Precedes tier x xs t.0 t.1 h.0, one_tier-IsOrdered tier xs t.1 h.1)

append-IsOrdered :
    (r : ℕ) (xs ys : List EvictionCandidate)
    → All (λ c. rank c.tier < r) xs
    → All (λ c. r ≤ rank c.tier) ys
    → IsOrdered xs
    → IsOrdered ys
    → IsOrdered (xs ++ ys)
append-IsOrdered r [] ys before after hx hy = hy
append-IsOrdered r (x ∷ xs) ys before after hx hy = (
  All-append (Precedes x) xs ys hx.0 (All-map (λ y le. inl (omega (arith, le, before.0))) ys after),
  append-IsOrdered r xs ys before.1 after hx.1 hy,
)

-- The ranks of the tiers ascend from a bound.
abbrev Ascends : ℕ → List EvictionTier → Type 0
Ascends r [] = Unit
Ascends r (tier ∷ tiers) = (r ≤ rank tier) × Ascends (rank tier + 1) tiers

module _ {C : Type 0} ⦃lru : LruCache GraphNode C⦄ (config : EvictionConfig) (g : BuildGraph C)
    (last_accessed ref_counts : HashMap DrvId ℕ) (now : ℕ) where
  of_tier :
      (tier : EvictionTier) (limit : ℕ)
      → All (λ c. c.tier ≡ tier) (select_from_tier config g last_accessed ref_counts now tier limit)
  of_tier tier limit =
      All-map (λ c a. a.1) (select_from_tier config g last_accessed ref_counts now tier limit)
        (select_from_tier-Admitted config g last_accessed ref_counts now tier limit)

  select_from_tier-IsOrdered :
      (tier : EvictionTier) (limit : ℕ)
      → IsOrdered (select_from_tier config g last_accessed ref_counts now tier limit)
  unfolding select_from_tier tier_candidates
  select_from_tier-IsOrdered tier limit =
      one_tier-IsOrdered tier (select_from_tier config g last_accessed ref_counts now tier limit)
        (of_tier tier limit)
        (take-IsByAge limit (tier_candidates config g last_accessed ref_counts now tier)
          (sort_by_age-IsByAge _))

  select_from_tiers-IsOrdered :
      (target_count r : ℕ) (tiers : List EvictionTier) (candidates : List EvictionCandidate)
      → Ascends r tiers
      → All (λ c. rank c.tier < r) candidates
      → IsOrdered candidates
      → IsOrdered
          (select_from_tiers config g last_accessed ref_counts now target_count tiers candidates)
  unfolding select_from_tiers
  select_from_tiers-IsOrdered target_count r [] candidates up before h = h
  select_from_tiers-IsOrdered target_count r (tier ∷ tiers) candidates up before h =
      let limit = target_count - length candidates in
      let selected = select_from_tier config g last_accessed ref_counts now tier limit in
      let tiers_of = of_tier tier limit in
      elim (Bool-cases (leb target_count (length candidates))) [
        | inl e ↦ rw e h
        | inr e ↦ rw e (
            select_from_tiers-IsOrdered target_count (rank tier + 1) tiers (candidates ++ selected)
              up.1
              (All-append (λ c. rank c.tier < rank tier + 1) candidates selected
                (All-map (λ c l. omega (arith, l, up.0)) candidates before)
                (All-map (λ c t. omega (arith, ap rank t)) selected tiers_of))
              (append-IsOrdered r candidates selected before
                (All-map (λ c t. omega (arith, ap rank t, up.0)) selected tiers_of) h
                (select_from_tier-IsOrdered tier limit)))
      ]

  -- Each candidate precedes all that follow it: its tier is safer, or it is the same and the
  -- candidate was used no later.
  pub select_candidates-IsOrdered :
      (target_count : ℕ)
      → IsOrdered (select_candidates config g last_accessed ref_counts now target_count)
  unfolding select_candidates
  select_candidates-IsOrdered target_count =
      take-IsOrdered target_count
        (select_from_tiers config g last_accessed ref_counts now target_count
          (tier1 ∷ tier2 ∷ tier3 ∷ []) [])
        (select_from_tiers-IsOrdered target_count 1 (tier1 ∷ tier2 ∷ tier3 ∷ []) []
          (omega arith, (omega arith, (omega arith, tt))) tt tt)
