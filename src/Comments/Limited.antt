-- ===== src/Comments/Limited.antt =====
-- Two commands of one user for one repository are far enough apart.
use eka_ci.Prelude.{
  ℕ, ◌+◌, ◌-◌, ◌*◌, ◌≤◌, ◌<◌, ◌≡◌, refl, ◌∙◌, true, false, some, List, [], ◌∷◌, leb, ltb, get,
  insert, get-insert, get-insert_self, retain, length, All, arith, Bool-cases, inl, inr,
}
use eka_ci.Comments.{
  RateLimitKey, RateLimitKey_eq, eq_key, eq_key_iff, RateLimits, is_later, prune, is_recent,
  command_min_interval, rate_limit_map_max_entries, check_and_record_rate_limit_inner,
  check_and_record_rate_limit, run_checks,
}

-- An entry that passes the test is found after the prune.
get-retain_later :
    (cutoff last : ℕ) (key : RateLimitKey) (limits : RateLimits)
    → get key limits ≡ some last
    → cutoff < last
    → get key (retain (is_later cutoff) limits) ≡ some last
unfolding get retain
get-retain_later cutoff last key [] found later = found
get-retain_later cutoff last key ((k, t) ∷ limits) found later =
    ground (arith, found, get-retain_later cutoff last key limits)

module _ (last : ℕ) (key : RateLimitKey) where
  -- Between an accepted command and the end of its interval.
  abbrev pub IsWithin : ℕ → Type 0
  IsWithin now = (last ≤ now) × (now < last + command_min_interval)

  prune-get :
      (now : ℕ) (limits : RateLimits)
      → IsWithin now
      → get key limits ≡ some last
      → get key (prune command_min_interval now limits) ≡ some last
  unfolding prune
  prune-get now limits within found =
      elim (Bool-cases (ltb rate_limit_map_max_entries (length limits))) [
        | inr few ↦ rw few found
        | inl many ↦ elim (Bool-cases (leb (command_min_interval * 2) now)) [
          | inr early ↦ rw (many, early) found
          | inl late ↦
              rw (many, late)
                (get-retain_later (now - command_min_interval * 2) last key limits found
                  (ground (arith, late)))
        ]
      ]

  check-get :
      (now : ℕ) (j : RateLimitKey) (limits : RateLimits)
      → IsWithin now
      → get key limits ≡ some last
      → get key (check_and_record_rate_limit now j limits).0 ≡ some last
  unfolding check_and_record_rate_limit check_and_record_rate_limit_inner
  check-get now j limits within found = elim (Bool-cases (eq_key j key)) [
    | inl same ↦
        let here : j ≡ key = (eq_key_iff j key).0 same in
        let recent : is_recent command_min_interval now (get key limits) ≡ true =
          rw found (ground arith) in
        rw (here, recent, check_and_record_rate_limit_inner) found
    | inr other ↦ elim (Bool-cases (is_recent command_min_interval now (get j limits))) [
      | inl recent ↦ rw (recent, check_and_record_rate_limit_inner) found
      | inr free ↦
          rw (free, check_and_record_rate_limit_inner)
            (prune-get now (insert j now limits) within
              (get-insert j key now limits ∙ rw other found))
    ]
  ]

  run_checks-get :
      (calls : List (RateLimitKey × ℕ)) (limits : RateLimits)
      → All (λ call. IsWithin call.1) calls
      → get key limits ≡ some last
      → get key (run_checks calls limits) ≡ some last
  unfolding run_checks
  run_checks-get [] limits within found = found
  run_checks-get ((j, now) ∷ calls) limits within found =
      run_checks-get calls (check_and_record_rate_limit now j limits).0 within.1
        (check-get now j limits within.0 found)

accepted-get :
    (last : ℕ) (key : RateLimitKey) (limits : RateLimits)
    → (check_and_record_rate_limit last key limits).1 ≡ true
    → get key (check_and_record_rate_limit last key limits).0 ≡ some last
unfolding check_and_record_rate_limit check_and_record_rate_limit_inner
accepted-get last key limits accepted =
    elim (Bool-cases (is_recent command_min_interval last (get key limits))) [
      | inl recent ↦ ground (arith, accepted, recent)
      | inr free ↦
          rw (free, check_and_record_rate_limit_inner)
            (prune-get last key last (insert key last limits) (omega arith)
              (get-insert_self key last limits))
    ]

-- Once a command is accepted, every later command of the same user for the same repository within the
-- interval of five seconds is rejected, whatever commands of anyone come in between, also where the map
-- outgrows its bound and old entries are dropped.
pub check_and_record_rate_limit-rejects :
    (last now : ℕ) (key : RateLimitKey) (calls : List (RateLimitKey × ℕ)) (limits : RateLimits)
    → (check_and_record_rate_limit last key limits).1 ≡ true
    → All (λ call. IsWithin last key call.1) calls
    → last ≤ now
    → now < last + command_min_interval
    → let limits' = run_checks calls (check_and_record_rate_limit last key limits).0 in
      check_and_record_rate_limit now key limits' ≡ (limits', false)
unfolding check_and_record_rate_limit check_and_record_rate_limit_inner
check_and_record_rate_limit-rejects last now key calls limits accepted within after before =
    let limits' = run_checks calls (check_and_record_rate_limit last key limits).0 in
    let found =
      run_checks-get last key calls (check_and_record_rate_limit last key limits).0 within
        (accepted-get last key limits accepted) in
    let recent : is_recent command_min_interval now (get key limits') ≡ true =
      rw found (ground arith) in
    rw (recent, check_and_record_rate_limit_inner) refl
