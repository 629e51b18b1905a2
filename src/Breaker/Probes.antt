-- ===== src/Breaker/Probes.antt =====
-- Interleavings of the registry's steps (backend/server/src/scheduler/build/circuit_breaker.rs).
use eka_ci.Prelude.{
  ℕ, Bool, false, some, ◌≡◌, ◌≢◌, List, [], ◌∷◌, arith, get, get-insert_ne, get-insert_keeps, ap,
  Option-cases, inl, inr, ◌∙◌,
}
use eka_ci.Prelude.Text.{Text, Text_eq}
use eka_ci.Breaker
use eka_ci.Breaker.{BreakerState, closed, open_until, half_open, BuilderBreaker, new, try_half_open}
use eka_ci.Breaker.Registry.{
  CircuitBreakerRegistry, register, record_failure, record_success, is_available, returned,
  try_recover_begin, try_recover_finish,
}

-- The critical sections of the tasks that share a registry.
pub data Event : Type 0 where
  registers : (name : Text) → Event
  fails : (now : ℕ) (name : Text) → Event
  succeeds : (name : Text) → Event
  recovers : (now : ℕ) (name : Text) → Event
  probed : (now : ℕ) (ok : Bool) (name : Text) → Event

pub step : CircuitBreakerRegistry → Event → CircuitBreakerRegistry
step m (registers name) = register name m
step m (fails now name) = (record_failure now name m).0
step m (succeeds name) = record_success name m
step m (recovers now name) = (try_recover_begin now name m).0
step m (probed now ok name) = (try_recover_finish now ok name m).0

pub run : CircuitBreakerRegistry → List Event → CircuitBreakerRegistry
run m [] = m
run m (e ∷ es) = run (step m e) es

-- No build or probe of `name` ends in this step.
abbrev pub Leaves : Text → Event → Type 0
Leaves n (registers name) = Unit {0}
Leaves n (fails now name) = name ≢ n
Leaves n (succeeds name) = name ≢ n
Leaves n (recovers now name) = Unit {0}
Leaves n (probed now ok name) = name ≢ n

abbrev pub AllLeave : Text → List Event → Type 0
AllLeave n [] = Unit {0}
AllLeave n (e ∷ es) = Leaves n e × AllLeave n es

try_half_open_busy :
    (now : ℕ) (b : BuilderBreaker) → b.state ≡ half_open → try_half_open now b ≡ (b, false)
unfolding try_half_open
try_half_open_busy now b s = ground arith

module _ (m : CircuitBreakerRegistry) (n : Text) (b : BuilderBreaker)
    (found : get n m ≡ some b) where
  -- Two names of one entry: their breakers agree.
  same_entry : (name : Text) (c : BuilderBreaker) → get name m ≡ some c → name ≡ n → c ≡ b
  same_entry name c old e = cc (ap (λ (k : Text). get k m) e)

  recovers_keeps :
      (now : ℕ) (name : Text)
      → b.state ≡ half_open
      → get n (try_recover_begin now name m).0 ≡ some b
  unfolding try_recover_begin
  recovers_keeps now name s = elim (Option-cases (get name m)) [
    | inl fresh ↦ rw (fresh, try_recover_begin) found
    | inr (c, old) ↦
        rw (old, try_recover_begin)
          (ground (
            arith,
            get-insert_keeps name n (try_half_open now c).0 b m found
                (λ e. rw (same_entry name c old e) (ap (λ r. r.0) (try_half_open_busy now b s))),
          ))
  ]

  step-half_open : (e : Event) → b.state ≡ half_open → Leaves n e → get n (step m e) ≡ some b
  unfolding step register record_failure record_success try_recover_begin try_recover_finish
  step-half_open (registers name) s l = elim (Option-cases (get name m)) [
    | inl fresh ↦
        rw (fresh, step, register)
          (get-insert_keeps name n new b m found (λ e. cc (ap (λ (k : Text). get k m) e)))
    | inr (c, old) ↦ rw (old, step, register) found
  ]
  step-half_open (fails now name) s l = elim (Option-cases (get name m)) [
    | inl fresh ↦ rw (fresh, step, record_failure) found
    | inr (c, old) ↦ rw (old, step, record_failure) (get-insert_ne name n _ m l ∙ found)
  ]
  step-half_open (succeeds name) s l = elim (Option-cases (get name m)) [
    | inl fresh ↦ rw (fresh, step, record_success) found
    | inr (c, old) ↦ rw (old, step, record_success) (get-insert_ne name n _ m l ∙ found)
  ]
  step-half_open (recovers now name) s l = recovers_keeps now name s
  step-half_open (probed now ok name) s l = elim (Option-cases (get name m)) [
    | inl fresh ↦ rw (fresh, step, try_recover_finish) found
    | inr (c, old) ↦
        rw (old, step, try_recover_finish)
          (ground (
            arith,
            get-insert_ne name n (Breaker.record_success c) m l,
            get-insert_ne name n (Breaker.record_failure now c).0 m l,
          ))
  ]

run-half_open :
    (m : CircuitBreakerRegistry) (n : Text) (b : BuilderBreaker) (es : List Event)
    → get n m ≡ some b
    → b.state ≡ half_open
    → AllLeave n es
    → get n (run m es) ≡ some b
unfolding run
run-half_open m n b [] found s l = found
run-half_open m n b (e ∷ es) found s l =
    run-half_open (step m e) n b es (step-half_open m n b found e s l.0) s l.1

-- While a probe of a builder is under way, and until a probe or a build of that builder ends,
-- whatever the other tasks do: each check of the registry finds the builder not available, and no second
-- probe starts. A task that asked before the probe is not held back by this.
pub probe_excludes :
    (m : CircuitBreakerRegistry) (n : Text) (b : BuilderBreaker) (es : List Event) (now : ℕ)
    → get n m ≡ some b
    → b.state ≡ half_open
    → AllLeave n es
    → (is_available now n (run m es) ≡ false)
      × ((try_recover_begin now n (run m es)).1 ≡ returned false)
unfolding is_available try_recover_begin Breaker.is_available try_half_open
probe_excludes m n b es now found s l = ground (arith, run-half_open m n b es found s l)
