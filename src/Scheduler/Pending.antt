-- ===== src/Scheduler/Pending.antt =====
-- `BuildQueue` of backend/server/src/scheduler/build/queue.rs: the requests that wait for their
-- platform's queue.
use eka_ci.Prelude.{
  ℕ, zero, suc, ◌≡◌, refl, sym, ◌∙◌, ap, Option, none, some, List, [], ◌∷◌, ◌++◌, if◌then◌else◌,
  HashMap, get, insert, get-insert, arith, length, Option-cases, Bool-cases, inl, inr, min,
}
use eka_ci.Prelude.Text.{Text, text, Text_eq}
use eka_ci.Drv.{Drv}
use eka_ci.Graph.State.{or_empty}

abbrev pub Platform : Type 0
Platform = Text

abbrev pub Pending : Type 0
Pending = HashMap Platform (List Drv)

-- The platform of a request, nothing where `builtin` has none.
unfoldable pub platform_of : Option Platform → Drv → Option Platform
platform_of default_platform request =
    if Text_eq.eq request.system (text "builtin") then default_platform else some request.system

abbrev pub waiting : Platform → Pending → List Drv
waiting p pending = or_empty (get p pending)

-- A request without a platform is dropped.
unfoldable pub classify_and_enqueue : Option Platform → Drv → Pending → Pending
classify_and_enqueue default_platform request pending =
    elim (platform_of default_platform request) [
      | none ↦ pending
      | some p ↦ insert p (waiting p pending ++ request ∷ []) pending
    ]

-- The requests that the channel holds, drained in a row.
unfoldable pub drain : Option Platform → List Drv → Pending → Pending
drain default_platform [] pending = pending
drain default_platform (request ∷ requests) pending =
    drain default_platform requests (classify_and_enqueue default_platform request pending)

-- `try_reserve` in a loop, for a platform's queue with room for so many: what is sent, and what stays.
unfoldable pub dispatch : ℕ → List Drv → List Drv × List Drv
dispatch room [] = ([], [])
dispatch zero (request ∷ queue) = ([], request ∷ queue)
dispatch (suc room) (request ∷ queue) =
    let (sent, left) = dispatch room queue in (request ∷ sent, left)

-- The requests of a platform among those that arrive, in their order.
unfoldable pub of_platform : Option Platform → Platform → List Drv → List Drv
of_platform default_platform p [] = []
of_platform default_platform p (request ∷ requests) =
    let rest = of_platform default_platform p requests in
    elim (platform_of default_platform request) [
      | none ↦ rest
      | some q ↦ if Text_eq.eq q p then request ∷ rest else rest
    ]

append_assoc {ℓ} : {A : Type ℓ} (xs ys zs : List A) → (xs ++ ys) ++ zs ≡ xs ++ (ys ++ zs)
append_assoc [] ys zs = refl
append_assoc (x ∷ xs) ys zs = ap (λ r. x ∷ r) (append_assoc xs ys zs)

append_nil {ℓ} : {A : Type ℓ} (xs : List A) → xs ++ [] ≡ xs
append_nil [] = refl
append_nil (x ∷ xs) = ap (λ r. x ∷ r) (append_nil xs)

pub of_platform-cons :
    (default_platform : Option Platform) (p : Platform) (request : Drv) (requests : List Drv)
    → of_platform default_platform p (request ∷ requests)
      ≡ of_platform default_platform p (request ∷ []) ++ of_platform default_platform p requests
unfolding of_platform
of_platform-cons default_platform p request requests =
    elim (Option-cases (platform_of default_platform request)) [
      | inl e ↦ rw (e, of_platform) refl
      | inr (q, e) ↦ elim (Bool-cases (Text_eq.eq q p)) [
        | inl f ↦ rw (e, of_platform, f) refl
        | inr f ↦ rw (e, of_platform, f) refl
      ]
    ]

pub waiting-classify_and_enqueue :
    (default_platform : Option Platform) (p : Platform) (request : Drv) (pending : Pending)
    → waiting p (classify_and_enqueue default_platform request pending)
      ≡ waiting p pending ++ of_platform default_platform p (request ∷ [])
unfolding of_platform classify_and_enqueue
waiting-classify_and_enqueue default_platform p request pending =
    elim (Option-cases (platform_of default_platform request)) [
      | inl e ↦ rw (e, of_platform, classify_and_enqueue) (sym (append_nil (waiting p pending)))
      | inr (q, e) ↦ elim (Bool-cases (Text_eq.eq q p)) [
        | inl f ↦
            rw
              (
                e,
                of_platform,
                classify_and_enqueue,
                f,
                get-insert q p (waiting q pending ++ request ∷ []) pending,
                f,
              )
              (ap (λ k. waiting k pending ++ request ∷ []) ((Text_eq.eq_iff q p).0 f))
        | inr f ↦
            rw
              (
                e,
                of_platform,
                classify_and_enqueue,
                f,
                get-insert q p (waiting q pending ++ request ∷ []) pending,
                f,
              )
              (sym (append_nil (waiting p pending)))
      ]
    ]

-- After the channel is drained, each platform's requests wait behind those that waited before, all
-- of them, in the order of their arrival, and none of another platform.
pub waiting-drain :
    (default_platform : Option Platform) (p : Platform) (requests : List Drv) (pending : Pending)
    → waiting p (drain default_platform requests pending)
      ≡ waiting p pending ++ of_platform default_platform p requests
unfolding drain of_platform
waiting-drain default_platform p [] pending = sym (append_nil (waiting p pending))
waiting-drain default_platform p (request ∷ requests) pending =
    waiting-drain default_platform p requests
      (classify_and_enqueue default_platform request pending)
    ∙ ap (λ r. r ++ of_platform default_platform p requests)
        (waiting-classify_and_enqueue default_platform p request pending)
    ∙ append_assoc (waiting p pending) (of_platform default_platform p (request ∷ []))
        (of_platform default_platform p requests)
    ∙ ap (λ r. waiting p pending ++ r) (sym (of_platform-cons default_platform p request requests))

-- A dispatch sends the oldest requests, as many as there is room for, and keeps the others in their
-- order: none is lost or sent twice.
pub dispatch_lem :
    (room : ℕ) (queue : List Drv)
    → ((dispatch room queue).0 ++ (dispatch room queue).1 ≡ queue)
      × (length (dispatch room queue).0 ≡ min room (length queue))
unfolding dispatch
dispatch_lem room [] = (refl, omega arith)
dispatch_lem zero (request ∷ queue) = (refl, omega arith)
dispatch_lem (suc room) (request ∷ queue) =
    let rest = dispatch_lem room queue in (ap (λ r. request ∷ r) rest.0, omega (arith, rest.1))
