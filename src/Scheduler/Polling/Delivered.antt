-- ===== src/Scheduler/Polling/Delivered.antt =====
-- What becomes of the requests that wait for their platform.
use eka_ci.Prelude.{
  ℕ, ◌≡◌, refl, sym, ap, ◌∙◌, true, Option, List, [], ◌∷◌, ◌++◌, contains, Bool-cases, inl, inr,
  get,
}
use mathlib.Core.List.{append_assoc, append-nil}
use eka_ci.Prelude.Text.{Text_eq}
use eka_ci.Drv.{Drv}
use eka_ci.Scheduler.Pending.{
  Platform, Pending, waiting, classify_and_enqueue, drain, of_platform, of_platform-cons,
  dispatch_lem, waiting-drain, waiting-classify_and_enqueue,
}
use eka_ci.Scheduler.Polling.{
  Awaited, cancelled_wait, channel_closed, received, Round, dispatch_queue, dispatch_all, Run,
  after_round, stopped, all_empty, wait_for_request, poll_for_builds,
}

-- What a platform is sent, in the order of the iterations.
unfoldable pub sent_to : Platform → List Pending → List Drv
sent_to p [] = []
sent_to p (sent ∷ sents) = waiting p sent ++ sent_to p sents

of_platform-append :
    (default_platform : Option Platform) (p : Platform) (xs ys : List Drv)
    → of_platform default_platform p (xs ++ ys)
      ≡ of_platform default_platform p xs ++ of_platform default_platform p ys
unfolding of_platform
of_platform-append d p [] ys = refl
of_platform-append d p (x ∷ xs) ys =
    of_platform-cons d p x (xs ++ ys)
    ∙ ap (λ r. of_platform d p (x ∷ []) ++ r) (of_platform-append d p xs ys)
    ∙ sym (append_assoc (of_platform d p (x ∷ [])) (of_platform d p xs) (of_platform d p ys))
    ∙ ap (λ r. r ++ of_platform d p ys) (sym (of_platform-cons d p x xs))

-- An iteration splits what waits for a platform with a queue.
waiting-dispatch_all :
    (senders : List Platform) (room : Platform → ℕ) (p : Platform) (pending : Pending)
    → contains senders p ≡ true
    → waiting p (dispatch_all senders room pending).0
        ++ waiting p (dispatch_all senders room pending).1
      ≡ waiting p pending
unfolding get dispatch_all dispatch_queue
waiting-dispatch_all senders room p [] known = refl
waiting-dispatch_all senders room p ((q, queue) ∷ pending) known =
    elim (Bool-cases (Text_eq.eq q p)) [
      | inl same ↦
          let here : contains senders q ≡ true =
            ap (contains senders) ((Text_eq.eq_iff q p).0 same) ∙ known in
          rw (same, here) (dispatch_lem (room q) queue).0
      | inr other ↦ rw other (waiting-dispatch_all senders room p pending known)
    ]

module _ (senders : List Platform) (default_platform : Option Platform) (p : Platform)
    (known : contains senders p ≡ true) where
  of_p : List Drv → List Drv
  of_p = of_platform default_platform p

  -- The requests of the platform are among what was sent to it and what still waits.
  IsKept : Run → Pending → Type 0
  IsKept run pending =
      sent_to p run.sent ++ waiting p run.pending ≡ waiting p pending ++ of_p run.taken

  after_round-IsKept :
      (round : Round) (taken takes : List Drv) (pending next : Pending) (run : Run)
      → takes ≡ round.arrived ++ taken
      → let drained = drain default_platform round.arrived pending in
        let (sent, left) = dispatch_all senders round.room drained in
        waiting p next ≡ waiting p left ++ of_p taken
        → IsKept run next
        → IsKept (after_round sent takes run) pending
  unfolding sent_to of_p IsKept
  after_round-IsKept round taken takes pending next run took follows kept =
      let drained = drain default_platform round.arrived pending in
      let (sent, left) = dispatch_all senders round.room drained in
      let ps = waiting p pending in
      let arrived = of_p round.arrived in
      let ts = of_p taken in
      let rs = of_p run.taken in
      append_assoc (waiting p sent) (sent_to p run.sent) (waiting p run.pending)
      ∙ ap (λ r. waiting p sent ++ r)
          (kept ∙ ap (λ r. r ++ rs) follows ∙ append_assoc (waiting p left) ts rs)
      ∙ sym (append_assoc (waiting p sent) (waiting p left) (ts ++ rs))
      ∙ ap (λ r. r ++ (ts ++ rs))
          (waiting-dispatch_all senders round.room p drained known
            ∙ waiting-drain default_platform p round.arrived pending)
      ∙ append_assoc ps arrived (ts ++ rs)
      ∙ ap (λ r. ps ++ r)
          (sym (append_assoc arrived ts rs)
            ∙ ap (λ r. r ++ rs)
                (sym (ap of_p took ∙ of_platform-append default_platform p round.arrived taken))
            ∙ sym (of_platform-append default_platform p takes run.taken))

  stopped-IsKept : (pending : Pending) → IsKept (stopped pending) pending
  unfolding sent_to of_p IsKept of_platform
  stopped-IsKept pending = sym (append-nil (waiting p pending))

  -- An iteration after which nothing comes from outside.
  left-IsKept :
      (round : Round) (pending : Pending) (run : Run)
      → let drained = drain default_platform round.arrived pending in
        let (sent, left) = dispatch_all senders round.room drained in
        IsKept run left → IsKept (after_round sent round.arrived run) pending
  unfolding of_p of_platform
  left-IsKept round pending run =
      let drained = drain default_platform round.arrived pending in
      let left = (dispatch_all senders round.room drained).1 in
      after_round-IsKept round [] round.arrived pending left run (sym (append-nil round.arrived))
        (sym (append-nil (waiting p left)))

  wait-IsKept :
      (awaited : Awaited) (round : Round) (rounds : List Round) (pending : Pending)
      → ((next : Pending) → IsKept (poll_for_builds senders default_platform rounds next) next)
      → let drained = drain default_platform round.arrived pending in
        let (sent, left) = dispatch_all senders round.room drained in
        IsKept
          (wait_for_request senders default_platform awaited sent round.arrived left
            (poll_for_builds senders default_platform rounds))
          pending
  unfolding of_p
  wait-IsKept cancelled_wait round rounds pending kept =
      let drained = drain default_platform round.arrived pending in
      let left = (dispatch_all senders round.room drained).1 in
      left-IsKept round pending (stopped left) (stopped-IsKept left)
  wait-IsKept channel_closed round rounds pending kept =
      let drained = drain default_platform round.arrived pending in
      let left = (dispatch_all senders round.room drained).1 in
      left-IsKept round pending (stopped left) (stopped-IsKept left)
  wait-IsKept (received request) round rounds pending kept =
      let drained = drain default_platform round.arrived pending in
      let left = (dispatch_all senders round.room drained).1 in
      let next = classify_and_enqueue default_platform request left in
      after_round-IsKept round (request ∷ []) (round.arrived ++ (request ∷ [])) pending next
        (poll_for_builds senders default_platform rounds next) refl
        (waiting-classify_and_enqueue default_platform p request left) (kept next)

  poll_for_builds-IsKept :
      (rounds : List Round) (pending : Pending)
      → IsKept (poll_for_builds senders default_platform rounds pending) pending
  unfolding poll_for_builds IsKept of_p sent_to
  poll_for_builds-IsKept [] pending = stopped-IsKept pending
  poll_for_builds-IsKept (round ∷ rounds) pending =
      let drained = drain default_platform round.arrived pending in
      let (sent, left) = dispatch_all senders round.room drained in
      elim (Bool-cases round.cancelled) [
        | inl over ↦ rw (poll_for_builds, over) (stopped-IsKept pending)
        | inr on ↦ elim (Bool-cases round.disconnected) [
          | inl closed ↦
              rw (poll_for_builds, on, closed)
                (waiting-drain default_platform p round.arrived pending)
          | inr alive ↦ elim (Bool-cases (all_empty left)) [
            | inl idle ↦
                rw (poll_for_builds, on, alive, idle)
                  (wait-IsKept round.awaited round rounds pending (poll_for_builds-IsKept rounds))
            | inr busy ↦
                rw (poll_for_builds, on, alive, busy)
                  (left-IsKept round pending (poll_for_builds senders default_platform rounds left)
                    (poll_for_builds-IsKept rounds left))
          ]
        ]
      ]

-- Whatever the loop of the build queue meets, for a platform that has a queue the requests that were
-- sent there and those that still wait for it are, in this order, exactly the requests for it that were
-- taken from the channel: none is lost, none is sent twice, and none is overtaken.
pub poll_for_builds-keeps :
    (senders : List Platform) (default_platform : Option Platform) (rounds : List Round)
    (p : Platform)
    → contains senders p ≡ true
    → let run = poll_for_builds senders default_platform rounds [] in
      sent_to p run.sent ++ waiting p run.pending ≡ of_platform default_platform p run.taken
unfolding IsKept of_p of_platform get
poll_for_builds-keeps senders default_platform rounds p known =
    poll_for_builds-IsKept senders default_platform p known rounds []
