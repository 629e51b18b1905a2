-- ===== src/Channels/Latest.antt =====
-- The newest commit waits, and every other one is recorded.
use eka_ci.Prelude.{
  ◌≡◌, refl, sym, subst, ◌∙◌, ap, Bool, true, false, not, ◌&&◌, ◌||◌, Option, none, some, List, [],
  ◌∷◌, ◌++◌, if◌then◌else◌, arith, Bool-cases, Option-cases, inl, inr, contains, contains-append,
  retain,
}
use eka_ci.Prelude.Text.{Text, Text_eq}
use eka_ci.Channels.{
  CoalesceAction, already_in_flight, defer_as_pending, coalesce, Channel, as_list, apply_action,
  handle_evaluate_push, handle_pushes,
}

-- The pushes that count: not decided, and not the commit in flight.
abbrev pub is_candidate : (Text → Bool) → Text → Text → Bool
is_candidate decided flight sha = not (decided sha) && not (Text_eq.eq flight sha)

-- The last candidate, or the commit that was pending before.
unfoldable pub latest : (Text → Bool) → Text → List Text → Option Text → Option Text
latest decided flight [] pending = pending
latest decided flight (sha ∷ shas) pending =
    latest decided flight shas (if is_candidate decided flight sha then some sha else pending)

-- The commits that wait or were recorded as skipped.
abbrev pub recorded : Channel → List Text
recorded c = c.skipped ++ as_list c.pending

recorded-contains :
    (c : Channel) (o : Option Text) (a : Text)
    → c.pending ≡ o
    → contains (recorded c) a ≡ (contains c.skipped a || contains (as_list o) a)
recorded-contains c o a h =
    contains-append c.skipped (as_list c.pending) a
    ∙ ap (λ p. contains c.skipped a || contains (as_list p) a) h

superseded :
    (c : Channel) (o : Option Text) (sha a : Text)
    → c.pending ≡ o
    → contains ((c.skipped ++ as_list o) ++ sha ∷ []) a
      ≡ (contains (recorded c) a || Text_eq.eq sha a)
unfolding contains
superseded c o sha a h = ground (
  arith,
  contains-append (c.skipped ++ as_list o) (sha ∷ []) a,
  contains-append c.skipped (as_list o) a,
  recorded-contains c o a h,
)

pending_again :
    (c : Channel) (prev sha a : Text)
    → c.pending ≡ some prev
    → Text_eq.eq prev sha ≡ true
    → contains (recorded c) a ≡ (contains (recorded c) a || Text_eq.eq sha a)
unfolding contains
pending_again c prev sha a h same =
    let here : prev ≡ sha = (Text_eq.eq_iff prev sha).0 same in
    let waits = subst (λ k. c.pending ≡ some k) here h in
    ground (arith, recorded-contains c (some sha) a waits)

contains-retain_cons :
    (p : Text → Bool) (sha : Text) (shas : List Text) (a : Text) (before : Bool)
    → ((before || (p sha && Text_eq.eq sha a)) || contains (retain p shas) a)
      ≡ (before || contains (retain p (sha ∷ shas)) a)
unfolding contains retain
contains-retain_cons p sha shas a before = ground arith

retain_none :
    (p : Text → Bool) (a : Text) (before : Bool) → before ≡ (before || contains (retain p []) a)
unfolding contains retain
retain_none p a before = ground arith

coalesce-same :
    (flight sha : Text) (pending : Option Text)
    → Text_eq.eq flight sha ≡ true
    → coalesce (some flight) pending sha ≡ already_in_flight
unfolding coalesce
coalesce-same flight sha none h = rw h refl
coalesce-same flight sha (some prev) h = rw h refl

module _ (decided : Text → Bool) (flight : Text) where
  -- One push while an evaluation is in flight.
  abbrev IsPushed : Text → Channel → Channel → Type 0
  IsPushed sha c c' =
      (c'.in_flight ≡ some flight)
      × (c'.pending ≡ (if is_candidate decided flight sha then some sha else c.pending))
      × (c'.started ≡ c.started)
      × ((a : Text)
          → contains (recorded c') a
            ≡ (contains (recorded c) a || (is_candidate decided flight sha && Text_eq.eq sha a)))

  applied :
      (sha : Text) (c : Channel) (action : CoalesceAction)
      → decided sha ≡ false
      → coalesce c.in_flight c.pending sha ≡ action
      → IsPushed sha c (apply_action sha action c)
      → IsPushed sha c (handle_evaluate_push decided sha c)
  unfolding handle_evaluate_push
  applied sha c action open_ chosen done =
      let acts = subst (λ x. IsPushed sha c (apply_action sha x c)) (sym chosen) done in
      subst
        (λ (b : Bool).
          IsPushed sha c (if b then c else apply_action sha (coalesce c.in_flight c.pending sha) c))
        (sym open_) acts

  push_in_flight :
      (sha : Text) (c : Channel)
      → c.in_flight ≡ some flight
      → IsPushed sha c (handle_evaluate_push decided sha c)
  unfolding handle_evaluate_push coalesce apply_action
  push_in_flight sha c h = elim (Bool-cases (decided sha)) [
    | inl over ↦ rw (over, handle_evaluate_push) (h, refl, refl, λ a. ground arith)
    | inr open_ ↦ elim (Bool-cases (Text_eq.eq flight sha)) [
      | inl same ↦
          applied sha c already_in_flight open_ (rw h (coalesce-same flight sha c.pending same))
            (rw (open_, same) (h, refl, refl, λ a. ground arith))
      | inr other ↦ elim (Option-cases c.pending) [
        | inl empty ↦
            applied sha c (defer_as_pending none) open_ (rw (h, empty, coalesce, other) refl)
              (rw (open_, other) (h, refl, refl, λ a. superseded c none sha a empty))
        | inr (prev, waits) ↦ elim (Bool-cases (Text_eq.eq prev sha)) [
          | inl again ↦
              applied sha c already_in_flight open_ (rw (h, waits, coalesce, other, again) refl) (
                rw (open_, other)
                  (
                    h,
                    waits ∙ ap some ((Text_eq.eq_iff prev sha).0 again),
                    refl,
                    λ a. pending_again c prev sha a waits again,
                  ))
          | inr newer ↦
              applied sha c (defer_as_pending (some prev)) open_
                (rw (h, waits, coalesce, other, newer) refl)
                (rw (open_, other) (h, refl, refl, λ a. superseded c (some prev) sha a waits))
        ]
      ]
    ]
  ]

  -- While an evaluation is in flight, any pushes leave it there and start no other. The last push that is
  -- neither decided nor in flight is then the pending one, or the one that was pending before if there
  -- is none; and exactly the commits that were so pushed, or were recorded before, are pending or
  -- recorded as skipped.
  pub handle_pushes-latest :
      (shas : List Text) (c : Channel)
      → c.in_flight ≡ some flight
      → let c' = handle_pushes decided shas c in
        (c'.in_flight ≡ some flight)
        × (c'.started ≡ c.started)
        × (c'.pending ≡ latest decided flight shas c.pending)
        × ((a : Text)
            → contains (recorded c') a
              ≡ (contains (recorded c) a || contains (retain (is_candidate decided flight) shas) a))
  unfolding handle_pushes latest
  handle_pushes-latest [] c h =
      (h, refl, refl, λ a. retain_none (is_candidate decided flight) a (contains (recorded c) a))
  handle_pushes-latest (sha ∷ shas) c h =
      let c1 = handle_evaluate_push decided sha c in
      let (flies, waits, begun, has) = push_in_flight sha c h in
      let (flies', begun', waits', has') = handle_pushes-latest shas c1 flies in
      (
        flies',
        begun' ∙ begun,
        waits' ∙ ap (latest decided flight shas) waits,
        λ a.
            has' a
            ∙ ap (λ b. b || contains (retain (is_candidate decided flight) shas) a) (has a)
            ∙ contains-retain_cons (is_candidate decided flight) sha shas a
                (contains (recorded c) a),
      )
