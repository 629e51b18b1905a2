-- ===== src/Channels/Service/Covered.antt =====
-- A commit that waits has an evaluation of another commit to wait for, and at most one is in flight.
use eka_ci.Prelude.{
  ℕ, ◌≤◌, ◌≡◌, refl, ◌∙◌, sym, subst, Bool, true, false, not, Option, none, some, [], ◌∷◌, get,
  insert, get-insert, any, retain, length, arith, Bool-cases, inl, inr,
}
use eka_ci.Prelude.Text.{Text, Text_eq}
use eka_ci.Channels.Config.{ChannelConfig, channel_id}
use eka_ci.Channels.Store.{
  PromotionStatus, evaluating, ChannelPromotionRow, Rows, is_in_flight, is_attempt, find, new_row,
  finalise_row, finalise_evaluation, get_in_flight, insert_evaluating, insert_skipped,
}
use eka_ci.Channels.State.{ChannelService, drain_pending}
use eka_ci.Channels.Service.Frames.{SameCore, drain_pending-rows, drain_pending-pending}

-- The evaluation in flight, if there is one, is of another commit.
abbrev pub waits_for : Option ChannelPromotionRow → Text → Bool
waits_for none sha = false
waits_for (some row) sha = not (Text_eq.eq row.tracking_sha sha)

-- For the channels that pass the test.
abbrev pub IsCoveredWhere : (Text → Bool) → ChannelService → Type 0
IsCoveredWhere test st =
    (id sha : Text)
    → test id ≡ true
    → get id st.pending ≡ some sha
    → waits_for (get_in_flight id st.rows) sha ≡ true

abbrev pub count_in_flight : Text → Rows → ℕ
count_in_flight id rows = length (retain (is_in_flight id) rows)

pub record IsWell (st : ChannelService) : Type 0 where
  pub covered : IsCoveredWhere (λ id. true) st
  pub exclusive : (id : Text) → count_in_flight id st.rows ≤ 1

-- What holds when an evaluation of one channel has just ended.
pub record IsWellBut (ended : Text) (st : ChannelService) : Type 0 where
  pub covered : IsCoveredWhere (λ id. not (Text_eq.eq ended id)) st
  pub exclusive : (id : Text) → count_in_flight id st.rows ≤ 1

pub SameCore-IsWell : (st st' : ChannelService) → SameCore st st' → IsWell st → IsWell st'
SameCore-IsWell st st' same w = record {
  covered = λ id sha passes waits. rw same.rows (w.covered id sha refl (rw (← same.pending) waits));
  exclusive = λ id. rw same.rows (w.exclusive id);
}

pub SameCore-IsWellBut :
    (ended : Text) (st st' : ChannelService)
    → SameCore st st'
    → IsWellBut ended st
    → IsWellBut ended st'
SameCore-IsWellBut ended st st' same w = record {
  covered =
      λ id sha passes waits. rw same.rows (w.covered id sha passes (rw (← same.pending) waits));
  exclusive = λ id. rw same.rows (w.exclusive id);
}

module _ (id sha : Text) (status : PromotionStatus) (reason results previous : Option Text) where
  abbrev finalised : ChannelPromotionRow → ChannelPromotionRow
  finalised = finalise_row id sha status reason results previous

  abbrev all_finalised : Rows → Rows
  all_finalised = finalise_evaluation id sha status reason results previous

  -- A row of another channel stays as it is.
  finalised_other :
      (j : Text) (row : ChannelPromotionRow)
      → Text_eq.eq id j ≡ false
      → is_in_flight j row ≡ true
      → finalised row ≡ row
  unfolding is_in_flight finalise_row is_attempt
  finalised_other j row other flies = ground (
    arith,
    other,
    flies,
    Text_eq.eq_iff row.channel id,
    Text_eq.eq_iff row.channel j,
    Text_eq.eq_iff id j,
  )

  -- No row starts to fly.
  finalised-is_in_flight :
      (j : Text) (row : ChannelPromotionRow)
      → is_in_flight j row ≡ false
      → is_in_flight j (finalised row) ≡ false
  unfolding is_in_flight finalise_row is_attempt
  finalised-is_in_flight j row down = ground (arith, down)

  finalised_in_flight :
      (j : Text) (rows : Rows)
      → Text_eq.eq id j ≡ false
      → get_in_flight j (all_finalised rows) ≡ get_in_flight j rows
  unfolding get_in_flight find finalise_evaluation
  finalised_in_flight j [] other = refl
  finalised_in_flight j (row ∷ rows) other = elim (Bool-cases (is_in_flight j row)) [
    | inl flies ↦ rw (finalised_other j row other flies, flies) refl
    | inr down ↦ rw (finalised-is_in_flight j row down, down) (finalised_in_flight j rows other)
  ]

  finalised_count :
      (j : Text) (rows : Rows) → count_in_flight j (all_finalised rows) ≤ count_in_flight j rows
  unfolding finalise_evaluation retain
  finalised_count j [] = omega arith
  finalised_count j (row ∷ rows) =
      ground (arith, finalised_count j rows, finalised-is_in_flight j row)

  pub finalise-IsWellBut :
      (st : ChannelService) → IsWell st → IsWellBut id (record st { rows = all_finalised st.rows })
  finalise-IsWellBut st w = record {
    covered = λ j sha' other waits.
        rw (finalised_in_flight j st.rows (ground (arith, other))) (w.covered j sha' refl waits);
    exclusive = λ j. omega (arith, finalised_count j st.rows, w.exclusive j);
  }

pub drain_pending-IsWell :
    (c : ChannelConfig) (st : ChannelService)
    → IsWellBut (channel_id c) st
    → IsWell (drain_pending c st).0
drain_pending-IsWell c st w = record {
  covered = λ id sha passes waits.
      let left = sym (drain_pending-pending c st id) ∙ waits in
      rw (drain_pending-rows c st) (w.covered id sha (ground (arith, left)) (ground (arith, left)));
  exclusive = λ id. rw (drain_pending-rows c st) (w.exclusive id);
}

pub insert_skipped-IsWell :
    (id sha target : Text) (st : ChannelService)
    → IsWell st
    → IsWell (record st { rows = insert_skipped id sha target st.rows })
unfolding insert_skipped get_in_flight find is_in_flight retain
insert_skipped-IsWell id sha target st w = record {
  covered = λ j sha' passes waits. ground (arith, w.covered j sha' refl waits);
  exclusive = λ j. ground (arith, w.exclusive j);
}

pub insert_skipped-in_flight :
    (id sha target j : Text) (rows : Rows)
    → get_in_flight j (insert_skipped id sha target rows) ≡ get_in_flight j rows
unfolding insert_skipped get_in_flight find is_in_flight
insert_skipped-in_flight id sha target j rows = ground arith

pub wait-IsWell :
    (id sha : Text) (st : ChannelService)
    → waits_for (get_in_flight id st.rows) sha ≡ true
    → IsWell st
    → IsWell (record st { pending = insert id sha st.pending })
wait-IsWell id sha st flies w = record {
  covered = λ j sha' passes waits. elim (Bool-cases (Text_eq.eq id j)) [
    | inl same ↦
        let found = sym (get-insert id j sha st.pending) ∙ waits in
        let here : id ≡ j = (Text_eq.eq_iff id j).0 same in
        let last : sha ≡ sha' = ground (arith, same, found) in
        subst (λ k. waits_for (get_in_flight k st.rows) sha' ≡ true) here
          (subst (λ s. waits_for (get_in_flight id st.rows) s ≡ true) last flies)
    | inr other ↦
        w.covered j sha' refl (ground (arith, waits, other, get-insert id j sha st.pending))
  ];
  exclusive = w.exclusive;
}

idle-count : (id : Text) (rows : Rows) → get_in_flight id rows ≡ none → count_in_flight id rows ≡ 0
unfolding get_in_flight find retain
idle-count id [] idle = refl
idle-count id (row ∷ rows) idle = ground (arith, idle, idle-count id rows)

idle-any :
    (id : Text) (rows : Rows) → get_in_flight id rows ≡ none → any (is_in_flight id) rows ≡ false
unfolding get_in_flight find any
idle-any id [] idle = refl
idle-any id (row ∷ rows) idle = ground (arith, idle, idle-any id rows)

-- The index refuses nothing where none is in flight.
pub idle-insert_evaluating :
    (id sha target : Text) (rows : Rows)
    → get_in_flight id rows ≡ none
    → insert_evaluating id sha target rows ≡ some (new_row id sha target evaluating ∷ rows)
unfolding insert_evaluating
idle-insert_evaluating id sha target rows idle = rw (idle-any id rows idle) refl

pub open-IsWell :
    (id sha target : Text) (st : ChannelService)
    → get_in_flight id st.rows ≡ none
    → IsWell st
    → IsWell (record st { rows = new_row id sha target evaluating ∷ st.rows })
unfolding get_in_flight find retain is_in_flight
open-IsWell id sha target st idle w = record {
  covered = λ j sha' passes waits.
      let old = w.covered j sha' refl waits in
      elim (Bool-cases (Text_eq.eq id j)) [
        | inl same ↦
            let here : id ≡ j = (Text_eq.eq_iff id j).0 same in
            cc (subst (λ k. get_in_flight k st.rows ≡ none) here idle, old)
        | inr other ↦ rw other old
      ];
  exclusive = λ j. elim (Bool-cases (Text_eq.eq id j)) [
    | inl same ↦
        let here : id ≡ j = (Text_eq.eq_iff id j).0 same in
        rw same (
          omega
            (arith, subst (λ k. count_in_flight k st.rows ≡ 0) here (idle-count id st.rows idle)))
    | inr other ↦ rw other (w.exclusive j)
  ];
}
