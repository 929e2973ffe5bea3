-- ===== src/Fulfillment/Unpaid.antt =====
-- About the stamp handler on an order that was not paid when it was loaded.
use spacerocks_coa.Base.{
  ℕ, ◌≡◌, ◌≢◌, ◌∙◌, sym, subst, String, Option, none, some, arith, Result, ok, Result-cases,
  Option-cases, Bool-cases, inl, inr,
}
use spacerocks_coa.Order.{
  FulfillmentState, paid, queued, stamping, fulfillment_eq, transition_fulfillment,
  calendar_pending,
}
use spacerocks_coa.Db.{Db, Order, StateEvent}
use spacerocks_coa.Orders.{find_order, save_order, insert_state_event}
use spacerocks_coa.Orders.Keys.{joined, decimal_string}
use spacerocks_coa.Proofs.Models.{StoredProof}
use spacerocks_coa.Proofs.Rows.{save_calendar_time, merge_calendar_time}
use spacerocks_coa.Fulfillment.Repository.{
  FulfillmentOrder, order_state, find_state_event, get_for_fulfillment, transition_fulfillment_once,
  make_transition, repeat_transition,
}
use spacerocks_coa.Fulfillment.Steps.{
  Surroundings, Tools, Program, commit, after, load, read_latest, move,
}
use spacerocks_coa.Fulfillment.Stamping.{
  PendingProof, stamp_handler, first_stamp, replay_stamp, check_stored, catch_up,
}
use spacerocks_coa.Fulfillment.Observing.{after_holds, given_holds}

-- other processes add no proof
abbrev pub KeepsProofs : Surroundings → Type 0
KeepsProofs around =
    (step : ℕ) (db : Db) → (around.others step db).proof_versions ≡ db.proof_versions

repeat_transition-proofs :
    (isoformat : ℕ → String) (order : Order) (event : StateEvent) (target : FulfillmentState)
    (time : Option ℕ) (db : Db) (r : FulfillmentOrder × Db)
    → repeat_transition isoformat order event target time db ≡ ok r
    → r.1.proof_versions ≡ db.proof_versions
unfolding repeat_transition save_calendar_time
repeat_transition-proofs isoformat order event target time db r e =
    elim (Result-cases (merge_calendar_time order time)) [
      | inr (x, p) ↦ absurd (ground arith)
      | inl (merged, p) ↦ ground arith
    ]

make_transition-proofs :
    (isoformat : ℕ → String) (order : Order) (target : FulfillmentState) (key : String)
    (time : Option ℕ) (now : ℕ) (db : Db) (r : FulfillmentOrder × Db)
    → make_transition isoformat order target key time now db ≡ ok r
    → r.1.proof_versions ≡ db.proof_versions
unfolding make_transition save_order insert_state_event
make_transition-proofs isoformat order target key time now db r e =
    elim (Result-cases (transition_fulfillment (order_state order) target)) [
      | inr (x, p) ↦ absurd (ground arith)
      | inl (state, p) ↦ elim (Result-cases (merge_calendar_time order time)) [
        | inr (x, q) ↦ absurd (ground arith)
        | inl (merged, q) ↦ ground arith
      ]
    ]

transition_once-proofs :
    (isoformat : ℕ → String) (order_id : ℕ) (target : FulfillmentState) (key : String)
    (time : Option ℕ) (now : ℕ) (db : Db) (r : FulfillmentOrder × Db)
    → transition_fulfillment_once isoformat order_id target key time now db ≡ ok r
    → r.1.proof_versions ≡ db.proof_versions
unfolding transition_fulfillment_once
transition_once-proofs isoformat order_id target key time now db r e =
    elim (Option-cases (find_order db order_id)) [
      | inl p ↦ absurd (ground arith)
      | inr (order, p) ↦ elim (Option-cases (find_state_event db order.id key)) [
        | inl q ↦ make_transition-proofs isoformat order target key time now db r (ground arith)
        | inr (event, q) ↦
            repeat_transition-proofs isoformat order event target time db r (ground arith)
      ]
    ]

module _ (tools : Tools) (around : Surroundings) (keeps : KeepsProofs around) (db : Db) where
  -- the proofs are those of before
  abbrev pub SameProofs : Db → Type 0
  SameProofs d = d.proof_versions ≡ db.proof_versions

  move_holds :
      (step order_id : ℕ) (target : FulfillmentState) (key : String) (time : Option ℕ) (d : Db)
      → SameProofs d
      → SameProofs (move tools around step order_id target key time d).1
  unfolding move
  move_holds step order_id target key time d same =
      let seen = around.others step d in
      let call =
        transition_fulfillment_once tools.isoformat order_id target key time (around.clock step)
          seen in
      elim (Result-cases call) [
        | inr (x, p) ↦ subst (λ r. SameProofs (commit r seen).1) (sym p) (keeps step d ∙ same)
        | inl (r, p) ↦
            subst (λ r. SameProofs (commit r seen).1) (sym p)
              (transition_once-proofs tools.isoformat order_id target key time (around.clock step)
                  seen r p
                ∙ (keeps step d ∙ same))
      ]

  moved_holds :
      (step order_id : ℕ) (target : FulfillmentState) (key : String) (time : Option ℕ) (d : Db)
      (next : FulfillmentOrder → Program (Unit {0}))
      → SameProofs d
      → ((order : FulfillmentOrder) (x : Db) → SameProofs x → SameProofs (next order x).1)
      → SameProofs (after (move tools around step order_id target key time d) next).1
  moved_holds step order_id target key time d next same then_same =
      let moved = move tools around step order_id target key time d in
      let kept = move_holds step order_id target key time d same in
      after_holds SameProofs moved next kept (λ order e. then_same order moved.1 kept)

  catch_up_holds :
      (order_id : ℕ) (state : FulfillmentState) (stored : StoredProof) (d : Db)
      → SameProofs d
      → SameProofs (catch_up tools around order_id state stored d).1
  unfolding catch_up
  catch_up_holds order_id state stored d same =
      let time = some stored.calendar_submitted_at in
      let last = joined "stamp-replay-v" (decimal_string stored.version) in
      let pending = λ (x : Db) (s : SameProofs x).
        moved_holds 3 order_id calendar_pending last time x (λ _ end. (ok tt, end)) s
          (λ order y k. k) in
      elim (Bool-cases (fulfillment_eq state queued)) [
        | inl p ↦ rw p (
            moved_holds 2 order_id stamping
              (joined "stamp-replay-start-v" (decimal_string stored.version)) time d
              (λ order x.
                after (move tools around 3 order_id calendar_pending last time x)
                  (λ _ end. (ok tt, end)))
              same (λ order x k. pending x k))
        | inr p ↦ rw p (elim (Bool-cases (fulfillment_eq state stamping)) [
          | inl q ↦ rw q (pending d same)
          | inr q ↦ rw q same
        ])
      ]

  module _ (stamp : ℕ → Result PendingProof) (order_id : ℕ) (order : FulfillmentOrder)
      (unpaid : order.state.payment ≢ paid) where
    first_holds :
        (d : Db) → SameProofs d → SameProofs (first_stamp tools around stamp order_id order d).1
    unfolding first_stamp
    first_holds d same = ground arith

    abbrev answered : Option StoredProof → Program (Unit {0})
    answered latest d = elim latest [
      | some stored ↦ replay_stamp tools around order_id order stored d
      | none ↦ first_stamp tools around stamp order_id order d
    ]

    answered_holds :
        (latest : Option StoredProof) (d : Db) → SameProofs d → SameProofs (answered latest d).1
    unfolding replay_stamp
    answered_holds none d same = first_holds d same
    answered_holds (some stored) d same =
        given_holds SameProofs (check_stored tools around order stored)
          (λ u. catch_up tools around order_id order.state.fulfillment stored) d same
          (λ u e. catch_up_holds order_id order.state.fulfillment stored d same)

    abbrev read : Program (Option StoredProof)
    read d = read_latest tools around 1 order.state.snapshot.order_reference d

    read_holds : (d : Db) → SameProofs d → SameProofs (after (read d) answered).1
    unfolding read_latest
    read_holds d same =
        let kept = keeps 1 d ∙ same in
        after_holds SameProofs (read d) answered kept
          (λ latest e. answered_holds latest (around.others 1 d) kept)

    load-ok :
        get_for_fulfillment order_id (around.others 0 db) ≡ some order
        → load tools around order_id db ≡ (ok order, around.others 0 db)
    unfolding load
    load-ok loaded = ground (arith, loaded)

    -- A stamp handler that loads an order that is not paid adds no proof, whatever proof is stored,
    -- whatever the calendars answer and however the handler ends, even if the order is paid while it
    -- runs; if other processes add no proof meanwhile.
    pub unpaid_unproven :
        get_for_fulfillment order_id (around.others 0 db) ≡ some order
        → SameProofs (stamp_handler tools around stamp order_id db).1
    unfolding stamp_handler
    unpaid_unproven loaded = rw (load-ok loaded) (read_holds (around.others 0 db) (keeps 0 db))
