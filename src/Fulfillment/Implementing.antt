-- ===== src/Fulfillment/Implementing.antt =====
-- The transition of the store beside the transition of app/domain/order.py.
use spacerocks_coa.Base.{
  ℕ, ◌≡◌, ◌≢◌, ap, ◌∙◌, subst, String, Option, none, some, arith, ok, replace, inl, inr, ◌⊎◌,
}
use spacerocks_coa.Order.{FulfillmentState, transition_fulfillment}
use spacerocks_coa.Db.{Db, Order, StateEvent}
use spacerocks_coa.Orders.{has_order_id, find_order}
use spacerocks_coa.Proofs.Appending.{merge_calendar_time-keeps}
use spacerocks_coa.Fulfillment.Repository.{
  FulfillmentOrder, order_state, fulfillment_order, find_state_event, transition_fulfillment_once,
}
use spacerocks_coa.Fulfillment.Transition.{moved_order, Repeats, Makes, transition_once-outcome}
use spacerocks_coa.Fulfillment.Once.{
  known_time, repeated_orders, fulfillment_eq→≡, transition-target, find_order-id, written_row,
  other_rows,
}

module _ (isoformat : ℕ → String) (order_id : ℕ) (target : FulfillmentState) (event_key : String)
    (time : Option ℕ) (now : ℕ) (db : Db) (r : FulfillmentOrder × Db) where
  -- the order of a transition has the state of before where the key was known, or the state that
  -- the transition of the domain gives it
  abbrev pub StateAfter : Order → Order → Type 0
  StateAfter before after =
      ((order_state after ≡ order_state before)
        × ((event : StateEvent) × (find_state_event db order_id event_key ≡ some event)
            × (event.fulfillment_state ≡ target)))
      ⊎ (transition_fulfillment (order_state before) target ≡ ok (order_state after))

  pub record Implements : Type 0 where
    pub before : Order
    pub after : Order
    pub row_before : find_order db order_id ≡ some before
    pub row_after : find_order r.1 order_id ≡ some after
    pub state_after : StateAfter before after
    pub returned : r.0 ≡ fulfillment_order after
    pub time_kept :
        before.calendar_submitted_at ≢ none
        → after.calendar_submitted_at ≡ before.calendar_submitted_at
    pub others : (i : ℕ) → i ≢ order_id → find_order r.1 i ≡ find_order db i

  module _ (order : Order) (row : find_order db order_id ≡ some order) where
    Repeats-Implements :
        Repeats isoformat order_id target event_key time now db r order → Implements
    Repeats-Implements h =
        let (t, kept) = merge_calendar_time-keeps order time h.merged h.merge in
        let same : h.merged.id ≡ order.id = ground (arith, kept) in
        let orders =
          subst (λ i. r.1.orders ≡ replace (has_order_id i) h.merged db.orders) same
            (repeated_orders h.merged db r h.result) in
        record {
          before = order;
          after = h.merged;
          row_before = row;
          row_after =
              written_row isoformat order_id target event_key time now db r order row h.merged same
                orders;
          state_after = inl (
            ap order_state kept,
            (
              h.event,
              subst (λ i. find_state_event db i event_key ≡ some h.event)
                  (find_order-id db order_id order row) h.known,
              fulfillment_eq→≡ h.event.fulfillment_state target h.same_target,
            ),
          );
          returned = ground (arith, h.result);
          time_kept = known_time order h.merged time h.merge;
          others =
              other_rows isoformat order_id target event_key time now db r order row h.merged same
                orders;
        }

    Makes-Implements : Makes isoformat order_id target event_key time now db r order → Implements
    Makes-Implements h =
        let (t, kept) = merge_calendar_time-keeps order time h.merged h.merge in
        let same : h.merged.id ≡ order.id = ground (arith, kept) in
        let moved = transition-target (order_state order) h.state target h.transition in
        let written = moved_order h.merged h.state.fulfillment now in
        let orders =
          subst (λ i. r.1.orders ≡ replace (has_order_id i) written db.orders) same h.orders in
        record {
          before = order;
          after = written;
          row_before = row;
          row_after =
              written_row isoformat order_id target event_key time now db r order row written same
                orders;
          state_after = inr (h.transition ∙ ap ok (ground (arith, kept, moved)));
          returned = h.returned;
          time_kept = known_time order h.merged time h.merge;
          others =
              other_rows isoformat order_id target event_key time now db r order row written same
                orders;
        }

  -- A transition that succeeds implements the transition of the domain: the order has the state
  -- that `OrderState.transition_fulfillment` gives, or the state of before if its key had an event
  -- for the same target; every other order is as it was, and a calendar time that was known stays.
  pub transition_once-Implements :
      transition_fulfillment_once isoformat order_id target event_key time now db ≡ ok r
      → Implements
  transition_once-Implements e =
      let (order, row, outcome) =
        transition_once-outcome isoformat order_id target event_key time now db r e in
      elim outcome [ inl h ↦ Repeats-Implements order row h | inr h ↦ Makes-Implements order row h ]
