-- ===== src/Fulfillment/Transition.antt =====
-- The branches of `transition_fulfillment_once`.
use spacerocks_coa.Base.{
  ℕ, ◌+◌, ◌≡◌, String, true, false, not, ◌&&◌, Option, none, some, [], ◌∷◌, ◌++◌, arith, is_some,
  replace, ok, Result-cases, Option-cases, inl, inr, ◌⊎◌,
}
use spacerocks_coa.Order.{
  FulfillmentState, OrderState, transition_fulfillment, fulfillment_eq, calendar_pending,
}
use spacerocks_coa.Db.{Db, Order, StateEvent}
use spacerocks_coa.Orders.{has_order_id, find_order, save_order, last_sequence, insert_state_event}
use spacerocks_coa.Proofs.Rows.{save_calendar_time, merge_calendar_time}
use spacerocks_coa.Fulfillment.Repository.{
  OrderSnapshot, FulfillmentOrder, order_state, fulfillment_order, find_state_event,
  new_state_event, repeat_transition, make_transition, transition_fulfillment_once,
}

-- the row that a transition writes
abbrev pub moved_order : Order → FulfillmentState → ℕ → Order
moved_order merged target now = record merged { fulfillment_state = target; updated_at = now }

module _ (isoformat : ℕ → String) (order_id : ℕ) (target : FulfillmentState) (event_key : String)
    (time : Option ℕ) (now : ℕ) (db : Db) (r : FulfillmentOrder × Db) where
  -- the key has an event, for the same target
  pub record Repeats (order : Order) : Type 0 where
    pub event : StateEvent
    pub merged : Order
    pub known : find_state_event db order.id event_key ≡ some event
    pub same_target : fulfillment_eq event.fulfillment_state target ≡ true
    pub merge : merge_calendar_time order time ≡ ok merged
    pub result : r ≡ (fulfillment_order merged, save_calendar_time merged db)

  -- the transition of the domain is made, with a new event
  pub record Makes (order : Order) : Type 0 where
    pub state : OrderState OrderSnapshot
    pub merged : Order
    pub new_key : find_state_event db order.id event_key ≡ none
    pub transition : transition_fulfillment (order_state order) target ≡ ok state
    pub merge : merge_calendar_time order time ≡ ok merged
    pub timed :
        (fulfillment_eq target calendar_pending && not (is_some merged.calendar_submitted_at))
        ≡ false
    pub returned : r.0 ≡ fulfillment_order (moved_order merged state.fulfillment now)
    pub orders :
        r.1.orders
        ≡ replace (has_order_id merged.id) (moved_order merged state.fulfillment now) db.orders
    pub state_events :
        r.1.state_events
        ≡ db.state_events
          ++ new_state_event isoformat order
              (moved_order merged state.fulfillment now)
              event_key
              (last_sequence order.id db.state_events + 1)
              now
            ∷ []

  repeat_transition-Repeats :
      (order : Order) (event : StateEvent)
      → find_state_event db order.id event_key ≡ some event
      → repeat_transition isoformat order event target time db ≡ ok r
      → Repeats order
  unfolding repeat_transition
  repeat_transition-Repeats order event known e =
      elim (Result-cases (merge_calendar_time order time)) [
        | inr (x, p) ↦ absurd (ground arith)
        | inl (merged, p) ↦ record {
          event = event;
          merged = merged;
          known = known;
          same_target = ground arith;
          merge = p;
          result = ground arith;
        }
      ]

  make_transition-Makes :
      (order : Order)
      → find_state_event db order.id event_key ≡ none
      → make_transition isoformat order target event_key time now db ≡ ok r
      → Makes order
  unfolding make_transition save_order insert_state_event
  make_transition-Makes order unknown e =
      elim (Result-cases (transition_fulfillment (order_state order) target)) [
        | inr (x, p) ↦ absurd (ground arith)
        | inl (state, p) ↦ elim (Result-cases (merge_calendar_time order time)) [
          | inr (x, q) ↦ absurd (ground arith)
          | inl (merged, q) ↦ record {
            state = state;
            merged = merged;
            new_key = unknown;
            transition = p;
            merge = q;
            timed = ground arith;
            returned = ground arith;
            orders = ground arith;
            state_events = ground arith;
          }
        ]
      ]

  -- A transition that succeeds finds its order and repeats an event, or makes a new one.
  pub transition_once-outcome :
      transition_fulfillment_once isoformat order_id target event_key time now db ≡ ok r
      → (order : Order) × (find_order db order_id ≡ some order) × (Repeats order ⊎ Makes order)
  unfolding transition_fulfillment_once
  transition_once-outcome e = elim (Option-cases (find_order db order_id)) [
    | inl p ↦ absurd (ground arith)
    | inr (order, p) ↦ elim (Option-cases (find_state_event db order.id event_key)) [
      | inl q ↦ (order, p, inr (make_transition-Makes order q (ground arith)))
      | inr (event, q) ↦ (order, p, inl (repeat_transition-Repeats order event q (ground arith)))
    ]
  ]
