-- ===== src/Fulfillment/Once.antt =====
-- A transition that is repeated, and what a transition does to the orders.
use spacerocks_coa.Base.{
  ℕ, ◌+◌, ◌≡◌, ◌≢◌, refl, ap, String, Bool, true, false, ◌||◌, Option, none, some, arith, find-new,
  find-test, replace, replace-found, ok, Option-cases, inl, inr, eq_refl, ltb, length, codes,
}
use spacerocks_coa.Order.{FulfillmentState, OrderState, transition_fulfillment, fulfillment_eq}
use spacerocks_coa.Db.{Db, Order, StateEvent}
use spacerocks_coa.Orders.{has_order_id, find_order, last_sequence}
use spacerocks_coa.Orders.Rows.{find_order-replace}
use spacerocks_coa.Proofs.Rows.{save_calendar_time, merge_calendar_time}
use spacerocks_coa.Proofs.Appending.{merge_calendar_time-keeps}
use spacerocks_coa.Fulfillment.Repository.{
  OrderSnapshot, FulfillmentOrder, order_state, fulfillment_order, has_event_key, find_state_event,
  new_state_event, repeat_transition, transition_fulfillment_once,
}
use spacerocks_coa.Fulfillment.Transition.{moved_order, Repeats, Makes, transition_once-outcome}

merge_again :
    (order merged : Order) (time : Option ℕ)
    → merge_calendar_time order time ≡ ok merged
    → (o : Order) → o.calendar_submitted_at ≡ merged.calendar_submitted_at
    → merge_calendar_time o time ≡ ok o
unfolding merge_calendar_time
merge_again order merged none e o same = refl
merge_again order merged (some t) e o same = elim (Option-cases order.calendar_submitted_at) [
  | inl p ↦ ground arith
  | inr (known, p) ↦ ground arith
]

pub transition-target :
    (s t : OrderState OrderSnapshot) (target : FulfillmentState)
    → transition_fulfillment s target ≡ ok t
    → t ≡ record s { fulfillment = target }
unfolding transition_fulfillment
transition-target s t target e = ground arith

save_known :
    (order : Order) (db : Db)
    → find_order db order.id ≡ some order
    → save_calendar_time order db ≡ db
unfolding find_order save_calendar_time
save_known order db e = ground (arith, replace-found (has_order_id order.id) db.orders order e)

pub find_order-id : (db : Db) (i : ℕ) (o : Order) → find_order db i ≡ some o → o.id ≡ i
unfolding find_order
find_order-id db i o e = ground (arith, find-test (has_order_id i) db.orders o e)

pub known_time :
    (order merged : Order) (time : Option ℕ)
    → merge_calendar_time order time ≡ ok merged
    → order.calendar_submitted_at ≢ none
    → merged.calendar_submitted_at ≡ order.calendar_submitted_at
unfolding merge_calendar_time
known_time order merged none e known = ground arith
known_time order merged (some t) e known = elim (Option-cases order.calendar_submitted_at) [
  | inl p ↦ absurd (known p)
  | inr (at, p) ↦ ground arith
]

pub repeated_orders :
    (merged : Order) (db : Db) (r : FulfillmentOrder × Db)
    → r ≡ (fulfillment_order merged, save_calendar_time merged db)
    → r.1.orders ≡ replace (has_order_id merged.id) merged db.orders
unfolding save_calendar_time
repeated_orders merged db r e = ap (λ (t : FulfillmentOrder × Db). t.1.orders) e

pub fulfillment_eq→≡ : (a b : FulfillmentState) → fulfillment_eq a b ≡ true → a ≡ b
fulfillment_eq→≡ a b h = ground arith

module _ (isoformat : ℕ → String) (order_id : ℕ) (target : FulfillmentState) (event_key : String)
    (time : Option ℕ) where
  -- an event with the key and the target, and the order as it is returned
  pub record IsDone (r : FulfillmentOrder × Db) : Type 0 where
    pub order : Order
    pub event : StateEvent
    pub row : find_order r.1 order_id ≡ some order
    pub known : find_state_event r.1 order_id event_key ≡ some event
    pub same_target : fulfillment_eq event.fulfillment_state target ≡ true
    pub merged : merge_calendar_time order time ≡ ok order
    pub returned : r.0 ≡ fulfillment_order order

  key_test : Bool
  key_test = ltb (length (codes event_key)) 1 || ltb 160 (length (codes event_key))

  done_again :
      (now : ℕ) (r : FulfillmentOrder × Db)
      → IsDone r
      → key_test ≡ false
      → transition_fulfillment_once isoformat order_id target event_key time now r.1 ≡ ok r
  unfolding key_test transition_fulfillment_once repeat_transition
  done_again now r d fits = ground (
    arith,
    d.row,
    d.known,
    d.same_target,
    d.merged,
    d.returned,
    find_order-id r.1 order_id d.order d.row,
    save_known d.order r.1,
  )

  key_fits :
      (now : ℕ) (db : Db) (r : FulfillmentOrder × Db)
      → transition_fulfillment_once isoformat order_id target event_key time now db ≡ ok r
      → key_test ≡ false
  unfolding key_test transition_fulfillment_once
  key_fits now db r e = ground arith

  module _ (now : ℕ) (db : Db) (r : FulfillmentOrder × Db) (order : Order)
      (row : find_order db order_id ≡ some order) where
    -- the written order is found
    pub written_row :
        (written : Order)
        → written.id ≡ order.id
        → r.1.orders ≡ replace (has_order_id order.id) written db.orders
        → find_order r.1 order_id ≡ some written
    unfolding find_order
    written_row written same orders = ground (
      arith,
      orders,
      find_order-replace written order_id db.orders,
      row,
      find_order-id db order_id order row,
    )

    pub other_rows :
        (written : Order)
        → written.id ≡ order.id
        → r.1.orders ≡ replace (has_order_id order.id) written db.orders
        → (i : ℕ) → i ≢ order_id
        → find_order r.1 i ≡ find_order db i
    unfolding find_order
    other_rows written same orders i other =
        ground (
          arith,
          orders,
          find_order-replace written i db.orders,
          find_order-id db order_id order row,
        )

    Repeats-IsDone : Repeats isoformat order_id target event_key time now db r order → IsDone r
    unfolding save_calendar_time find_state_event
    Repeats-IsDone h =
        let (t, kept) = merge_calendar_time-keeps order time h.merged h.merge in
        record {
          order = h.merged;
          event = h.event;
          row = written_row h.merged (ground (arith, kept)) (ground (arith, kept, h.result));
          known = ground (arith, h.known, h.result, find_order-id db order_id order row);
          same_target = h.same_target;
          merged = merge_again order h.merged time h.merge h.merged refl;
          returned = ground (arith, h.result);
        }

    Makes-IsDone : Makes isoformat order_id target event_key time now db r order → IsDone r
    unfolding find_state_event
    Makes-IsDone h =
        let (t, kept) = merge_calendar_time-keeps order time h.merged h.merge in
        let written = moved_order h.merged h.state.fulfillment now in
        let noted =
          new_state_event isoformat order written event_key
            (last_sequence order.id db.state_events + 1) now in
        let moved = transition-target (order_state order) h.state target h.transition in
        record {
          order = written;
          event = noted;
          row = written_row written (ground (arith, kept)) (ground (arith, kept, h.orders));
          known = rw (h.state_events) (
              find-new (has_event_key order_id event_key) db.state_events noted
                (ground (arith, h.new_key, find_order-id db order_id order row))
                (ground (arith, eq_refl event_key, kept, find_order-id db order_id order row)));
          same_target = ground (arith, moved);
          merged = merge_again order h.merged time h.merge written refl;
          returned = h.returned;
        }

  -- A transition that succeeds may be repeated at any later time: the second call returns the same
  -- order and changes nothing.
  pub transition_once_again :
      (now later : ℕ) (db : Db) (r : FulfillmentOrder × Db)
      → transition_fulfillment_once isoformat order_id target event_key time now db ≡ ok r
      → transition_fulfillment_once isoformat order_id target event_key time later r.1 ≡ ok r
  transition_once_again now later db r e =
      let (order, row, outcome) =
        transition_once-outcome isoformat order_id target event_key time now db r e in
      done_again later r
        (elim outcome [
          | inl h ↦ Repeats-IsDone now db r order row h
          | inr h ↦ Makes-IsDone now db r order row h
        ])
        (key_fits now db r e)
