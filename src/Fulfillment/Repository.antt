-- ===== src/Fulfillment/Repository.antt =====
-- `SqlFulfillmentRepository` of app/db/fulfillment_adapters.py: an order as the handlers see it, and
-- the transition of its fulfillment, once for each key of an event. `isoformat` is the text of a
-- time; an identifier is the text of a UUID, so `_uuid` reads it back. The tests of a snapshot's
-- constructors are those that its row has passed when it was written.
use spacerocks_coa.Base.{
  ℕ, ◌+◌, String, Bool, not, ◌&&◌, ◌||◌, ◌==◌, ltb, Option, none, some, List, [], ◌∷◌,
  if◌then◌else◌, is_some, find, length, codes, str_eq, Result, ok, err, value_error, ◌>>=◌,
  raise_if, or_raise,
}
use spacerocks_coa.Order.{
  FulfillmentState, calendar_pending, OrderState, transition_fulfillment, fulfillment_eq,
}
use spacerocks_coa.Db.{Db, Order, StateEvent, PaymentMode}
use spacerocks_coa.Orders.{find_order, save_order, last_sequence, insert_state_event}
use spacerocks_coa.Proofs.Rows.{save_calendar_time, merge_calendar_time}

pub record OrderSnapshot : Type 0 where
  pub order_reference : String
  pub certificate_reference : String
  pub manifest_digest : ℕ
  pub email : String
  pub amount_minor : ℕ
  pub currency : String
  pub product_version : String
  pub payment_mode : PaymentMode
  pub consent_terms_version : String
  pub consent_privacy_version : String
  pub consent_accepted_at : ℕ

pub record FulfillmentOrder : Type 0 where
  pub id : ℕ
  pub state : OrderState OrderSnapshot
  pub calendar_submitted_at : Option ℕ

-- `_order_state`
abbrev pub order_state : Order → OrderState OrderSnapshot
order_state value = record {
  snapshot = record {
    order_reference = value.order_reference;
    certificate_reference = value.certificate_reference;
    manifest_digest = value.manifest_digest;
    email = value.email;
    amount_minor = value.amount_minor;
    currency = value.currency;
    product_version = value.product_version;
    payment_mode = value.payment_mode;
    consent_terms_version = value.consent_terms_version;
    consent_privacy_version = value.consent_privacy_version;
    consent_accepted_at = value.consent_accepted_at;
  };
  payment = value.payment_state;
  fulfillment = value.fulfillment_state;
}

-- `_fulfillment_order`
abbrev pub fulfillment_order : Order → FulfillmentOrder
fulfillment_order value = record {
  id = value.id;
  state = order_state value;
  calendar_submitted_at = value.calendar_submitted_at;
}

unfoldable pub get_for_fulfillment : ℕ → Db → Option FulfillmentOrder
get_for_fulfillment order_id db = elim (find_order db order_id) [
  | none ↦ none
  | some order ↦ some (fulfillment_order order)
]

abbrev pub has_event_key : ℕ → String → StateEvent → Bool
has_event_key order_id key e = e.order_id == order_id && str_eq e.event_key key

unfoldable pub find_state_event : Db → ℕ → String → Option StateEvent
find_state_event db order_id key = find (has_event_key order_id key) db.state_events

module _ (isoformat : ℕ → String) where
  abbrev pub evidence_of : Option ℕ → List (String × String)
  evidence_of none = []
  evidence_of (some time) = ("calendar_submitted_at", isoformat time) ∷ []

  -- the row of the event of a transition
  abbrev pub new_state_event : Order → Order → String → ℕ → ℕ → StateEvent
  new_state_event before written event_key sequence now = record {
    order_id = written.id;
    sequence = sequence;
    event_key = event_key;
    source = "fulfillment_worker";
    previous_payment_state = before.payment_state;
    payment_state = written.payment_state;
    previous_fulfillment_state = before.fulfillment_state;
    fulfillment_state = written.fulfillment_state;
    evidence = evidence_of written.calendar_submitted_at;
    created_at = now;
  }

  -- an event with the key is there: the transition is done
  unfoldable pub repeat_transition :
      Order → StateEvent → FulfillmentState → Option ℕ → Db → Result (FulfillmentOrder × Db)
  repeat_transition order existing target calendar_submitted_at db =
      if not (fulfillment_eq existing.fulfillment_state target)
      then err (value_error "fulfillment_event_key_conflict")
      else (do
        merged ← merge_calendar_time order calendar_submitted_at
        ok (fulfillment_order merged, save_calendar_time merged db))

  -- the transition of an order and its event
  unfoldable pub make_transition :
      Order → FulfillmentState → String → Option ℕ → ℕ → Db → Result (FulfillmentOrder × Db)
  make_transition order target event_key calendar_submitted_at now db = do
    transitioned ← transition_fulfillment (order_state order) target
    merged ← merge_calendar_time order calendar_submitted_at
    _ ←
        raise_if
          (fulfillment_eq target calendar_pending && not (is_some merged.calendar_submitted_at))
          (value_error "calendar_submission_time_required")
    saved ←
        save_order
          (record merged { fulfillment_state = transitioned.fulfillment; updated_at = now }) db
    noted ←
        insert_state_event
          (new_state_event order
            (record merged { fulfillment_state = transitioned.fulfillment; updated_at = now })
            event_key (last_sequence order.id db.state_events + 1) now)
          saved
    ok (
      fulfillment_order
          (record merged { fulfillment_state = transitioned.fulfillment; updated_at = now }),
      noted,
    )

  unfoldable pub transition_fulfillment_once :
      ℕ → FulfillmentState → String → Option ℕ → ℕ → Db → Result (FulfillmentOrder × Db)
  transition_fulfillment_once order_id target event_key calendar_submitted_at now db = do
    _ ←
        raise_if (ltb (length (codes event_key)) 1 || ltb 160 (length (codes event_key)))
          (value_error "fulfillment_event_key_invalid")
    order ← or_raise (find_order db order_id) (value_error "fulfillment_order_not_found")
    elim (find_state_event db order.id event_key) [
      | some existing ↦ repeat_transition order existing target calendar_submitted_at db
      | none ↦ make_transition order target event_key calendar_submitted_at now db
    ]
