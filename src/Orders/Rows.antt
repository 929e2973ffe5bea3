-- ===== src/Orders/Rows.antt =====
-- Rows of orders by their ids, and of Stripe's events by theirs.
use spacerocks_coa.Base.{
  ℕ, ◌≡◌, sym, subst, String, Bool, true, Option, none, some, List, [], ◌∷◌, ◌==◌, arith, ok,
  if◌then◌else◌, find, replace, find-append, find-replace_self, str_eq, opt_str_eq, eq_refl,
  Option-cases, inl, inr,
}
use spacerocks_coa.Db.{Db, Order, StripeEvent}
use spacerocks_coa.Db.Laws.{overwrite}
use spacerocks_coa.Orders.{
  has_order_id, find_order, find_order_for_event, has_event_id, find_event, record_stripe_event,
  save_event,
}
use spacerocks_coa.Orders.Keys.{given}
use spacerocks_coa.Jobs.Frames.{SameJobs}

-- no two orders have one id
abbrev pub DistinctOrders : List Order → Type 0
DistinctOrders [] = Unit
DistinctOrders (x ∷ xs) = (find (has_order_id x.id) xs ≡ none) × DistinctOrders xs

pub find_order-replace :
    (o : Order) (i : ℕ) (rows : List Order)
    → find (has_order_id i) (replace (has_order_id o.id) o rows)
      ≡ (if o.id == i then overwrite (find (has_order_id i) rows) o else find (has_order_id i) rows)
unfolding find replace
find_order-replace o i [] = ground arith
find_order-replace o i (x ∷ xs) = ground (arith, find_order-replace o i xs)

-- an order that some test finds is the order with its id
pub found_by_id :
    (p : Order → Bool) (rows : List Order) (o : Order)
    → DistinctOrders rows
    → find p rows ≡ some o
    → find (has_order_id o.id) rows ≡ some o
unfolding find
found_by_id p [] o d e = cc
found_by_id p (x ∷ xs) o d e = ground (arith, found_by_id p xs o d.1)

pub find_order_for_event-row :
    (uuid_of : String → Option ℕ) (internal intent : Option String) (db : Db) (o : Order)
    → DistinctOrders db.orders
    → find_order_for_event uuid_of internal intent db ≡ some o
    → find_order db o.id ≡ some o
unfolding find_order_for_event find_order
find_order_for_event-row uuid_of internal intent db o d e = elim (Option-cases (given internal)) [
  | inr (text, p) ↦ elim (Option-cases (uuid_of text)) [
    | inl q ↦ absurd (ground arith)
    | inr (i, q) ↦ found_by_id (has_order_id i) db.orders o d (ground arith)
  ]
  | inl p ↦ elim (Option-cases (given intent)) [
    | inl q ↦ absurd (ground arith)
    | inr (t, q) ↦
        found_by_id (λ (x : Order). opt_str_eq x.payment_intent_id t) db.orders o d (ground arith)
  ]
]

-- An event that was recorded is new, and is the one that its id finds.
pub record Recorded (event_id event_type : String) (hash now : ℕ) (live : Bool)
    (event : StripeEvent) (db db' : Db) : Type 0 where
  pub event_id_kept : event.stripe_event_id ≡ event_id
  pub event_type_kept : event.event_type ≡ event_type
  pub hash_kept : event.payload_sha256 ≡ hash
  pub live_kept : event.livemode ≡ live
  pub orders : db'.orders ≡ db.orders
  pub found : find_event db' event_id ≡ some event
  pub same_jobs : SameJobs db db'

pub record_stripe_event-Recorded :
    (event_id event_type : String) (hash now : ℕ) (live : Bool) (event : StripeEvent) (db db' : Db)
    → record_stripe_event event_id event_type hash now live db ≡ ok (event, db')
    → Recorded event_id event_type hash now live event db db'
unfolding record_stripe_event find_event find
record_stripe_event-Recorded event_id event_type hash now live event db db' e = record {
  event_id_kept = ground arith;
  event_type_kept = ground arith;
  hash_kept = ground arith;
  live_kept = ground arith;
  orders = ground arith;
  found =
      ground (
        arith,
        find-append (has_event_id event_id) db.stripe_events (event ∷ []),
        eq_refl event_id,
      );
  same_jobs = record { jobs = ground arith; attempts = ground arith; dispatches = ground arith };
}

pub find_event-save_event :
    (e e' : StripeEvent) (id : String) (db : Db)
    → find_event db id ≡ some e
    → e'.stripe_event_id ≡ id
    → find_event (save_event e' db) id ≡ some e'
unfolding find_event save_event
find_event-save_event e e' id db found same =
    subst (λ t. find (has_event_id id) (replace (has_event_id t) e' db.stripe_events) ≡ some e')
      (sym same)
      (find-replace_self (has_event_id id) db.stripe_events e e' found
        (subst (λ t. str_eq t id ≡ true) (sym same) (eq_refl id)))

-- An order that a test finds is found with new values, if they pass the test.
pub find-replace_found :
    (q : Order → Bool) (rows : List Order) (o o' : Order)
    → DistinctOrders rows
    → find q rows ≡ some o
    → o'.id ≡ o.id
    → q o' ≡ true
    → find q (replace (has_order_id o'.id) o' rows) ≡ some o'
unfolding find replace
find-replace_found q [] o o' d e same t = cc
find-replace_found q (x ∷ xs) o o' d e same t =
    ground (arith, find-replace_found q xs o o' d.1, found_by_id q xs o d.1)
