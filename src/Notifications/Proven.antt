-- ===== src/Notifications/Proven.antt =====
-- About the delivery of a mail and of its order, and the evidence for both.
use spacerocks_coa.Base.{ℕ, ◌≡◌, Bool, true, some, List, ok}
use spacerocks_coa.Order.{delivered, transition_fulfillment}
use spacerocks_coa.Db.{Db, Order}
use spacerocks_coa.Db.Evidence.{OutboxMessage, ResendWebhookEvent}
use spacerocks_coa.Orders.{find_order}
use spacerocks_coa.Fulfillment.Repository.{order_state}
use spacerocks_coa.Notifications.Delivery.{delivered_order, apply_delivered_event}

module _ (sha256 : List ℕ → ℕ) (m : OutboxMessage) (event : ResendWebhookEvent) (now : ℕ)
    (db db' : Db) (moved : Bool) where
  -- what the delivery of a mail does to its order, if it moves it
  abbrev pub MovesOrder : Order → Type 0
  MovesOrder order =
      moved ≡ true
      → (transition_fulfillment (order_state order) delivered
          ≡ ok (order_state (delivered_order order now)))
        × (find_order db' m.order_id ≡ some (delivered_order order now))

  abbrev Applied : Type 0
  Applied = apply_delivered_event sha256 m event now db ≡ ok ((true, moved), db')
