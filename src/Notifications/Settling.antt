-- ===== src/Notifications/Settling.antt =====
-- What an event of the provider of mails leaves to do for a repetition of it.
use spacerocks_coa.Base.{
  ℕ, ◌≡◌, refl, sym, ap, ◌∙◌, subst, String, Bool, true, false, false≢true, none, some, List, [],
  ◌∷◌, arith, ok, find, replace, find-test, Result-cases, Option-cases, Bool-cases, inl, inr, ◌⊎◌,
  str_eq, eq_iff, is_some,
}
use spacerocks_coa.Db.{Db, Order}
use spacerocks_coa.Db.Evidence.{OutboxMessage, ResendWebhookEvent}
use spacerocks_coa.Orders.{save_order, insert_state_event}
use spacerocks_coa.Notifications.Outbox.{has_message_id}
use spacerocks_coa.Notifications.Messages.{NotificationKind}
use spacerocks_coa.Notifications.Leases.{save_message}
use spacerocks_coa.Notifications.Delivery.{
  WebhookOutcome, may_deliver, delivered_message, move_delivered, deliverable,
  apply_delivered_event,
}
use spacerocks_coa.Notifications.Ending.{has_provider_id}
use spacerocks_coa.Notifications.Resend.{
  WebhookProcessResult, is_bad_news, answer, applied, reconcile_replayed_event, new_event_of,
}

find-replace_same :
    (q : OutboxMessage → Bool) (rows : List OutboxMessage) (m m' : OutboxMessage)
    → find q rows ≡ some m
    → m'.id ≡ m.id
    → q m' ≡ true
    → find q (replace (has_message_id m'.id) m' rows) ≡ some m'
unfolding find replace
find-replace_same q [] m m' e same t = cc
find-replace_same q (x ∷ xs) m m' e same t = ground (arith, find-replace_same q xs m m')

-- the move of an order touches no mail and no event of the provider
pub record Moved (outcome : WebhookOutcome) (start db' : Db) : Type 0 where
  pub delivered : outcome.0 ≡ true
  pub outbox : db'.outbox ≡ start.outbox
  pub events : db'.resend_webhook_events ≡ start.resend_webhook_events

pub move_delivered-Moved :
    (order : Order) (m : OutboxMessage) (kind : NotificationKind) (event : ResendWebhookEvent)
    (now : ℕ) (start db' : Db) (outcome : WebhookOutcome)
    → move_delivered order m kind event now start ≡ ok (outcome, db')
    → Moved outcome start db'
unfolding move_delivered save_order insert_state_event
move_delivered-Moved order m kind event now start db' outcome e = record {
  delivered = ground arith;
  outbox = ground arith;
  events = ground arith;
}

-- bad news is no delivery
bad_type : (t : String) → is_bad_news t ≡ true → str_eq t "email.delivered" ≡ false
bad_type t bad = elim (Bool-cases (str_eq t "email.delivered")) [
  | inr p ↦ p
  | inl p ↦
      let same : t ≡ "email.delivered" = (eq_iff t "email.delivered").0 p in
      let wrong : is_bad_news "email.delivered" ≡ true =
        subst (λ x. is_bad_news x ≡ true) same bad in
      absurd (false≢true wrong)
]

module _ (sha256 : List ℕ → ℕ) (event : ResendWebhookEvent) where
  -- a repetition of the event finds nothing to do
  abbrev pub Settled : Db → Type 0
  Settled db =
      (later : ℕ)
      → reconcile_replayed_event sha256 event later db ≡ ok (answer true (false, false), db)

  saved_events :
      (m : OutboxMessage) (db : Db)
      → (save_message m db).resend_webhook_events ≡ db.resend_webhook_events
  unfolding save_message
  saved_events m db = refl

  saved_mail :
      (m m' : OutboxMessage) (db : Db)
      → find (has_provider_id event.provider_message_id) db.outbox ≡ some m
      → m'.id ≡ m.id
      → has_provider_id event.provider_message_id m' ≡ true
      → find (has_provider_id event.provider_message_id) (save_message m' db).outbox ≡ some m'
  unfolding save_message
  saved_mail m m' db found same t =
      find-replace_same (has_provider_id event.provider_message_id) db.outbox m m' found same t

  apply_left :
      (m : OutboxMessage) (now : ℕ) (db db' : Db) (outcome : WebhookOutcome)
      → find (has_provider_id event.provider_message_id) db.outbox ≡ some m
      → apply_delivered_event sha256 m event now db ≡ ok (outcome, db')
      → ((db ≡ db') × (deliverable sha256 m event db ≡ none))
        ⊎ ((m' : OutboxMessage) × (find (has_provider_id event.provider_message_id) db'.outbox
              ≡ some m')
            × (may_deliver m' event ≡ false)
            × (db'.resend_webhook_events ≡ db.resend_webhook_events))
  unfolding apply_delivered_event
  apply_left m now db db' outcome found e = elim (Option-cases (deliverable sha256 m event db)) [
    | inl p ↦ inl (ground arith, p)
    | inr ((order, kind), p) ↦
        let m' = delivered_message m event now in
        let moved =
          move_delivered-Moved order m kind event now (save_message m' db) db' outcome
            (ground arith) in
        inr (
          m',
          rw (moved.outbox) (
              saved_mail m m' db found refl
                (find-test (has_provider_id event.provider_message_id) db.outbox m found)),
          refl,
          moved.events ∙ saved_events m' db,
        )
  ]

  pub refused_twice :
      (m : OutboxMessage) (db : Db)
      → may_deliver m event ≡ false
      → deliverable sha256 m event db ≡ none
  unfolding deliverable
  refused_twice m db e = ground arith

  pub settle :
      (m : OutboxMessage) (db : Db)
      → find (has_provider_id event.provider_message_id) db.outbox ≡ some m
      → deliverable sha256 m event db ≡ none
      → Settled db
  unfolding reconcile_replayed_event applied apply_delivered_event
  settle m db found none_left later = ground arith

  -- what a delivery, applied to the mail that is found, leaves
  pub applied-Settled :
      (duplicate : Bool) (m : OutboxMessage) (now : ℕ) (db db' : Db) (r : WebhookProcessResult)
      → find (has_provider_id event.provider_message_id) db.outbox ≡ some m
      → applied sha256 duplicate m event now db ≡ ok (r, db')
      → Settled db' × (db'.resend_webhook_events ≡ db.resend_webhook_events)
  unfolding applied
  applied-Settled duplicate m now db db' r found e =
      elim (Result-cases (apply_delivered_event sha256 m event now db)) [
        | inr (x, p) ↦ absurd (ground arith)
        | inl ((outcome, end), p) ↦
            let same : end ≡ db' = ground arith in
            subst (λ d. Settled d × (d.resend_webhook_events ≡ db.resend_webhook_events)) same
              (elim (apply_left m now db end outcome found p) [
                | inl (kept, left) ↦
                    subst (λ d. Settled d × (d.resend_webhook_events ≡ db.resend_webhook_events))
                      kept (settle m db found left, refl)
                | inr (m', found', refused, events) ↦
                    (settle m' end found' (refused_twice m' end refused), events)
              ])
      ]

  -- what the reconciliation of a repeated event leaves
  pub reconcile-Settled :
      (now : ℕ) (db db' : Db) (r : WebhookProcessResult)
      → reconcile_replayed_event sha256 event now db ≡ ok (r, db')
      → Settled db' × (db'.resend_webhook_events ≡ db.resend_webhook_events)
  unfolding reconcile_replayed_event
  reconcile-Settled now db db' r e = elim (Bool-cases (str_eq event.event_type "email.delivered")) [
    | inr other ↦
        let same : db ≡ db' = ground arith in
        (λ later. ground (arith, same), ap (λ (d : Db). d.resend_webhook_events) (sym same))
    | inl delivery ↦
        elim (Option-cases (find (has_provider_id event.provider_message_id) db.outbox)) [
          | inl p ↦
              let same : db ≡ db' = ground arith in
              (λ later. ground (arith, same), ap (λ (d : Db). d.resend_webhook_events) (sym same))
          | inr (m, p) ↦ elim (Option-cases m.accepted_at) [
            | inl q ↦
                let same : db ≡ db' = ground arith in
                (λ later. ground (arith, same), ap (λ (d : Db). d.resend_webhook_events) (sym same))
            | inr (at, q) ↦ applied-Settled true m now db db' r p (ground arith)
          ]
        ]
  ]

  pub other_type : (db : Db) → str_eq event.event_type "email.delivered" ≡ false → Settled db
  unfolding reconcile_replayed_event
  other_type db e later = ground arith

  pub no_mail :
      (db : Db) → find (has_provider_id event.provider_message_id) db.outbox ≡ none → Settled db
  unfolding reconcile_replayed_event
  no_mail db e later = ground arith

  pub not_accepted :
      (m : OutboxMessage) (db : Db)
      → find (has_provider_id event.provider_message_id) db.outbox ≡ some m
      → is_some m.accepted_at ≡ false
      → Settled db
  unfolding reconcile_replayed_event
  not_accepted m db found e later = ground arith

  pub new_event_of-Settled :
      (m : OutboxMessage) (now : ℕ) (db db' : Db) (r : WebhookProcessResult)
      → find (has_provider_id event.provider_message_id) db.outbox ≡ some m
      → new_event_of sha256 m event now db ≡ ok (r, db')
      → Settled db' × (db'.resend_webhook_events ≡ db.resend_webhook_events)
  unfolding new_event_of save_message
  new_event_of-Settled m now db db' r found e = elim (Bool-cases (is_bad_news event.event_type)) [
    | inl bad ↦ (other_type db' (bad_type event.event_type bad), ground arith)
    | inr p ↦ elim (Bool-cases (str_eq event.event_type "email.delivered")) [
      | inr other ↦ (other_type db' other, ground arith)
      | inl delivery ↦ applied-Settled false m now db db' r found (ground arith)
    ]
  ]
