-- ===== src/Notifications/Repeated.antt =====
-- About an event of the provider of mails that is sent again.
use spacerocks_coa.Base.{
  ℕ, ◌≡◌, true, false, none, some, List, arith, ok, find, find-new, Result-cases, Option-cases,
  Bool-cases, inl, inr, ==_refl, eq_refl, is_some,
}
use spacerocks_coa.Db.{Db}
use spacerocks_coa.Db.Evidence.{ResendWebhookEvent}
use spacerocks_coa.Notifications.Ending.{has_provider_id}
use spacerocks_coa.Notifications.Resend.{
  VerifiedResendEvent, WebhookProcessResult, has_svix_id, find_resend_event, validate_replay,
  new_resend_event, insert_webhook_event, answer, reconcile_replayed_event, replayed,
  record_new_event, process_resend,
}
use spacerocks_coa.Notifications.Settling.{
  reconcile-Settled, no_mail, not_accepted, new_event_of-Settled,
}

module _ (sha256 : List ℕ → ℕ) (event : VerifiedResendEvent) (hash : ℕ) where
  -- the event is recorded as it came, and a repetition of it finds nothing to do
  record IsKnown (db : Db) : Type 0 where
    row : ResendWebhookEvent
    found : find_resend_event db event.svix_event_id ≡ some row
    same : validate_replay row event hash ≡ ok tt
    settled :
        (later : ℕ)
        → reconcile_replayed_event sha256 row later db ≡ ok (answer true (false, false), db)

  new_row-same : (now : ℕ) → validate_replay (new_resend_event event hash now) event hash ≡ ok tt
  unfolding validate_replay
  new_row-same now = ground (
    arith,
    eq_refl event.event_type,
    eq_refl event.provider_message_id,
    ==_refl hash,
    ==_refl event.event_created_at,
  )

  replayed-IsKnown :
      (row : ResendWebhookEvent) (now : ℕ) (db db' : Db) (r : WebhookProcessResult)
      → find_resend_event db event.svix_event_id ≡ some row
      → replayed sha256 row event hash now db ≡ ok (r, db')
      → IsKnown db'
  unfolding replayed find_resend_event
  replayed-IsKnown row now db db' r found e = elim (Result-cases (validate_replay row event hash)) [
    | inr (x, p) ↦ absurd (ground arith)
    | inl (u, p) ↦
        let (settled, events) = reconcile-Settled sha256 row now db db' r (ground arith) in
        record { row = row; found = rw events found; same = p; settled = settled }
  ]

  new_row-found :
      (now : ℕ) (db db' : Db)
      → find_resend_event db event.svix_event_id ≡ none
      → db'.resend_webhook_events
        ≡ (insert_webhook_event (new_resend_event event hash now) db).resend_webhook_events
      → find_resend_event db' event.svix_event_id ≡ some (new_resend_event event hash now)
  unfolding find_resend_event
  new_row-found now db db' unknown events = rw events (
      find-new (has_svix_id event.svix_event_id) db.resend_webhook_events
        (new_resend_event event hash now) unknown (eq_refl event.svix_event_id))

  new_row-IsKnown :
      (now : ℕ) (db db' : Db)
      → find_resend_event db event.svix_event_id ≡ none
      → ((later : ℕ)
          → reconcile_replayed_event sha256 (new_resend_event event hash now) later db'
            ≡ ok (answer true (false, false), db'))
      → db'.resend_webhook_events
        ≡ (insert_webhook_event (new_resend_event event hash now) db).resend_webhook_events
      → IsKnown db'
  new_row-IsKnown now db db' unknown settled events = record {
    row = new_resend_event event hash now;
    found = new_row-found now db db' unknown events;
    same = new_row-same now;
    settled = settled;
  }

  record_new_event-IsKnown :
      (now : ℕ) (db db' : Db) (r : WebhookProcessResult)
      → find_resend_event db event.svix_event_id ≡ none
      → record_new_event sha256 event hash now db ≡ ok (r, db')
      → IsKnown db'
  unfolding record_new_event
  record_new_event-IsKnown now db db' r unknown e =
      let row = new_resend_event event hash now in
      let added = insert_webhook_event row db in
      let known =
        λ (settled : (later : ℕ)
              → reconcile_replayed_event sha256 row later db'
                ≡ ok (answer true (false, false), db'))
            (events : db'.resend_webhook_events ≡ added.resend_webhook_events).
          new_row-IsKnown now db db' unknown settled events in
      elim (Option-cases (find (has_provider_id event.provider_message_id) db.outbox)) [
        | inl p ↦ known (no_mail sha256 row db' (ground arith)) (ground arith)
        | inr (m, p) ↦ elim (Bool-cases (is_some m.accepted_at)) [
          | inr q ↦ known (not_accepted sha256 row m db' (ground arith) q) (ground arith)
          | inl q ↦
              let (settled, events) =
                new_event_of-Settled sha256 row m now added db' r p (ground arith) in
              known settled events
        ]
      ]

  -- what others commit takes no recorded event away
  abbrev pub KeepsEvents : (Db → Db) → Type 0
  KeepsEvents racing =
      (db : Db) (row : ResendWebhookEvent)
      → find_resend_event db event.svix_event_id ≡ some row
      → find_resend_event (racing db) event.svix_event_id ≡ some row

  process_resend-IsKnown :
      (racing : Db → Db) (now : ℕ) (db db' : Db) (r : WebhookProcessResult)
      → KeepsEvents racing
      → process_resend sha256 racing event hash now db ≡ ok (r, db')
      → IsKnown db'
  unfolding process_resend
  process_resend-IsKnown racing now db db' r keeps e =
      elim (Option-cases (find_resend_event db event.svix_event_id)) [
        | inr (row, p) ↦ replayed-IsKnown row now (racing db) db' r (keeps db row p) (ground arith)
        | inl p ↦ elim (Option-cases (find_resend_event (racing db) event.svix_event_id)) [
          | inr (row, q) ↦ replayed-IsKnown row now (racing db) db' r q (ground arith)
          | inl q ↦ record_new_event-IsKnown now (racing db) db' r q (ground arith)
        ]
      ]

  known_again :
      (later : ℕ) (db : Db)
      → IsKnown db
      → process_resend sha256 (λ d. d) event hash later db ≡ ok (answer true (false, false), db)
  unfolding process_resend replayed
  known_again later db k = ground (arith, k.found, k.same, k.settled later)

  -- An event of the provider of mails that was processed, whatever others committed meanwhile, if no
  -- event was taken away, may be sent again at any time: when nothing else was committed since, the
  -- answer is that it is a duplicate, and nothing changes.
  pub resend_again :
      (racing : Db → Db) (now later : ℕ) (db db' : Db) (r : WebhookProcessResult)
      → KeepsEvents racing
      → process_resend sha256 racing event hash now db ≡ ok (r, db')
      → process_resend sha256 (λ d. d) event hash later db' ≡ ok (answer true (false, false), db')
  resend_again racing now later db db' r keeps e =
      known_again later db' (process_resend-IsKnown racing now db db' r keeps e)
