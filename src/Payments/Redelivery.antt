-- ===== src/Payments/Redelivery.antt =====
-- A delivered event that comes again.
use spacerocks_coa.Base.{
  ℕ, ◌≡◌, refl, sym, ap, ◌∙◌, subst, String, Bool, true, false, not, ==_refl, Option, none, some,
  List, arith, ok, eq_refl, is_some, find,
}
use spacerocks_coa.Db.{Db, StripeEvent}
use spacerocks_coa.Orders.{NewIds, find_event, has_event_id}
use spacerocks_coa.Orders.Rows.{record_stripe_event-Recorded, find_event-save_event}
use spacerocks_coa.Payments.Models.{ProviderEvent, CanonicalCheckout, Settings, Provider, bool_eq}
use spacerocks_coa.Payments.Binding.{apply_event}
use spacerocks_coa.Payments.Webhook.{
  WebhookResult, Others, process_transaction, process_event, duplicate_result, processed,
}
use spacerocks_coa.Payments.Applying.{apply_bound-Applied}
use spacerocks_coa.Payments.Delivery.{
  Handled, process_transaction-Delivered, refusal, bound, repeated, recorded_first,
}

bool_eq_refl : (b : Bool) → bool_eq b b ≡ true
bool_eq_refl true = refl
bool_eq_refl false = refl

-- the event as the transaction left it is known by its own delivery
known_again :
    (event : ProviderEvent) (payload_hash now : ℕ) (recorded : StripeEvent) (code : Option String)
    → recorded.event_type ≡ event.event_type
    → recorded.payload_sha256 ≡ payload_hash
    → recorded.livemode ≡ event.livemode
    → duplicate_result (processed recorded code now) event payload_hash
      ≡ record { duplicate = true; accepted = not (is_some code) }
unfolding duplicate_result
known_again event payload_hash now recorded code t h l =
    rw (t, h, l, ==_refl payload_hash, eq_refl event.event_type, bool_eq_refl event.livemode) refl

module _ (settings : Settings) (uuid_of : String → Option ℕ) (event : ProviderEvent)
    (canonical : Option CanonicalCheckout) (fresh : NewIds) (now : ℕ) where
  -- the event as the transaction left it
  Handled-event :
      (recorded : StripeEvent) (start : Db) (r : WebhookResult × Db)
      → find_event start event.event_id ≡ some recorded
      → recorded.stripe_event_id ≡ event.event_id
      → Handled settings uuid_of event canonical fresh now recorded start r
      → (code : Option String) × (find_event r.1 event.event_id
          ≡ some (processed recorded code now))
        × (r.0 ≡ record { duplicate = false; accepted = not (is_some code) })
  Handled-event recorded start r found id (refusal code p) = (
    some code,
    subst
        (λ (t : WebhookResult × Db).
          find_event t.1 event.event_id ≡ some (processed recorded (some code) now))
        (sym p)
        (find_event-save_event recorded (processed recorded (some code) now) event.event_id start
          found id),
    ap (λ (t : WebhookResult × Db). t.0) p,
  )
  Handled-event recorded start r found id (bound order session_id checkout applied f s h v done p) =
      let effect =
        apply_bound-Applied (apply_event order event checkout).0 order
          (apply_event order event checkout).1 event checkout fresh now start applied done in
      (
        none,
        subst
            (λ (t : WebhookResult × Db).
              find_event t.1 event.event_id ≡ some (processed recorded none now))
            (sym p)
            (find_event-save_event recorded (processed recorded none now) event.event_id applied
              (unfold find_event in
                (ap (λ rows. find (has_event_id event.event_id) rows) (effect.stripe_events)
                  ∙ found))
              id),
        ap (λ (t : WebhookResult × Db). t.0) p,
      )

  -- A new event whose transaction has committed is a duplicate right after: delivered again with the
  -- same payload, at any time and whatever else the provider answers, it changes nothing, and it is
  -- accepted exactly if it was accepted the first time.
  pub redelivered :
      (racing : Db → Db) (payload_hash : ℕ) (db : Db) (r : WebhookResult × Db)
      → find_event db event.event_id ≡ none
      → process_transaction settings uuid_of racing event canonical payload_hash fresh now db ≡ ok r
      → (provider : Provider) (sha256 : List ℕ → ℕ) (others : Others) (later : ℕ)
      → process_event settings uuid_of provider sha256 others fresh later payload_hash event r.1
        ≡ (ok (record { duplicate = true; accepted = r.0.accepted }), r.1)
  unfolding process_event
  redelivered racing payload_hash db r new run provider sha256 others later =
      elim (process_transaction-Delivered settings uuid_of event canonical fresh now racing
        payload_hash db r run) [
          | repeated recorded p q ↦ absurd (ground arith)
          | recorded_first recorded added p q h ↦
              let rec =
                record_stripe_event-Recorded event.event_id event.event_type payload_hash now
                  event.livemode recorded (racing db) added q in
              let (code, found, result) =
                Handled-event recorded added r (rec.found) (rec.event_id_kept) h in
              let known =
                known_again event payload_hash now recorded code (rec.event_type_kept)
                  (rec.hash_kept) (rec.live_kept) in
              ground (arith, found, known, result)
        ]
