-- ===== src/Fulfillment/Monitoring.antt =====
-- About the confirmations that the monitor records for a proof.
use spacerocks_coa.Base.{
  ℕ, ◌≤◌, ◌≡◌, ◌≢◌, ◌⊎◌, refl, sym, subst, ap, ◌∙◌, String, Option, none, some, List, [], ◌∷◌, ◌++◌,
  arith, Result, ok, Result-cases, Option-cases, inl, inr, raise_if, ltb, not, manual_review_error,
  confirmation_pending,
}
use spacerocks_coa.Db.{Db}
use spacerocks_coa.Db.Evidence.{BitcoinConfirmationObservation}
use spacerocks_coa.Proofs.Models.{BitcoinVerification, StoredProof}
use spacerocks_coa.Proofs.Rows.{latest_observation}
use spacerocks_coa.Proofs.Observations.{
  project_observation, latest_confirmation, ConfirmationObservation, record_once,
}
use spacerocks_coa.Fulfillment.Repository.{FulfillmentOrder, get_for_fulfillment}
use spacerocks_coa.Fulfillment.Steps.{
  Surroundings, Tools, Program, given, after, commit, commit_write, load, read_latest,
}
use spacerocks_coa.Fulfillment.Upgrading.{observe, observation_event_key, is_verified}
use spacerocks_coa.Fulfillment.Delivering.{
  confirmed_again, confirm, check_monitored, confirmation_handler, notify, read_verified,
  read_confirmation,
}
use spacerocks_coa.Notifications.Messages.{
  NotificationKind, final_confirmation, notification_message,
}
use spacerocks_coa.Notifications.Outbox.{OutboxSettings, enqueue}
use spacerocks_coa.Fulfillment.Observing.{
  record_once-AddsOne, enqueue-observations, after_holds, given_holds, latest-same,
  confirmed_again-count, KeepsObservations,
}

-- the observations are those of before, or one more, of this order, that has no fewer confirmations
-- than the last one of its version
abbrev pub NeverFewer : ℕ → Db → Db → Type 0
NeverFewer order_id db db' =
    (db'.confirmation_observations ≡ db.confirmation_observations)
    ⊎ ((row : BitcoinConfirmationObservation) × (previous : BitcoinConfirmationObservation)
        × (db'.confirmation_observations ≡ db.confirmation_observations ++ row ∷ [])
        × (row.order_id ≡ order_id)
        × (latest_observation order_id row.proof_version db ≡ some previous)
        × (previous.observed_confirmations ≤ row.observed_confirmations))

module _ (tools : Tools) (around : Surroundings) (mails : OutboxSettings)
    (verify_exact_digest : ℕ → List ℕ → Result BitcoinVerification)
    (keeps : KeepsObservations around) (order_id : ℕ) (db : Db) where
  NeverFewer-same :
      (d d' : Db)
      → d'.confirmation_observations ≡ d.confirmation_observations
      → NeverFewer order_id db d
      → NeverFewer order_id db d'
  NeverFewer-same d d' same (inl e) = inl (same ∙ e)
  NeverFewer-same d d' same (inr (row, previous, e, o, l, c)) =
      inr (row, previous, same ∙ e, o, l, c)

  load-seen : (load tools around order_id db).1 ≡ around.others 0 db
  unfolding load
  load-seen = elim (Option-cases (get_for_fulfillment order_id (around.others 0 db))) [
    | inl p ↦ ground arith
    | inr (order, p) ↦ ground arith
  ]

  notify-observations :
      (step : ℕ) (kind : NotificationKind) (order : FulfillmentOrder) (proof : StoredProof) (n : ℕ)
      (d : Db)
      → (notify tools around mails step kind order proof n d).1.confirmation_observations
        ≡ d.confirmation_observations
  unfolding notify
  notify-observations step kind order proof n d =
      let seen = around.others step d in
      given_holds (λ x. x.confirmation_observations ≡ d.confirmation_observations)
        (notification_message kind order.state.snapshot.order_reference order.state.snapshot.email
          proof.version n)
        (λ message d.
          let seen = around.others step d in
          commit_write (enqueue mails message (around.new_id step) (around.clock step) seen) seen)
        d refl
        (λ message p.
          elim (Result-cases
            (enqueue mails message (around.new_id step) (around.clock step) seen)) [
              | inr (x, q) ↦ ground (arith, keeps step d)
              | inl (end, q) ↦ ground (
                arith,
                keeps step d,
                enqueue-observations mails message (around.new_id step) (around.clock step) seen end
                    q,
              )
            ])

  module _ (order : FulfillmentOrder) (proof : StoredProof) (current : BitcoinVerification) (d : Db)
      (n : ℕ) (previous : BitcoinConfirmationObservation)
      (same : d.confirmation_observations ≡ db.confirmation_observations)
      (count : current.confirmations ≡ some n)
      (last : latest_observation order_id proof.version db ≡ some previous)
      (least : previous.observed_confirmations ≤ n) where
    recorded_holds :
        (key : String)
        → NeverFewer order_id db
            (commit
              (record_once order_id proof.version key current
                (around.new_id 4)
                (around.clock 4)
                (around.others 4 d))
              (around.others 4 d)).1
    recorded_holds key =
        let seen = around.others 4 d in
        let call =
          record_once order_id proof.version key current (around.new_id 4) (around.clock 4) seen in
        elim (Result-cases call) [
          | inr (x, p) ↦
              subst (λ r. NeverFewer order_id db (commit r seen).1) (sym p) (inl (keeps 4 d ∙ same))
          | inl (r, p) ↦
              subst (λ r. NeverFewer order_id db (commit r seen).1) (sym p)
                (elim (record_once-AddsOne order_id proof.version key current (around.new_id 4)
                  (around.clock 4) seen n r count p) [
                    | inl e ↦ inl (e ∙ (keeps 4 d ∙ same))
                    | inr (row, e, o, v, c) ↦ inr (
                      row,
                      previous,
                      e ∙ ap (λ rows. rows ++ row ∷ []) (keeps 4 d ∙ same),
                      o,
                      subst (λ w. latest_observation order_id w db ≡ some previous) (sym v) last,
                      subst (λ m. previous.observed_confirmations ≤ m) (sym c) least,
                    )
                  ])
        ]

    observe_holds :
        NeverFewer order_id db (observe tools around 4 order_id proof.version current d).1
    unfolding observe
    observe_holds =
        given_holds (NeverFewer order_id db) (observation_event_key proof.version current)
          (λ key x.
            let seen = around.others 4 x in
            commit
              (record_once order_id proof.version key current (around.new_id 4) (around.clock 4)
                seen)
              seen)
          d (inl same) (λ key p. recorded_holds key)

    confirm_holds :
        NeverFewer order_id db
          (confirm tools around mails verify_exact_digest order_id order proof current d).1
    unfolding confirm
    confirm_holds =
        let seen = observe tools around 4 order_id proof.version current d in
        let pending = λ (o : ConfirmationObservation).
          raise_if (ltb o.confirmations 6)
            (confirmation_pending "bitcoin_final_confirmation_pending") in
        let mail = λ (o : ConfirmationObservation) (u : Unit {0}).
          notify tools around mails 5 final_confirmation order proof o.confirmations in
        after_holds (NeverFewer order_id db) seen (λ o. given (pending o) (mail o)) observe_holds
          (λ o e.
            given_holds (NeverFewer order_id db) (pending o) (mail o) seen.1 observe_holds (λ u p.
              NeverFewer-same seen.1 (mail o u seen.1).1
                (notify-observations 5 final_confirmation order proof o.confirmations seen.1)
                observe_holds))

  no_previous :
      (order : FulfillmentOrder) (proof : StoredProof) (stored : Option BitcoinVerification)
      (current : BitcoinVerification)
      → confirmed_again tools around mails verify_exact_digest order proof stored none ≢ ok current
  unfolding confirmed_again
  no_previous order proof none current e = cc
  no_previous order proof (some v) current e = cc

  checked_holds :
      (order : FulfillmentOrder) (proof : StoredProof) (stored : Option BitcoinVerification)
      (d : Db)
      → d.confirmation_observations ≡ db.confirmation_observations
      → NeverFewer order_id db
          (given
            (confirmed_again tools around mails verify_exact_digest order proof stored
              (latest_confirmation order_id proof.version d))
            (confirm tools around mails verify_exact_digest order_id order proof)
            d).1
  unfolding latest_confirmation
  checked_holds order proof stored d same =
      let again = λ (p : Option ConfirmationObservation).
        confirmed_again tools around mails verify_exact_digest order proof stored p in
      let next = confirm tools around mails verify_exact_digest order_id order proof in
      elim (Option-cases (latest_observation order_id proof.version d)) [
        | inl p ↦
            let e : latest_confirmation order_id proof.version d ≡ none = ground (arith, p) in
            subst (λ o. NeverFewer order_id db (given (again o) next d).1) (sym e)
              (given_holds (NeverFewer order_id db) (again none) next d (inl same)
                (λ current e. absurd (no_previous order proof stored current e)))
        | inr (previous, p) ↦
            let e : latest_confirmation order_id proof.version d
                ≡ some (project_observation previous) =
              ground (arith, p) in
            subst (λ o. NeverFewer order_id db (given (again o) next d).1) (sym e)
              (given_holds (NeverFewer order_id db) (again (some (project_observation previous)))
                next d (inl same)
                (λ current e.
                  let (n, count, least) =
                    confirmed_again-count tools around mails verify_exact_digest order proof stored
                      (project_observation previous) current e in
                  confirm_holds order proof current d n previous same count
                    (sym (latest-same order_id proof.version db d same) ∙ p) least))
      ]

  abbrev after_previous :
      FulfillmentOrder → StoredProof → Option BitcoinVerification → Program (Unit {0})
  after_previous order proof stored d =
      after (read_confirmation tools around mails 3 order_id proof.version d) (λ previous.
        given (confirmed_again tools around mails verify_exact_digest order proof stored previous)
          (confirm tools around mails verify_exact_digest order_id order proof))

  abbrev after_proof : FulfillmentOrder → StoredProof → Program (Unit {0})
  after_proof order proof d =
      after (read_verified tools around mails 2 order_id proof.version d)
        (λ stored. after_previous order proof stored)

  abbrev after_load : FulfillmentOrder → Program (Unit {0})
  after_load order d =
      after (read_latest tools around 1 order.state.snapshot.order_reference d) (λ latest.
        given (check_monitored tools around mails verify_exact_digest order latest)
          (after_proof order))

  previous_holds :
      (order : FulfillmentOrder) (proof : StoredProof) (stored : Option BitcoinVerification)
      (d : Db)
      → d.confirmation_observations ≡ db.confirmation_observations
      → NeverFewer order_id db (after_previous order proof stored d).1
  unfolding read_confirmation
  previous_holds order proof stored d same =
      checked_holds order proof stored (around.others 3 d) (keeps 3 d ∙ same)

  proof_holds :
      (order : FulfillmentOrder) (proof : StoredProof) (d : Db)
      → d.confirmation_observations ≡ db.confirmation_observations
      → NeverFewer order_id db (after_proof order proof d).1
  unfolding read_verified
  proof_holds order proof d same =
      after_holds (NeverFewer order_id db)
        (read_verified tools around mails 2 order_id proof.version d) (after_previous order proof)
        (inl (keeps 2 d ∙ same))
        (λ stored e. previous_holds order proof stored (around.others 2 d) (keeps 2 d ∙ same))

  loaded_holds :
      (order : FulfillmentOrder) (d : Db)
      → d.confirmation_observations ≡ db.confirmation_observations
      → NeverFewer order_id db (after_load order d).1
  unfolding read_latest
  loaded_holds order d same =
      let seen = around.others 1 d in
      let kept = keeps 1 d ∙ same in
      after_holds (NeverFewer order_id db)
        (read_latest tools around 1 order.state.snapshot.order_reference d)
        (λ latest.
          given (check_monitored tools around mails verify_exact_digest order latest)
            (after_proof order))
        (inl kept)
        (λ latest e.
          given_holds (NeverFewer order_id db)
            (check_monitored tools around mails verify_exact_digest order latest)
            (after_proof order) seen (inl kept) (λ proof p. proof_holds order proof seen kept))

  -- Whatever the monitor of confirmations does with an order and however it ends, if other processes
  -- record no observation meanwhile, the observations are those of before, or there is one more, of
  -- this order, with no fewer confirmations than the last one before it of its version.
  pub monitor-NeverFewer :
      NeverFewer order_id db
        (confirmation_handler tools around mails verify_exact_digest order_id db).1
  unfolding confirmation_handler
  monitor-NeverFewer =
      let first = load tools around order_id db in
      let kept : first.1.confirmation_observations ≡ db.confirmation_observations =
        ap (λ (x : Db). x.confirmation_observations) load-seen ∙ keeps 0 db in
      let tested = λ (order : FulfillmentOrder).
        raise_if (not (is_verified order.state.fulfillment))
          (manual_review_error "confirmation_monitor_state_invalid") in
      after_holds (NeverFewer order_id db) first
        (λ order. given (tested order) (λ u. after_load order)) (inl kept)
        (λ order e.
          given_holds (NeverFewer order_id db) (tested order) (λ u. after_load order) first.1
            (inl kept) (λ u p. loaded_holds order first.1 kept))
