-- ===== src/Payments/Finalizing.antt =====
-- A checkout is finalized once, by the holder of its lease.
use spacerocks_coa.Base.{
  ℕ, ◌≡◌, refl, sym, ap, ◌∙◌, subst, String, Bool, true, false, some, arith, Result, ok, err,
  checkout_in_progress, Option-cases, Result-cases, inl, inr, find, replace, find-replace_self,
  find-test,
}
use spacerocks_coa.Db.{Db, Order, IdempotencyRequest, PaymentMode}
use spacerocks_coa.Orders.{find_order, save_order}
use spacerocks_coa.Orders.Tokens.{Hash, issue_token}
use spacerocks_coa.Payments.Models.{HostedCheckoutResult, Settings}
use spacerocks_coa.Payments.Reservations.{
  CheckoutPlan, CheckoutOutput, IdempotencyBinding, Fresh, has_reservation_id, save_reservation,
  same_lease, lease_active, is_completed, is_processing,
}
use spacerocks_coa.Payments.Completing.{
  ended_reservation, answer_body, finalize, finalize_held, finalize_order,
}

issue_token-keeps :
    (hash : Hash) (raw : String) (ttl : ℕ) (order : Order) (now : ℕ) (revoke : Bool) (db : Db)
    (r : String × Db)
    → issue_token hash raw ttl order now revoke db ≡ ok r
    → (r.1.idempotency_requests ≡ db.idempotency_requests) × (r.1.orders ≡ db.orders)
unfolding issue_token
issue_token-keeps hash raw ttl order now revoke db r e = ground arith

save_order-keeps :
    (o : Order) (db db' : Db)
    → save_order o db ≡ ok db'
    → db'.idempotency_requests ≡ db.idempotency_requests
unfolding save_order
save_order-keeps o db db' e = ground arith

module _ (settings : Settings) (hash : Hash) (token_ttl : ℕ)
    (check_url : String → String → PaymentMode → Result (Unit {0})) where
  -- a successful `_finalize`: who held the lease, and what the reservation and the order became
  pub record Finalized (p : CheckoutPlan) (binding : IdempotencyBinding)
      (result : HostedCheckoutResult) (now : ℕ) (db db' : Db) : Type 0 where
    pub reservation : IdempotencyRequest
    pub found :
        find (has_reservation_id p.reservation_id) db.idempotency_requests ≡ some reservation
    pub bound : reservation.request_hash ≡ binding.request_sha256
    pub in_process : is_processing reservation.checkout_state ≡ true
    pub held : same_lease reservation.checkout_lease_id p.lease_id ≡ true
    pub unexpired : lease_active reservation.checkout_lease_expires_at now ≡ true
    pub ended : IdempotencyRequest
    pub written : find (has_reservation_id p.reservation_id) db'.idempotency_requests ≡ some ended
    pub completed : is_completed ended.checkout_state ≡ true
    pub same_request : ended.request_hash ≡ binding.request_sha256

  -- what the reservation becomes
  abbrev EndedAs : IdempotencyRequest → IdempotencyRequest → Type 0
  EndedAs reservation row =
      (is_completed row.checkout_state ≡ true)
      × (row.request_hash ≡ reservation.request_hash)
      × (row.id ≡ reservation.id)

  order_end :
      (order : Order) (reservation : IdempotencyRequest) (result : HostedCheckoutResult)
      (fresh : Fresh) (now : ℕ) (db : Db) (r : CheckoutOutput × Db)
      → finalize_order settings hash token_ttl check_url order reservation result fresh now db
        ≡ ok r
      → (row : IdempotencyRequest) × EndedAs reservation row
        × (r.1.idempotency_requests
            ≡ replace (has_reservation_id row.id) row db.idempotency_requests)
  unfolding finalize_order save_reservation
  order_end order reservation result fresh now db r e =
      let opened = record order {
        checkout_session_id = some result.session_id;
        updated_at = now;
      } in
      elim (Result-cases (save_order opened db)) [
        | inr (x, p) ↦ absurd (ground arith)
        | inl (saved, p) ↦
            elim (Result-cases (issue_token hash fresh.token token_ttl opened now false saved)) [
              | inr (x, q) ↦ absurd (ground arith)
              | inl (t, q) ↦
                  let same =
                    (issue_token-keeps hash fresh.token token_ttl opened now false saved t q).0
                    ∙ save_order-keeps opened db saved p in
                  let row =
                    ended_reservation settings hash token_ttl check_url reservation
                      (answer_body settings hash token_ttl check_url opened result) now in
                  (row, (refl, refl, refl), ground (arith, same))
            ]
      ]

  held_end :
      (reservation : IdempotencyRequest) (result : HostedCheckoutResult) (fresh : Fresh) (now : ℕ)
      (db : Db) (r : CheckoutOutput × Db)
      → finalize_held settings hash token_ttl check_url reservation result fresh now db ≡ ok r
      → (row : IdempotencyRequest) × EndedAs reservation row
        × (r.1.idempotency_requests
            ≡ replace (has_reservation_id row.id) row db.idempotency_requests)
  unfolding finalize_held
  held_end reservation result fresh now db r e =
      elim (Option-cases (find_order db reservation.order_id)) [
        | inl p ↦ absurd (ground arith)
        | inr (order, p) ↦ order_end order reservation result fresh now db r (ground arith)
      ]

  pub finalize-Finalized :
      (p : CheckoutPlan) (binding : IdempotencyBinding) (result : HostedCheckoutResult)
      (fresh : Fresh) (now : ℕ) (db : Db) (r : CheckoutOutput × Db)
      → finalize settings hash token_ttl check_url p binding result fresh now db ≡ ok r
      → Finalized p binding result now db r.1
  unfolding finalize
  finalize-Finalized p binding result fresh now db r e =
      elim (Option-cases (find (has_reservation_id p.reservation_id) db.idempotency_requests)) [
        | inl q ↦ absurd (ground arith)
        | inr (reservation, q) ↦
            let id : reservation.id ≡ p.reservation_id = ground (
              arith,
              find-test (has_reservation_id p.reservation_id) db.idempotency_requests reservation q,
            ) in
            let (row, (completed, same, row_id), rows) =
              held_end reservation result fresh now db r (ground arith) in
            record {
              reservation = reservation;
              found = q;
              bound = ground arith;
              in_process = ground arith;
              held = ground arith;
              unexpired = ground arith;
              ended = row;
              written =
                  ap (find (has_reservation_id p.reservation_id)) rows
                  ∙ subst
                      (λ i.
                        find (has_reservation_id p.reservation_id)
                          (replace (has_reservation_id i) row db.idempotency_requests)
                        ≡ some row)
                      (sym (row_id ∙ id))
                      (find-replace_self (has_reservation_id p.reservation_id)
                        db.idempotency_requests reservation row q (ground arith));
              completed = completed;
              same_request = ground arith;
            }
      ]

  -- A checkout is finalized once: when a plan was finalized, every later attempt with the same
  -- reservation and request is refused, by whatever plan, and the database stays as it is.
  pub finalized_once :
      (p : CheckoutPlan) (binding : IdempotencyBinding) (result : HostedCheckoutResult)
      (fresh : Fresh) (now : ℕ) (db : Db) (r : CheckoutOutput × Db)
      → finalize settings hash token_ttl check_url p binding result fresh now db ≡ ok r
      → (q : CheckoutPlan) → q.reservation_id ≡ p.reservation_id
      → (again : HostedCheckoutResult) (drawn : Fresh) (later : ℕ)
      → finalize settings hash token_ttl check_url q binding again drawn later r.1
        ≡ err (checkout_in_progress "checkout credential is in its grace period")
  unfolding finalize
  finalized_once p binding result fresh now db r e q same again drawn later =
      let f = finalize-Finalized p binding result fresh now db r e in
      ground (arith, f.written, f.completed, f.same_request, f.bound, same)
