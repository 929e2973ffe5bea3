-- ===== src/Payments/Leasing.antt =====
-- While one call of checkout holds the lease on a reservation, no other call gets it.
use spacerocks_coa.Base.{
  ℕ, ◌+◌, ◌<◌, ◌≡◌, refl, ap, ◌∙◌, String, Bool, true, none, some, List, [], ◌∷◌, arith, Result, ok,
  err, checkout_in_progress, find, replace, find-test, Option-cases, Bool-cases, Result-cases, inl,
  inr,
}
use spacerocks_coa.Db.{Db, Order, IdempotencyRequest, PaymentMode, CheckoutState}
use spacerocks_coa.Orders.{find_order, has_order_id}
use spacerocks_coa.Orders.Tokens.{Hash}
use spacerocks_coa.Payments.Models.{Settings, mode_eq}
use spacerocks_coa.Payments.Reservations.{
  CheckoutPlan, CheckoutInput, IdempotencyBinding, Fresh, Reserved, find_idempotency, has_key,
  has_reservation_id, save_reservation, is_completed,
}
use spacerocks_coa.Payments.Checkout.{
  reserve, reserve_again, use_existing, resume, resume_leased, make_plan, replay,
}

-- no two reservations have one id
abbrev pub DistinctReservations : List IdempotencyRequest → Type 0
DistinctReservations [] = Unit
DistinctReservations (x ∷ xs) = (find (has_reservation_id x.id) xs ≡ none) × DistinctReservations xs

found_by_id :
    (p : IdempotencyRequest → Bool) (rows : List IdempotencyRequest) (a : IdempotencyRequest)
    → DistinctReservations rows
    → find p rows ≡ some a
    → find (has_reservation_id a.id) rows ≡ some a
unfolding find
found_by_id p [] a d e = cc
found_by_id p (x ∷ xs) a d e = ground (arith, found_by_id p xs a d.1)

-- the row of a key that was written again is found by the key
saved_by_key :
    (key : ℕ) (rows : List IdempotencyRequest) (a b : IdempotencyRequest)
    → DistinctReservations rows
    → find (has_key key) rows ≡ some a
    → b.id ≡ a.id
    → has_key key b ≡ true
    → find (has_key key) (replace (has_reservation_id b.id) b rows) ≡ some b
unfolding find replace
saved_by_key key [] a b d e same k = cc
saved_by_key key (x ∷ xs) a b d e same k =
    ground (arith, saved_by_key key xs a b d.1, found_by_id (has_key key) xs a d.1)

module _ (settings : Settings) (hash : Hash) (token_ttl : ℕ)
    (check_url : String → String → PaymentMode → Result (Unit {0})) where
  -- the reservation of a key is leased until the grace after `now` has passed
  pub record LeasedKey (binding : IdempotencyBinding) (now : ℕ) (db : Db) : Type 0 where
    pub row : IdempotencyRequest
    pub found : find_idempotency binding.key_sha256 db ≡ some row
    pub bound : row.request_hash ≡ binding.request_sha256
    pub lease : row.checkout_lease_expires_at ≡ some (now + settings.checkout_credential_grace)
    pub order : Order
    pub ordered : find_order db row.order_id ≡ some order
    pub mode : mode_eq order.payment_mode settings.payment_mode ≡ true

  refused_existing :
      (row : IdempotencyRequest) (binding : IdempotencyBinding) (fresh : Fresh) (now later : ℕ)
      (db : Db) (order : Order)
      → row.request_hash ≡ binding.request_sha256
      → row.checkout_lease_expires_at ≡ some (now + settings.checkout_credential_grace)
      → find_order db row.order_id ≡ some order
      → mode_eq order.payment_mode settings.payment_mode ≡ true
      → later < now + settings.checkout_credential_grace
      → use_existing settings hash token_ttl check_url row binding fresh later db
        ≡ err (checkout_in_progress "checkout credential is in its grace period")
  unfolding use_existing resume
  refused_existing row binding fresh now later db order bound lease ordered mode early =
      ground arith

  pub leased_refuses :
      (binding : IdempotencyBinding) (now later : ℕ) (db : Db)
      → LeasedKey binding now db
      → later < now + settings.checkout_credential_grace
      → (racing : Db → Db) (request : CheckoutInput) (fresh : Fresh)
      → reserve settings hash token_ttl check_url racing request binding fresh later db
        ≡ err (checkout_in_progress "checkout credential is in its grace period")
  unfolding reserve reserve_again
  leased_refuses binding now later db l early racing request fresh = ground (
    arith,
    l.found,
    refused_existing l.row binding fresh now later db l.order l.bound l.lease l.ordered l.mode
        early,
  )

  resumed :
      (held : IdempotencyRequest) (binding : IdempotencyBinding) (fresh : Fresh) (now : ℕ) (db : Db)
      (p : CheckoutPlan) (db' : Db)
      → resume_leased settings hash token_ttl check_url held binding fresh now db
        ≡ ok (Reserved.to_create p, db')
      → db' ≡ save_reservation (record held { checkout_state = CheckoutState.processing }) db
  unfolding resume_leased
  resumed held binding fresh now db p db' e = elim (Bool-cases (is_completed held.checkout_state)) [
    | inl c ↦
        elim (Result-cases (
          replay settings hash token_ttl check_url held binding fresh now
            (save_reservation held db))) [
              | inl (t, q) ↦ absurd (ground arith)
              | inr (x, q) ↦ absurd (ground arith)
            ]
    | inr c ↦
        elim (Result-cases (
          make_plan settings hash token_ttl check_url
            (record held { checkout_state = CheckoutState.processing }) db)) [
              | inl (t, q) ↦ ground arith
              | inr (x, q) ↦ absurd (ground arith)
            ]
  ]

  -- the reservation as `_resume` writes it
  abbrev resumed_row : IdempotencyRequest → Fresh → ℕ → IdempotencyRequest
  resumed_row existing fresh now = record existing {
    checkout_lease_id = some fresh.lease_id;
    checkout_lease_expires_at = some (now + settings.checkout_credential_grace);
    checkout_state = CheckoutState.processing;
  }

  existing_parts :
      (existing : IdempotencyRequest) (binding : IdempotencyBinding) (fresh : Fresh) (now : ℕ)
      (db : Db) (p : CheckoutPlan) (db' : Db)
      → use_existing settings hash token_ttl check_url existing binding fresh now db
        ≡ ok (Reserved.to_create p, db')
      → (existing.request_hash ≡ binding.request_sha256)
        × (order : Order) × (find_order db existing.order_id ≡ some order)
        × (mode_eq order.payment_mode settings.payment_mode ≡ true)
        × (db' ≡ save_reservation (resumed_row existing fresh now) db)
  unfolding use_existing resume
  existing_parts existing binding fresh now db p db' e =
      elim (Option-cases (find_order db existing.order_id)) [
        | inl q ↦ absurd (ground arith)
        | inr (order, q) ↦ (
          ground arith,
          order,
          q,
          ground arith,
          resumed
              (record existing {
                checkout_lease_id = some fresh.lease_id;
                checkout_lease_expires_at = some (now + settings.checkout_credential_grace);
              })
              binding fresh now db p db' (ground arith),
        )
      ]

  pub existing_LeasedKey :
      (existing : IdempotencyRequest) (binding : IdempotencyBinding) (fresh : Fresh) (now : ℕ)
      (db : Db) (p : CheckoutPlan) (db' : Db)
      → DistinctReservations db.idempotency_requests
      → find_idempotency binding.key_sha256 db ≡ some existing
      → use_existing settings hash token_ttl check_url existing binding fresh now db
        ≡ ok (Reserved.to_create p, db')
      → LeasedKey binding now db'
  unfolding find_idempotency save_reservation find_order
  existing_LeasedKey existing binding fresh now db p db' d found e =
      let (bound, order, ordered, mode, same) =
        existing_parts existing binding fresh now db p db' e in
      let row = resumed_row existing fresh now in
      record {
        row = row;
        found =
            ap (λ (d : Db). find (has_key binding.key_sha256) d.idempotency_requests) same
            ∙ saved_by_key binding.key_sha256 db.idempotency_requests existing row d found refl
                (find-test (has_key binding.key_sha256) db.idempotency_requests existing found);
        bound = bound;
        lease = refl;
        order = order;
        ordered = ap (λ (d : Db). find (has_order_id existing.order_id) d.orders) same ∙ ordered;
        mode = mode;
      }
