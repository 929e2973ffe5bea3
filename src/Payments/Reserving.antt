-- ===== src/Payments/Reserving.antt =====
-- A reservation that returns a plan holds the lease on its key.
use spacerocks_coa.Base.{
  ℕ, ◌+◌, ◌<◌, ◌≡◌, refl, sym, ap, ◌∙◌, subst, String, Bool, true, ◌&&◌, ◌||◌, ◌==◌, ==_refl, none,
  some, List, [], ◌∷◌, ◌++◌, arith, Result, ok, err, integrity_error, checkout_in_progress, find,
  find-append, Option-cases, Result-cases, inl, inr, ◌⊎◌, str_eq,
}
use spacerocks_coa.Db.{Db, Order, IdempotencyRequest, PaymentMode}
use spacerocks_coa.Orders.{find_order, has_order_id, record_state_event, insert_state_event}
use spacerocks_coa.Orders.Keys.{joined, uuid_string}
use spacerocks_coa.Orders.Tokens.{Hash}
use spacerocks_coa.Payments.Models.{Settings, mode_eq}
use spacerocks_coa.Payments.Reservations.{
  CheckoutPlan, CheckoutInput, IdempotencyBinding, Fresh, Reserved, find_idempotency, has_key,
  endpoint, insert_order, insert_reservation,
}
use spacerocks_coa.Payments.Checkout.{
  reserve, reserve_again, reserve_new, use_existing, new_order, new_reservation, make_plan,
}
use spacerocks_coa.Payments.Leasing.{
  DistinctReservations, LeasedKey, existing_LeasedKey, leased_refuses,
}

find_weaker :
    {A : Type 0} (p q : A → Bool) (xs : List A)
    → ((x : A) → q x ≡ true → p x ≡ true)
    → find p xs ≡ none
    → find q xs ≡ none
unfolding find
find_weaker p q [] h e = refl
find_weaker p q (x ∷ xs) h e = ground (arith, h x, find_weaker p q xs h)

inserted_order :
    (o : Order) (db db' : Db)
    → insert_order o db ≡ ok db'
    → (find (has_order_id o.id) db.orders ≡ none)
      × (db'.orders ≡ db.orders ++ o ∷ [])
      × (db'.idempotency_requests ≡ db.idempotency_requests)
unfolding insert_order
inserted_order o db db' e = (
  find_weaker
      (λ (x : Order).
        x.id == o.id
        || (str_eq x.order_reference o.order_reference
            || str_eq x.fulfillment_key o.fulfillment_key))
      (has_order_id o.id) db.orders (λ x h. ground arith) (ground arith),
  ground arith,
  ground arith,
)

inserted_reservation :
    (r : IdempotencyRequest) (db db' : Db)
    → r.endpoint ≡ endpoint
    → insert_reservation r db ≡ ok db'
    → (db'.idempotency_requests ≡ db.idempotency_requests ++ r ∷ [])
      × (db'.orders ≡ db.orders)
      × (find (has_key r.key_hash) db.idempotency_requests ≡ none)
unfolding insert_reservation
inserted_reservation r db db' at e = (
  ground arith,
  ground arith,
  find_weaker
      (λ (x : IdempotencyRequest).
        x.id == r.id
        || ((str_eq x.endpoint r.endpoint && x.key_hash == r.key_hash)
            || (x.order_id == r.order_id
                || str_eq x.provider_idempotency_key r.provider_idempotency_key)))
      (has_key r.key_hash) db.idempotency_requests
      (λ x h.
        subst
          (λ t.
            (x.id == r.id
              || ((str_eq x.endpoint t && x.key_hash == r.key_hash)
                  || (x.order_id == r.order_id
                      || str_eq x.provider_idempotency_key r.provider_idempotency_key)))
            ≡ true)
          (sym at) (ground arith))
      (ground arith),
)

noted_requests :
    (order : Order) (key source : String) (now : ℕ) (db db' : Db)
    → record_state_event order key source order.payment_state order.fulfillment_state now db
      ≡ ok db'
    → (db'.idempotency_requests ≡ db.idempotency_requests) × (db'.orders ≡ db.orders)
unfolding record_state_event insert_state_event
noted_requests order key source now db db' e = (ground arith, ground arith)

mode_eq_refl : (m : PaymentMode) → mode_eq m m ≡ true
mode_eq_refl PaymentMode.disabled = refl
mode_eq_refl PaymentMode.fixture = refl
mode_eq_refl PaymentMode.stripe_test = refl
mode_eq_refl PaymentMode.stripe_live = refl

module _ (settings : Settings) (hash : Hash) (token_ttl : ℕ)
    (check_url : String → String → PaymentMode → Result (Unit {0})) where
  abbrev fresh_order : CheckoutInput → Fresh → String → ℕ → Order
  fresh_order = new_order settings hash token_ttl check_url

  abbrev fresh_reservation : IdempotencyBinding → Fresh → ℕ → IdempotencyRequest
  fresh_reservation = new_reservation settings hash token_ttl check_url

  -- the tables after a new reservation
  new_rows :
      (request : CheckoutInput) (binding : IdempotencyBinding) (fresh : Fresh) (now : ℕ) (db : Db)
      (p : CheckoutPlan) (db' : Db)
      → reserve_new settings hash token_ttl check_url request binding fresh now db
        ≡ ok (Reserved.to_create p, db')
      → (reference : String) × (db'.idempotency_requests
          ≡ db.idempotency_requests ++ fresh_reservation binding fresh now ∷ [])
        × (db'.orders ≡ db.orders ++ fresh_order request fresh reference now ∷ [])
        × (find (has_order_id fresh.order_id) db.orders ≡ none)
        × (find (has_key binding.key_sha256) db.idempotency_requests ≡ none)
  unfolding reserve_new
  new_rows request binding fresh now db p db' e = elim (Result-cases fresh.order_reference) [
    | inr (x, q) ↦ absurd (ground arith)
    | inl (reference, q) ↦
        let order = fresh_order request fresh reference now in
        let row = fresh_reservation binding fresh now in
        elim (Result-cases (insert_order order db)) [
          | inr (x, o) ↦ absurd (ground arith)
          | inl (ordered, o) ↦ elim (Result-cases (insert_reservation row ordered)) [
            | inr (x, r) ↦ absurd (ground arith)
            | inl (reserved, r) ↦
                elim (Result-cases (
                  record_state_event order (joined "checkout:" (uuid_string order.id)) "checkout"
                    order.payment_state order.fulfillment_state now reserved)) [
                      | inr (x, n) ↦ absurd (ground arith)
                      | inl (noted, n) ↦
                          elim (Result-cases
                            (make_plan settings hash token_ttl check_url row noted)) [
                              | inr (x, m) ↦ absurd (ground arith)
                              | inl (planned, m) ↦
                                  let (absent, orders, requests) =
                                    inserted_order order db ordered o in
                                  let (added, kept, unkeyed) =
                                    inserted_reservation row ordered reserved refl r in
                                  let (requests', orders') =
                                    noted_requests order (joined "checkout:" (uuid_string order.id))
                                      "checkout" now reserved noted n in
                                  let last : noted ≡ db' = ground arith in
                                  (
                                    reference,
                                    ground (arith, last, requests', added, requests),
                                    ground (arith, last, orders', kept, orders),
                                    absent,
                                    ap (find (has_key binding.key_sha256)) (sym requests) ∙ unkeyed,
                                  )
                            ]
                    ]
          ]
        ]
  ]

  new_LeasedKey :
      (request : CheckoutInput) (binding : IdempotencyBinding) (fresh : Fresh) (now : ℕ) (db : Db)
      (p : CheckoutPlan) (db' : Db)
      → reserve_new settings hash token_ttl check_url request binding fresh now db
        ≡ ok (Reserved.to_create p, db')
      → LeasedKey settings hash token_ttl check_url binding now db'
  unfolding find_idempotency find_order find
  new_LeasedKey request binding fresh now db p db' e =
      let (reference, requests, orders, unused, absent) =
        new_rows request binding fresh now db p db' e in
      let row = fresh_reservation binding fresh now in
      let order = fresh_order request fresh reference now in
      record {
        row = row;
        found =
            ap (find (has_key binding.key_sha256)) requests
            ∙ (find-append (has_key binding.key_sha256) db.idempotency_requests (row ∷ [])
                ∙ ground (arith, absent, ==_refl binding.key_sha256));
        bound = refl;
        lease = refl;
        order = order;
        ordered =
            ap (find (has_order_id fresh.order_id)) orders
            ∙ (find-append (has_order_id fresh.order_id) db.orders (order ∷ [])
                ∙ ground (arith, unused, ==_refl fresh.order_id));
        mode = mode_eq_refl settings.payment_mode;
      }

  again_parts :
      (binding : IdempotencyBinding) (fresh : Fresh) (now : ℕ) (r : Result (Reserved × Db))
      (db : Db) (x : Reserved × Db)
      → reserve_again settings hash token_ttl check_url binding fresh now r db ≡ ok x
      → (r ≡ ok x)
        ⊎ ((existing : IdempotencyRequest) × (find_idempotency binding.key_sha256 db
              ≡ some existing)
            × (use_existing settings hash token_ttl check_url existing binding fresh now db ≡ ok x))
  unfolding reserve_again
  again_parts binding fresh now (ok y) db x e = inl e
  again_parts binding fresh now (err integrity_error) db x e =
      elim (Option-cases (find_idempotency binding.key_sha256 db)) [
        | inl q ↦ absurd (ground arith)
        | inr (existing, q) ↦ inr (existing, q, ground arith)
      ]
  again_parts binding fresh now (err y) db x e = absurd (cc)

  reserve-LeasedKey :
      (racing : Db → Db) (request : CheckoutInput) (binding : IdempotencyBinding) (fresh : Fresh)
      (now : ℕ) (db : Db) (p : CheckoutPlan) (db' : Db)
      → DistinctReservations db.idempotency_requests
      → DistinctReservations (racing db).idempotency_requests
      → reserve settings hash token_ttl check_url racing request binding fresh now db
        ≡ ok (Reserved.to_create p, db')
      → LeasedKey settings hash token_ttl check_url binding now db'
  unfolding reserve
  reserve-LeasedKey racing request binding fresh now db p db' d d' e =
      elim (Option-cases (find_idempotency binding.key_sha256 db)) [
        | inr (existing, q) ↦
            elim (again_parts binding fresh now
              (use_existing settings hash token_ttl check_url existing binding fresh now db) db
              (Reserved.to_create p, db') (ground arith)) [
                | inl used ↦
                    existing_LeasedKey settings hash token_ttl check_url existing binding fresh now
                      db p db' d q used
                | inr (other, o, used) ↦
                    existing_LeasedKey settings hash token_ttl check_url other binding fresh now db
                      p db' d o used
              ]
        | inl q ↦
            elim (again_parts binding fresh now
              (reserve_new settings hash token_ttl check_url request binding fresh now (racing db))
              (racing db) (Reserved.to_create p, db') (ground arith)) [
                | inl made ↦ new_LeasedKey request binding fresh now (racing db) p db' made
                | inr (other, o, used) ↦
                    existing_LeasedKey settings hash token_ttl check_url other binding fresh now
                      (racing db) p db' d' o used
              ]
      ]

  -- Two calls never hold the lease on one key at a time: after a call of `_reserve` that returned a
  -- plan, every call for the same key and request before the end of its grace is refused, in whatever
  -- way the first one came to its plan: a new key, a resumed reservation, or a lost race. The rows of
  -- reservations have distinct ids.
  pub one_holder :
      (racing : Db → Db) (request : CheckoutInput) (binding : IdempotencyBinding) (fresh : Fresh)
      (now : ℕ) (db : Db) (p : CheckoutPlan) (db' : Db)
      → DistinctReservations db.idempotency_requests
      → DistinctReservations (racing db).idempotency_requests
      → reserve settings hash token_ttl check_url racing request binding fresh now db
        ≡ ok (Reserved.to_create p, db')
      → (later : ℕ) → later < now + settings.checkout_credential_grace
      → (others : Db → Db) (asked : CheckoutInput) (drawn : Fresh)
      → reserve settings hash token_ttl check_url others asked binding drawn later db'
        ≡ err (checkout_in_progress "checkout credential is in its grace period")
  one_holder racing request binding fresh now db p db' d d' e later early others asked drawn =
      leased_refuses settings hash token_ttl check_url binding now later db'
        (reserve-LeasedKey racing request binding fresh now db p db' d d' e) early others asked
        drawn
