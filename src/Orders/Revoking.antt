-- ===== src/Orders/Revoking.antt =====
-- A token that is issued in place of the old ones is the only one that authenticates its order.
use spacerocks_coa.Base.{
  ℕ, ◌≡◌, sym, ap, ◌∙◌, String, Bool, true, false, ◌&&◌, ◌==◌, some, List, [], ◌∷◌, arith, ok,
  is_some, find, find-append, Option-cases, Result-cases, inl, inr,
}
use spacerocks_coa.Db.{Db, Order, OrderToken}
use spacerocks_coa.Orders.{find_order}
use spacerocks_coa.Orders.Tokens.{
  Hash, issue_token, authenticate, authenticate_status_token, revoke_active,
}
use spacerocks_coa.Orders.Issuing.{issue_token-Issued, issued_row}

-- every token of the order that is kept is revoked
revoked_all :
    (test : OrderToken → Bool) (order_id now : ℕ) (tokens : List OrderToken) (t : OrderToken)
    → find test (revoke_active order_id now tokens) ≡ some t
    → t.order_id ≡ order_id
    → is_some t.revoked_at ≡ true
unfolding find revoke_active
revoked_all test order_id now [] t e same = cc
revoked_all test order_id now (x ∷ xs) t e same = ground (arith, revoked_all test order_id now xs t)

-- what a successful `authenticate` says of the row
authenticated_row :
    (hash : Hash) (raw : String) (at : ℕ) (db : Db) (order : Order) (row : OrderToken)
    → authenticate hash raw at db ≡ some (order, row)
    → (hashed : ℕ × ℕ) × (find
          (λ (t : OrderToken). t.pepper_version == hashed.0 && t.token_hash == hashed.1)
          db.order_tokens
        ≡ some row)
      × (is_some row.revoked_at ≡ false)
unfolding authenticate authenticate_status_token
authenticated_row hash raw at db order row e = elim (Result-cases (hash raw)) [
  | inr (x, p) ↦ absurd (ground arith)
  | inl (hashed, p) ↦
      elim (Option-cases (
        find (λ (t : OrderToken). t.pepper_version == hashed.0 && t.token_hash == hashed.1)
          db.order_tokens)) [
            | inl q ↦ absurd (ground arith)
            | inr (found, q) ↦ elim (Option-cases (find_order db found.order_id)) [
              | inl o ↦ absurd (ground arith)
              | inr (owner, o) ↦ (hashed, ground arith, ground arith)
            ]
          ]
]

-- Once a token was issued with the others revoked, whatever token authenticates the order is the row
-- of the new one: every older token of the order is refused, at every time.
pub only_new_token :
    (hash : Hash) (raw : String) (token_ttl : ℕ) (order : Order) (now : ℕ) (db : Db)
    (r : String × Db)
    → issue_token hash raw token_ttl order now true db ≡ ok r
    → (shown : String) (at : ℕ) (owner : Order) (row : OrderToken)
    → authenticate hash shown at r.1 ≡ some (owner, row)
    → row.order_id ≡ order.id
    → (hashed : ℕ × ℕ) × (hash raw ≡ ok hashed) × (row ≡ issued_row order hashed token_ttl now db)
only_new_token hash raw token_ttl order now db r e shown at owner row a same =
    let i = issue_token-Issued hash raw token_ttl order now true db r e in
    let (hashed, found, free) = authenticated_row hash shown at r.1 owner row a in
    let test = λ (t : OrderToken). t.pepper_version == hashed.0 && t.token_hash == hashed.1 in
    let kept = revoke_active order.id now db.order_tokens in
    let new = issued_row order i.hashed token_ttl now db in
    let split = ap (find test) (sym i.tokens) ∙ found in
    elim (Option-cases (find test kept)) [
      | inr (old, p) ↦ absurd (
          ground (
            arith,
            find-append test kept (new ∷ []),
            split,
            revoked_all test order.id now db.order_tokens old p,
          ))
      | inl p ↦ (
        i.hashed,
        i.digest,
        unfold find in ground (arith, find-append test kept (new ∷ []), split),
      )
    ]
