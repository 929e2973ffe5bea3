-- ===== src/Orders/Issuing.antt =====
-- A token that was issued authenticates its order until it expires or is revoked.
use spacerocks_coa.Base.{
  ℕ, ◌+◌, ◌<◌, ◌≡◌, refl, ap, ◌∙◌, String, Bool, ◌&&◌, ◌==◌, ==_refl, none, some, List, [], ◌∷◌,
  ◌++◌, arith, ok, if◌then◌else◌, find, find-append, Result-cases, inl, inr,
}
use spacerocks_coa.Db.{Db, Order, OrderToken}
use spacerocks_coa.Orders.{find_order, has_order_id}
use spacerocks_coa.Orders.Tokens.{
  Hash, issue_token, authenticate, authenticate_status_token, verify, revoke_active, last_version,
  same_token,
}

-- the tokens of an order before a new one is added
abbrev pub kept_tokens : Bool → ℕ → ℕ → List OrderToken → List OrderToken
kept_tokens revoke order_id now tokens =
    if revoke then revoke_active order_id now tokens else tokens

abbrev pub issued_row : Order → ℕ × ℕ → ℕ → ℕ → Db → OrderToken
issued_row order hashed token_ttl now db = record {
  order_id = order.id;
  version = last_version order.id db.order_tokens + 1;
  pepper_version = hashed.0;
  token_hash = hashed.1;
  revoked_at = none;
  expires_at = now + token_ttl;
  created_at = now;
}

-- what `issue_token` leaves
pub record Issued (hash : Hash) (raw : String) (token_ttl : ℕ) (order : Order) (now : ℕ)
    (revoke : Bool) (db : Db) (r : String × Db) : Type 0 where
  pub hashed : ℕ × ℕ
  pub digest : hash raw ≡ ok hashed
  pub answer : r.0 ≡ raw
  pub unused :
      find
        (same_token (issued_row order hashed token_ttl now db))
        (kept_tokens revoke order.id now db.order_tokens)
      ≡ none
  pub tokens :
      r.1.order_tokens
      ≡ kept_tokens revoke order.id now db.order_tokens
        ++ issued_row order hashed token_ttl now db ∷ []
  pub orders : r.1.orders ≡ db.orders

pub issue_token-Issued :
    (hash : Hash) (raw : String) (token_ttl : ℕ) (order : Order) (now : ℕ) (revoke : Bool) (db : Db)
    (r : String × Db)
    → issue_token hash raw token_ttl order now revoke db ≡ ok r
    → Issued hash raw token_ttl order now revoke db r
unfolding issue_token
issue_token-Issued hash raw token_ttl order now revoke db r e = elim (Result-cases (hash raw)) [
  | inr (x, p) ↦ absurd (ground arith)
  | inl (hashed, p) ↦ record {
    hashed = hashed;
    digest = p;
    answer = ground arith;
    unused = ground arith;
    tokens = ground arith;
    orders = ground arith;
  }
]

-- no kept token has the digest of the new one
other_digest :
    (row : OrderToken) (version digest : ℕ) (tokens : List OrderToken)
    → row.token_hash ≡ digest
    → find (same_token row) tokens ≡ none
    → find (λ (t : OrderToken). t.pepper_version == version && t.token_hash == digest) tokens ≡ none
unfolding find
other_digest row version digest [] same e = refl
other_digest row version digest (t ∷ ts) same e =
    ground (arith, other_digest row version digest ts same)

-- the row that a digest finds after a token was issued
Issued-found :
    (hash : Hash) (raw : String) (token_ttl : ℕ) (order : Order) (now : ℕ) (revoke : Bool) (db : Db)
    (r : String × Db) (i : Issued hash raw token_ttl order now revoke db r)
    → find
        (λ (t : OrderToken). t.pepper_version == i.hashed.0 && t.token_hash == i.hashed.1)
        r.1.order_tokens
      ≡ some (issued_row order i.hashed token_ttl now db)
unfolding find
Issued-found hash raw token_ttl order now revoke db r i =
    let row = issued_row order i.hashed token_ttl now db in
    let kept = kept_tokens revoke order.id now db.order_tokens in
    let test = λ (t : OrderToken). t.pepper_version == i.hashed.0 && t.token_hash == i.hashed.1 in
    ap (find test) i.tokens
    ∙ (find-append test kept (row ∷ [])
        ∙ ground (
          arith,
          other_digest row i.hashed.0 i.hashed.1 kept refl i.unused,
          ==_refl i.hashed.0,
          ==_refl i.hashed.1,
        ))

-- the answer of `authenticate`, by its parts
authenticated :
    (hash : Hash) (raw : String) (hashed : ℕ × ℕ) (at : ℕ) (db : Db) (row : OrderToken)
    (order : Order)
    → hash raw ≡ ok hashed
    → find
        (λ (t : OrderToken). t.pepper_version == hashed.0 && t.token_hash == hashed.1)
        db.order_tokens
      ≡ some row
    → row.pepper_version ≡ hashed.0
    → row.token_hash ≡ hashed.1
    → row.revoked_at ≡ none
    → at < row.expires_at
    → find_order db row.order_id ≡ some order
    → authenticate hash raw at db ≡ some (order, row)
unfolding authenticate authenticate_status_token verify
authenticated hash raw hashed at db row order p q v d free early found = ground arith

-- A token that was issued authenticates its order, with the one row that was added for it, at every
-- time before it expires; the order is the one in the database.
pub issued_authenticates :
    (hash : Hash) (raw : String) (token_ttl : ℕ) (order : Order) (now : ℕ) (revoke : Bool) (db : Db)
    (r : String × Db)
    → issue_token hash raw token_ttl order now revoke db ≡ ok r
    → find_order db order.id ≡ some order
    → (at : ℕ) → at < now + token_ttl
    → (row : OrderToken) × (r.1.order_tokens
        ≡ kept_tokens revoke order.id now db.order_tokens ++ row ∷ [])
      × (row.order_id ≡ order.id)
      × (authenticate hash r.0 at r.1 ≡ some (order, row))
unfolding find_order
issued_authenticates hash raw token_ttl order now revoke db r e found at early =
    let i = issue_token-Issued hash raw token_ttl order now revoke db r e in
    let row = issued_row order i.hashed token_ttl now db in
    (
      row,
      i.tokens,
      refl,
      authenticated hash r.0 i.hashed at r.1 row order (ap hash i.answer ∙ i.digest)
          (Issued-found hash raw token_ttl order now revoke db r i) refl refl refl early
          (ap (find (has_order_id order.id)) i.orders ∙ found),
    )
