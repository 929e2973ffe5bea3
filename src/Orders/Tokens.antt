-- ===== src/Orders/Tokens.antt =====
-- `OrderStore.issue_token`, `OrderStore.authenticate` of app/db/repositories.py with
-- app/auth/status_token.py. The keyed hash of a token, `TokenHasher.hash`, is the argument `hash`: the
-- version and the digest, or the `ValueError` that it raises.
use spacerocks_coa.Base.{
  ℕ, ◌+◌, max, String, Bool, not, ◌&&◌, ◌||◌, ◌==◌, ltb, Option, none, some, List, [], ◌∷◌, ◌++◌,
  if◌then◌else◌, is_some, find, Result, ok, err, integrity_error, ◌>>=◌,
}
use spacerocks_coa.Db.{Db, Order, OrderToken}
use spacerocks_coa.Orders.{find_order}

-- `TokenHasher.hash`
abbrev pub Hash : Type 0
Hash = String → Result (ℕ × ℕ)

-- the tokens of the order that are not revoked are revoked now
unfoldable pub revoke_active : ℕ → ℕ → List OrderToken → List OrderToken
revoke_active order_id now [] = []
revoke_active order_id now (t ∷ ts) =
    (if t.order_id == order_id && not (is_some t.revoked_at)
      then record t { revoked_at = some now }
      else t)
    ∷ revoke_active order_id now ts

-- `max(version)` of the tokens of an order, or 0
unfoldable pub last_version : ℕ → List OrderToken → ℕ
last_version order_id [] = 0
last_version order_id (t ∷ ts) =
    let rest = last_version order_id ts in
    if t.order_id == order_id then max t.version rest else rest

-- uq_order_tokens_order_version, and `unique=True` on token_hash
abbrev pub same_token : OrderToken → OrderToken → Bool
same_token a b =
    b.token_hash == a.token_hash || (b.order_id == a.order_id && b.version == a.version)

unfoldable pub issue_token : Hash → String → ℕ → Order → ℕ → Bool → Db → Result (String × Db)
issue_token hash raw token_ttl order now revoke_existing db = do
  (pepper_version, digest) ← hash raw
  let tokens =
      if revoke_existing then revoke_active order.id now db.order_tokens else db.order_tokens
  let token : OrderToken = record {
    order_id = order.id;
    version = last_version order.id db.order_tokens + 1;
    pepper_version = pepper_version;
    token_hash = digest;
    revoked_at = none;
    expires_at = now + token_ttl;
    created_at = now;
  }
  if is_some (find (same_token token) tokens)
      then err integrity_error
      else ok (raw, record db { order_tokens = tokens ++ token ∷ [] })

-- `TokenHasher.verify`: a token that cannot be hashed is compared as 32 zero bytes
unfoldable pub verify : Hash → String → ℕ × ℕ → Bool
verify hash raw expected = elim (hash raw) [
  | err _ ↦ 0 == expected.1
  | ok candidate ↦ candidate.0 == expected.0 && candidate.1 == expected.1
]

unfoldable pub authenticate_status_token : Hash → String → OrderToken → ℕ → Bool
authenticate_status_token hash raw stored now =
    verify hash raw (stored.pepper_version, stored.token_hash)
    && (not (is_some stored.revoked_at) && ltb now stored.expires_at)

unfoldable pub authenticate : Hash → String → ℕ → Db → Option (Order × OrderToken)
authenticate hash raw now db = elim (hash raw) [
  | err _ ↦ none
  | ok (version, digest) ↦
      elim (find (λ (t : OrderToken). t.pepper_version == version && t.token_hash == digest)
        db.order_tokens) [
          | none ↦ none
          | some token ↦
              if not (authenticate_status_token hash raw token now)
              then none
              else elim (find_order db token.order_id) [
                | none ↦ none
                | some order ↦ some (order, token)
              ]
        ]
]
