-- ===== src/Orders/Tests.antt =====
-- The theorems on tokens at an order that has an old token.
use spacerocks_coa.Base.{true, ℕ, ◌≡◌, refl, none, some, [], ◌∷◌, ok, find, arith, ◌++◌}
use spacerocks_coa.Db.{Db, OrderToken}
use spacerocks_coa.Orders.{find_order}
use spacerocks_coa.Orders.Tokens.{
  issue_token, revoke_active, last_version, authenticate, authenticate_status_token, verify,
}
use spacerocks_coa.Orders.Issuing.{kept_tokens, issued_authenticates, issued_row}
use spacerocks_coa.Orders.Revoking.{only_new_token}
use spacerocks_coa.Payments.Samples.{open_order, one_order, hash_all}

abbrev old_token : OrderToken
old_token = record {
  order_id = 5;
  version = 1;
  pepper_version = 1;
  token_hash = 40;
  revoked_at = none;
  expires_at = 9000;
  created_at = 10;
}

abbrev with_token : Db
with_token = record one_order { order_tokens = old_token ∷ [] }

abbrev reissued : Db
reissued = record one_order {
  order_tokens =
      record old_token { revoked_at = some 20 }
      ∷ issued_row open_order (1, 4711) 500 20 with_token
      ∷ [];
}

reissue : issue_token hash_all "v1.new" 500 open_order 20 true with_token ≡ ok ("v1.new", reissued)
unfolding issue_token revoke_active last_version find
reissue = refl

open_found : find_order with_token 5 ≡ some open_order
unfolding find_order find
open_found = refl

shown :
    authenticate hash_all "v1.new" 30 reissued
    ≡ some (open_order, issued_row open_order (1, 4711) 500 20 with_token)
unfolding authenticate authenticate_status_token verify find find_order last_version
shown = refl

issued_authenticates_example :
    (row : OrderToken) × (reissued.order_tokens
      ≡ kept_tokens true 5 20 with_token.order_tokens ++ row ∷ [])
    × (row.order_id ≡ 5)
    × (authenticate hash_all "v1.new" 30 reissued ≡ some (open_order, row))
issued_authenticates_example =
    issued_authenticates hash_all "v1.new" 500 open_order 20 true with_token ("v1.new", reissued)
      reissue open_found 30 (omega arith)

only_new_token_example :
    (hashed : ℕ × ℕ) × (ok (1, 4711) ≡ ok hashed)
    × (issued_row open_order (1, 4711) 500 20 with_token
        ≡ issued_row open_order hashed 500 20 with_token)
only_new_token_example =
    only_new_token hash_all "v1.new" 500 open_order 20 with_token ("v1.new", reissued) reissue
      "v1.new" 30 open_order (issued_row open_order (1, 4711) 500 20 with_token) shown refl
