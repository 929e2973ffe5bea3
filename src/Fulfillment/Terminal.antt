-- ===== src/Fulfillment/Terminal.antt =====
-- app/fulfillment/terminal.py: an order whose job has failed for good goes to manual review.
use spacerocks_coa.Base.{ℕ, String, none, Result, ok}
use spacerocks_coa.Order.{manual_review}
use spacerocks_coa.Db.{Db}
use spacerocks_coa.Orders.Keys.{joined}
use spacerocks_coa.Fulfillment.Steps.{Surroundings, Tools, after, move}

-- `TerminalFailureHandler.__call__`
unfoldable pub terminal_failure : Tools → Surroundings → ℕ → String → Db → Result (Unit {0}) × Db
terminal_failure tools around order_id safe_code db =
    after (move tools around 0 order_id manual_review (joined "worker-terminal-" safe_code) none db)
      (λ _ end. (ok tt, end))
