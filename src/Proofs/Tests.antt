-- ===== src/Proofs/Tests.antt =====
-- The first proof of one order.
use spacerocks_coa.Base.{
  ℕ, ◌≡◌, refl, none, List, [], ◌∷◌, length, Result, ok, find, replace, select, order_by,
}
use spacerocks_coa.Db.{Db}
use spacerocks_coa.Db.Evidence.{ProofState}
use spacerocks_coa.Orders.Rows.{DistinctOrders}
use spacerocks_coa.Payments.Samples.{one_order, value_or}
use spacerocks_coa.Proofs.Models.{StoredProof, stored_proof, check_state}
use spacerocks_coa.Proofs.Rows.{
  find_order_by_reference, save_calendar_time, merge_calendar_time, latest_version, insert_version,
  get_version, find_version,
}
use spacerocks_coa.Proofs.Store.{append, append_after, add_version}
use spacerocks_coa.Proofs.Immutable.{IsChain, append-IsChain}
use spacerocks_coa.Proofs.Repeating.{append_again}

-- in place of SHA-256
abbrev digest_sample : List ℕ → ℕ
digest_sample = length

abbrev first_proof : StoredProof
first_proof = record {
  order_reference = "ts_5";
  version = 1;
  target_digest = 77;
  proof_bytes = 1 ∷ 2 ∷ 3 ∷ [];
  proof_sha256 = 3;
  proof_state = ProofState.calendar_pending;
  calendar_submitted_at = 500;
  verification = none;
}

abbrev first_run : Result Db
first_run = append digest_sample first_proof 9 600 one_order

abbrev with_proof : Db
with_proof = value_or first_run one_order

first_run-ok : first_run ≡ ok with_proof
unfolding append append_after add_version find_order_by_reference find merge_calendar_time
    latest_version order_by select save_calendar_time replace insert_version get_version
    find_version
first_run-ok = refl

one_order-distinct : DistinctOrders one_order.orders
unfolding find
one_order-distinct = (refl, tt)

one_order-IsChain : IsChain one_order
unfolding select
one_order-IsChain = record { contiguous = λ i. tt; on_target = λ i o e. tt }

first_proof-valid : stored_proof digest_sample first_proof ≡ ok first_proof
unfolding stored_proof check_state
first_proof-valid = refl

append-IsChain_example : IsChain with_proof
append-IsChain_example =
    append-IsChain digest_sample first_proof 9 600 one_order with_proof one_order-distinct
      one_order-IsChain first_run-ok

append_again_example : append digest_sample first_proof 10 700 with_proof ≡ ok with_proof
append_again_example =
    append_again digest_sample first_proof one_order with_proof 9 10 600 700 one_order-distinct
      one_order-IsChain refl first_proof-valid first_run-ok
