-- ===== src/Timestamping/Tests.antt =====
-- A proof with one operation and one attestation of a calendar.
use spacerocks_coa.Base.{ℕ, ◌≡◌, refl, List, [], ◌∷◌, ◌++◌, length, ok, ◌+◌}
use spacerocks_coa.Proofs.Equality.{bytes_eq}
use spacerocks_coa.Timestamping.Detached.{
  pending_attestation, Operation, op_append, op_prepend, op_sha256, other_operation, Timestamp,
  timestamp, no_more, leads_to, Counts, count_attestations, push_children, visit, visit_all,
  validate_timestamp_tree,
}
use spacerocks_coa.Timestamping.Counting.{IsWithin, tree_nodes, tree_attestations, tree_pending}
use spacerocks_coa.Timestamping.Turns.{IsSound}
use spacerocks_coa.Timestamping.Trees.{validate_timestamp_tree-IsWithin}

abbrev apply_sample : Operation → List ℕ → List ℕ
apply_sample (op_append argument) msg = msg ++ argument
apply_sample (op_prepend argument) msg = argument ++ msg
apply_sample op_sha256 msg = length msg ∷ []
apply_sample (other_operation tag) msg = tag ∷ msg

abbrev two_nodes : Timestamp
two_nodes = timestamp (1 ∷ []) [] (
    leads_to (op_append (2 ∷ [])) (timestamp (1 ∷ 2 ∷ []) (pending_attestation ∷ []) no_more)
      no_more)

abbrev two_counts : Counts
two_counts = record { nodes = 2; operations = 1; attestations = 1; pending = 1 }

two_nodes_run : validate_timestamp_tree apply_sample two_nodes ≡ ok two_counts
unfolding validate_timestamp_tree visit_all visit count_attestations push_children bytes_eq
two_nodes_run = refl

validate_timestamp_tree-IsWithin_example :
    IsWithin two_counts
    × (2 ≡ tree_nodes two_nodes)
    × (2 ≡ 1 + 1)
    × (1 ≡ tree_attestations two_nodes)
    × (1 ≡ tree_pending two_nodes)
    × IsSound apply_sample two_nodes
validate_timestamp_tree-IsWithin_example =
    validate_timestamp_tree-IsWithin apply_sample two_nodes two_counts two_nodes_run
