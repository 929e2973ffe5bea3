-- ===== src/Timestamping/Trees.antt =====
-- About the walk over the tree of a timestamp: its end, its counts and the trees that it accepts.
use spacerocks_coa.Base.{
  ℕ, zero, suc, ◌+◌, ◌≡◌, subst, List, [], ◌∷◌, arith, length, ok, Result-cases, All, inl, inr,
}
use spacerocks_coa.Timestamping.Detached.{
  Operation, Timestamp, Counts, visit, visit_all, validate_timestamp_tree,
}
use spacerocks_coa.Timestamping.Counting.{
  tree_nodes, tree_attestations, tree_pending, total, IsWithin,
}
use spacerocks_coa.Timestamping.Turns.{IsSound, visit-Visited}

module _ (apply : Operation → List ℕ → List ℕ) where
  -- what all turns do
  record Walked (stack : List Timestamp) (c c' : Counts) : Type 0 where
    within : IsWithin c → IsWithin c'
    nodes : c'.nodes ≡ c.nodes + total tree_nodes stack
    attestations : c'.attestations ≡ c.attestations + total tree_attestations stack
    pending : c'.pending ≡ c.pending + total tree_pending stack
    balance : c'.operations + c.nodes + length stack ≡ c.operations + c'.nodes
    sound : All (IsSound apply) stack

  visit_all-Walked :
      (turns : ℕ) (stack : List Timestamp) (c c' : Counts)
      → visit_all apply turns stack c ≡ ok c'
      → Walked stack c c'
  unfolding visit_all total
  visit_all-Walked turns [] c c' e =
      let same : c ≡ c' = ground arith in
      record {
        within = subst IsWithin same;
        nodes = ground arith;
        attestations = ground arith;
        pending = ground arith;
        balance = ground arith;
        sound = tt;
      }
  visit_all-Walked zero (t ∷ pending) c c' e = absurd (ground arith)
  visit_all-Walked (suc turns) (t ∷ pending) c c' e =
      elim (Result-cases (visit apply t c pending)) [
        | inr (x, p) ↦ absurd (ground arith)
        | inl ((counted, pending'), p) ↦
            let v = visit-Visited apply t c counted pending pending' p in
            let w = visit_all-Walked turns pending' counted c' (ground arith) in
            record {
              within = λ h. w.within (v.within h);
              nodes = omega (arith, w.nodes, v.nodes, v.stack);
              attestations = omega (arith, w.attestations, v.attested);
              pending = omega (arith, w.pending, v.waited);
              balance = omega (arith, w.balance, v.balance, v.nodes);
              sound = let (all, one) = v.sound w.sound in (one, all);
            }
      ]

  abbrev start : Counts
  start = record { nodes = 0; operations = 0; attestations = 0; pending = 0 }

  start-IsWithin : IsWithin start
  start-IsWithin = record {
    nodes = omega arith;
    operations = omega arith;
    attestations = omega arith;
    pending = omega arith;
  }

  -- A tree that is accepted has as many nodes, attestations and pending attestations as the walk
  -- counts: at most 256 nodes, one more than operations, and at most 256 attestations, 16 of them
  -- pending; and each of its nodes has known attestations only and supported operations that lead to
  -- what they compute.
  pub validate_timestamp_tree-IsWithin :
      (root : Timestamp) (c : Counts)
      → validate_timestamp_tree apply root ≡ ok c
      → IsWithin c
        × (c.nodes ≡ tree_nodes root)
        × (c.nodes ≡ c.operations + 1)
        × (c.attestations ≡ tree_attestations root)
        × (c.pending ≡ tree_pending root)
        × IsSound apply root
  unfolding validate_timestamp_tree total
  validate_timestamp_tree-IsWithin root c e =
      let w = visit_all-Walked 257 (root ∷ []) start c e in
      (
        w.within start-IsWithin,
        omega (arith, w.nodes),
        omega (arith, w.balance),
        omega (arith, w.attestations),
        omega (arith, w.pending),
        w.sound.0,
      )
