-- ===== src/Timestamping/Turns.antt =====
-- What one turn of the walk over the tree of a timestamp does.
use spacerocks_coa.Base.{
  ℕ, ◌+◌, ◌≤◌, ◌≡◌, sym, ap, ◌∙◌, subst, List, ◌∷◌, arith, length, ltb, ok, err, Exn, Result-cases,
  Bool-cases, All, inl, inr,
}
use spacerocks_coa.Proofs.Equality.{bytes_eq, bytes_eq→≡}
use spacerocks_coa.Timestamping.Detached.{
  Operation, Timestamp, timestamp, Operations, no_more, leads_to, message, Counts,
  count_attestations, check_operation, push_children, visit, max_timestamp_nodes, max_operations,
}
use spacerocks_coa.Timestamping.Counting.{
  tree_nodes, child_nodes, tree_attestations, child_attestations, tree_pending, child_pending,
  total, IsKnown, IsWithin, count_attestations-Within, IsRefusal, count_attestations-IsRefusal,
  check_operation-IsRefusal,
}

module _ (apply : Operation → List ℕ → List ℕ) where
  mutual
    -- every node has known attestations, and every operation is supported and leads to its result
    pub IsSound : Timestamp → Type 0
    IsSound (timestamp msg attestations ops) = All IsKnown attestations × AreSound msg ops

    pub AreSound : List ℕ → Operations → Type 0
    AreSound msg no_more = Unit
    AreSound msg (leads_to op child rest) =
        (check_operation op ≡ ok tt)
        × (message child ≡ apply op msg)
        × IsSound child
        × AreSound msg rest

  -- what the children add to the counts and to the stack
  record Pushed (msg : List ℕ) (ops : Operations) (c c' : Counts)
      (pending pending' : List Timestamp) : Type 0 where
    within : IsWithin c → IsWithin c'
    nodes : c'.nodes ≡ c.nodes
    balance : c'.operations + length pending ≡ c.operations + length pending'
    stack : total tree_nodes pending' ≡ child_nodes ops + total tree_nodes pending
    attestations : c'.attestations ≡ c.attestations
    attested :
        total tree_attestations pending' ≡ child_attestations ops + total tree_attestations pending
    waiting : c'.pending ≡ c.pending
    waited : total tree_pending pending' ≡ child_pending ops + total tree_pending pending
    sound : All IsSound pending' → All IsSound pending × AreSound msg ops

  push_children-Pushed :
      (msg : List ℕ) (ops : Operations) (c c' : Counts) (pending pending' : List Timestamp)
      → push_children apply msg ops c pending ≡ ok (c', pending')
      → Pushed msg ops c c' pending pending'
  unfolding push_children total child_nodes child_attestations child_pending AreSound
  push_children-Pushed msg no_more c c' pending pending' e =
      let same : c ≡ c' = ground arith in
      let rows : pending ≡ pending' = ground arith in
      record {
        within = subst IsWithin same;
        nodes = ground arith;
        balance = ground arith;
        stack = omega (arith, ap (total tree_nodes) (sym rows));
        attestations = ground arith;
        attested = omega (arith, ap (total tree_attestations) (sym rows));
        waiting = ground arith;
        waited = omega (arith, ap (total tree_pending) (sym rows));
        sound = λ s. (subst (All IsSound) (sym rows) s, tt);
      }
  push_children-Pushed msg (leads_to op child rest) c c' pending pending' e =
      let p =
        push_children-Pushed msg rest (record c { operations = c.operations + 1 }) c'
          (child ∷ pending) pending' (ground arith) in
      let checked : check_operation op ≡ ok tt = elim (Result-cases (check_operation op)) [
        | inl (u, q) ↦ q
        | inr (x, q) ↦ absurd (ground arith)
      ] in
      record {
        within = λ w. p.within (record {
          nodes = w.nodes;
          operations = ground arith;
          attestations = w.attestations;
          pending = w.pending;
        });
        nodes = p.nodes;
        balance = ground (arith, p.balance);
        stack = ground (arith, p.stack);
        attestations = p.attestations;
        attested = ground (arith, p.attested);
        waiting = p.waiting;
        waited = ground (arith, p.waited);
        sound = λ s.
            let (all, more) = p.sound s in
            (
              all.1,
              (checked, bytes_eq→≡ (message child) (apply op msg) (ground arith), all.0, more),
            );
      }

  push_children-IsRefusal :
      (msg : List ℕ) (ops : Operations) (c : Counts) (pending : List Timestamp) (x : Exn)
      → push_children apply msg ops c pending ≡ err x
      → IsRefusal x
  unfolding push_children
  push_children-IsRefusal msg no_more c pending x e = absurd (cc)
  push_children-IsRefusal msg (leads_to op child rest) c pending x e =
      elim (Bool-cases (ltb max_operations (c.operations + 1))) [
        | inl p ↦ ("proof_operation_limit_exceeded", ground arith)
        | inr p ↦ elim (Result-cases (check_operation op)) [
          | inr (y, q) ↦ check_operation-IsRefusal op x (ground arith)
          | inl (u, q) ↦ elim (Bool-cases (bytes_eq (message child) (apply op msg))) [
            | inr r ↦ ("proof_operation_result_mismatch", ground arith)
            | inl r ↦
                push_children-IsRefusal msg rest (record c { operations = c.operations + 1 })
                  (child ∷ pending) x (ground arith)
          ]
        ]
      ]

  -- what one turn does to the counts and to the stack
  pub record Visited (t : Timestamp) (c c' : Counts) (pending pending' : List Timestamp)
      : Type 0 where
    pub within : IsWithin c → IsWithin c'
    pub nodes : c'.nodes ≡ c.nodes + 1
    pub balance : c'.operations + length pending ≡ c.operations + length pending'
    pub stack : total tree_nodes pending' + 1 ≡ tree_nodes t + total tree_nodes pending
    pub attested :
        c'.attestations + total tree_attestations pending'
        ≡ c.attestations + (tree_attestations t + total tree_attestations pending)
    pub waited :
        c'.pending + total tree_pending pending'
        ≡ c.pending + (tree_pending t + total tree_pending pending)
    pub sound : All IsSound pending' → All IsSound pending × IsSound t

  pub visit-Visited :
      (t : Timestamp) (c c' : Counts) (pending pending' : List Timestamp)
      → visit apply t c pending ≡ ok (c', pending')
      → Visited t c c' pending pending'
  unfolding visit tree_nodes tree_attestations tree_pending IsSound
  visit-Visited (timestamp msg attestations ops) c c' pending pending' e =
      let start = record c { nodes = c.nodes + 1 } in
      elim (Result-cases (count_attestations attestations start)) [
        | inr (x, p) ↦ absurd (ground arith)
        | inl (counted, p) ↦
            let pushed = push_children-Pushed msg ops counted c' pending pending' (ground arith) in
            let (within, n, o, a, w, known) =
              count_attestations-Within attestations start counted p in
            let room : c.nodes + 1 ≤ 256 = ground arith in
            record {
              within = λ h. pushed.within (
                  within (record {
                    nodes = room;
                    operations = h.operations;
                    attestations = h.attestations;
                    pending = h.pending;
                  }));
              nodes = pushed.nodes ∙ n;
              balance = omega (arith, pushed.balance, o);
              stack = omega (arith, pushed.stack);
              attested = omega (arith, pushed.attestations, pushed.attested, a);
              waited = omega (arith, pushed.waiting, pushed.waited, w);
              sound = λ s. let (all, more) = pushed.sound s in (all, (known, more));
            }
      ]

  pub visit-IsRefusal :
      (t : Timestamp) (c : Counts) (pending : List Timestamp) (x : Exn)
      → visit apply t c pending ≡ err x
      → IsRefusal x
  unfolding visit
  visit-IsRefusal (timestamp msg attestations ops) c pending x e =
      let start = record c { nodes = c.nodes + 1 } in
      elim (Bool-cases (ltb max_timestamp_nodes (c.nodes + 1))) [
        | inl room ↦ ("proof_node_limit_exceeded", ground arith)
        | inr room ↦ elim (Result-cases (count_attestations attestations start)) [
          | inr (y, p) ↦ count_attestations-IsRefusal attestations start x (ground arith)
          | inl (counted, p) ↦ push_children-IsRefusal msg ops counted pending x (ground arith)
        ]
      ]
