-- ===== src/Fulfillment/Guarding.antt =====
-- About the terminal handler: the order that it leaves, and the jobs of the queue.
use spacerocks_coa.Base.{
  ℕ, ◌≡◌, ◌≢◌, refl, sym, ◌∙◌, subst, String, Option, none, some, arith, Result, ok, err,
  Result-cases, Option-cases, inl, inr, ◌⊎◌,
}
use spacerocks_coa.Order.{FulfillmentState, manual_review, transition_fulfillment}
use spacerocks_coa.Db.{Db, Order, StateEvent}
use spacerocks_coa.Jobs.Frames.{SameJobs}
use spacerocks_coa.Orders.{find_order, save_order, insert_state_event}
use spacerocks_coa.Proofs.Rows.{save_calendar_time, merge_calendar_time}
use spacerocks_coa.Worker.{Worker}
use spacerocks_coa.Worker.Endings.{TerminalKeepsJobs}
use spacerocks_coa.Fulfillment.Repository.{
  FulfillmentOrder, order_state, find_state_event, transition_fulfillment_once, make_transition,
  repeat_transition,
}
use spacerocks_coa.Fulfillment.Steps.{Surroundings, Tools, commit, after, move}
use spacerocks_coa.Fulfillment.Implementing.{transition_once-Implements}
use spacerocks_coa.Fulfillment.Terminal.{terminal_failure}
use spacerocks_coa.Orders.Keys.{joined}

repeat_transition-SameJobs :
    (isoformat : ℕ → String) (order : Order) (event : StateEvent) (target : FulfillmentState)
    (time : Option ℕ) (db : Db) (r : FulfillmentOrder × Db)
    → repeat_transition isoformat order event target time db ≡ ok r
    → SameJobs db r.1
unfolding repeat_transition save_calendar_time
repeat_transition-SameJobs isoformat order event target time db r e =
    elim (Result-cases (merge_calendar_time order time)) [
      | inr (x, p) ↦ absurd (ground arith)
      | inl (merged, p) ↦ record {
        jobs = ground arith;
        attempts = ground arith;
        dispatches = ground arith;
      }
    ]

make_transition-SameJobs :
    (isoformat : ℕ → String) (order : Order) (target : FulfillmentState) (key : String)
    (time : Option ℕ) (now : ℕ) (db : Db) (r : FulfillmentOrder × Db)
    → make_transition isoformat order target key time now db ≡ ok r
    → SameJobs db r.1
unfolding make_transition save_order insert_state_event
make_transition-SameJobs isoformat order target key time now db r e =
    elim (Result-cases (transition_fulfillment (order_state order) target)) [
      | inr (x, p) ↦ absurd (ground arith)
      | inl (state, p) ↦ elim (Result-cases (merge_calendar_time order time)) [
        | inr (x, q) ↦ absurd (ground arith)
        | inl (merged, q) ↦ record {
          jobs = ground arith;
          attempts = ground arith;
          dispatches = ground arith;
        }
      ]
    ]

SameJobs-trans : (a b c : Db) → SameJobs a b → SameJobs b c → SameJobs a c
SameJobs-trans a b c s t = record {
  jobs = t.jobs ∙ s.jobs;
  attempts = t.attempts ∙ s.attempts;
  dispatches = t.dispatches ∙ s.dispatches;
}

transition_once-SameJobs :
    (isoformat : ℕ → String) (order_id : ℕ) (target : FulfillmentState) (key : String)
    (time : Option ℕ) (now : ℕ) (db : Db) (r : FulfillmentOrder × Db)
    → transition_fulfillment_once isoformat order_id target key time now db ≡ ok r
    → SameJobs db r.1
unfolding transition_fulfillment_once
transition_once-SameJobs isoformat order_id target key time now db r e =
    elim (Option-cases (find_order db order_id)) [
      | inl p ↦ absurd (ground arith)
      | inr (order, p) ↦ elim (Option-cases (find_state_event db order.id key)) [
        | inl q ↦ make_transition-SameJobs isoformat order target key time now db r (ground arith)
        | inr (event, q) ↦
            repeat_transition-SameJobs isoformat order event target time db r (ground arith)
      ]
    ]

-- the others leave the tables of jobs as they are while a handler runs
abbrev pub LeavesJobs : Surroundings → Type 0
LeavesJobs around = (step : ℕ) (db : Db) → SameJobs db (around.others step db)

move-SameJobs :
    (tools : Tools) (around : Surroundings) (step order_id : ℕ) (target : FulfillmentState)
    (key : String) (time : Option ℕ) (db : Db)
    → LeavesJobs around
    → SameJobs db (move tools around step order_id target key time db).1
unfolding move
move-SameJobs tools around step order_id target key time db quiet =
    let seen = around.others step db in
    elim (Result-cases (
      transition_fulfillment_once tools.isoformat order_id target key time (around.clock step)
        seen)) [
          | inr (x, p) ↦ subst (λ r. SameJobs db (commit r seen).1) (sym p) (quiet step db)
          | inl (r, p) ↦
              let done =
                transition_once-SameJobs tools.isoformat order_id target key time
                  (around.clock step) seen r p in
              subst (λ r. SameJobs db (commit r seen).1) (sym p)
                (SameJobs-trans db seen r.1 (quiet step db) done)
        ]

after_end :
    {A : Type 0} (p : Result A × Db) → (after p (λ _ (end : Db). (ok (tt {0}), end))).1 ≡ p.1
after_end (ok a, db) = refl
after_end (err e, db) = refl

terminal_failure-SameJobs :
    (tools : Tools) (around : Surroundings) (order_id : ℕ) (code : String) (db : Db)
    → LeavesJobs around
    → SameJobs db (terminal_failure tools around order_id code db).1
unfolding terminal_failure
terminal_failure-SameJobs tools around order_id code db quiet =
    let moved =
      move tools around 0 order_id manual_review (joined "worker-terminal-" code) none db in
    subst (SameJobs db) (sym (after_end moved)) (
      move-SameJobs tools around 0 order_id manual_review (joined "worker-terminal-" code) none db
        quiet)

-- the terminal handler is one that the endings of a worker ask for
terminal_failure-KeepsJobs :
    (tools : Tools) (around : Surroundings) (w : Worker)
    → LeavesJobs around
    → TerminalKeepsJobs (record w { terminal_failure = terminal_failure tools around })
terminal_failure-KeepsJobs tools around w quiet =
    let same = λ (order_id : ℕ) (code : String) (db : Db).
      terminal_failure-SameJobs tools around order_id code db quiet in
    record {
      jobs = λ order_id code db. (same order_id code db).jobs;
      attempts = λ order_id code db. (same order_id code db).attempts;
      dispatches = λ order_id code db. (same order_id code db).dispatches;
    }

-- the transition of the domain to manual review
in_review :
    (before after : Order)
    → transition_fulfillment (order_state before) manual_review ≡ ok (order_state after)
    → (after.fulfillment_state ≡ manual_review) × (after.payment_state ≡ before.payment_state)
unfolding transition_fulfillment
in_review before after e = ground arith

-- the order is in manual review, or the transition was made before and keeps its state
abbrev pub ReviewOf : String → ℕ → Db → Order → Order → Type 0
ReviewOf key order_id seen before after =
    ((after.fulfillment_state ≡ manual_review) × (after.payment_state ≡ before.payment_state))
    ⊎ ((order_state after ≡ order_state before)
        × ((event : StateEvent) × (find_state_event seen order_id key ≡ some event)
            × (event.fulfillment_state ≡ manual_review)))

-- When the terminal handler ends well, the order of the job is in manual review with the payment that
-- it had, or an event with the key of this failure had moved it to manual review before, and its state
-- is kept; no other order changes, and no job, attempt or dispatch. The changes are those since the
-- commits of other processes that the handler runs after.
pub terminal_failure-Reviewed :
    (tools : Tools) (around : Surroundings) (order_id : ℕ) (code : String) (db db' : Db)
    → terminal_failure tools around order_id code db ≡ (ok tt, db')
    → (before : Order) × (after : Order) × (find_order (around.others 0 db) order_id ≡ some before)
      × (find_order db' order_id ≡ some after)
      × ReviewOf (joined "worker-terminal-" code) order_id (around.others 0 db) before after
      × ((i : ℕ) → i ≢ order_id → find_order db' i ≡ find_order (around.others 0 db) i)
      × SameJobs (around.others 0 db) db'
unfolding terminal_failure move
terminal_failure-Reviewed tools around order_id code db db' e =
    let seen = around.others 0 db in
    let key = joined "worker-terminal-" code in
    let call =
      transition_fulfillment_once tools.isoformat order_id manual_review key none (around.clock 0)
        seen in
    elim (Result-cases call) [
      | inr (x, p) ↦ absurd (ground arith)
      | inl (r, p) ↦
          let same : r.1 ≡ db' = ground arith in
          let done =
            transition_once-Implements tools.isoformat order_id manual_review key none
              (around.clock 0) seen r p in
          (
            done.before,
            done.after,
            done.row_before,
            subst (λ d. find_order d order_id ≡ some done.after) same done.row_after,
            elim done.state_after [
              | inl (kept, event) ↦ inr (kept, event)
              | inr moved ↦ inl (in_review done.before done.after moved)
            ],
            subst (λ d. (i : ℕ) → i ≢ order_id → find_order d i ≡ find_order seen i) same
                done.others,
            subst (SameJobs seen) same (
                transition_once-SameJobs tools.isoformat order_id manual_review key none
                  (around.clock 0) seen r p),
          )
    ]
