-- ===== src/Execution/Delivered.antt =====
-- What a result that completes a node delivers.
use mathlib.Core.List.{Memᴰ}
use mathlib.Core.List.Memᴰ
use shiroe.Prelude.{
  ℕ, suc, String, Bool, true, false, ◌&&◌, not, Option, none, List, [], ◌∷◌, ◌≡◌, refl, Bool-cases,
  Option-cases, ⊎_elim, ◌⊎◌, inl, inr, arith, string_eq, nat_eq, if◌then◌else◌,
}
use shiroe.Prelude.Lists.{List-cases}
use shiroe.Prelude.Json.{Fields, has_field}
use shiroe.Work.Schema.{GraphStatus, NodeStatus, WorkNode}
use shiroe.Work.Store.{
  WorkState, no_such_id, concurrent_update, unsupported_status, Outcome, did, raises, find_node,
  set_node_status, set_graph_status, record_output,
}
use shiroe.Execution.Budget.{BudgetTracker, charge, spend_of}
use shiroe.Execution.Services.{Services, Reviewed, check, review_raised}
use shiroe.Execution.Results.{missing_outputs, has_evidence, output_of}
use shiroe.Execution.Recorded.{output_of-recorded}
use shiroe.Execution.Attempts.{as_is, finish_attempt}
use shiroe.Execution.Tried.{
  RunState, Stop, Tried, done, returns, caught, uncaught, at_work, in_world, then_work,
  caught_fault, pause_try, fail_attempt,
}
use shiroe.Execution.Attempt.{
  review_passes, mark_completed, after_review, complete, store_output, deliver, accept,
}

missing_outputs-none :
    (out : Fields) (names : List String) (name : String)
    → missing_outputs out names ≡ []
    → Memᴰ name names
    → has_field name out ≡ true
unfolding missing_outputs
missing_outputs-none out [] name h m = absurd (Memᴰ.not-nil m)
missing_outputs-none out (x ∷ names) name h m = elim (Bool-cases (has_field x out)) [
  | inr b ↦ ground (arith, b)
  | inl b ↦
      ⊎_elim (λ p. rw p b)
        (λ n. missing_outputs-none out names name (rw (b, missing_outputs) at h) n)
        (Memᴰ.cases_cons m)
]

module _ {World : Type 0} where
  -- where an attempt completes the node, the facts hold and the budget is as it says
  abbrev pub Done : Type 0 → BudgetTracker → Tried World → Type 0
  Done F b (done t) = F × (t.budget ≡ b)
  Done F b (returns t stop) = Unit
  Done F b (caught t message) = Unit
  Done F b (uncaught f) = Unit

  Done-map :
      (F G : Type 0) (b : BudgetTracker) (r : Tried World) → (F → G) → Done F b r → Done G b r
  Done-map F G b (done t) f (x, p) = (f x, p)
  Done-map F G b (returns t stop) f h = tt
  Done-map F G b (caught t message) f h = tt
  Done-map F G b (uncaught g) f h = tt

  Done-if :
      (F : Type 0) (b : BudgetTracker) (c : Bool) (x y : Tried World)
      → (c ≡ true → Done F b x)
      → (c ≡ false → Done F b y)
      → Done F b (if c then x else y)
  Done-if F b true x y h k = h refl
  Done-if F b false x y h k = k refl

  pub Done-never :
      (b : BudgetTracker) (t : RunState World) (r : Tried World) → Done ⊥ b r → r ≡ done t → ⊥
  Done-never b t (done u) h e = h.0
  Done-never b t (returns u stop) h e = ground arith
  Done-never b t (caught u message) h e = ground arith
  Done-never b t (uncaught f) h e = ground arith

  then_work-Done :
      (F : Type 0) (b : BudgetTracker) (s : RunState World) (o : Outcome WorkState)
      (next : RunState World → Tried World)
      → ((w : WorkState) → Done F b (next (at_work s w)))
      → Done F b (then_work s o next)
  unfolding then_work caught_fault
  then_work-Done F b s (did w) next h = h w
  then_work-Done F b s (raises (concurrent_update id)) next h = tt
  then_work-Done F b s (raises (no_such_id id)) next h = tt
  then_work-Done F b s (raises (unsupported_status st)) next h = tt

  then_work-Done_at :
      (F : Type 0) (b : BudgetTracker) (s : RunState World) (o : Outcome WorkState)
      (next : RunState World → Tried World)
      → ((w : WorkState) → o ≡ did w → Done F b (next (at_work s w)))
      → Done F b (then_work s o next)
  unfolding then_work caught_fault
  then_work-Done_at F b s (did w) next h = h w refl
  then_work-Done_at F b s (raises (concurrent_update id)) next h = tt
  then_work-Done_at F b s (raises (no_such_id id)) next h = tt
  then_work-Done_at F b s (raises (unsupported_status st)) next h = tt

  pub pause_try-Done :
      (F : Type 0) (b : BudgetTracker) (s : RunState World) (graph_id id : String) (v : ℕ)
      (reason : String) (pending : List String)
      → Done F b (pause_try s graph_id id v reason pending)
  unfolding pause_try
  pause_try-Done F b s graph_id id v reason pending =
      let stop : Stop = record {
        status = GraphStatus.paused;
        reason = reason;
        pending_approvals = pending;
      } in
      let paused = λ (t : RunState World).
        then_work t (set_graph_status as_is t.work graph_id GraphStatus.paused)
          (λ u. returns u stop) in
      then_work-Done F b s (set_node_status as_is s.work id NodeStatus.blocked v) paused (λ w.
        then_work-Done F b (at_work s w) (set_graph_status as_is w graph_id GraphStatus.paused)
          (λ u. returns u stop) (λ x. tt))

  pub fail_attempt-Done :
      (F : Type 0) (b : BudgetTracker) (s : RunState World) (id : String) (error : Option String)
      (usage : Fields) (message : String)
      → Done F b (fail_attempt s id error usage message)
  unfolding fail_attempt
  fail_attempt-Done F b s id error usage message =
      then_work-Done F b s (finish_attempt s.work id "failed" error usage) (λ t. caught t message)
        (λ w. tt)

  mark_completed-Done :
      (F : Type 0) (s : RunState World) (id : String) (v : ℕ)
      → F
      → Done F s.budget (mark_completed s id v)
  unfolding mark_completed
  mark_completed-Done F s id v x =
      then_work-Done F s.budget s (set_node_status as_is s.work id NodeStatus.completed v) done
        (λ w. (x, refl))

  module _ (services : Services World) (graph_id : String) (node : WorkNode) where
    -- where a review is asked for, it passed in a state in which the node's row holds this output
    abbrev pub IsReviewed : (output : Fields) → Type 0
    IsReviewed output =
        (node.independent_review ≡ false)
        ⊎ ((s : RunState World) × (output_of node.id s.work ≡ output)
            × ((review_passes services s node).1 ≡ check true))

    -- a result that delivers what the node declares
    abbrev pub Delivers : (output : Fields) → Type 0
    Delivers output =
        ((name : String) → Memᴰ name node.expected_outputs → has_field name output ≡ true)
        × ((node.evidence_required && not (has_evidence output)) ≡ false)

    after_review-Done :
        (s : RunState World) (v : ℕ) (r : World × Reviewed)
        → Done (r.1 ≡ check true) s.budget (after_review s graph_id node v r)
    unfolding after_review
    after_review-Done s v (x, review_raised message) = tt
    after_review-Done s v (x, check true) = mark_completed-Done _ (in_world s x) node.id v refl
    after_review-Done s v (x, check false) =
        pause_try-Done _ s.budget (in_world s x) graph_id node.id v _ _

    complete-Done :
        (s : RunState World) (v : ℕ)
        → Done
            (IsReviewed (output_of node.id s.work))
            s.budget
            (complete services s graph_id node v)
    unfolding complete
    complete-Done s v =
        Done-if (IsReviewed (output_of node.id s.work)) s.budget node.independent_review _ _
          (λ i.
            Done-map _ (IsReviewed (output_of node.id s.work)) s.budget
              (after_review s graph_id node v (review_passes services s node))
              (λ p. inr (s, refl, p)) (after_review-Done s v (review_passes services s node)))
          (λ i. mark_completed-Done (IsReviewed (output_of node.id s.work)) s node.id v (inl i))

    store_output-Done :
        (s : RunState World) (output : Fields)
        → Done (IsReviewed output) s.budget (store_output services s graph_id node output)
    unfolding store_output
    store_output-Done s output = elim (Option-cases (find_node node.id s.work.tables.nodes)) [
      | inl e ↦ rw (e, store_output) tt
      | inr (row, e) ↦
          rw (e, store_output)
            (then_work-Done_at (IsReviewed output) s.budget s
              (record_output as_is s.work node.id output row.state_version)
              (λ t. complete services t graph_id node (suc row.state_version))
              (λ w d.
                rw (← output_of-recorded s.work w node.id output row e d)
                  (complete-Done (at_work s w) (suc row.state_version))))
    ]

    deliver-Done :
        (s : RunState World) (id : String) (output usage : Fields)
        → Done
            (IsReviewed output)
            (charge s.budget (spend_of usage))
            (deliver services s graph_id node id output usage)
    unfolding deliver
    deliver-Done s id output usage =
        let charged : RunState World = record s { budget = charge s.budget (spend_of usage) } in
        then_work-Done (IsReviewed output) charged.budget charged
          (finish_attempt s.work id "completed" none usage)
          (λ t. store_output services t graph_id node output)
          (λ w. store_output-Done (at_work charged w) output)

    pub accept-Done :
        (s : RunState World) (id : String) (output usage : Fields)
        → Done
            (Delivers output × IsReviewed output)
            (charge s.budget (spend_of usage))
            (accept services s graph_id node id output usage)
    unfolding accept
    accept-Done s id output usage =
        elim (List-cases (missing_outputs output node.expected_outputs)) [
          | inr (name, names, e) ↦ rw (e, accept) (fail_attempt-Done _ _ s id _ usage _)
          | inl e ↦
              rw (e, accept)
                (Done-if _ (charge s.budget (spend_of usage))
                  (node.evidence_required && not (has_evidence output)) _ _
                  (λ b. fail_attempt-Done _ _ s id _ usage _)
                  (λ b.
                    Done-map (IsReviewed output) _ (charge s.budget (spend_of usage))
                      (deliver services s graph_id node id output usage)
                      (λ r. (
                        (λ name m. missing_outputs-none output node.expected_outputs name e m, b),
                        r,
                      ))
                      (deliver-Done s id output usage)))
        ]
