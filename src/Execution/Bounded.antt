-- ===== src/Execution/Bounded.antt =====
-- The attempts of a run are bounded.
use shiroe.Prelude.{
  ℕ, zero, suc, ◌+◌, String, true, false, Option, none, List, [], ◌≡◌, refl, subst, Bool-cases,
  Option-cases, ◌&&◌, not, inl, inr, arith, string_eq, nat_eq,
}
use shiroe.Prelude.Lists.{List-cases}
use shiroe.Prelude.Json.{Fields}
use shiroe.Policy.Schema.{Verdict, allow, deny, require_approval}
use shiroe.Work.Schema.{node_kind_eq, GraphStatus, NodeStatus, node_status_eq, WorkNode}
use shiroe.Work.Store.{
  WorkState, no_such_id, concurrent_update, unsupported_status, Outcome, did, raises, find_node,
}
use shiroe.Execution.Budget.{charge, spend_of}
use shiroe.Policy.Service.{AuthorizationResult}
use shiroe.Execution.Services.{Services, Reviewed, Invoked, returned, raised, check, review_raised}
use shiroe.Execution.Results.{missing_outputs, has_evidence}
use shiroe.Execution.Attempts.{record_attempt}
use shiroe.Execution.Tried.{
  RunState, Tried, done, returns, caught, uncaught, at_work, in_world, then_work, caught_fault,
  pause_try, fail_attempt,
}
use shiroe.Execution.Attempt.{
  gate_error, review_passes, mark_completed, after_review, complete, store_output, deliver, accept,
  judge, invoke_node, on_verdict, try_node, or_retry, attempts,
}
use shiroe.Execution.Keeps.{
  Keeps, IsCompleted, set_node_status-IsCompleted, Keeps-refl, Keeps-trans, set_node_status-Keeps,
  set_graph_status-Keeps, record_output-Keeps, record_attempt-Keeps, finish_attempt-Keeps,
}

Keeps-more : (n : ℕ) (s t : WorkState) → Keeps 0 s t → Keeps n s t
Keeps-more n s t (a, h) = (λ k. let p = a k in omega arith, h)

Keeps-widen : (m n : ℕ) (s t : WorkState) → Keeps m s t → Keeps (m + n) s t
Keeps-widen m n s t (a, h) = (λ k. let p = a k in omega arith, h)

module _ {World : Type 0} where
  -- what an attempt leaves, where it leaves a state; an attempt that is done leaves the node completed
  abbrev pub Kept : ℕ → String → WorkState → Tried World → Type 0
  Kept n id s (done t) = Keeps n s t.work × IsCompleted id t.work
  Kept n id s (returns t stop) = Keeps n s t.work
  Kept n id s (caught t message) = Keeps n s t.work
  Kept n id s (uncaught f) = Unit

  Kept-after :
      (m n : ℕ) (id : String) (s t : WorkState) (r : Tried World)
      → Keeps m s t
      → Kept n id t r
      → Kept (m + n) id s r
  Kept-after m n id s t (done u) h (k, c) = (Keeps-trans m n s t u.work h k, c)
  Kept-after m n id s t (returns u stop) h k = Keeps-trans m n s t u.work h k
  Kept-after m n id s t (caught u message) h k = Keeps-trans m n s t u.work h k
  Kept-after m n id s t (uncaught f) h k = tt

  Kept-more :
      (n : ℕ) (id : String) (s : WorkState) (r : Tried World) → Kept 0 id s r → Kept n id s r
  Kept-more n id s (done u) (h, c) = (Keeps-more n s u.work h, c)
  Kept-more n id s (returns u stop) h = Keeps-more n s u.work h
  Kept-more n id s (caught u message) h = Keeps-more n s u.work h
  Kept-more n id s (uncaught f) h = tt

  -- a call of the store that keeps, and what follows it
  then_work-Kept :
      (id : String) (s : RunState World) (o : Outcome WorkState)
      (next : RunState World → Tried World)
      → ((w : WorkState) → o ≡ did w → Keeps 0 s.work w × Kept 0 id w (next (at_work s w)))
      → Kept 0 id s.work (then_work s o next)
  unfolding then_work caught_fault
  then_work-Kept id s (did w) next h =
      Kept-after 0 0 id s.work w (next (at_work s w)) (h w refl).0 (h w refl).1
  then_work-Kept id s (raises (concurrent_update k)) next h = Keeps-refl s.work
  then_work-Kept id s (raises (no_such_id k)) next h = tt
  then_work-Kept id s (raises (unsupported_status st)) next h = tt

  pause_try-Kept :
      (k : String) (s : RunState World) (graph_id id : String) (v : ℕ) (reason : String)
      (pending : List String)
      → Kept 0 k s.work (pause_try s graph_id id v reason pending)
  unfolding pause_try
  pause_try-Kept k s graph_id id v reason pending = then_work-Kept k s _ _ (λ w e. (
    set_node_status-Keeps s.work w id NodeStatus.blocked v refl e,
    then_work-Kept k (at_work s w) _ _
        (λ x f. (set_graph_status-Keeps w x graph_id GraphStatus.paused f, Keeps-refl x)),
  ))

  fail_attempt-Kept :
      (k : String) (s : RunState World) (id : String) (error : Option String) (usage : Fields)
      (message : String)
      → Kept 0 k s.work (fail_attempt s id error usage message)
  unfolding fail_attempt
  fail_attempt-Kept k s id error usage message =
      then_work-Kept k s _ _
        (λ w e. (finish_attempt-Keeps s.work w id "failed" error usage e, Keeps-refl w))

  mark_completed-Kept :
      (s : RunState World) (id : String) (v : ℕ) → Kept 0 id s.work (mark_completed s id v)
  unfolding mark_completed
  mark_completed-Kept s id v = then_work-Kept id s _ _ (λ w e. (
    set_node_status-Keeps s.work w id NodeStatus.completed v refl e,
    (Keeps-refl w, set_node_status-IsCompleted s.work w id v e),
  ))

  or_retry-Kept :
      (n : ℕ) (id : String) (s : RunState World) (r : Tried World)
      (next : RunState World → String → Tried World)
      → Kept 1 id s.work r
      → ((t : RunState World) (message : String) → Kept n id t.work (next t message))
      → Kept (1 + n) id s.work (or_retry r next)
  unfolding or_retry
  or_retry-Kept n id s (caught t message) next h k =
      Kept-after 1 n id s.work t.work _ h (k t message)
  or_retry-Kept n id s (done t) next (h, c) k = (Keeps-widen 1 n s.work t.work h, c)
  or_retry-Kept n id s (returns t stop) next h k = Keeps-widen 1 n s.work t.work h
  or_retry-Kept n id s (uncaught f) next h k = tt

  module _ (services : Services World) where
    after_review-Kept :
        (s : RunState World) (graph_id : String) (node : WorkNode) (v : ℕ) (r : World × Reviewed)
        → Kept 0 node.id s.work (after_review s graph_id node v r)
    unfolding after_review
    after_review-Kept s graph_id node v (x, review_raised message) = Keeps-refl s.work
    after_review-Kept s graph_id node v (x, check true) =
        mark_completed-Kept (in_world s x) node.id v
    after_review-Kept s graph_id node v (x, check false) =
        pause_try-Kept node.id (in_world s x) graph_id node.id v "independent_review" []

    complete-Kept :
        (s : RunState World) (graph_id : String) (node : WorkNode) (v : ℕ)
        → Kept 0 node.id s.work (complete services s graph_id node v)
    unfolding complete
    complete-Kept s graph_id node v = elim (Bool-cases node.independent_review) [
      | inr i ↦ rw (i, complete) (mark_completed-Kept s node.id v)
      | inl i ↦
          rw (i, complete) (after_review-Kept s graph_id node v (review_passes services s node))
    ]

    store_output-Kept :
        (s : RunState World) (graph_id : String) (node : WorkNode) (output : Fields)
        → Kept 0 node.id s.work (store_output services s graph_id node output)
    unfolding store_output
    store_output-Kept s graph_id node output =
        elim (Option-cases (find_node node.id s.work.tables.nodes)) [
          | inl e ↦ rw (e, store_output) tt
          | inr (row, e) ↦
              rw (e, store_output)
                (then_work-Kept node.id s _ _ (λ w f. (
                  record_output-Keeps s.work w node.id output row.state_version f,
                  complete-Kept (at_work s w) graph_id node (suc row.state_version),
                )))
        ]

    deliver-Kept :
        (s : RunState World) (graph_id : String) (node : WorkNode) (id : String)
        (output usage : Fields)
        → Kept 0 node.id s.work (deliver services s graph_id node id output usage)
    unfolding deliver
    deliver-Kept s graph_id node id output usage = then_work-Kept node.id _ _ _ (λ w f. (
      finish_attempt-Keeps s.work w id "completed" none usage f,
      store_output-Kept (at_work (record s { budget = charge s.budget (spend_of usage) }) w)
          graph_id node output,
    ))

    accept-Kept :
        (s : RunState World) (graph_id : String) (node : WorkNode) (id : String)
        (output usage : Fields)
        → Kept 0 node.id s.work (accept services s graph_id node id output usage)
    unfolding accept
    accept-Kept s graph_id node id output usage =
        elim (List-cases (missing_outputs output node.expected_outputs)) [
          | inr (name, names, e) ↦ rw (e, accept) (fail_attempt-Kept node.id s id _ usage _)
          | inl e ↦ elim (Bool-cases (node.evidence_required && not (has_evidence output))) [
            | inl b ↦ rw (e, accept) (rw b (fail_attempt-Kept node.id s id _ usage _))
            | inr b ↦ rw (e, accept) (rw b (deliver-Kept s graph_id node id output usage))
          ]
        ]

    judge-Kept :
        (s : RunState World) (graph_id : String) (node : WorkNode) (id : String)
        (r : World × Invoked)
        → Kept 0 node.id s.work (judge services s graph_id node id r)
    unfolding judge
    judge-Kept s graph_id node id (x, raised message) = Keeps-refl s.work
    judge-Kept s graph_id node id (x, returned true error output usage) =
        accept-Kept (in_world s x) graph_id node id output usage
    judge-Kept s graph_id node id (x, returned false error output usage) =
        fail_attempt-Kept node.id (in_world s x) id error usage _

    invoke_node-Kept :
        (s : RunState World) (graph_id : String) (node : WorkNode) (capability_id : String)
        → Kept 1 node.id s.work (invoke_node services s graph_id node capability_id)
    unfolding invoke_node
    invoke_node-Kept s graph_id node capability_id =
        let id = (services.new_id s.world).1 in
        let w = record_attempt s.work id graph_id node.id capability_id "running" in
        let started : RunState World = record s { work = w; world = (services.new_id s.world).0 } in
        let r = services.invoke started.world graph_id node capability_id in
        Kept-after 1 0 node.id s.work w (judge services started graph_id node id r)
          (record_attempt-Keeps s.work id graph_id node.id capability_id "running")
          (judge-Kept started graph_id node id r)

    on_verdict-Kept :
        (s : RunState World) (graph_id : String) (node : WorkNode) (capability_id : String) (v : ℕ)
        (auth : AuthorizationResult) (verdict : Verdict)
        → Kept 1 node.id s.work (on_verdict services s graph_id node capability_id v auth verdict)
    unfolding on_verdict
    on_verdict-Kept s graph_id node capability_id v auth require_approval =
        Kept-more 1 node.id s.work _ (pause_try-Kept node.id s graph_id node.id v _ _)
    on_verdict-Kept s graph_id node capability_id v auth deny =
        Keeps-more 1 s.work s.work (Keeps-refl s.work)
    on_verdict-Kept s graph_id node capability_id v auth allow =
        invoke_node-Kept s graph_id node capability_id

    try_node-Kept :
        (s : RunState World) (graph_id : String) (node : WorkNode) (capability_id : String) (v : ℕ)
        → Kept 1 node.id s.work (try_node services s graph_id node capability_id v)
    unfolding try_node
    try_node-Kept s graph_id node capability_id v =
        elim (Option-cases (gate_error services s.world node.requires)) [
          | inr (message, e) ↦ rw (e, try_node) (Keeps-more 1 s.work s.work (Keeps-refl s.work))
          | inl e ↦
              rw (e, try_node) (on_verdict-Kept (in_world s _) graph_id node capability_id v _ _)
        ]

    pub attempts-Kept :
        (left : ℕ) (s : RunState World) (graph_id : String) (node : WorkNode)
        (capability_id : String) (v : ℕ) (last : String)
        → Kept left node.id s.work (attempts services left s graph_id node capability_id v last)
    unfolding attempts
    attempts-Kept zero s graph_id node capability_id v last = Keeps-refl s.work
    attempts-Kept (suc left) s graph_id node capability_id v last =
        subst
          (λ n.
            Kept n node.id s.work
              (attempts services (suc left) s graph_id node capability_id v last))
          (ground arith)
          (or_retry-Kept left node.id s (try_node services s graph_id node capability_id v) _
            (try_node-Kept s graph_id node capability_id v)
            (λ t message. attempts-Kept left t graph_id node capability_id v message))
