-- ===== src/Execution/Accepted.antt =====
-- What an attempt that completes a node has passed.
use mathlib.Core.List.{Memᴰ}
use mathlib.Core.List.Memᴰ
use shiroe.Prelude.{
  ℕ, zero, suc, String, true, false, Option, none, List, [], ◌∷◌, ◌≡◌, refl, ◌∙◌, sym, ap,
  Option-cases, ⊎_elim, ◌⊎◌, inl, inr, arith, string_eq,
}
use shiroe.Prelude.Json.{Fields}
use shiroe.Policy.Schema.{Verdict, allow, deny, require_approval}
use shiroe.Policy.Service.{AuthorizationResult}
use shiroe.Work.Schema.{WorkNode}
use shiroe.Execution.Budget.{BudgetTracker, charge, spend_of}
use shiroe.Execution.Services.{Services, Invoked, returned, raised}
use shiroe.Execution.Attempts.{record_attempt}
use shiroe.Execution.Tried.{RunState, Tried, done, returns, caught, uncaught, in_world}
use shiroe.Execution.Attempt.{
  gate_error, judge, invoke_node, on_verdict, try_node, or_retry, attempts,
}
use shiroe.Execution.Delivered.{
  Done, Done-never, pause_try-Done, fail_attempt-Done, IsReviewed, Delivers, accept-Done,
}

module _ {World : Type 0} (services : Services World) (graph_id : String) (node : WorkNode) where
  -- an invocation that returned what the node declares, and a review that passed
  abbrev pub IsInvoked : Invoked → BudgetTracker → RunState World → Type 0
  IsInvoked result b t =
      (error : Option String) × (output : Fields) × (usage : Fields) × (result
        ≡ returned true error output usage)
      × Delivers services graph_id node output
      × IsReviewed services graph_id node output
      × (t.budget ≡ charge b (spend_of usage))

  IsInvoked-Done :
      (error : Option String) (output usage : Fields) (b : BudgetTracker) (r : Tried World)
      → Done
          (Delivers services graph_id node output × IsReviewed services graph_id node output)
          (charge b (spend_of usage))
          r
      → (t : RunState World) → r ≡ done t
      → IsInvoked (returned true error output usage) b t
  IsInvoked-Done error output usage b (done u) ((d, v), p) t e =
      let q : u ≡ t = ground arith in
      (error, output, usage, refl, d, v, ap (λ x. x.budget) (sym q) ∙ p)
  IsInvoked-Done error output usage b (returns u stop) h t e = ground arith
  IsInvoked-Done error output usage b (caught u message) h t e = ground arith
  IsInvoked-Done error output usage b (uncaught f) h t e = ground arith

  judge-IsInvoked :
      (s t : RunState World) (id : String) (r : World × Invoked)
      → judge services s graph_id node id r ≡ done t
      → IsInvoked r.1 s.budget t
  unfolding judge
  judge-IsInvoked s t id (x, raised message) h = ground arith
  judge-IsInvoked s t id (x, returned true error output usage) h =
      IsInvoked-Done error output usage s.budget _
        (accept-Done services graph_id node (in_world s x) id output usage) t h
  judge-IsInvoked s t id (x, returned false error output usage) h =
      absurd
        (Done-never s.budget t _ (fail_attempt-Done ⊥ s.budget (in_world s x) id error usage _) h)

  on_verdict-IsInvoked :
      (s t : RunState World) (capability_id : String) (v : ℕ) (auth : AuthorizationResult)
      (verdict : Verdict)
      → on_verdict services s graph_id node capability_id v auth verdict ≡ done t
      → (verdict ≡ allow)
        × IsInvoked
            (services.invoke (services.new_id s.world).0 graph_id node capability_id).1
            s.budget
            t
  unfolding on_verdict invoke_node
  on_verdict-IsInvoked s t capability_id v auth require_approval h =
      absurd (Done-never s.budget t _ (pause_try-Done ⊥ s.budget s graph_id node.id v _ _) h)
  on_verdict-IsInvoked s t capability_id v auth deny h = ground arith
  on_verdict-IsInvoked s t capability_id v auth allow h =
      let (x, id) = services.new_id s.world in
      let started : RunState World = record s {
        work = record_attempt s.work id graph_id node.id capability_id "running";
        world = x;
      } in
      (refl, judge-IsInvoked started t id (services.invoke x graph_id node capability_id) h)

  gate_error-none :
      (x : World) (requires : List String) (id : String)
      → gate_error services x requires ≡ none
      → Memᴰ id requires
      → services.executable x id ≡ none
  unfolding gate_error
  gate_error-none x [] id h m = absurd (Memᴰ.not-nil m)
  gate_error-none x (r ∷ requires) id h m = elim (Option-cases (services.executable x r)) [
    | inr (message, e) ↦ ground (arith, e)
    | inl e ↦
        ⊎_elim (λ p. rw p e) (λ n. gate_error-none x requires id (rw (e, gate_error) at h) n)
          (Memᴰ.cases_cons m)
  ]

  -- From `s`, each required capability is executable, the policy allows the invocation, and it returned what
  -- the node declares, at the cost that the budget of `t` has taken up.
  abbrev pub IsAccepted : (capability_id : String) → RunState World → RunState World → Type 0
  IsAccepted capability_id s t =
      let asked = services.authorize s.world graph_id node.id capability_id in
      ((id : String) → Memᴰ id node.requires → services.executable s.world id ≡ none)
      × (asked.1.verdict ≡ allow)
      × IsInvoked (services.invoke (services.new_id asked.0).0 graph_id node capability_id).1
          s.budget t

  try_node-IsAccepted :
      (s t : RunState World) (capability_id : String) (v : ℕ)
      → try_node services s graph_id node capability_id v ≡ done t
      → IsAccepted capability_id s t
  unfolding try_node
  try_node-IsAccepted s t capability_id v h =
      elim (Option-cases (gate_error services s.world node.requires)) [
        | inr (message, e) ↦ ground (arith, e)
        | inl e ↦
            let (x, auth) = services.authorize s.world graph_id node.id capability_id in
            let (p, q) =
              on_verdict-IsInvoked (in_world s x) t capability_id v auth auth.verdict
                (rw (e, try_node) at h) in
            (λ id m. gate_error-none s.world node.requires id e m, p, q)
      ]

  or_retry-done :
      (t : RunState World) (r : Tried World) (next : RunState World → String → Tried World)
      → or_retry r next ≡ done t
      → (r ≡ done t) ⊎ ((u : RunState World) × (message : String) × (next u message ≡ done t))
  unfolding or_retry
  or_retry-done t (caught u message) next h = inr (u, message, h)
  or_retry-done t (done u) next h = inl h
  or_retry-done t (returns u stop) next h = ground arith
  or_retry-done t (uncaught f) next h = ground arith

  -- The attempts at a node complete it only by one attempt from some state of the run in which every required
  -- capability is executable and the policy allows the invocation; the invocation is ok, its output has
  -- every declared output, and evidence where the node requires it, where the node asks for it an independent review
  -- has passed with that output in the node's row, and the budget is charged what the invocation reports.
  pub attempts-IsAccepted :
      (left : ℕ) (s t : RunState World) (capability_id : String) (v : ℕ) (last : String)
      → attempts services left s graph_id node capability_id v last ≡ done t
      → (u : RunState World) × IsAccepted capability_id u t
  unfolding attempts
  attempts-IsAccepted zero s t capability_id v last h = ground arith
  attempts-IsAccepted (suc left) s t capability_id v last h =
      ⊎_elim (λ e. (s, try_node-IsAccepted s t capability_id v e))
        (λ (u, message, e). attempts-IsAccepted left u t capability_id v message e)
        (or_retry-done t (try_node services s graph_id node capability_id v) _ h)
