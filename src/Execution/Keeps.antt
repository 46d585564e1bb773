-- ===== src/Execution/Keeps.antt =====
-- What the calls of the store in a run keep: the attempts that they add, and the tasks that wait.
use shiroe.Prelude.{
  ℕ, ◌+◌, ◌≤◌, String, Bool, true, false, Option, none, some, List, [], ◌∷◌, ◌≡◌, refl, sym, subst,
  Bool-cases, Option-cases, inl, inr, arith, ◌==◌, string_eq, nat_eq,
}
use shiroe.Prelude.Json.{Fields}
use shiroe.Work.Schema.{node_kind_eq, GraphStatus, NodeStatus, node_status_eq}
use shiroe.Work.Tables.{NodeRow, AttemptRow, step, put_attempt, step_row, apply_step, apply_work}
use shiroe.Work.Store.{
  WorkState, did, find_node, find_graph, run_event, emit_work, emit_node_status, set_graph_status,
  set_node_status, record_output,
}
use shiroe.Work.Store.Rows.{find_node-apply_step}
use shiroe.Execution.Attempts.{as_is, attempt_count, find_attempt, record_attempt, finish_attempt}
use shiroe.Execution.Supervisor.{is_waiting}
use shiroe.Execution.Shrinks.{Shrinks, Shrinks-refl, Shrinks-trans, AllWhere, Shrinks-change_where}

abbrev pub Keeps : ℕ → WorkState → WorkState → Type 0
Keeps n s t =
    ((k : String) → attempt_count k t.tables.attempts ≤ n + attempt_count k s.tables.attempts)
    × Shrinks s.tables.nodes t.tables.nodes

pub Keeps-refl : (s : WorkState) → Keeps 0 s s
Keeps-refl s = (λ k. ground arith, Shrinks-refl s.tables.nodes)

pub Keeps-trans : (m n : ℕ) (s t u : WorkState) → Keeps m s t → Keeps n t u → Keeps (m + n) s u
Keeps-trans m n s t u (a, h) (b, k) = (
  λ id. let p = a id in let q = b id in omega arith,
  Shrinks-trans s.tables.nodes t.tables.nodes u.tables.nodes h k,
)

AllWhere-all :
    (test : NodeRow → Bool) (P : NodeRow → Type 0) (rows : List NodeRow)
    → ((a : NodeRow) → P a)
    → AllWhere test P rows
AllWhere-all test P [] h = tt
AllWhere-all test P (a ∷ rows) h = (λ _. h a, AllWhere-all test P rows h)

step_row_kept :
    (to : NodeStatus) (a : NodeRow)
    → (to == NodeStatus.pending) ≡ false
    → ((step_row (some to) none a).node ≡ a.node)
      × (is_waiting (step_row (some to) none a) ≡ true → is_waiting a ≡ true)
step_row_kept to a h = (refl, λ w. ground arith)

pub emit_node_status-Keeps :
    (s : WorkState) (id : String) (to : NodeStatus)
    → (to == NodeStatus.pending) ≡ false
    → Keeps 0 s (emit_node_status as_is s id to)
unfolding emit_node_status emit_work apply_work apply_step
emit_node_status-Keeps s id to h = (
  λ k. ground arith,
  Shrinks-change_where (λ n. n.node.id == id) (step_row (some to) none) s.tables.nodes
      (AllWhere-all _ _ s.tables.nodes (λ a. step_row_kept to a h)),
)

pub set_node_status-did :
    (s t : WorkState) (id : String) (to : NodeStatus) (v : ℕ)
    → set_node_status as_is s id to v ≡ did t
    → t ≡ emit_node_status as_is s id to
unfolding set_node_status
set_node_status-did s t id to v h = elim (Option-cases (find_node id s.tables.nodes)) [
  | inl e ↦ ground (arith, e)
  | inr (row, e) ↦ elim (Bool-cases (row.state_version == v)) [
    | inl b ↦ ground (arith, e, b)
    | inr b ↦ ground (arith, e, b)
  ]
]

pub set_node_status-Keeps :
    (s t : WorkState) (id : String) (to : NodeStatus) (v : ℕ)
    → (to == NodeStatus.pending) ≡ false
    → set_node_status as_is s id to v ≡ did t
    → Keeps 0 s t
set_node_status-Keeps s t id to v n h =
    subst (Keeps 0 s) (sym (set_node_status-did s t id to v h)) (emit_node_status-Keeps s id to n)

-- the row that `get_node` finds is completed
abbrev pub IsCompleted : String → WorkState → Type 0
IsCompleted id s =
    (row : NodeRow) × (find_node id s.tables.nodes ≡ some row) × (row.status ≡ NodeStatus.completed)

find_node-emit_node_status :
    (s : WorkState) (id : String) (to : NodeStatus) (row : NodeRow)
    → find_node id s.tables.nodes ≡ some row
    → find_node id (emit_node_status as_is s id to).tables.nodes
      ≡ some (step_row (some to) none row)
unfolding emit_node_status emit_work apply_work
find_node-emit_node_status s id to row h = find_node-apply_step (some to) none id s.tables row h

set_node_status_found :
    (s t : WorkState) (id : String) (to : NodeStatus) (v : ℕ)
    → set_node_status as_is s id to v ≡ did t
    → (row : NodeRow) × (find_node id s.tables.nodes ≡ some row)
unfolding set_node_status
set_node_status_found s t id to v h = elim (Option-cases (find_node id s.tables.nodes)) [
  | inl e ↦ ground (arith, e)
  | inr found ↦ found
]

pub set_node_status-IsCompleted :
    (s t : WorkState) (id : String) (v : ℕ)
    → set_node_status as_is s id NodeStatus.completed v ≡ did t
    → IsCompleted id t
set_node_status-IsCompleted s t id v h =
    let (row, e) = set_node_status_found s t id NodeStatus.completed v h in
    subst (IsCompleted id) (sym (set_node_status-did s t id NodeStatus.completed v h)) (
      step_row (some NodeStatus.completed) none row,
      find_node-emit_node_status s id NodeStatus.completed row e,
      refl,
    )

same_rows :
    (s t : WorkState)
    → t.tables.attempts ≡ s.tables.attempts
    → t.tables.nodes ≡ s.tables.nodes
    → Keeps 0 s t
same_rows s t a b = (λ k. rw a (ground arith), rw b (Shrinks-refl s.tables.nodes))

pub set_graph_status-Keeps :
    (s t : WorkState) (id : String) (to : GraphStatus)
    → set_graph_status as_is s id to ≡ did t
    → Keeps 0 s t
unfolding set_graph_status emit_work apply_work
set_graph_status-Keeps s t id to h = elim (Option-cases (find_graph id s.tables.graphs)) [
  | inl e ↦ ground (arith, e)
  | inr (row, e) ↦ elim (Option-cases (run_event row.status to)) [
    | inl f ↦ ground (arith, e, f)
    | inr (ev, f) ↦ same_rows s t (ground (arith, e, f)) (ground (arith, e, f))
  ]
]

pub record_output-Keeps :
    (s t : WorkState) (id : String) (output : Fields) (v : ℕ)
    → record_output as_is s id output v ≡ did t
    → Keeps 0 s t
unfolding record_output emit_work apply_work apply_step
record_output-Keeps s t id output v h = elim (Option-cases (find_node id s.tables.nodes)) [
  | inl e ↦ ground (arith, e)
  | inr (row, e) ↦ elim (Bool-cases (row.state_version == v)) [
    | inr b ↦ ground (arith, e, b)
    | inl b ↦
        let p : emit_work as_is s (step "step.completed" id none (some output)) ≡ t =
          ground (arith, e, b) in
        subst (Keeps 0 s) p (
          λ k. ground arith,
          Shrinks-change_where (λ n. n.node.id == id) (step_row none (some output)) s.tables.nodes
              (AllWhere-all _ _ s.tables.nodes (λ a. (refl, λ w. w))),
        )
  ]
]

attempt_count-put_attempt :
    (k : String) (a : AttemptRow) (rows : List AttemptRow)
    → attempt_count k (put_attempt a rows) ≤ 1 + attempt_count k rows
unfolding attempt_count put_attempt
attempt_count-put_attempt k a [] = ground arith
attempt_count-put_attempt k a (b ∷ rows) = ground (arith, attempt_count-put_attempt k a rows)

attempt_count-put_attempt_again :
    (k : String) (a row : AttemptRow) (rows : List AttemptRow)
    → find_attempt a.id rows ≡ some row
    → attempt_count k (put_attempt a rows) ≤ 0 + attempt_count k rows
unfolding attempt_count put_attempt find_attempt
attempt_count-put_attempt_again k a row [] h = cc
attempt_count-put_attempt_again k a row (b ∷ rows) h =
    ground (arith, attempt_count-put_attempt_again k a row rows)

find_attempt-id :
    (id : String) (row : AttemptRow) (rows : List AttemptRow)
    → find_attempt id rows ≡ some row
    → row.id ≡ id
unfolding find_attempt
find_attempt-id id row [] h = cc
find_attempt-id id row (b ∷ rows) h =
    ground (arith, find_attempt-id id row rows, string_eq.test_iff b.id id)

pub record_attempt-Keeps :
    (s : WorkState) (id graph_id node_id capability_id state : String)
    → Keeps 1 s (record_attempt s id graph_id node_id capability_id state)
unfolding record_attempt emit_work apply_work
record_attempt-Keeps s id graph_id node_id capability_id state =
    (λ k. attempt_count-put_attempt k _ s.tables.attempts, Shrinks-refl s.tables.nodes)

pub finish_attempt-Keeps :
    (s t : WorkState) (id state : String) (error : Option String) (usage : Fields)
    → finish_attempt s id state error usage ≡ did t
    → Keeps 0 s t
unfolding finish_attempt emit_work apply_work
finish_attempt-Keeps s t id state error usage h =
    elim (Option-cases (find_attempt id s.tables.attempts)) [
      | inl e ↦ ground (arith, e)
      | inr (row, e) ↦
          let a : AttemptRow = record row { state = state; error = error; usage = usage } in
          let p : t.tables.attempts ≡ put_attempt a s.tables.attempts = ground (arith, e) in
          let q : t.tables.nodes ≡ s.tables.nodes = ground (arith, e) in
          let f : find_attempt a.id s.tables.attempts ≡ some row =
            subst (λ i. find_attempt i s.tables.attempts ≡ some row)
              (sym (find_attempt-id id row s.tables.attempts e)) e in
          (
            λ k. rw p (attempt_count-put_attempt_again k a row s.tables.attempts f),
            rw q (Shrinks-refl s.tables.nodes),
          )
    ]
