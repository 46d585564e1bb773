-- ===== src/Policy/Service/Authorized.antt =====
-- What stands behind an action that the policy service allows.
use mathlib.Core.List.{Memᴰ}
use mathlib.Core.List.Memᴰ
use shiroe.Prelude.{
  String, Bool, true, Option, some, List, [], ◌∷◌, ◌≡◌, refl, ◌⊎◌, inl, inr, ⊎_elim, ◌==◌,
  string_eq, Bool-cases, arith, Option-cases, ap, sym, ◌∙◌,
}
use shiroe.Prelude.Json.{Json, Fields}
use shiroe.Policy.Schema.{Action, PolicyLayer, Verdict, allow, deny, require_approval}
use shiroe.Policy.Autonomy.{AutonomyMode}
use shiroe.Policy.Engine.{kind_value, evaluate}
use shiroe.Policy.Approvals.{approved, ApprovalRequest}
use shiroe.Policy.ApprovalService.{
  ApprovalState, answer, checked, get_request, find_row, matches, keep, find_latest_matching,
}
use shiroe.Policy.ApprovalService.Human.{Answer-cases}
use shiroe.Policy.Service.{AuthorizationResult, scope_of, requested_of, answered, authorize}

mem-keep :
    (test : ApprovalRequest → Bool) (rows : List ApprovalRequest) (row : ApprovalRequest)
    → Memᴰ row (keep test rows)
    → Memᴰ row rows × (test row ≡ true)
unfolding keep
mem-keep test [] row m = absurd (Memᴰ.not-nil m)
mem-keep test (r ∷ rows) row m = elim (Bool-cases (test r)) [
  | inl t ↦
      ⊎_elim (λ p. (Memᴰ.head p, rw p t))
        (λ n. let (k, u) = mem-keep test rows row n in (Memᴰ.tail k, u))
        (Memᴰ.cases_cons (rw (t, keep) at m))
  | inr t ↦ let (k, u) = mem-keep test rows row (rw (t, keep) at m) in (Memᴰ.tail k, u)
]

find_row-mem :
    (id : String) (rows : List ApprovalRequest) (row : ApprovalRequest)
    → find_row id rows ≡ some row
    → Memᴰ row rows × (row.id ≡ id)
unfolding find_row
find_row-mem id [] row h = cc
find_row-mem id (r ∷ rows) row h = elim (Bool-cases (r.id == id)) [
  | inl t ↦
      let p : r ≡ row = ground arith in
      (Memᴰ.head (sym p), ground (arith, string_eq.test_iff r.id id))
  | inr t ↦ let (k, u) = find_row-mem id rows row (rw (t, find_row) at h) in (Memᴰ.tail k, u)
]

answered-allow :
    (layer : String) (prior : ApprovalRequest)
    → (answered require_approval layer prior).verdict ≡ allow
    → prior.status ≡ approved
unfolding answered
answered-allow layer prior h = ground arith

Verdict-cases : (v : Verdict) → (v ≡ allow) ⊎ ((v ≡ deny) ⊎ (v ≡ require_approval))
Verdict-cases allow = inl refl
Verdict-cases deny = inr (inl refl)
Verdict-cases require_approval = inr (inr refl)

-- An id is the key of the table.
abbrev pub IsKeyed : List ApprovalRequest → Type 0
IsKeyed rows = (a b : ApprovalRequest) → Memᴰ a rows → Memᴰ b rows → a.id ≡ b.id → a ≡ b

-- The database answers with one of the rows it is given.
abbrev pub IsChoice : (List ApprovalRequest → Option ApprovalRequest) → Type 0
IsChoice first_of =
    (rows : List ApprovalRequest) (row : ApprovalRequest) → first_of rows ≡ some row → Memᴰ row rows

module _ (digest_of : Fields → String) (scrub : String → String)
    (first_of : List ApprovalRequest → Option ApprovalRequest) where
  get_request-row :
      (s : ApprovalState) (id : String) (r : ApprovalRequest)
      → get_request digest_of scrub s id ≡ answer r
      → (row : ApprovalRequest) × Memᴰ row s.rows × (row.id ≡ id) × (row.status ≡ r.status)
  unfolding get_request checked
  get_request-row s id r h = elim (Option-cases (find_row id s.rows)) [
    | inl n ↦ ground arith
    | inr (row, f) ↦ let (m, i) = find_row-mem id s.rows row f in (row, m, i, ground arith)
  ]

  find_latest_matching-row :
      (s : ApprovalState) (graph_id node_id kind : Option String) (wanted : String) (scope : Fields)
      (r : ApprovalRequest)
      → IsChoice first_of
      → IsKeyed s.rows
      → find_latest_matching digest_of scrub first_of s graph_id node_id kind wanted scope
        ≡ answer (some r)
      → (row : ApprovalRequest) × Memᴰ row s.rows
        × (row.status ≡ r.status)
        × (matches graph_id node_id kind wanted (digest_of scope) row ≡ true)
  unfolding find_latest_matching
  find_latest_matching-row s graph_id node_id kind wanted scope r choice keyed h =
      let test = matches graph_id node_id kind wanted (digest_of scope) in
      elim (Option-cases (first_of (keep test s.rows))) [
        | inl n ↦ ground arith
        | inr (row, f) ↦
            let (m, t) = mem-keep test s.rows row (choice (keep test s.rows) row f) in
            elim (Answer-cases (get_request digest_of scrub s row.id)) [
              | inr (e, g) ↦ ground arith
              | inl (q, g) ↦
                  let (found, k, i, u) = get_request-row s row.id q g in
                  let p : found ≡ row = keyed found row k m i in (row, m, ground (arith, p), t)
            ]
      ]

  -- Where `authorize` allows an action, the policy engine allows it, or the engine asks for approval and
  -- the table holds an approved request for this graph, node, kind, requested action and digest of the
  -- scope; the ids of the table are its key, and the database picks one of the matching rows.
  pub authorize-allow :
      (s : ApprovalState) (act : Action) (context : Json) (stack : List PolicyLayer)
      (mode : AutonomyMode) (graph_id node_id : Option String) (scope : Fields)
      (new_id now : String) (result : AuthorizationResult)
      → IsChoice first_of
      → IsKeyed s.rows
      → (authorize digest_of scrub first_of s act context stack mode graph_id node_id scope new_id
          now).1
        ≡ answer result
      → result.verdict ≡ allow
      → ((evaluate act stack mode).verdict ≡ allow)
        ⊎ (((evaluate act stack mode).verdict ≡ require_approval)
            × (row : ApprovalRequest) × Memᴰ row s.rows
            × (row.status ≡ approved)
            × (matches graph_id node_id
                  (some (kind_value act.kind))
                  (requested_of act)
                  (digest_of (scope_of act context scope))
                  row
                ≡ true))
  unfolding authorize
  authorize-allow s act context stack mode graph_id node_id scope new_id now result choice keyed h
        v =
      let wanted = requested_of act in
      let current = scope_of act context scope in
      let kind = some (kind_value act.kind) in
      elim (Verdict-cases (evaluate act stack mode).verdict) [
        | inl a ↦ inl a
        | inr (inl d) ↦ ground arith
        | inr (inr a) ↦
            elim (Answer-cases (
              find_latest_matching digest_of scrub first_of s graph_id node_id kind wanted
                current)) [
                  | inr (e, f) ↦ ground arith
                  | inl (o, f) ↦ elim (Option-cases o) [
                    | inl n ↦ ground arith
                    | inr (prior, p) ↦
                        let (row, m, st, t) =
                          find_latest_matching-row s graph_id node_id kind wanted current prior
                            choice keyed (f ∙ ap answer p) in
                        inr (
                          a,
                          row,
                          m,
                          ground (
                            arith,
                            answered-allow (evaluate act stack mode).deciding_layer prior,
                          ),
                          t,
                        )
                  ]
                ]
      ]
