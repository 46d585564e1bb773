-- ===== src/Policy/ApprovalService/Current.antt =====
-- Whether a request still covers the scope that is about to be acted on.
use shiroe.Prelude.{
  String, true, none, some, List, [], ◌∷◌, ◌≡◌, ◌≢◌, refl, ◌⊎◌, inl, inr, ◌==◌, string_eq,
  Bool-cases, arith, ap, subst, ==_refl,
}
use shiroe.Prelude.Json.{Fields}
use shiroe.Storage.Envelope.{scrub_fields}
use shiroe.Work.Schema.{has_text}
use shiroe.Policy.Approvals.{
  stale, ApprovalRequest, ApprovalEvent, requested, decided, staled, scrub_event, insert_or_replace,
  update_where, apply_approval,
}
use shiroe.Policy.ApprovalService.{
  ApprovalState, Asked, answer, refuse, foreign_key, event_refers, asked_request, checked, emit,
  find_row, get_request, ask, assert_current,
}

find_row-insert :
    (rows : List ApprovalRequest) (r : ApprovalRequest)
    → find_row r.id (insert_or_replace rows r)
      ≡ some (record r { decided_at = none; decided_by = none; decision_reason = none })
unfolding find_row insert_or_replace
find_row-insert [] r = ground (arith, ==_refl r.id)
find_row-insert (row ∷ rows) r = elim (Bool-cases (row.id == r.id)) [
  | inl t ↦ rw (t, insert_or_replace) (find_row-insert rows r)
  | inr t ↦ ground (arith, find_row-insert rows r)
]

find_row-update_stale :
    (id : String) (rows : List ApprovalRequest) (row : ApprovalRequest)
    → find_row id rows ≡ some row
    → find_row id (update_where id (λ r. record r { status = stale }) rows)
      ≡ some (record row { status = stale })
unfolding find_row update_where
find_row-update_stale id [] row h = cc
find_row-update_stale id (r ∷ rows) row h = elim (Bool-cases (r.id == id)) [
  | inl t ↦ ground arith
  | inr t ↦ ground (arith, find_row-update_stale id rows row)
]

module _ (digest_of : Fields → String) (scrub : String → String) where
  -- the texts that a request must have
  abbrev pub HasTexts : ApprovalRequest → Type 0
  HasTexts row =
      (has_text row.id ≡ true)
      × (has_text row.requested_action ≡ true)
      × (has_text row.reason ≡ true)

  checked-HasTexts :
      (row : ApprovalRequest)
      → HasTexts row
      → checked digest_of scrub row ≡ answer (record row { digest = digest_of row.scope })
  unfolding checked
  checked-HasTexts row (a, b, c) = ground arith

  get_request-HasTexts :
      (s : ApprovalState) (id : String) (row : ApprovalRequest)
      → find_row id s.rows ≡ some row
      → HasTexts row
      → get_request digest_of scrub s id ≡ answer (record row { digest = digest_of row.scope })
  unfolding get_request
  get_request-HasTexts s id row f t = ground (arith, checked-HasTexts row t)

  -- `assert_current` on a stored request answers it as it is where the scope has the digest of the
  -- stored scope, and changes nothing; for any other digest it answers the request as stale, and so is
  -- its row. The id is one that the log leaves as it is, and id, action and reason are not blank.
  pub assert_current-stored :
      (s : ApprovalState) (id : String) (scope : Fields) (row : ApprovalRequest)
      → scrub id ≡ id
      → find_row id s.rows ≡ some row
      → HasTexts row
      → let now = record row { digest = digest_of row.scope } in
        ((digest_of scope ≡ digest_of row.scope)
          × (assert_current digest_of scrub s id scope ≡ (s, answer now)))
        ⊎ ((digest_of scope ≢ digest_of row.scope)
            × (assert_current digest_of scrub s id scope
                ≡ (emit digest_of scrub s (staled id), answer (record now { status = stale })))
            × (find_row id (emit digest_of scrub s (staled id)).rows
                ≡ some (record row { status = stale })))
  unfolding assert_current emit scrub_event apply_approval
  assert_current-stored s id scope row k f t =
      let g = get_request-HasTexts s id row f t in
      let u : find_row id (emit digest_of scrub s (staled id)).rows
          ≡ some (record row { status = stale }) =
        rw k (find_row-update_stale id s.rows row f) in
      let v =
        get_request-HasTexts (emit digest_of scrub s (staled id)) id (record row { status = stale })
          u t in
      elim (Bool-cases (digest_of scope == digest_of row.scope)) [
        | inl e ↦ inl (
          (string_eq.test_iff (digest_of scope) (digest_of row.scope)).0 e,
          rw (g, assert_current) (rw e refl),
        )
        | inr e ↦ inr (
          λ p. ground (arith, string_eq.test_iff (digest_of scope) (digest_of row.scope)),
          rw (g, assert_current) (rw e (rw v refl)),
          u,
        )
      ]

  request_of : ApprovalEvent → ApprovalRequest → ApprovalRequest
  request_of (requested r) other = r
  request_of (decided id d a r at) other = other
  request_of (staled id) other = other

  ask-written :
      (s : ApprovalState) (r : ApprovalRequest) (asked : Asked)
      → checked digest_of scrub (asked_request asked) ≡ answer r
      → (ask digest_of scrub s asked).1 ≢ refuse foreign_key
      → (ask digest_of scrub s asked).0 ≡ emit digest_of scrub s (requested r)
  unfolding ask
  ask-written s r asked c w = elim (Bool-cases (event_refers s (scrub_event scrub (requested r)))) [
    | inl b ↦ rw (c, ask) (rw b refl)
    | inr b ↦ absurd (w (rw (c, ask) (rw b refl)))
  ]

  ask-row :
      (s : ApprovalState) (asked : Asked)
      → scrub asked.id ≡ asked.id
      → HasTexts (asked_request asked)
      → (ask digest_of scrub s asked).1 ≢ refuse foreign_key
      → (row : ApprovalRequest) × (find_row asked.id (ask digest_of scrub s asked).0.rows
          ≡ some row)
        × (row.scope ≡ scrub_fields scrub asked.scope)
        × (row.id ≡ asked.id)
        × (row.requested_action ≡ scrub asked.requested_action)
        × (row.reason ≡ scrub asked.reason)
  unfolding ask asked_request emit scrub_event apply_approval request_of
  ask-row s asked k t w =
      let r = record (asked_request asked) { digest = digest_of asked.scope } in
      let q = request_of (scrub_event scrub (requested r)) r in
      (
        record q { decided_at = none; decided_by = none; decision_reason = none },
        rw (ask-written s r asked (checked-HasTexts (asked_request asked) t) w) (
            subst
              (λ i.
                find_row i (insert_or_replace s.rows q)
                ≡ some (record q { decided_at = none; decided_by = none; decision_reason = none }))
              k (find_row-insert s.rows q)),
        refl,
        k,
        refl,
        refl,
      )

  -- A request whose scope the log scrubs to one of another digest is stale as soon as it is asked whether
  -- it covers the scope that it was made for. The log leaves the id as it is; id, action and reason are not
  -- blank, before and after the scrubbing, and no foreign key refuses the request.
  pub assert_current-ask :
      (s : ApprovalState) (asked : Asked)
      → scrub asked.id ≡ asked.id
      → HasTexts (asked_request asked)
      → has_text (scrub asked.requested_action) ≡ true
      → has_text (scrub asked.reason) ≡ true
      → digest_of asked.scope ≢ digest_of (scrub_fields scrub asked.scope)
      → (ask digest_of scrub s asked).1 ≢ refuse foreign_key
      → (r : ApprovalRequest) × ((assert_current digest_of scrub
            (ask digest_of scrub s asked).0
            asked.id
            asked.scope).1
          ≡ answer r)
        × (r.status ≡ stale)
  unfolding asked_request
  assert_current-ask s asked k t a b n w =
      let (row, f, sc, i, ra, re) = ask-row s asked k t w in
      let texts : HasTexts row = (rw i t.0, rw ra a, rw re b) in
      elim (assert_current-stored (ask digest_of scrub s asked).0 asked.id asked.scope row k f
        texts) [
          | inl (e, h) ↦ absurd (n (rw (← sc) e))
          | inr (ne, h, u) ↦
              (record row { digest = digest_of row.scope; status = stale }, ap (λ p. p.1) h, refl)
        ]
