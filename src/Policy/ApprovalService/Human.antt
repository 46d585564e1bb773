-- ===== src/Policy/ApprovalService/Human.antt =====
-- Every approved row goes back to a decision of a human that the log holds.
use mathlib.Core.List.{Memᴰ}
use mathlib.Core.List.Memᴰ
use shiroe.Prelude.{
  String, true, Option, none, some, List, [], ◌∷◌, ◌++◌, ◌≡◌, ◌≢◌, refl, ◌⊎◌, inl, inr, ◌==◌,
  string_eq, Bool-cases, arith, contains, sym,
}
use shiroe.Prelude.Json.{Fields}
use shiroe.Policy.Approvals.{
  ApprovalStatus, pending, approved, stale, status_eq, ApprovalRequest, ApprovalEvent, requested,
  decided, staled, scrub_event,
}
use shiroe.Policy.Approvals.Events.{mem-apply_approval}
use shiroe.Policy.ApprovalService.{
  ApprovalState, Asked, Answer, answer, refuse, is_human, checked, event_refers, emit, log_only,
  get_request, asked_request, ask, decide_human, assert_current,
}

pub Answer-cases {ℓ} :
    {T : Type ℓ} (a : Answer T) → ((t : T) × (a ≡ answer t)) ⊎ ((e : _) × (a ≡ refuse e))
Answer-cases (answer t) = inl (t, refl)
Answer-cases (refuse e) = inr (e, refl)

abbrev pub empty : ApprovalState
empty = record { rows = []; log = []; graph_ids = []; node_ids = [] }

module _ (digest_of : Fields → String) (scrub : String → String) where
  -- one call of the service, or new rows of graphs and nodes
  pub data Step : ApprovalState → ApprovalState → Type 0 where
    asks : (s : ApprovalState) (asked : Asked) → Step s (ask digest_of scrub s asked).0
    decides :
        (s : ApprovalState) (id : String) (decision : ApprovalStatus) (actor reason : String)
        (actor_kind : Option String) (now : String)
        → Step s (decide_human digest_of scrub s id decision actor reason actor_kind now).0
    asserts :
        (s : ApprovalState) (id : String) (scope : Fields)
        → Step s (assert_current digest_of scrub s id scope).0
    creates :
        (s : ApprovalState) (graph_ids node_ids : List String)
        → Step s
            (record s { graph_ids = s.graph_ids ++ graph_ids; node_ids = s.node_ids ++ node_ids })

  pub data Reachable : ApprovalState → Type 0 where
    begins : Reachable empty
    goes_on : (s t : ApprovalState) → Reachable s → Step s t → Reachable t

  abbrev ByHuman : ApprovalState → Type 0
  ByHuman s =
      (row : ApprovalRequest)
      → Memᴰ row s.rows
      → row.status ≡ approved
      → (reason decided_at : String) × Memᴰ
          (decided row.id approved (scrub "human") reason decided_at) s.log

  -- an event that approves nothing but by a human
  abbrev IsFair : ApprovalEvent → Type 0
  IsFair (requested r) = r.status ≢ approved
  IsFair (decided id decision actor reason at) = actor ≡ "human"
  IsFair (staled id) = Unit

  fair_human :
      (event : ApprovalEvent) (id actor reason at : String)
      → IsFair event
      → scrub_event scrub event ≡ decided id approved actor reason at
      → actor ≡ scrub "human"
  unfolding scrub_event
  fair_human (requested r) id actor reason at f h = cc
  fair_human (decided i d a re at') id actor reason at f h = cc
  fair_human (staled i) id actor reason at f h = cc

  fair_request :
      (event : ApprovalEvent) (r : ApprovalRequest)
      → IsFair event
      → scrub_event scrub event ≡ requested r
      → r.status ≢ approved
  unfolding scrub_event
  fair_request (requested q) r f h = λ k. f (cc (h, k))
  fair_request (decided i d a re at') r f h = λ k. cc
  fair_request (staled i) r f h = λ k. cc

  emit-ByHuman :
      (s : ApprovalState) (event : ApprovalEvent)
      → ByHuman s
      → IsFair event
      → ByHuman (emit digest_of scrub s event)
  unfolding emit
  emit-ByHuman s event old fair row m h =
      let e = scrub_event scrub event in
      elim (mem-apply_approval e s.rows row m h) [
        | inl k ↦ let (reason, at, n) = old row k h in (reason, at, Memᴰ.append_left (e ∷ []) n)
        | inr (inl (r, p, q)) ↦ absurd (fair_request event r fair p q)
        | inr (inr (actor, reason, at, p)) ↦ (
          reason,
          at,
          Memᴰ.append_right s.log
              (Memᴰ.head (rw⁻¹ (fair_human event row.id actor reason at fair p) (sym p))),
        )
      ]

  checked-status :
      (r q : ApprovalRequest) → checked digest_of scrub r ≡ answer q → q.status ≡ r.status
  unfolding checked
  checked-status r q h = ground arith

  log_only-ByHuman :
      (s : ApprovalState) (event : ApprovalEvent)
      → ByHuman s
      → ByHuman (log_only digest_of scrub s event)
  unfolding log_only
  log_only-ByHuman s event old row m h =
      let (reason, at, n) = old row m h in
      (reason, at, Memᴰ.append_left (scrub_event scrub event ∷ []) n)

  ask-ByHuman :
      (s : ApprovalState) (asked : Asked) → ByHuman s → ByHuman (ask digest_of scrub s asked).0
  unfolding ask asked_request
  ask-ByHuman s asked old = elim (Answer-cases (checked digest_of scrub (asked_request asked))) [
    | inl (r, h) ↦ elim (Bool-cases (event_refers s (scrub_event scrub (requested r)))) [
      | inl b ↦
          rw (h, ask)
            (rw b (
              emit-ByHuman s (requested r) old
                (λ k. cc (checked-status (asked_request asked) r h, k))))
      | inr b ↦ rw (h, ask) (rw b (log_only-ByHuman s (requested r) old))
    ]
    | inr (e, h) ↦ rw (h, ask) old
  ]

  is_human-actor :
      (actor : String) (kind : Option String) → is_human actor kind ≡ true → actor ≡ "human"
  unfolding is_human
  is_human-actor actor none h = (string_eq.test_iff actor "human").0 h
  is_human-actor actor (some kind) h = ground (arith, string_eq.test_iff actor "human")

  decide-ByHuman :
      (s : ApprovalState) (id : String) (decision : ApprovalStatus) (actor reason : String)
      (actor_kind : Option String) (now : String)
      → ByHuman s
      → ByHuman (decide_human digest_of scrub s id decision actor reason actor_kind now).0
  unfolding decide_human
  decide-ByHuman s id decision actor reason actor_kind now old =
      let event = decided id decision actor reason now in
      elim (Bool-cases (is_human actor actor_kind)) [
        | inr n ↦ rw (n, decide_human) old
        | inl y ↦
            let new = emit-ByHuman s event old (is_human-actor actor actor_kind y) in
            elim (Bool-cases (contains (pending ∷ stale ∷ []) decision)) [
              | inl c ↦ rw (y, c, decide_human) old
              | inr c ↦ elim (Answer-cases (get_request digest_of scrub s id)) [
                | inr (e, g) ↦ rw (y, c, g, decide_human) old
                | inl (r, g) ↦
                    elim (Answer-cases
                      (get_request digest_of scrub (emit digest_of scrub s event) id)) [
                        | inr (e, k) ↦ rw (y, c, g, k, decide_human) new
                        | inl (q, k) ↦ rw (y, c, g, k, decide_human) new
                      ]
              ]
            ]
      ]

  assert-ByHuman :
      (s : ApprovalState) (id : String) (scope : Fields)
      → ByHuman s
      → ByHuman (assert_current digest_of scrub s id scope).0
  unfolding assert_current
  assert-ByHuman s id scope old = elim (Answer-cases (get_request digest_of scrub s id)) [
    | inr (e, g) ↦ rw (g, assert_current) old
    | inl (r, g) ↦ elim (Bool-cases (digest_of scope == r.digest)) [
      | inl d ↦ rw (g, assert_current) (rw d old)
      | inr d ↦ rw (g, assert_current) (rw d (emit-ByHuman s (staled id) old tt))
    ]
  ]

  Step-ByHuman : (s t : ApprovalState) → Step s t → ByHuman s → ByHuman t
  Step-ByHuman _ _ (asks s asked) old = ask-ByHuman s asked old
  Step-ByHuman _ _ (decides s id decision actor reason actor_kind now) old =
      decide-ByHuman s id decision actor reason actor_kind now old
  Step-ByHuman _ _ (asserts s id scope) old = assert-ByHuman s id scope old
  Step-ByHuman _ _ (creates s graph_ids node_ids) old = old

  -- In every state that calls of the service lead to from an empty table, each approved request has an
  -- event of the log that decided its id to be approved, by the actor `human` as the log scrubs it.
  pub approved-Reachable :
      (s : ApprovalState)
      → Reachable s
      → (row : ApprovalRequest) → Memᴰ row s.rows
      → row.status ≡ approved
      → (reason decided_at : String) × Memᴰ
          (decided row.id approved (scrub "human") reason decided_at)
          s.log
  approved-Reachable _ begins row m h = absurd (Memᴰ.not-nil m)
  approved-Reachable _ (goes_on s t r st) row m h =
      Step-ByHuman s t st (approved-Reachable s r) row m h
