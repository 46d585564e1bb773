-- ===== src/Policy/ApprovalService/Replay.antt =====
-- The table is what its events make of an empty one.
use shiroe.Prelude.{
  String, Option, List, [], ◌∷◌, ◌++◌, ◌≡◌, ◌≢◌, refl, ◌⊎◌, inl, inr, ◌==◌, string_eq, Bool-cases,
  contains, ap, ◌∙◌,
}
use shiroe.Prelude.Json.{Fields}
use shiroe.Policy.Approvals.{
  ApprovalStatus, pending, stale, status_eq, ApprovalRequest, ApprovalEvent, requested, decided,
  staled, scrub_event, apply_approval,
}
use shiroe.Policy.ApprovalService.{
  ApprovalState, Asked, refuse, foreign_key, event_refers, is_human, asked_request, checked, emit,
  get_request, ask, decide_human, assert_current, replay,
}
use shiroe.Policy.ApprovalService.Human.{
  Answer-cases, Step, asks, decides, asserts, creates, Reachable, begins, goes_on,
}

replay-append :
    (rows : List ApprovalRequest) (events : List ApprovalEvent) (event : ApprovalEvent)
    → replay rows (events ++ event ∷ []) ≡ apply_approval event (replay rows events)
unfolding replay
replay-append rows [] event = refl
replay-append rows (e ∷ events) event = replay-append (apply_approval e rows) events event

module _ (digest_of : Fields → String) (scrub : String → String) where
  -- a call changes nothing or emits one event
  abbrev Emits : ApprovalState → ApprovalState → Type 0
  Emits s t = (t ≡ s) ⊎ ((event : ApprovalEvent) × (t ≡ emit digest_of scrub s event))

  ask-Emits :
      (s : ApprovalState) (asked : Asked)
      → (ask digest_of scrub s asked).1 ≢ refuse foreign_key
      → Emits s (ask digest_of scrub s asked).0
  unfolding ask
  ask-Emits s asked n = elim (Answer-cases (checked digest_of scrub (asked_request asked))) [
    | inl (r, h) ↦ elim (Bool-cases (event_refers s (scrub_event scrub (requested r)))) [
      | inl b ↦ rw (h, ask) (rw b (inr (requested r, refl)))
      | inr b ↦ absurd (n (rw (h, ask) (rw b refl)))
    ]
    | inr (e, h) ↦ rw (h, ask) (inl refl)
  ]

  decide-Emits :
      (s : ApprovalState) (id : String) (decision : ApprovalStatus) (actor reason : String)
      (actor_kind : Option String) (now : String)
      → Emits s (decide_human digest_of scrub s id decision actor reason actor_kind now).0
  unfolding decide_human
  decide-Emits s id decision actor reason actor_kind now =
      let event = decided id decision actor reason now in
      elim (Bool-cases (is_human actor actor_kind)) [
        | inr n ↦ rw (n, decide_human) (inl refl)
        | inl y ↦ elim (Bool-cases (contains (pending ∷ stale ∷ []) decision)) [
          | inl c ↦ rw (y, c, decide_human) (inl refl)
          | inr c ↦ elim (Answer-cases (get_request digest_of scrub s id)) [
            | inr (e, g) ↦ rw (y, c, g, decide_human) (inl refl)
            | inl (r, g) ↦
                elim (Answer-cases
                  (get_request digest_of scrub (emit digest_of scrub s event) id)) [
                    | inr (e, k) ↦ rw (y, c, g, k, decide_human) (inr (event, refl))
                    | inl (q, k) ↦ rw (y, c, g, k, decide_human) (inr (event, refl))
                  ]
          ]
        ]
      ]

  assert-Emits :
      (s : ApprovalState) (id : String) (scope : Fields)
      → Emits s (assert_current digest_of scrub s id scope).0
  unfolding assert_current
  assert-Emits s id scope = elim (Answer-cases (get_request digest_of scrub s id)) [
    | inr (e, g) ↦ rw (g, assert_current) (inl refl)
    | inl (r, g) ↦ elim (Bool-cases (digest_of scope == r.digest)) [
      | inl d ↦ rw (g, assert_current) (rw d (inl refl))
      | inr d ↦ rw (g, assert_current) (rw d (inr (staled id, refl)))
    ]
  ]

  emit-replay :
      (s : ApprovalState) (event : ApprovalEvent)
      → replay [] s.log ≡ s.rows
      → replay [] (emit digest_of scrub s event).log ≡ (emit digest_of scrub s event).rows
  unfolding emit
  emit-replay s event h =
      replay-append [] s.log (scrub_event scrub event)
      ∙ ap (apply_approval (scrub_event scrub event)) h

  Emits-replay :
      (s t : ApprovalState) → Emits s t → replay [] s.log ≡ s.rows → replay [] t.log ≡ t.rows
  Emits-replay s t (inl p) h = rw p h
  Emits-replay s t (inr (event, p)) h = rw p (emit-replay s event h)

  -- a foreign key does not refuse the call
  abbrev pub IsWritten : {s t : ApprovalState} → Step digest_of scrub s t → Type 0
  IsWritten (asks s asked) = (ask digest_of scrub s asked).1 ≢ refuse foreign_key
  IsWritten (decides s id decision actor reason actor_kind now) = Unit
  IsWritten (asserts s id scope) = Unit
  IsWritten (creates s graph_ids node_ids) = Unit

  abbrev pub AreWritten : {s : ApprovalState} → Reachable digest_of scrub s → Type 0
  AreWritten begins = Unit
  AreWritten (goes_on s t r st) = AreWritten r × IsWritten st

  Step-replay :
      (s t : ApprovalState) (st : Step digest_of scrub s t)
      → IsWritten st
      → replay [] s.log ≡ s.rows
      → replay [] t.log ≡ t.rows
  Step-replay _ _ (asks s asked) w h = Emits-replay s _ (ask-Emits s asked w) h
  Step-replay _ _ (decides s id decision actor reason actor_kind now) w h =
      Emits-replay s _ (decide-Emits s id decision actor reason actor_kind now) h
  Step-replay _ _ (asserts s id scope) w h = Emits-replay s _ (assert-Emits s id scope) h
  Step-replay _ _ (creates s graph_ids node_ids) w h = h

  -- In every state that calls of the service lead to from an empty table, of which a foreign key refused none,
  -- while graphs and nodes may be created, a replay of the approval events of the log into an empty table gives
  -- the rows of the table.
  pub replay-Reachable :
      (s : ApprovalState) (r : Reachable digest_of scrub s)
      → AreWritten r
      → replay [] s.log ≡ s.rows
  unfolding replay
  replay-Reachable _ begins w = refl
  replay-Reachable _ (goes_on s t r st) w = Step-replay s t st w.1 (replay-Reachable s r w.0)
