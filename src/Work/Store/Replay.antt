-- ===== src/Work/Store/Replay.antt =====
-- The tables, and what the events of the log make of empty ones.
use shiroe.Prelude.{
  ℕ, String, Bool, true, false, ◌&&◌, Option, none, some, if◌then◌else◌, subst, List, [], ◌∷◌, ◌++◌,
  ◌≡◌, refl, ap, ◌∙◌, Option-cases, Bool-cases, inl, inr, ◌==◌, nat_eq,
}
use shiroe.Prelude.Json.{Fields}
use shiroe.Work.Schema.{GraphStatus, NodeStatus, WorkGraph}
use shiroe.Work.Tables.{
  AttemptRow, Tables, WorkEvent, run_created, run_status, step, attempt, apply_work, refers,
  apply_checked,
}
use shiroe.Work.Store.{
  WorkState, Outcome, did, raises, find_graph, find_node, run_event, step_event, emit_work,
  emit_checked, create, set_graph_status, emit_node_status, set_node_status, record_output,
}

abbrev pub no_tables : Tables
no_tables = record { graphs = []; nodes = []; edges = []; attempts = [] }

-- the fold of `replay_into` over the work events, from the emptied tables; a foreign key ends it
unfoldable pub replay_work : Tables → List WorkEvent → Option Tables
unfolding apply_checked
replay_work t [] = some t
replay_work t (e ∷ events) =
    let (u, all) : Tables × Bool = apply_checked e t in
    let rest = replay_work u events in if all then rest else none

-- one more event after a replay
then_event : WorkEvent → Option Tables → Option Tables
then_event e none = none
then_event e (some t) = if refers e t then some (apply_work e t) else none

replay_work-append :
    (t : Tables) (events : List WorkEvent) (e : WorkEvent)
    → replay_work t (events ++ e ∷ []) ≡ then_event e (replay_work t events)
unfolding replay_work apply_checked then_event
replay_work-append t [] e = elim (Bool-cases (refers e t)) [ inl b ↦ rw b refl | inr b ↦ rw b refl ]
replay_work-append t (d ∷ events) e = elim (Bool-cases (refers d t)) [
  | inl b ↦ rw b (replay_work-append (apply_work d t) events e)
  | inr b ↦ rw b refl
]

-- an event that inserts rows
unfoldable pub inserts : WorkEvent → Bool
inserts (run_created g) = true
inserts (attempt event_type a) = true
inserts (run_status event_type id status) = false
inserts (step event_type id to output) = false

inserts-refers : (e : WorkEvent) (t : Tables) → inserts e ≡ false → refers e t ≡ true
unfolding inserts refers
inserts-refers (run_created g) t h = cc
inserts-refers (attempt event_type a) t h = cc
inserts-refers (run_status event_type id status) t h = refl
inserts-refers (step event_type id to output) t h = refl

regroup : (a b c : Bool) → ((a && b) && c) ≡ (b && (a && c))
regroup true b c = refl
regroup false true c = refl
regroup false false c = refl

and_true : (b : Bool) → (b && true) ≡ b
and_true true = refl
and_true false = refl

-- The calls that write: those of the store, and the attempts of the supervisor.
pub data Call : Type 0 where
  creates : WorkGraph → Call
  sets_graph : String → GraphStatus → Call
  sets_node : String → NodeStatus → ℕ → Call
  refreshes_node : String → NodeStatus → Call
  records : String → Fields → ℕ → Call
  attempts : String → AttemptRow → Call

-- A call of the store that raises such a fault leaves the state as it was.
abbrev pub after : WorkState → Outcome WorkState → WorkState
after s (did t) = t
after s (raises e) = s

module _ (sealed : WorkEvent → WorkEvent) where
  -- the state after a call, and whether no foreign key refused it
  pub call : WorkState → Call → WorkState × Bool
  unfolding create set_graph_status set_node_status emit_node_status record_output emit_checked
  call s (creates g) = create sealed s g
  call s (sets_graph id status) = (after s (set_graph_status sealed s id status), true)
  call s (sets_node id status version) =
      (after s (set_node_status sealed s id status version), true)
  call s (refreshes_node id status) = (emit_node_status sealed s id status, true)
  call s (records id output version) = (after s (record_output sealed s id output version), true)
  call s (attempts event_type a) = emit_checked sealed s (attempt event_type a)

  -- the state after calls, and whether no foreign key refused one
  unfoldable pub calls : WorkState → List Call → WorkState × Bool
  unfolding call
  calls s [] = (s, true)
  calls s (c ∷ cs) =
      let (t, done) : WorkState × Bool = call s c in
      let (u, all) : WorkState × Bool = calls t cs in (u, done && all)

  abbrev Replays : Bool → WorkState → Type 0
  Replays ok s = replay_work no_tables s.log ≡ (if ok then some s.tables else none)

  checked-Replays :
      (ok : Bool) (s : WorkState) (e : WorkEvent)
      → Replays ok s
      → Replays ((emit_checked sealed s e).1 && ok) (emit_checked sealed s e).0
  unfolding emit_checked apply_checked then_event
  checked-Replays true s e h =
      replay_work-append no_tables s.log (sealed e)
      ∙ ap (then_event (sealed e)) h
      ∙ elim (Bool-cases (refers (sealed e) s.tables)) [
        | inl b ↦ rw (b, then_event) refl
        | inr b ↦ rw (b, then_event) refl
      ]
  checked-Replays false s e h =
      replay_work-append no_tables s.log (sealed e)
      ∙ ap (then_event (sealed e)) h
      ∙ elim (Bool-cases (refers (sealed e) s.tables)) [ inl b ↦ rw b refl | inr b ↦ rw b refl ]

  module _ (same_kind : (e : WorkEvent) → inserts (sealed e) ≡ inserts e) where
    emit-Replays :
        (ok : Bool) (s : WorkState) (e : WorkEvent)
        → inserts e ≡ false
        → Replays ok s
        → Replays ok (emit_work sealed s e)
    unfolding emit_work then_event
    emit-Replays true s e i h =
        replay_work-append no_tables s.log (sealed e)
        ∙ ap (then_event (sealed e)) h
        ∙ rw (inserts-refers (sealed e) s.tables (same_kind e ∙ i), then_event) refl
    emit-Replays false s e i h =
        replay_work-append no_tables s.log (sealed e) ∙ ap (then_event (sealed e)) h

    call-Replays :
        (ok : Bool) (s : WorkState) (c : Call)
        → Replays ok s
        → Replays ((call s c).1 && ok) (call s c).0
    unfolding call create emit_node_status inserts
    call-Replays ok s (creates g) h = checked-Replays ok s _ h
    call-Replays ok s (sets_graph id status) h =
        elim (Option-cases (find_graph id s.tables.graphs)) [
          | inl e ↦ rw (e, set_graph_status) h
          | inr (row, e) ↦ elim (Option-cases (run_event row.status status)) [
            | inl f ↦ rw (e, set_graph_status) (rw (f, set_graph_status) h)
            | inr (ev, f) ↦
                rw (e, set_graph_status)
                  (rw (f, set_graph_status) (emit-Replays ok s (run_status ev id status) refl h))
          ]
        ]
    call-Replays ok s (sets_node id status version) h =
        elim (Option-cases (find_node id s.tables.nodes)) [
          | inl e ↦ rw (e, set_node_status) h
          | inr (row, e) ↦ elim (Bool-cases (row.state_version == version)) [
            | inl t ↦
                rw (e, set_node_status)
                  (rw t (emit-Replays ok s (step (step_event status) id (some status) none) refl h))
            | inr t ↦ rw (e, set_node_status) (rw t h)
          ]
        ]
    call-Replays ok s (refreshes_node id status) h =
        emit-Replays ok s (step (step_event status) id (some status) none) refl h
    call-Replays ok s (records id output version) h =
        elim (Option-cases (find_node id s.tables.nodes)) [
          | inl e ↦ rw (e, record_output) h
          | inr (row, e) ↦ elim (Bool-cases (row.state_version == version)) [
            | inl t ↦
                rw (e, record_output)
                  (rw t (emit-Replays ok s (step "step.completed" id none (some output)) refl h))
            | inr t ↦ rw (e, record_output) (rw t h)
          ]
        ]
    call-Replays ok s (attempts event_type a) h = checked-Replays ok s _ h

    calls-Replays :
        (ok : Bool) (s : WorkState) (cs : List Call)
        → Replays ok s
        → Replays ((calls s cs).1 && ok) (calls s cs).0
    unfolding calls
    calls-Replays ok s [] h = h
    calls-Replays ok s (c ∷ cs) h =
        rw (regroup (call s c).1 (calls (call s c).0 cs).1 ok)
          (calls-Replays ((call s c).1 && ok) (call s c).0 cs (call-Replays ok s c h))

    -- After any calls that write, the replay of the work events of the log into empty tables gives the tables,
    -- if no foreign key refused a call; if one did, the log cannot be replayed any more: its event is logged, and
    -- the replay meets the same refusal. Calls may raise for other reasons. What the log makes of the texts of
    -- an event keeps its kind.
    pub replay_work-calls :
        (s : WorkState) (cs : List Call)
        → replay_work no_tables s.log ≡ some s.tables
        → replay_work no_tables (calls s cs).0.log
          ≡ (if (calls s cs).1 then some (calls s cs).0.tables else none)
    replay_work-calls s cs h =
        subst (λ b. Replays b (calls s cs).0) (and_true (calls s cs).1) (calls-Replays true s cs h)
