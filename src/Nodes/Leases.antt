-- ===== src/Nodes/Leases.antt =====
-- What holds of the leases after any calls.
use shiroe.Prelude.{
  ℕ, suc, ◌≤◌, String, Bool, false, ◌&&◌, List, [], ◌∷◌, ◌++◌, ◌≡◌, refl, subst, Bool-cases,
  Option-cases, inl, inr, arith, ◌==◌, string_eq, if◌then◌else◌,
}
use shiroe.Work.Tables.{change_where}
use shiroe.Nodes.Store.{
  LeaseRecord, NodeState, get_node, get_lease, is_active, is_trusted_worker, is_over,
  expire_active_leases, is_taken, new_lease, trust_node, acquire_lease, Terminal, target_state,
  is_target, terminal_lease,
}

-- the active leases of a work node
unfoldable pub active_count : String → List LeaseRecord → ℕ
active_count k [] = 0
active_count k (l ∷ leases) =
    let rest = active_count k leases in
    if is_active l.state && (l.work_node_id == k) then suc rest else rest

active_count-change_where :
    (k : String) (test : LeaseRecord → Bool) (f : LeaseRecord → LeaseRecord)
    (leases : List LeaseRecord)
    → ((l : LeaseRecord) → is_active (f l).state ≡ false)
    → active_count k (change_where test f leases) ≤ active_count k leases
unfolding active_count change_where
active_count-change_where k test f [] h = ground arith
active_count-change_where k test f (l ∷ leases) h =
    let e = h l in ground (arith, e, active_count-change_where k test f leases h)

pub is_taken-none :
    (new : LeaseRecord) (leases : List LeaseRecord)
    → is_taken new leases ≡ false
    → active_count new.work_node_id leases ≡ 0
unfolding is_taken active_count
is_taken-none new [] t = refl
is_taken-none new (l ∷ leases) t = ground (arith, is_taken-none new leases)

active_count-append :
    (k : String) (new : LeaseRecord) (leases : List LeaseRecord)
    → active_count k (leases ++ new ∷ []) ≡ (
        if is_active new.state && (new.work_node_id == k)
        then suc (active_count k leases)
        else active_count k leases)
unfolding active_count
active_count-append k new [] = refl
active_count-append k new (l ∷ leases) = ground (arith, active_count-append k new leases)

-- each work node has at most one active lease
abbrev pub IsExclusive : List LeaseRecord → Type 0
IsExclusive leases = (k : String) → active_count k leases ≤ 1

append-IsExclusive :
    (new : LeaseRecord) (leases : List LeaseRecord)
    → is_taken new leases ≡ false
    → IsExclusive leases
    → IsExclusive (leases ++ new ∷ [])
append-IsExclusive new leases t h k = elim (Bool-cases (new.work_node_id == k)) [
  | inr e ↦ let p = h k in rw (active_count-append k new leases) (ground (arith, e))
  | inl e ↦
      let q : new.work_node_id ≡ k = (string_eq.test_iff new.work_node_id k).0 e in
      let z : active_count k leases ≡ 0 =
        subst (λ x. active_count x leases ≡ 0) q (is_taken-none new leases t) in
      rw (active_count-append k new leases) (ground (arith, e, z))
]

change_where-IsExclusive :
    (test : LeaseRecord → Bool) (f : LeaseRecord → LeaseRecord) (leases : List LeaseRecord)
    → ((l : LeaseRecord) → is_active (f l).state ≡ false)
    → IsExclusive leases
    → IsExclusive (change_where test f leases)
change_where-IsExclusive test f leases h x k =
    let p = active_count-change_where k test f leases h in let q = x k in omega arith

target_state-ended : (target : Terminal) → is_active (target_state target) ≡ false
target_state-ended Terminal.completes = refl
target_state-ended Terminal.fails = refl
target_state-ended Terminal.releases = refl

-- the calls, with what they take from the caller, the factory and the clock
pub data Call : Type 0 where
  trusts : String → Bool → Call
  acquires :
      (graph_id work_node_id node_id : String)
      → (ttl_s : ℕ) → (lease_id : String) → (at_expiry at_now at_end : ℕ) → Call
  expires : ℕ → Call
  ends : String → Terminal → ℕ → Call

module _ (is_lease_id : String → Bool) where
  unfoldable pub call : NodeState → Call → NodeState
  unfolding trust_node acquire_lease expire_active_leases terminal_lease
  call s (trusts id trusted) = (trust_node s id trusted).0
  call s (acquires graph_id work_node_id node_id ttl_s lease_id at_expiry at_now at_end) =
      (acquire_lease is_lease_id s graph_id work_node_id node_id ttl_s lease_id at_expiry at_now
        at_end).0
  call s (expires now) = record s { leases = expire_active_leases now s.leases }
  call s (ends lease_id target now) = (terminal_lease s lease_id target now).0

  unfoldable pub calls : NodeState → List Call → NodeState
  unfolding call
  calls s [] = s
  calls s (c ∷ more) = calls (call s c) more

expire-IsExclusive :
    (now : ℕ) (leases : List LeaseRecord)
    → IsExclusive leases
    → IsExclusive (expire_active_leases now leases)
unfolding expire_active_leases
expire-IsExclusive now leases h = change_where-IsExclusive (is_over now) _ leases (λ l. refl) h

terminal-IsExclusive :
    (s : NodeState) (id : String) (target : Terminal) (now : ℕ)
    → IsExclusive s.leases
    → IsExclusive (terminal_lease s id target now).0.leases
unfolding terminal_lease
terminal-IsExclusive s id target now h = elim (Option-cases (get_lease id s.leases)) [
  | inl e ↦ rw (e, terminal_lease) h
  | inr (l, e) ↦ elim (Bool-cases (is_target target l.state)) [
    | inl t ↦ rw (e, terminal_lease) (rw (t, terminal_lease) h)
    | inr t ↦ elim (Bool-cases (is_active l.state)) [
      | inr a ↦ rw (e, terminal_lease) (rw (t, terminal_lease) (rw (a, terminal_lease) h))
      | inl a ↦
          rw (e, terminal_lease)
            (rw (t, terminal_lease)
              (rw (a, terminal_lease)
                (change_where-IsExclusive (λ m. m.id == id) _ s.leases
                  (λ m. target_state-ended target) h)))
    ]
  ]
]

module _ (is_lease_id : String → Bool) where
  acquire-IsExclusive :
      (s : NodeState) (graph_id work_node_id node_id : String) (ttl_s : ℕ) (lease_id : String)
      (at_expiry at_now at_end : ℕ)
      → IsExclusive s.leases
      → IsExclusive
          (acquire_lease is_lease_id s graph_id work_node_id node_id ttl_s lease_id at_expiry at_now
            at_end).0.leases
  unfolding acquire_lease
  acquire-IsExclusive s graph_id work_node_id node_id ttl_s lease_id at_expiry at_now at_end h =
      let x = expire-IsExclusive at_expiry s.leases h in
      let leases = expire_active_leases at_expiry s.leases in
      let new = new_lease graph_id work_node_id node_id ttl_s lease_id at_now at_end in
      elim (Option-cases (get_node node_id s.nodes)) [
        | inl e ↦ rw (e, acquire_lease) h
        | inr (n, e) ↦ elim (Bool-cases (is_trusted_worker n)) [
          | inr t ↦ rw (e, acquire_lease) (rw (t, acquire_lease) h)
          | inl t ↦ elim (Bool-cases (is_lease_id lease_id)) [
            | inr i ↦ rw (e, acquire_lease) (rw (t, acquire_lease) (rw (i, acquire_lease) x))
            | inl i ↦ elim (Bool-cases (is_taken new leases)) [
              | inl k ↦
                  rw (e, acquire_lease)
                    (rw (t, acquire_lease) (rw (i, acquire_lease) (rw (k, acquire_lease) x)))
              | inr k ↦
                  rw (e, acquire_lease)
                    (rw (t, acquire_lease)
                      (rw (i, acquire_lease)
                        (rw (k, acquire_lease) (append-IsExclusive new leases k x))))
            ]
          ]
        ]
      ]

  pub trust_node-leases :
      (s : NodeState) (id : String) (b : Bool) → (trust_node s id b).0.leases ≡ s.leases
  unfolding trust_node
  trust_node-leases s id b = elim (Option-cases (get_node id s.nodes)) [
    | inl e ↦ rw (e, trust_node) refl
    | inr (n, e) ↦ rw (e, trust_node) refl
  ]

  call-IsExclusive :
      (s : NodeState) (c : Call) → IsExclusive s.leases → IsExclusive (call is_lease_id s c).leases
  unfolding call
  call-IsExclusive s (trusts id b) h = rw (trust_node-leases s id b) h
  call-IsExclusive s (acquires graph_id work_node_id node_id ttl_s lease_id a b c) h =
      acquire-IsExclusive s graph_id work_node_id node_id ttl_s lease_id a b c h
  call-IsExclusive s (expires now) h = expire-IsExclusive now s.leases h
  call-IsExclusive s (ends id target now) h = terminal-IsExclusive s id target now h

  -- After any calls, also ones that are refused, each work node has at most one active lease, if it was so
  -- before, whatever the readings of the clock are.
  pub active_count-calls :
      (s : NodeState) (cs : List Call) (k : String)
      → IsExclusive s.leases
      → active_count k (calls is_lease_id s cs).leases ≤ 1
  unfolding calls
  active_count-calls s [] k h = h k
  active_count-calls s (c ∷ cs) k h =
      active_count-calls (call is_lease_id s c) cs k (call-IsExclusive s c h)
