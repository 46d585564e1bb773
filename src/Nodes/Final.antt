-- ===== src/Nodes/Final.antt =====
-- A lease that has ended, and a work node whose lease is over.
use mathlib.Core.List.{Memᴰ}
use shiroe.Prelude.{
  ℕ, String, Bool, true, false, ◌&&◌, none, some, List, [], ◌∷◌, ◌++◌, ◌≡◌, refl, sym, ap, ◌∙◌,
  Bool-cases, Option-cases, inl, inr, arith, ◌==◌, string_eq, leb,
}
use shiroe.Work.Tables.{change_where}
use shiroe.Nodes.Store.{
  NodeRecord, LeaseRecord, NodeState, gives, get_node, get_lease, is_active, is_trusted_worker,
  is_over, expire_active_leases, is_taken, new_lease, acquire_lease, Terminal, is_target,
  terminal_lease,
}
use shiroe.Nodes.Leases.{
  Call, trusts, acquires, expires, ends, call, calls, trust_node-leases, is_taken-none,
  active_count,
}

-- the lease is found, and has ended
abbrev Ended : String → LeaseRecord → List LeaseRecord → Type 0
Ended id l leases = (get_lease id leases ≡ some l) × (is_active l.state ≡ false)

get_lease-expire :
    (id : String) (l : LeaseRecord) (now : ℕ) (leases : List LeaseRecord)
    → Ended id l leases
    → get_lease id (expire_active_leases now leases) ≡ some l
unfolding get_lease expire_active_leases change_where
get_lease-expire id l now [] (h, a) = cc
get_lease-expire id l now (m ∷ leases) (h, a) = elim (Bool-cases (m.id == id)) [
  | inl t ↦
      let p : m ≡ l = ground (arith, t) in
      let q : is_over now m ≡ false = rw p (ground (arith, a)) in
      rw q (rw (t, get_lease) (ap some p))
  | inr t ↦
      let rest = get_lease-expire id l now leases (rw (t, get_lease) at h, a) in
      elim (Bool-cases (is_over now m)) [
        | inl q ↦ rw q (rw (t, get_lease) rest)
        | inr q ↦ rw q (rw (t, get_lease) rest)
      ]
]

get_lease-append :
    (id : String) (l new : LeaseRecord) (leases : List LeaseRecord)
    → get_lease id leases ≡ some l
    → get_lease id (leases ++ new ∷ []) ≡ some l
unfolding get_lease
get_lease-append id l new [] h = cc
get_lease-append id l new (m ∷ leases) h = ground (arith, get_lease-append id l new leases)

-- a change of the leases with another id
get_lease-other :
    (id k : String) (l : LeaseRecord) (f : LeaseRecord → LeaseRecord) (leases : List LeaseRecord)
    → (k == id) ≡ false
    → ((m : LeaseRecord) → (f m).id ≡ m.id)
    → get_lease id leases ≡ some l
    → get_lease id (change_where (λ m. m.id == k) f leases) ≡ some l
unfolding get_lease change_where
get_lease-other id k l f [] ne i h = cc
get_lease-other id k l f (m ∷ leases) ne i h = elim (Bool-cases (m.id == k)) [
  | inl t ↦
      let p : m.id ≡ k = (string_eq.test_iff m.id k).0 t in
      let n : (m.id == id) ≡ false = rw p ne in
      let n' : ((f m).id == id) ≡ false = rw (i m) n in
      rw t (rw (n', get_lease) (get_lease-other id k l f leases ne i (rw (n, get_lease) at h)))
  | inr t ↦ elim (Bool-cases (m.id == id)) [
    | inl n ↦ rw t (rw (n, get_lease) (rw (n, get_lease) at h))
    | inr n ↦
        rw t (rw (n, get_lease) (get_lease-other id k l f leases ne i (rw (n, get_lease) at h)))
  ]
]

terminal-kept :
    (id k : String) (l : LeaseRecord) (s : NodeState) (target : Terminal) (now : ℕ)
    → Ended id l s.leases
    → get_lease id (terminal_lease s k target now).0.leases ≡ some l
unfolding terminal_lease
terminal-kept id k l s target now (h, a) = elim (Option-cases (get_lease k s.leases)) [
  | inl e ↦ rw (e, terminal_lease) h
  | inr (m, e) ↦ elim (Bool-cases (is_target target m.state)) [
    | inl t ↦ rw (e, terminal_lease) (rw (t, terminal_lease) h)
    | inr t ↦ elim (Bool-cases (is_active m.state)) [
      | inr x ↦ rw (e, terminal_lease) (rw (t, terminal_lease) (rw (x, terminal_lease) h))
      | inl x ↦
          let ne : (k == id) ≡ false = elim (Bool-cases (k == id)) [
            | inr n ↦ n
            | inl n ↦
                let p : k ≡ id = (string_eq.test_iff k id).0 n in
                let q : some m ≡ some l = sym e ∙ rw p h in
                let r : m ≡ l = ground (arith, q) in absurd (cc (x, a, r))
          ] in
          rw (e, terminal_lease)
            (rw (t, terminal_lease)
              (rw (x, terminal_lease) (get_lease-other id k l _ s.leases ne (λ y. refl) h)))
    ]
  ]
]

module _ (is_lease_id : String → Bool) where
  acquire-kept :
      (id : String) (l : LeaseRecord) (s : NodeState) (graph_id work_node_id node_id : String)
      (ttl_s : ℕ) (lease_id : String) (at_expiry at_now at_end : ℕ)
      → Ended id l s.leases
      → get_lease id
          (acquire_lease is_lease_id s graph_id work_node_id node_id ttl_s lease_id at_expiry at_now
            at_end).0.leases
        ≡ some l
  unfolding acquire_lease
  acquire-kept id l s graph_id work_node_id node_id ttl_s lease_id at_expiry at_now at_end h =
      let x = get_lease-expire id l at_expiry s.leases h in
      let leases = expire_active_leases at_expiry s.leases in
      let new = new_lease graph_id work_node_id node_id ttl_s lease_id at_now at_end in
      elim (Option-cases (get_node node_id s.nodes)) [
        | inl e ↦ rw (e, acquire_lease) h.0
        | inr (n, e) ↦ elim (Bool-cases (is_trusted_worker n)) [
          | inr t ↦ rw (e, acquire_lease) (rw (t, acquire_lease) h.0)
          | inl t ↦ elim (Bool-cases (is_lease_id lease_id)) [
            | inr i ↦ rw (e, acquire_lease) (rw (t, acquire_lease) (rw (i, acquire_lease) x))
            | inl i ↦ elim (Bool-cases (is_taken new leases)) [
              | inl k ↦
                  rw (e, acquire_lease)
                    (rw (t, acquire_lease) (rw (i, acquire_lease) (rw (k, acquire_lease) x)))
              | inr k ↦
                  rw (e, acquire_lease)
                    (rw (t, acquire_lease)
                      (rw (i, acquire_lease)
                        (rw (k, acquire_lease) (get_lease-append id l new leases x))))
            ]
          ]
        ]
      ]

  call-kept :
      (id : String) (l : LeaseRecord) (s : NodeState) (c : Call)
      → Ended id l s.leases
      → get_lease id (call is_lease_id s c).leases ≡ some l
  unfolding call
  call-kept id l s (trusts k b) h = rw (trust_node-leases is_lease_id s k b) h.0
  call-kept id l s (acquires graph_id work_node_id node_id ttl_s lease_id a b c) h =
      acquire-kept id l s graph_id work_node_id node_id ttl_s lease_id a b c h
  call-kept id l s (expires now) h = get_lease-expire id l now s.leases h
  call-kept id l s (ends k target now) h = terminal-kept id k l s target now h

  -- A lease that is no longer active stays as it is, with its state and times, after any calls: no call
  -- makes it active again or ends it another way.
  pub get_lease-calls :
      (id : String) (l : LeaseRecord) (s : NodeState) (cs : List Call)
      → get_lease id s.leases ≡ some l
      → is_active l.state ≡ false
      → get_lease id (calls is_lease_id s cs).leases ≡ some l
  unfolding calls
  get_lease-calls id l s [] h a = h
  get_lease-calls id l s (c ∷ cs) h a =
      get_lease-calls id l (call is_lease_id s c) cs (call-kept id l s c (h, a)) a

is_taken-expire :
    (new : LeaseRecord) (now : ℕ) (leases : List LeaseRecord)
    → get_lease new.id leases ≡ none
    → ((l : LeaseRecord)
        → Memᴰ l leases
        → (is_active l.state && (l.work_node_id == new.work_node_id)) ≡ true
        → leb l.expires_at now ≡ true)
    → is_taken new (expire_active_leases now leases) ≡ false
unfolding is_taken expire_active_leases change_where get_lease
is_taken-expire new now [] g h = refl
is_taken-expire new now (l ∷ leases) g h =
    let rest : get_lease new.id leases ≡ none
        → is_taken new (expire_active_leases now leases) ≡ false =
      λ g'. is_taken-expire new now leases g' (λ m k. h m (Memᴰ.tail k)) in
    elim (Bool-cases (l.id == new.id)) [
      | inl t ↦ ground (arith, t)
      | inr t ↦
          let r = rest (rw (t, get_lease) at g) in
          elim (Bool-cases (is_over now l)) [
            | inl q ↦ rw q (rw t r)
            | inr q ↦
                elim (Bool-cases (is_active l.state && (l.work_node_id == new.work_node_id))) [
                  | inl z ↦ let o = h l (Memᴰ.head refl) z in ground (arith, q, z, o)
                  | inr z ↦ rw q (rw t (ground (arith, z, r)))
                ]
          ]
    ]

-- Once the active leases of a work node are over, a trusted worker gets a new lease for it, with a new id
-- that the factory may give: it is active, and it ends the given time after the last reading of the clock.
pub acquire_lease_again :
    (is_lease_id : String → Bool) (s : NodeState) (graph_id work_node_id node_id : String)
    (ttl_s : ℕ) (lease_id : String) (at_expiry at_now at_end : ℕ) (n : NodeRecord)
    → get_node node_id s.nodes ≡ some n
    → is_trusted_worker n ≡ true
    → is_lease_id lease_id ≡ true
    → get_lease lease_id s.leases ≡ none
    → ((l : LeaseRecord)
        → Memᴰ l s.leases
        → (is_active l.state && (l.work_node_id == work_node_id)) ≡ true
        → leb l.expires_at at_expiry ≡ true)
    → (acquire_lease is_lease_id s graph_id work_node_id node_id ttl_s lease_id at_expiry at_now
        at_end).1
      ≡ gives (new_lease graph_id work_node_id node_id ttl_s lease_id at_now at_end)
unfolding acquire_lease
acquire_lease_again is_lease_id s graph_id work_node_id node_id ttl_s lease_id at_expiry at_now
      at_end n e t i g h =
    let k =
      is_taken-expire (new_lease graph_id work_node_id node_id ttl_s lease_id at_now at_end)
        at_expiry s.leases g h in
    rw (e, acquire_lease)
      (rw (t, acquire_lease) (rw (i, acquire_lease) (rw (k, acquire_lease) refl)))

-- A lease is given only on a node that is there, a worker and trusted, with an id of the right form, and only
-- where no lease of the work node is active after those that are over have expired; it is the lease as asked
-- for.
pub acquire_lease-gives :
    (is_lease_id : String → Bool) (s : NodeState) (graph_id work_node_id node_id : String)
    (ttl_s : ℕ) (lease_id : String) (at_expiry at_now at_end : ℕ) (l : LeaseRecord)
    → (acquire_lease is_lease_id s graph_id work_node_id node_id ttl_s lease_id at_expiry at_now
        at_end).1
      ≡ gives l
    → ((n : NodeRecord) × (get_node node_id s.nodes ≡ some n) × (is_trusted_worker n ≡ true))
      × (is_lease_id lease_id ≡ true)
      × (active_count work_node_id (expire_active_leases at_expiry s.leases) ≡ 0)
      × (l ≡ new_lease graph_id work_node_id node_id ttl_s lease_id at_now at_end)
unfolding acquire_lease
acquire_lease-gives is_lease_id s graph_id work_node_id node_id ttl_s lease_id at_expiry at_now
      at_end l h =
    let leases = expire_active_leases at_expiry s.leases in
    let new = new_lease graph_id work_node_id node_id ttl_s lease_id at_now at_end in
    elim (Option-cases (get_node node_id s.nodes)) [
      | inl e ↦ ground (arith, rw (e, acquire_lease) at h)
      | inr (n, e) ↦ elim (Bool-cases (is_trusted_worker n)) [
        | inr t ↦ ground (arith, rw (t, acquire_lease) at (rw (e, acquire_lease) at h))
        | inl t ↦ elim (Bool-cases (is_lease_id lease_id)) [
          | inr i ↦ ground (
            arith,
            rw (i, acquire_lease) at (rw (t, acquire_lease) at (rw (e, acquire_lease) at h)),
          )
          | inl i ↦ elim (Bool-cases (is_taken new leases)) [
            | inl k ↦ ground (
              arith,
              rw (k, acquire_lease) at
                  (rw (i, acquire_lease) at
                    (rw (t, acquire_lease) at (rw (e, acquire_lease) at h))),
            )
            | inr k ↦
                let q : gives new ≡ gives l =
                  rw (k, acquire_lease) at
                    (rw (i, acquire_lease) at
                      (rw (t, acquire_lease) at (rw (e, acquire_lease) at h))) in
                let p : new ≡ l = ground (arith, q) in
                ((n, e, t), i, is_taken-none new leases k, sym p)
          ]
        ]
      ]
    ]
