-- ===== src/Nodes/Tests.antt =====
-- A worker and its leases.
use mathlib.Core.List.{Memᴰ}
use mathlib.Core.List.Memᴰ
use shiroe.Prelude.{
  ◌≤◌, String, Bool, true, ◌&&◌, some, List, [], ◌∷◌, ◌≡◌, refl, arith, ◌==◌, string_eq, leb,
}
use shiroe.Nodes.Store.{
  Role, NodeRecord, LeaseState, LeaseRecord, NodeState, gives, raises, lease_exists, get_node,
  get_lease, is_active, is_trusted_worker, expire_active_leases, new_lease, acquire_lease, Terminal,
}
use shiroe.Nodes.Leases.{
  active_count, Call, acquires, expires, ends, call, calls, active_count-calls,
}
use shiroe.Nodes.Final.{get_lease-calls, acquire_lease_again, acquire_lease-gives}

abbrev any_id : String → Bool
any_id id = true

abbrev machine : NodeRecord
machine = record { id = "node_one"; name = "one"; role = Role.worker; trusted = true }

abbrev idle : NodeState
idle = record { nodes = machine ∷ []; leases = []; events = [] }

abbrev first : Call
first = acquires "g" "a" "node_one" 300 "lease_one" 10 10 10

abbrev leased : NodeState
leased = call any_id idle first

-- a second lease is refused as long as the first is active, and given when it is over
second_refused :
    (acquire_lease any_id leased "g" "a" "node_one" 300 "lease_two" 20 20 20).1
    ≡ raises (lease_exists "a")
unfolding call
second_refused = refl

abbrev some_calls : List Call
some_calls =
    first
    ∷ acquires "g" "a" "node_one" 300 "lease_two" 20 20 20
    ∷ ends "lease_one" Terminal.completes 30
    ∷ ends "lease_one" Terminal.fails 40
    ∷ acquires "g" "a" "node_one" 300 "lease_two" 50 50 50
    ∷ expires 400
    ∷ []

active_count-calls_example : active_count "a" (calls any_id idle some_calls).leases ≤ 1
unfolding active_count
active_count-calls_example = active_count-calls any_id idle some_calls "a" (λ k. ground arith)

abbrev ended : LeaseRecord
ended = record {
  id = "lease_one";
  graph_id = "g";
  work_node_id = "a";
  node_id = "node_one";
  state = LeaseState.completed;
  acquired_at = 10;
  expires_at = 310;
  released_at = some 30;
}

abbrev completed : NodeState
completed = call any_id leased (ends "lease_one" Terminal.completes 30)

get_lease-calls_example :
    get_lease "lease_one" (calls any_id completed some_calls).leases ≡ some ended
unfolding get_lease call
get_lease-calls_example = get_lease-calls any_id "lease_one" ended completed some_calls refl refl

over :
    (l : LeaseRecord)
    → Memᴰ l leased.leases
    → (is_active l.state && (l.work_node_id == "a")) ≡ true
    → leb l.expires_at 400 ≡ true
unfolding call
over l m h = rw (Memᴰ.eq_of_singleton m) refl

acquire_lease_again_example :
    (acquire_lease any_id leased "g" "a" "node_one" 300 "lease_two" 400 400 400).1
    ≡ gives (new_lease "g" "a" "node_one" 300 "lease_two" 400 400)
unfolding get_node get_lease call
acquire_lease_again_example =
    acquire_lease_again any_id leased "g" "a" "node_one" 300 "lease_two" 400 400 400 machine refl
      refl refl refl over

acquire_lease-gives_example :
    ((n : NodeRecord) × (get_node "node_one" idle.nodes ≡ some n) × (is_trusted_worker n ≡ true))
    × (any_id "lease_one" ≡ true)
    × (active_count "a" (expire_active_leases 10 idle.leases) ≡ 0)
    × (new_lease "g" "a" "node_one" 300 "lease_one" 10 10
        ≡ new_lease "g" "a" "node_one" 300 "lease_one" 10 10)
unfolding acquire_lease
acquire_lease-gives_example =
    acquire_lease-gives any_id idle "g" "a" "node_one" 300 "lease_one" 10 10 10
      (new_lease "g" "a" "node_one" 300 "lease_one" 10 10) refl
