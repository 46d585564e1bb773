-- ===== src/Work/Compiler/Acyclic.antt =====
-- `reject_cycles` lets a graph pass exactly if it has no cycle.
use mathlib.Core.List.{Memᴰ}
use mathlib.Core.List.Memᴰ
use native.Mathlib.Nat.{le_refl}
use shiroe.Prelude.{
  String, ◌≡◌, refl, ◌↔◌, ◌⊎◌, ◌*◌, inl, inr, List, [], ◌∷◌, arith, string_eq, sym, ◌==◌,
  Bool-cases,
}
use shiroe.Prelude.Sort.{text_leb, sort_by, mem-sort_by}
use shiroe.Work.Cycle.{scan, Walk, edge, step, Outcome-cases}
use shiroe.Work.Cycle.Bound.{enough, scan-ne-out_of_fuel}
use shiroe.Work.Cycle.Sound.{scan-cycle}
use shiroe.Work.Cycle.Complete.{scan-done, no_loop}
use shiroe.Work.Schema.{WorkEdge, ok, err, has_cycle}
use shiroe.Work.Compiler.{outgoing, reject_cycles}

-- the targets are those of the edges
pub mem-outgoing :
    (edges : List WorkEdge) (u v : String)
    → Memᴰ v (outgoing edges u) ↔ ((e : WorkEdge) × Memᴰ e edges × (e.src_id ≡ u) × (e.dst_id ≡ v))
unfolding outgoing
mem-outgoing [] u v = (λ m. absurd (Memᴰ.not-nil m), λ h. absurd (Memᴰ.not-nil h.1))
mem-outgoing (e ∷ edges) u v =
    let (split, join) = mem-outgoing edges u v in
    elim (Bool-cases (e.src_id == u)) [
      | inl same ↦ rw same (
        λ m. elim (Memᴰ.cases_cons m) [
          | inl p ↦ (e, Memᴰ.head refl, (string_eq.test_iff e.src_id u).0 same, sym p)
          | inr m' ↦ let (e', k, a, b) = split m' in (e', Memᴰ.tail k, a, b)
        ],
        λ (e', k, a, b). elim (Memᴰ.cases_cons k) [
          | inl p ↦ Memᴰ.head (cc)
          | inr k' ↦ Memᴰ.tail (join (e', k', a, b))
        ],
      )
      | inr other ↦ rw other (
        λ m. let (e', k, a, b) = split m in (e', Memᴰ.tail k, a, b),
        λ (e', k, a, b). elim (Memᴰ.cases_cons k) [
          | inl p ↦ let same = (string_eq.test_iff e.src_id u).1 (rw (← p) a) in cc
          | inr k' ↦ join (e', k', a, b)
        ],
      )
    ]

-- The edges lead from known nodes to known nodes.
abbrev pub EndpointsIn : List String → List WorkEdge → Type 0
EndpointsIn node_ids edges =
    (e : WorkEdge) → Memᴰ e edges → Memᴰ e.src_id node_ids × Memᴰ e.dst_id node_ids

-- the source of a walk is the source of an edge
source_known :
    (edges : List WorkEdge) (node_ids : List String)
    → EndpointsIn node_ids edges
    → (u v : String) → Walk (outgoing edges) u v
    → Memᴰ u node_ids
source_known edges node_ids known u v (edge m) =
    let (e, k, a, b) = (mem-outgoing edges u v).0 m in rw a at ((known e k).0)
source_known edges node_ids known u v (step {v = w} walk m) =
    source_known edges node_ids known u w walk

module _ (node_ids : List String) (edges : List WorkEdge) (known : EndpointsIn node_ids edges) where
  closed : (a c : String) → Memᴰ c (outgoing edges a) → Memᴰ c node_ids
  closed a c m = let (e, k, p, q) = (mem-outgoing edges a c).0 m in rw q at ((known e k).1)

  -- The search of a graph whose edges join known nodes always ends: it lets the graph pass exactly
  -- if no node has a walk back to itself, and else reports a cycle.
  pub reject_cycles_iff :
      ((reject_cycles node_ids edges ≡ ok tt) ↔ ((u : String) → ¬ Walk (outgoing edges) u u))
      × ((reject_cycles node_ids edges ≡ ok tt) ⊎ (reject_cycles node_ids edges ≡ err has_cycle))
  unfolding reject_cycles
  reject_cycles_iff =
      let next = outgoing edges in
      let roots = sort_by text_leb node_ids in
      let fuel = 2 * enough next node_ids in
      let rooted : (r : String) → Memᴰ r roots ↔ Memᴰ r node_ids =
        λ r. mem-sort_by text_leb r node_ids in
      elim (Outcome-cases (scan next fuel roots [] [])) [
        | inl (vg, vd, q) ↦
            let (ordered, all) = scan-done next fuel roots [] [] vg vd tt q in
            let free : (u : String) → ¬ Walk next u u = λ u w.
              no_loop next vd u ordered
                (all u (inr ((rooted u).1 (source_known edges node_ids known u u w)))) w in
            ((λ h. free, λ h. rw (q, reject_cycles)), inl (rw (q, reject_cycles)))
        | inr (inl q) ↦
            let (a, w) = scan-cycle next fuel roots [] [] (λ b. Memᴰ.not-nil) q in
            ((λ h. ground arith, λ h. absurd (h a w)), inr (rw (q, reject_cycles)))
        | inr (inr q) ↦ absurd (
            scan-ne-out_of_fuel next node_ids closed fuel roots [] [] (λ r. (rooted r).0)
              (le_refl fuel) q)
      ]
