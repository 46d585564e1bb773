-- ===== src/Work/Cycle/Complete.antt =====
-- When the search ends without a report, no node that it visited lies on a cycle: the list of the
-- visited nodes has each node in front of the nodes that its edges lead to.
use shiroe.Prelude.{
  ℕ, zero, suc, ◌≡◌, ◌⊎◌, inl, inr, List, [], ◌∷◌, map, Equatable, contains, contains_iff, arith,
  Bool-cases, Option, none, some, ap,
}
use mathlib.Core.List.{Memᴰ}
use mathlib.Core.List.Memᴰ
use shiroe.Work.Cycle.{Frame, Outcome-cases, done, Walk, edge, step, discard, loop, scan}

module _ {ℓ} {A : Type ℓ} ⦃e : Equatable A⦄ (outgoing : A → List A) where
  -- Each node of the list has all its children behind it.
  abbrev pub IsOrdered : List A → Type ℓ
  IsOrdered [] = Unit
  IsOrdered (n ∷ ns) = ((c : A) → Memᴰ c (outgoing n) → Memᴰ c ns) × IsOrdered ns

  children_in : (ns : List A) (n c : A) → IsOrdered ns → Memᴰ n ns → Memᴰ c (outgoing n) → Memᴰ c ns
  children_in [] n c o m k = absurd (Memᴰ.not-nil m)
  children_in (x ∷ xs) n c o m k = elim (Memᴰ.cases_cons m) [
    | inl p ↦ Memᴰ.tail (o.0 c (rw p at k))
    | inr m' ↦ Memᴰ.tail (children_in xs n c o.1 m' k)
  ]

  -- A walk from the list leads behind its first node.
  leads_behind :
      (x : A) (xs : List A) (a b : A)
      → IsOrdered (x ∷ xs)
      → Memᴰ a (x ∷ xs)
      → Walk outgoing a b
      → Memᴰ b xs
  leads_behind x xs a b o m (edge k) = elim (Memᴰ.cases_cons m) [
    | inl p ↦ o.0 b (rw p at k)
    | inr m' ↦ children_in xs a b o.1 m' k
  ]
  leads_behind x xs a b o m (step {v} w k) = children_in xs v b o.1 (leads_behind x xs a v o m w) k

  pub no_loop : (ns : List A) (a : A) → IsOrdered ns → Memᴰ a ns → ¬ Walk outgoing a a
  no_loop [] a o m w = Memᴰ.not-nil m
  no_loop (x ∷ xs) a o m w = no_loop xs a o.1 (leads_behind x xs a a o m w) w

  -- Each child of a node on the stack is still to come, visited, or the node above.
  abbrev Covered : List A → Option A → List (Frame A) → Type ℓ
  Covered vd above [] = Unit
  Covered vd above ((n, children) ∷ stack) =
      ((c : A) → Memᴰ c (outgoing n) → Memᴰ c children ⊎ (Memᴰ c vd ⊎ (some c ≡ above)))
      × Covered vd (some n) stack

  abbrev OnStack : A → List (Frame A) → Type ℓ
  OnStack a stack = Memᴰ a (map (λ (f : Frame A). f.0) stack)

  Covered-visited :
      (vd : List A) (x : A) (above : Option A) (stack : List (Frame A))
      → Covered vd above stack
      → Covered (x ∷ vd) above stack
  Covered-visited vd x above [] h = tt
  Covered-visited vd x above ((n, children) ∷ stack) h = (
    λ c m. elim (h.0 c m) [
      | inl rest ↦ inl rest
      | inr (inl seen) ↦ inr (inl (Memᴰ.tail seen))
      | inr (inr p) ↦ inr (inr p)
    ],
    Covered-visited vd x (some n) stack h.1,
  )

  Covered-pop :
      (vd : List A) (n : A) (stack : List (Frame A))
      → Covered vd (some n) stack
      → Covered (n ∷ vd) none stack
  Covered-pop vd n [] h = tt
  Covered-pop vd n ((b, children) ∷ stack) h = (
    λ c m. elim (h.0 c m) [
      | inl rest ↦ inl rest
      | inr (inl seen) ↦ inr (inl (Memᴰ.tail seen))
      | inr (inr p) ↦ inr (inl (Memᴰ.head (cc)))
    ],
    Covered-visited vd n (some b) stack h.1,
  )

  record Visits (vd : List A) (stack : List (Frame A)) (vd' : List A) : Type ℓ where
    ordered : IsOrdered vd'
    kept : (a : A) → Memᴰ a vd → Memᴰ a vd'
    finished : (a : A) → OnStack a stack → Memᴰ a vd'

  loop-done :
      (fuel : ℕ) (vg vd vg' vd' : List A) (stack : List (Frame A))
      → IsOrdered vd
      → Covered vd none stack
      → loop outgoing fuel vg vd stack ≡ done vg' vd'
      → Visits vd stack vd'
  unfolding loop
  loop-done zero vg vd vg' vd' [] o h q =
      let p : vd ≡ vd' = cc in
      record {
        ordered = rw p at o;
        kept = λ a m. rw p at m;
        finished = λ a m. absurd (Memᴰ.not-nil m);
      }
  loop-done zero vg vd vg' vd' (f ∷ stack) o h q = cc
  loop-done (suc fuel) vg vd vg' vd' [] o h q =
      let p : vd ≡ vd' = cc in
      record {
        ordered = rw p at o;
        kept = λ a m. rw p at m;
        finished = λ a m. absurd (Memᴰ.not-nil m);
      }
  loop-done (suc fuel) vg vd vg' vd' ((n, []) ∷ stack) o h q =
      let all_seen : (c : A) → Memᴰ c (outgoing n) → Memᴰ c vd = λ c m. elim (h.0 c m) [
        | inl rest ↦ absurd (Memᴰ.not-nil rest)
        | inr (inl seen) ↦ seen
        | inr (inr p) ↦ cc
      ] in
      let next =
        loop-done fuel (discard n vg) (n ∷ vd) vg' vd' stack (all_seen, o)
          (Covered-pop vd n stack h.1) q in
      record {
        ordered = next.ordered;
        kept = λ a m. next.kept a (Memᴰ.tail m);
        finished = λ a m. elim (Memᴰ.cases_cons m) [
          | inl p ↦ next.kept a (Memᴰ.head p)
          | inr m' ↦ next.finished a m'
        ];
      }
  loop-done (suc fuel) vg vd vg' vd' ((n, c ∷ cs) ∷ stack) o h q =
      elim (Bool-cases (contains vg c)) [
        | inl back ↦ ground arith
        | inr new ↦ elim (Bool-cases (contains vd c)) [
          | inl seen ↦
              let next =
                loop-done fuel vg vd vg' vd' ((n, cs) ∷ stack) o
                  (
                    λ d m. elim (h.0 d m) [
                      | inl rest ↦ elim (Memᴰ.cases_cons rest) [
                        | inl p ↦ inr (inl (rw p ((contains_iff vd c).0 seen)))
                        | inr rest' ↦ inl rest'
                      ]
                      | inr other ↦ inr other
                    ],
                    h.1,
                  )
                  (ground arith) in
              record { ordered = next.ordered; kept = next.kept; finished = next.finished }
          | inr white ↦
              let next =
                loop-done fuel (c ∷ vg) vd vg' vd' ((c, outgoing c) ∷ (n, cs) ∷ stack) o
                  (
                    λ d m. inl m,
                    (
                      λ d m. elim (h.0 d m) [
                        | inl rest ↦ elim (Memᴰ.cases_cons rest) [
                          | inl p ↦ inr (inr (ap some p))
                          | inr rest' ↦ inl rest'
                        ]
                        | inr (inl seen) ↦ inr (inl seen)
                        | inr (inr p) ↦ cc
                      ],
                      h.1,
                    ),
                  )
                  (ground arith) in
              record {
                ordered = next.ordered;
                kept = next.kept;
                finished = λ a m. next.finished a (Memᴰ.tail m);
              }
        ]
      ]

  pub scan-done :
      (fuel : ℕ) (roots vg vd vg' vd' : List A)
      → IsOrdered vd
      → scan outgoing fuel roots vg vd ≡ done vg' vd'
      → IsOrdered vd' × ((a : A) → Memᴰ a vd ⊎ Memᴰ a roots → Memᴰ a vd')
  unfolding scan
  scan-done fuel [] vg vd vg' vd' o q =
      let p : vd ≡ vd' = cc in
      (rw p at o, λ a m. elim m [ inl seen ↦ rw p at seen | inr gone ↦ absurd (Memᴰ.not-nil gone) ])
  scan-done fuel (r ∷ rs) vg vd vg' vd' o q = elim (Bool-cases (contains vd r)) [
    | inl seen ↦
        let (o', all) = scan-done fuel rs vg vd vg' vd' o (ground arith) in
        (
          o',
          λ a m. elim m [
            | inl old ↦ all a (inl old)
            | inr new ↦ elim (Memᴰ.cases_cons new) [
              | inl p ↦ all a (inl (rw p ((contains_iff vd r).0 seen)))
              | inr m' ↦ all a (inr m')
            ]
          ],
        )
    | inr white ↦ elim (Outcome-cases (loop outgoing fuel (r ∷ vg) vd ((r, outgoing r) ∷ []))) [
      | inl (vg1, vd1, ends) ↦
          let one =
            loop-done fuel (r ∷ vg) vd vg1 vd1 ((r, outgoing r) ∷ []) o (λ c m. inl m, tt) ends in
          let (o', all) = scan-done fuel rs vg1 vd1 vg' vd' one.ordered (ground arith) in
          (
            o',
            λ a m. elim m [
              | inl old ↦ all a (inl (one.kept a old))
              | inr new ↦ elim (Memᴰ.cases_cons new) [
                | inl p ↦ all a (inl (one.finished a (Memᴰ.head p)))
                | inr m' ↦ all a (inr m')
              ]
            ],
          )
      | inr (inl found) ↦ ground arith
      | inr (inr short) ↦ ground arith
    ]
  ]
