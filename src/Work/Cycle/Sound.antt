-- ===== src/Work/Cycle/Sound.antt =====
-- The search reports a cycle only where there is one: the stack is a walk to its top, and what is
-- being visited stands on the stack.
use shiroe.Prelude.{
  ℕ, zero, suc, ◌≡◌, refl, inl, inr, List, [], ◌∷◌, map, Equatable, contains, contains_iff, arith,
  Bool-cases,
}
use mathlib.Core.List.{Memᴰ}
use mathlib.Core.List.Memᴰ
use shiroe.Work.Cycle.{
  Frame, Outcome-cases, done, cycle, Walk, edge, step, discard, mem-discard, loop, scan,
}

module _ {ℓ} {A : Type ℓ} ⦃e : Equatable A⦄ (outgoing : A → List A) where
  -- Each frame's node is a child of the node below it, and its iterator holds children of its node.
  abbrev pub IsWalk : List (Frame A) → Type ℓ
  IsWalk [] = Unit
  IsWalk ((n, children) ∷ []) = (c : A) → Memᴰ c children → Memᴰ c (outgoing n)
  IsWalk ((n, children) ∷ (m, below) ∷ stack) =
      ((c : A) → Memᴰ c children → Memᴰ c (outgoing n))
      × Memᴰ n (outgoing m)
      × IsWalk ((m, below) ∷ stack)

  abbrev pub OnStack : A → List (Frame A) → Type ℓ
  OnStack a stack = Memᴰ a (map (λ (f : Frame A). f.0) stack)

  children_of :
      (n : A) (children : List A) (stack : List (Frame A))
      → IsWalk ((n, children) ∷ stack)
      → (c : A) → Memᴰ c children
      → Memᴰ c (outgoing n)
  children_of n children [] w = w
  children_of n children (f ∷ stack) w = w.0

  below_of :
      (n : A) (children : List A) (stack : List (Frame A))
      → IsWalk ((n, children) ∷ stack)
      → IsWalk stack
  below_of n children [] w = tt
  below_of n children (f ∷ stack) w = w.2

  -- the top of the stack with fewer children left
  fewer :
      (n c : A) (cs : List A) (stack : List (Frame A))
      → IsWalk ((n, c ∷ cs) ∷ stack)
      → IsWalk ((n, cs) ∷ stack)
  fewer n c cs [] w = λ d m. w d (Memᴰ.tail m)
  fewer n c cs (f ∷ stack) w = (λ d m. w.0 d (Memᴰ.tail m), w.1, w.2)

  -- From each node of the stack there is a walk to a child of the top.
  leads_onward :
      (a n c : A) (children : List A) (stack : List (Frame A))
      → IsWalk ((n, children) ∷ stack)
      → Memᴰ c (outgoing n)
      → OnStack a ((n, children) ∷ stack)
      → Walk outgoing a c
  leads_onward a n c children [] w m o = elim (Memᴰ.cases_cons o) [
    | inl p ↦ rw p (edge m)
    | inr o' ↦ absurd (Memᴰ.not-nil o')
  ]
  leads_onward a n c children ((b, below) ∷ stack) w m o = elim (Memᴰ.cases_cons o) [
    | inl p ↦ rw p (edge m)
    | inr o' ↦ step (leads_onward a b n below stack w.2 w.1 o') m
  ]

  abbrev pub Loop : Type ℓ
  Loop = (a : A) × Walk outgoing a a

  pub loop-cycle :
      (fuel : ℕ) (vg vd : List A) (stack : List (Frame A))
      → IsWalk stack
      → ((a : A) → Memᴰ a vg → OnStack a stack)
      → loop outgoing fuel vg vd stack ≡ cycle
      → Loop
  unfolding loop
  loop-cycle zero vg vd [] w on q = cc
  loop-cycle zero vg vd (f ∷ stack) w on q = cc
  loop-cycle (suc fuel) vg vd [] w on q = cc
  loop-cycle (suc fuel) vg vd ((n, []) ∷ stack) w on q =
      loop-cycle fuel (discard n vg) (n ∷ vd) stack (below_of n [] stack w)
        (λ a m.
          let (m', other) = (mem-discard n a vg).0 m in
          elim (Memᴰ.cases_cons (on a m')) [ inl p ↦ absurd (other p) | inr o ↦ o ])
        q
  loop-cycle (suc fuel) vg vd ((n, c ∷ cs) ∷ stack) w on q = elim (Bool-cases (contains vg c)) [
    | inl back ↦ (
      c,
      leads_onward c n c (c ∷ cs) stack w (children_of n (c ∷ cs) stack w c (Memᴰ.head refl))
          (on c ((contains_iff vg c).0 back)),
    )
    | inr new ↦ elim (Bool-cases (contains vd c)) [
      | inl seen ↦ loop-cycle fuel vg vd ((n, cs) ∷ stack) (fewer n c cs stack w) on (ground arith)
      | inr white ↦
          loop-cycle fuel (c ∷ vg) vd ((c, outgoing c) ∷ (n, cs) ∷ stack)
            (λ d m. m, children_of n (c ∷ cs) stack w c (Memᴰ.head refl), fewer n c cs stack w)
            (λ a m. elim (Memᴰ.cases_cons m) [ inl p ↦ Memᴰ.head p | inr m' ↦ Memᴰ.tail (on a m') ])
            (ground arith)
    ]
  ]

  -- When the search of a root ends, nothing is being visited.
  pub loop_visiting :
      (fuel : ℕ) (vg vd vg' vd' : List A) (stack : List (Frame A))
      → ((a : A) → Memᴰ a vg → OnStack a stack)
      → loop outgoing fuel vg vd stack ≡ done vg' vd'
      → (a : A) → ¬ Memᴰ a vg'
  unfolding loop
  loop_visiting zero vg vd vg' vd' [] on q =
      λ a m. let p : vg ≡ vg' = cc in Memᴰ.not-nil (on a (rw p m))
  loop_visiting zero vg vd vg' vd' (f ∷ stack) on q = cc
  loop_visiting (suc fuel) vg vd vg' vd' [] on q =
      λ a m. let p : vg ≡ vg' = cc in Memᴰ.not-nil (on a (rw p m))
  loop_visiting (suc fuel) vg vd vg' vd' ((n, []) ∷ stack) on q =
      loop_visiting fuel (discard n vg) (n ∷ vd) vg' vd' stack
        (λ a m.
          let (m', other) = (mem-discard n a vg).0 m in
          elim (Memᴰ.cases_cons (on a m')) [ inl p ↦ absurd (other p) | inr o ↦ o ])
        q
  loop_visiting (suc fuel) vg vd vg' vd' ((n, c ∷ cs) ∷ stack) on q =
      elim (Bool-cases (contains vg c)) [
        | inl back ↦ ground arith
        | inr new ↦ elim (Bool-cases (contains vd c)) [
          | inl seen ↦ loop_visiting fuel vg vd vg' vd' ((n, cs) ∷ stack) on (ground arith)
          | inr white ↦
              loop_visiting fuel (c ∷ vg) vd vg' vd' ((c, outgoing c) ∷ (n, cs) ∷ stack)
                (λ a m. elim (Memᴰ.cases_cons m) [
                  | inl p ↦ Memᴰ.head p
                  | inr m' ↦ Memᴰ.tail (on a m')
                ])
                (ground arith)
        ]
      ]

  pub only :
      (r : A) (vg : List A)
      → ((a : A) → ¬ Memᴰ a vg)
      → (a : A) → Memᴰ a (r ∷ vg)
      → OnStack a ((r, outgoing r) ∷ [])
  only r vg idle a m = elim (Memᴰ.cases_cons m) [
    | inl p ↦ Memᴰ.head p
    | inr m' ↦ absurd (idle a m')
  ]

  pub scan-cycle :
      (fuel : ℕ) (roots vg vd : List A)
      → ((a : A) → ¬ Memᴰ a vg)
      → scan outgoing fuel roots vg vd ≡ cycle
      → Loop
  unfolding scan
  scan-cycle fuel [] vg vd idle q = cc
  scan-cycle fuel (r ∷ rs) vg vd idle q = elim (Bool-cases (contains vd r)) [
    | inl seen ↦ scan-cycle fuel rs vg vd idle (ground arith)
    | inr white ↦ elim (Outcome-cases (loop outgoing fuel (r ∷ vg) vd ((r, outgoing r) ∷ []))) [
      | inl (vg', vd', ends) ↦
          scan-cycle fuel rs vg' vd'
            (loop_visiting fuel (r ∷ vg) vd vg' vd' ((r, outgoing r) ∷ []) (only r vg idle) ends)
            (ground arith)
      | inr (inl found) ↦
          loop-cycle fuel (r ∷ vg) vd ((r, outgoing r) ∷ []) (λ c m. m) (only r vg idle) found
      | inr (inr short) ↦ ground arith
    ]
  ]
