-- ===== src/Work/Cycle/Bound.antt =====
-- The search ends: each round pops a frame or takes one child of one, and a node is pushed once.
use shiroe.Prelude.{
  ℕ, zero, suc, ◌+◌, ◌≤◌, ◌≡◌, ◌≢◌, ◌*◌, refl, inl, inr, true, false, ◌||◌, List, [], ◌∷◌,
  Equatable, ==_refl, contains, contains_iff, if◌then◌else◌, arith, Bool-cases,
}
use mathlib.Core.List.{Memᴰ}
use mathlib.Core.List.Memᴰ
use shiroe.Prelude.Lists.{length, Memᴰ-cons}
use shiroe.Work.Cycle.{Outcome-cases, Frame, out_of_fuel, discard, mem-discard, loop, scan}

module _ {ℓ} {A : Type ℓ} ⦃e : Equatable A⦄ (outgoing : A → List A) where
  -- what the nodes that were never pushed may still cost
  pub unseen : List A → List A → List A → ℕ
  unseen visiting visited [] = 0
  unseen visiting visited (n ∷ ns) =
      (if contains visiting n || contains visited n then 0 else length (outgoing n) + 1)
      + unseen visiting visited ns

  -- what the frames on the stack may still cost
  pub pending : List (Frame A) → ℕ
  pending [] = 0
  pending ((n, children) ∷ stack) = length children + 1 + pending stack

  -- rounds enough for any search: one for each node and one for each edge
  unfoldable pub enough : List A → ℕ
  enough [] = 0
  enough (n ∷ ns) = length (outgoing n) + 1 + enough ns

  unseen-le : (vg vd ns : List A) → unseen vg vd ns ≤ enough ns
  unfolding unseen enough
  unseen-le vg vd [] = omega arith
  unseen-le vg vd (n ∷ ns) = ground (arith, unseen-le vg vd ns)

  le-enough : (r : A) (ns : List A) → Memᴰ r ns → length (outgoing r) + 1 ≤ enough ns
  unfolding enough
  le-enough r [] m = absurd (Memᴰ.not-nil m)
  le-enough r (n ∷ ns) m = elim (Memᴰ.cases_cons m) [
    | inl p ↦ rw p (omega arith)
    | inr m' ↦ omega (arith, le-enough r ns m')
  ]

  unseen_anti :
      (vg vd vg' vd' ns : List A)
      → ((n : A)
          → (contains vg n || contains vd n) ≡ true
          → (contains vg' n || contains vd' n) ≡ true)
      → unseen vg' vd' ns ≤ unseen vg vd ns
  unfolding unseen
  unseen_anti vg vd vg' vd' [] h = omega arith
  unseen_anti vg vd vg' vd' (n ∷ ns) h = ground (arith, h n, unseen_anti vg vd vg' vd' ns h)

  unseen-push :
      (vg vd ns : List A) (c : A)
      → Memᴰ c ns
      → contains vg c ≡ false
      → contains vd c ≡ false
      → unseen (c ∷ vg) vd ns + (length (outgoing c) + 1) ≤ unseen vg vd ns
  unfolding unseen contains
  unseen-push vg vd [] c m a b = absurd (Memᴰ.not-nil m)
  unseen-push vg vd (n ∷ ns) c m a b = elim (Memᴰ.cases_cons m) [
    | inl p ↦
        rw (← p)
          (ground (arith, ==_refl c, unseen_anti vg vd (c ∷ vg) vd ns (λ n' h. ground arith)))
    | inr m' ↦ ground (arith, unseen-push vg vd ns c m' a b)
  ]

  gray-pop :
      (vg vd : List A) (a n : A)
      → (contains vg n || contains vd n) ≡ true
      → (contains (discard a vg) n || contains (a ∷ vd) n) ≡ true
  gray-pop vg vd a n h = ground (
    arith,
    contains_iff vg n,
    contains_iff vd n,
    contains_iff (discard a vg) n,
    contains_iff (a ∷ vd) n,
    mem-discard a n vg,
    Memᴰ-cons n a vd,
    e.test_iff n a,
  )

  abbrev FramesIn : List A → List (Frame A) → Type ℓ
  FramesIn ids [] = Unit
  FramesIn ids ((n, children) ∷ stack) =
      ((c : A) → Memᴰ c children → Memᴰ c ids) × FramesIn ids stack

  module _ (ids : List A) (closed : (a c : A) → Memᴰ c (outgoing a) → Memᴰ c ids) where
    pub loop-ne-out_of_fuel :
        (fuel : ℕ) (vg vd : List A) (stack : List (Frame A))
        → FramesIn ids stack
        → unseen vg vd ids + pending stack ≤ fuel
        → loop outgoing fuel vg vd stack ≢ out_of_fuel
    unfolding loop pending
    loop-ne-out_of_fuel zero vg vd [] i h = λ q. cc
    loop-ne-out_of_fuel zero vg vd ((n, children) ∷ stack) i h = absurd (omega arith)
    loop-ne-out_of_fuel (suc fuel) vg vd [] i h = λ q. cc
    loop-ne-out_of_fuel (suc fuel) vg vd ((n, []) ∷ stack) i h =
        loop-ne-out_of_fuel fuel (discard n vg) (n ∷ vd) stack i.1
          (omega (arith, unseen_anti vg vd (discard n vg) (n ∷ vd) ids (λ k. gray-pop vg vd n k)))
    loop-ne-out_of_fuel (suc fuel) vg vd ((n, c ∷ cs) ∷ stack) i h =
        elim (Bool-cases (contains vg c)) [
          | inl a ↦ λ q. ground arith
          | inr a ↦ elim (Bool-cases (contains vd c)) [
            | inl b ↦
                let next =
                  loop-ne-out_of_fuel fuel vg vd ((n, cs) ∷ stack) (λ d m. i.0 d (Memᴰ.tail m), i.1)
                    (omega arith) in
                λ q. ground arith
            | inr b ↦
                let next =
                  loop-ne-out_of_fuel fuel (c ∷ vg) vd ((c, outgoing c) ∷ (n, cs) ∷ stack)
                    (closed c, (λ d m. i.0 d (Memᴰ.tail m), i.1))
                    (omega (arith, unseen-push vg vd ids c (i.0 c (Memᴰ.head refl)) a b)) in
                λ q. ground arith
          ]
        ]

    pub scan-ne-out_of_fuel :
        (fuel : ℕ) (roots vg vd : List A)
        → ((r : A) → Memᴰ r roots → Memᴰ r ids)
        → 2 * enough ids ≤ fuel
        → scan outgoing fuel roots vg vd ≢ out_of_fuel
    unfolding scan pending
    scan-ne-out_of_fuel fuel [] vg vd i h = λ q. cc
    scan-ne-out_of_fuel fuel (r ∷ rs) vg vd i h =
        let here = i r (Memᴰ.head refl) in
        let ends =
          loop-ne-out_of_fuel fuel (r ∷ vg) vd ((r, outgoing r) ∷ []) (closed r, tt)
            (omega (arith, unseen-le (r ∷ vg) vd ids, le-enough r ids here)) in
        let skip = scan-ne-out_of_fuel fuel rs vg vd (λ k m. i k (Memᴰ.tail m)) h in
        elim (Outcome-cases (loop outgoing fuel (r ∷ vg) vd ((r, outgoing r) ∷ []))) [
          | inl (vg', vd', q) ↦
              let next = scan-ne-out_of_fuel fuel rs vg' vd' (λ k m. i k (Memᴰ.tail m)) h in
              λ w. ground arith
          | inr q ↦ λ w. ground arith
        ]
