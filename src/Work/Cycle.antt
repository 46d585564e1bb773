-- ===== src/Work/Cycle.antt =====
-- `_reject_cycles` of shiroe/work/compiler.py: an iterative depth-first search with an explicit
-- stack, over the ids of the nodes and the children of each. A frame of the stack is a node and what
-- its iterator over the children still holds; the top of the stack is the head of the list.
pub mod Bound
pub mod Sound
pub mod Complete
use shiroe.Prelude.{
  ℕ, zero, suc, ◌+◌, Bool, true, false, List, [], ◌∷◌, ◌≡◌, ◌≢◌, ◌↔◌, refl, arith, ◌⊎◌, inl, inr,
  Equatable, ◌==◌, contains, if◌then◌else◌,
}
use mathlib.Core.List.{Memᴰ}
use mathlib.Core.List.Memᴰ
use shiroe.Prelude.Lists.{Memᴰ-cons}

abbrev pub Frame {ℓ} : Type ℓ → Type ℓ
Frame A = A × List A

pub data Outcome {ℓ} (A : Type ℓ) : Type ℓ where
  done : (visiting visited : List A) → Outcome A
  cycle out_of_fuel : Outcome A

pub Outcome-cases {ℓ} :
    {A : Type ℓ} (o : Outcome A)
    → ((visiting : List A) × (visited : List A) × (o ≡ done visiting visited))
      ⊎ ((o ≡ cycle) ⊎ (o ≡ out_of_fuel))
Outcome-cases (done visiting visited) = inl (visiting, visited, refl)
Outcome-cases cycle = inr (inl refl)
Outcome-cases out_of_fuel = inr (inr refl)

-- The walks of at least one edge.
pub data Walk {ℓ} {A : Type ℓ} (outgoing : A → List A) (u : A) : A → Type ℓ where
  edge : {v : A} → Memᴰ v (outgoing u) → Walk outgoing u v
  step : {v w : A} → Walk outgoing u v → Memᴰ w (outgoing v) → Walk outgoing u w

module _ {ℓ} {A : Type ℓ} ⦃e : Equatable A⦄ where
  -- `visiting.discard(a)`
  unfoldable pub discard : A → List A → List A
  discard a [] = []
  discard a (x ∷ xs) = let rest = discard a xs in if x == a then rest else x ∷ rest

  pub mem-discard : (a x : A) (xs : List A) → Memᴰ x (discard a xs) ↔ (Memᴰ x xs × (x ≢ a))
  unfolding discard
  mem-discard a x [] = (λ m. absurd (Memᴰ.not-nil m), λ h. h.0)
  mem-discard a x (y ∷ ys) =
      ground
        (arith, e.test_iff y a, mem-discard a x ys, Memᴰ-cons x y ys, Memᴰ-cons x y (discard a ys))

module _ {ℓ} {A : Type ℓ} ⦃e : Equatable A⦄ (outgoing : A → List A) where
  -- the `while stack` loop
  unfoldable pub loop : ℕ → List A → List A → List (Frame A) → Outcome A
  unfolding discard
  loop zero visiting visited [] = done visiting visited
  loop zero visiting visited (frame ∷ stack) = out_of_fuel
  loop (suc fuel) visiting visited [] = done visiting visited
  loop (suc fuel) visiting visited ((node_id, []) ∷ stack) =
      loop fuel (discard node_id visiting) (node_id ∷ visited) stack
  loop (suc fuel) visiting visited ((node_id, child ∷ children) ∷ stack) =
      elim (contains visiting child) [
        | true ↦ cycle
        | false ↦ elim (contains visited child) [
          | true ↦ loop fuel visiting visited ((node_id, children) ∷ stack)
          | false ↦
              loop fuel (child ∷ visiting) visited
                ((child, outgoing child) ∷ (node_id, children) ∷ stack)
        ]
      ]

  -- the `for root` loop
  unfoldable pub scan : ℕ → List A → List A → List A → Outcome A
  unfolding loop
  scan fuel [] visiting visited = done visiting visited
  scan fuel (root ∷ roots) visiting visited = elim (contains visited root) [
    | true ↦ scan fuel roots visiting visited
    | false ↦ elim (loop fuel (root ∷ visiting) visited ((root, outgoing root) ∷ [])) [
      | done visiting' visited' ↦ scan fuel roots visiting' visited'
      | cycle ↦ cycle
      | out_of_fuel ↦ out_of_fuel
    ]
  ]
