-- ===== src/Prelude/Sort.antt =====
-- `sorted(xs, key=…)`: a stable insertion sort by a test on the keys.
use Prim.Native.String.{String, compare}
use Prim.Native.Nat.{Ordering}
use mathlib.Core.List.Perm
use mathlib.Core.List.{List, [], ◌∷◌, Memᴰ, Perm}
use mathlib.Core.Bool.{Bool, true, false}
use mathlib.Core.Logic.{◌↔◌, inl, inr}
use native.Mathlib.Omega.{arith}
use shiroe.Prelude.Tests.{if◌then◌else◌, Bool-cases}
use shiroe.Prelude.Lists.{Memᴰ-cons}

-- `s <= t` on texts, by code points
abbrev pub text_leb : String → String → Bool
text_leb s t = elim (compare s t) [ Ordering.gt ↦ false | _ ↦ true ]

module _ {ℓ} {A : Type ℓ} (leb : A → A → Bool) where
  insert_by : A → List A → List A
  insert_by a [] = a ∷ []
  insert_by a (x ∷ xs) = let rest = insert_by a xs in if leb a x then a ∷ x ∷ xs else x ∷ rest

  unfoldable pub sort_by : List A → List A
  unfolding insert_by
  sort_by [] = []
  sort_by (x ∷ xs) = insert_by x (sort_by xs)

  insert_by-perm : (a : A) (xs : List A) → Perm (insert_by a xs) (a ∷ xs)
  unfolding insert_by
  insert_by-perm a [] = Perm.rfl
  insert_by-perm a (x ∷ xs) = elim (Bool-cases (leb a x)) [
    | inl h ↦ rw h Perm.rfl
    | inr h ↦ rw h (Perm.trans (Perm.cons x (insert_by-perm a xs)) (Perm.swap a x xs))
  ]

  pub sort_by-perm : (xs : List A) → Perm (sort_by xs) xs
  unfolding sort_by
  sort_by-perm [] = Perm.rfl
  sort_by-perm (x ∷ xs) = Perm.trans (insert_by-perm x (sort_by xs)) (Perm.cons x (sort_by-perm xs))

  mem-insert_by : (b a : A) (xs : List A) → Memᴰ b (insert_by a xs) ↔ Memᴰ b (a ∷ xs)
  unfolding insert_by
  mem-insert_by b a [] = (λ m. m, λ m. m)
  mem-insert_by b a (x ∷ xs) = ground (
    arith,
    mem-insert_by b a xs,
    Memᴰ-cons b a xs,
    Memᴰ-cons b a (x ∷ xs),
    Memᴰ-cons b x xs,
    Memᴰ-cons b x (insert_by a xs),
  )

  pub mem-sort_by : (b : A) (xs : List A) → Memᴰ b (sort_by xs) ↔ Memᴰ b xs
  unfolding sort_by
  mem-sort_by b [] = (λ m. m, λ m. m)
  mem-sort_by b (x ∷ xs) = ground (
    arith,
    mem-insert_by b x (sort_by xs),
    mem-sort_by b xs,
    Memᴰ-cons b x xs,
    Memᴰ-cons b x (sort_by xs),
  )
