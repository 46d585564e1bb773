-- ===== src/Prelude/Sets.antt =====
-- Python's sets as lists that are tested for membership, and `sorted` of a set of texts.
use Prim.Native.String.{String, compare}
use Prim.Native.Nat.{Ordering}
use mathlib.Core.Path.{◌≡◌, refl}
use mathlib.Core.Logic.{◌↔◌, ◌⊎◌, inl, inr}
use mathlib.Core.List.{List, [], ◌∷◌, Memᴰ}
use mathlib.Core.List.Memᴰ
use native.Mathlib.Omega.{arith}
use text.Mathlib.TextEquality.{path_by_compare}
use shiroe.Prelude.Tests.{if◌then◌else◌, Bool-cases}
use shiroe.Prelude.Equality.{Equatable, contains, contains_iff}
use shiroe.Prelude.Lists.{Memᴰ-cons}

module _ {ℓ} {A : Type ℓ} ⦃e : Equatable A⦄ where
  -- `xs & ys`
  unfoldable pub intersect : List A → List A → List A
  intersect [] ys = []
  intersect (x ∷ xs) ys = let rest = intersect xs ys in if contains ys x then x ∷ rest else rest

  pub mem-intersect : (a : A) (xs ys : List A) → Memᴰ a (intersect xs ys) ↔ (Memᴰ a xs × Memᴰ a ys)
  unfolding intersect
  mem-intersect a [] ys = (λ m. absurd (Memᴰ.not-nil m), λ h. h.0)
  mem-intersect a (x ∷ xs) ys =
      let (split, join) = mem-intersect a xs ys in
      elim (Bool-cases (contains ys x)) [
        | inl h ↦ rw h (
          λ m. elim (Memᴰ.cases_cons m) [
            | inl p ↦ (Memᴰ.head p, rw p ((contains_iff ys x).0 h))
            | inr m' ↦ let (l, r) = split m' in (Memᴰ.tail l, r)
          ],
          λ (l, r). elim (Memᴰ.cases_cons l) [
            | inl p ↦ Memᴰ.head p
            | inr m' ↦ Memᴰ.tail (join (m', r))
          ],
        )
        | inr h ↦ rw h (
          λ m. let (l, r) = split m in (Memᴰ.tail l, r),
          λ (l, r). elim (Memᴰ.cases_cons l) [
            | inl p ↦ let c = (contains_iff ys x).1 (rw p at r) in cc
            | inr m' ↦ join (m', r)
          ],
        )
      ]

insert_text : String → List String → List String
insert_text s [] = s ∷ []
insert_text s (t ∷ ts) = elim (compare s t) [
  | Ordering.lt ↦ s ∷ t ∷ ts
  | Ordering.eq ↦ t ∷ ts
  | Ordering.gt ↦ t ∷ insert_text s ts
]

-- `sorted(set(xs))`: each text once, by its code points
unfoldable pub sorted_set : List String → List String
unfolding insert_text
sorted_set [] = []
sorted_set (x ∷ xs) = insert_text x (sorted_set xs)

pub Ordering-cases : (o : Ordering) → (o ≡ Ordering.lt) ⊎ ((o ≡ Ordering.eq) ⊎ (o ≡ Ordering.gt))
Ordering-cases Ordering.lt = inl refl
Ordering-cases Ordering.eq = inr (inl refl)
Ordering-cases Ordering.gt = inr (inr refl)

mem-insert_text :
    (a s : String) (ts : List String) → Memᴰ a (insert_text s ts) ↔ ((a ≡ s) ⊎ Memᴰ a ts)
unfolding insert_text
mem-insert_text a s [] = Memᴰ-cons a s []
mem-insert_text a s (t ∷ ts) = elim (Ordering-cases (compare s t)) [
  | inl e ↦ rw (e, insert_text) (Memᴰ-cons a s (t ∷ ts))
  | inr (inl e) ↦
      let p : s ≡ t = path_by_compare s t e in
      rw (e, insert_text) (inr, λ h. elim h [ inl q ↦ rw (q, p) (Memᴰ.head refl) | inr m ↦ m ])
  | inr (inr e) ↦
      rw (e, insert_text)
        (ground (arith, mem-insert_text a s ts, Memᴰ-cons a t (insert_text s ts), Memᴰ-cons a t ts))
]

pub mem-sorted_set : (a : String) (xs : List String) → Memᴰ a (sorted_set xs) ↔ Memᴰ a xs
unfolding sorted_set
mem-sorted_set a [] = (λ m. m, λ m. m)
mem-sorted_set a (x ∷ xs) =
    ground (arith, mem-insert_text a x (sorted_set xs), mem-sorted_set a xs, Memᴰ-cons a x xs)
