-- ===== src/Prelude/Equality.antt =====
-- Python's `==` on the types of the model, and membership in a collection.
use Prim.Native.Nat.{ℕ, zero, suc}
use Prim.Native.String.{String}
use mathlib.Core.Path.{◌≡◌, refl, ap}
use mathlib.Core.Logic.{◌↔◌, inl, inr, ⊎_elim}
use mathlib.Core.Bool.{Bool, true, false}
use mathlib.Core.List.{List, [], ◌∷◌, Memᴰ}
use mathlib.Core.List.Memᴰ
use native.Mathlib.Omega.{arith}
use text.Mathlib.Text.{◌==◌ as str_eq}
use text.Mathlib.TextEquality.{eq_iff}
use shiroe.Prelude.Tests.{eqb, eqb_iff, if◌then◌else◌, Bool-cases}

-- A type whose values the program compares.
pub record Equatable {ℓ} (T : Type ℓ) : Type ℓ where
  pub test : (x y : T) → Bool
  pub test_iff : (x y : T) → (test x y ≡ true) ↔ (x ≡ y)

instance abbrev pub string_eq : Equatable String
string_eq = record { test = str_eq; test_iff = eq_iff }

infix 50 ◌==◌
abbrev pub ◌==◌ {ℓ} : {T : Type ℓ} ⦃q : Equatable T⦄ → (x y : T) → Bool
◌==◌ ⦃q⦄ x y = q.test x y

instance abbrev pub nat_eq : Equatable ℕ
nat_eq = record { test = eqb; test_iff = eqb_iff }

-- An enum compares by the positions of its values in a list of them all.
unfoldable pub nth_or {ℓ} : {A : Type ℓ} → List A → ℕ → A → A
nth_or [] n a = a
nth_or (x ∷ xs) zero a = x
nth_or (x ∷ xs) (suc n) a = nth_or xs n a

pub coded_iff {ℓ} :
    {A : Type ℓ} (all : List A) (code : A → ℕ)
    → ((a d : A) → nth_or all (code a) d ≡ a)
    → (a b : A) → (eqb (code a) (code b) ≡ true) ↔ (a ≡ b)
coded_iff all code back a b = (
  λ h. let p = (eqb_iff (code a) (code b)).0 h in cc (back a a, back b a, p),
  λ h. (eqb_iff (code a) (code b)).1 (ap code h),
)

abbrev pub enum_eq {ℓ} :
    {A : Type ℓ} (all : List A) (code : A → ℕ)
    → ((a d : A) → nth_or all (code a) d ≡ a)
    → Equatable A
enum_eq all code back = record {
  test = λ a b. eqb (code a) (code b);
  test_iff = coded_iff all code back;
}

pub ==_refl {ℓ} : {A : Type ℓ} ⦃e : Equatable A⦄ (a : A) → (a == a) ≡ true
==_refl ⦃e⦄ a = (e.test_iff a a).1 refl

module _ {ℓ} {A : Type ℓ} ⦃e : Equatable A⦄ where
  -- `a in xs`
  unfoldable pub contains : List A → A → Bool
  contains [] a = false
  contains (x ∷ xs) a = if x == a then true else contains xs a

  pub contains_iff : (xs : List A) (a : A) → (contains xs a ≡ true) ↔ Memᴰ a xs
  unfolding contains
  contains_iff [] a = (λ h. cc, λ m. absurd (Memᴰ.not-nil m))
  contains_iff (x ∷ xs) a = elim (Bool-cases (x == a)) [
    | inl h ↦ let p = (e.test_iff x a).0 h in rw h (λ _. rw p (Memᴰ.head refl), λ _. refl)
    | inr h ↦ rw h (
      λ c. Memᴰ.tail ((contains_iff xs a).0 c),
      λ m. ⊎_elim (λ p. ground (arith, e.test_iff x a)) (contains_iff xs a).1 (Memᴰ.cases_cons m),
    )
  ]
