-- ===== src/Routing/Criticality/Floors.antt =====
-- The level of a task is the highest of the floors that its signals force.
use mathlib.Core.List.{Memᴰ}
use mathlib.Core.List.Memᴰ
use shiroe.Prelude.{
  ◌≤◌, String, none, some, List, [], ◌∷◌, ◌≡◌, refl, ◌∙◌, ◌⊎◌, inl, inr, ⊎_elim, ltb, Bool-cases,
  arith,
}
use shiroe.Routing.Levels.{Level, low, level_index, bump}
use shiroe.Routing.Signals.{TaskSignals}
use shiroe.Routing.Criticality.{Rule, rules, level_from, classify}

pub current-bump : (l f : Level) → level_index l ≤ level_index (bump l f)
unfolding bump
current-bump l f = elim (Bool-cases (ltb (level_index l) (level_index f))) [
  | inl t ↦ rw (t, bump) (ground arith)
  | inr t ↦ rw (t, bump) (ground arith)
]

pub candidate-bump : (l f : Level) → level_index f ≤ level_index (bump l f)
unfolding bump
candidate-bump l f = elim (Bool-cases (ltb (level_index l) (level_index f))) [
  | inl t ↦ rw (t, bump) (ground arith)
  | inr t ↦ rw (t, bump) (ground arith)
]

bump-cases : (l f : Level) → (bump l f ≡ l) ⊎ (bump l f ≡ f)
unfolding bump
bump-cases l f = elim (Bool-cases (ltb (level_index l) (level_index f))) [
  | inl t ↦ rw (t, bump) (inr refl)
  | inr t ↦ rw (t, bump) (inl refl)
]

start-level_from : (l : Level) (rs : List Rule) → level_index l ≤ level_index (level_from l rs)
unfolding level_from
start-level_from l [] = ground arith
start-level_from l (none ∷ rs) = start-level_from l rs
start-level_from l (some (f, reason) ∷ rs) =
    let p = current-bump l f in let q = start-level_from (bump l f) rs in omega arith

floor-level_from :
    (l f : Level) (reason : String) (rs : List Rule)
    → Memᴰ (some (f, reason)) rs
    → level_index f ≤ level_index (level_from l rs)
unfolding level_from
floor-level_from l f reason [] m = absurd (Memᴰ.not-nil m)
floor-level_from l f reason (none ∷ rs) m =
    ⊎_elim (λ e. cc) (λ k. floor-level_from l f reason rs k) (Memᴰ.cases_cons m)
floor-level_from l f reason (some (g, other) ∷ rs) m =
    ⊎_elim
      (λ e.
        let p : f ≡ g = ground arith in
        let q = candidate-bump l g in let r = start-level_from (bump l g) rs in rw p (omega arith))
      (λ k. floor-level_from (bump l g) f reason rs k) (Memᴰ.cases_cons m)

-- the start, or a floor of the list
abbrev IsFrom : Level → List Rule → Level → Type 0
IsFrom l rs c = (c ≡ l) ⊎ ((f : Level) × (reason : String) × Memᴰ (some (f, reason)) rs × (c ≡ f))

level_from-IsFrom : (l : Level) (rs : List Rule) → IsFrom l rs (level_from l rs)
unfolding level_from
level_from-IsFrom l [] = inl refl
level_from-IsFrom l (none ∷ rs) =
    ⊎_elim inl (λ (f, reason, m, e). inr (f, reason, Memᴰ.tail m, e)) (level_from-IsFrom l rs)
level_from-IsFrom l (some (g, reason) ∷ rs) =
    ⊎_elim
      (λ e.
        ⊎_elim (λ p. inl (e ∙ p)) (λ p. inr (g, reason, Memᴰ.head refl, e ∙ p)) (bump-cases l g))
      (λ (f, r, m, e). inr (f, r, Memᴰ.tail m, e)) (level_from-IsFrom (bump l g) rs)

-- The criticality of a task is at least every floor that one of its rules forces, and it is low or one of
-- those floors: it fails upward, and no rule lowers it.
pub classify-rules :
    (s : TaskSignals)
    → ((f : Level) (reason : String)
        → Memᴰ (some (f, reason)) (rules s)
        → level_index f ≤ level_index (classify s).criticality)
      × (((classify s).criticality ≡ low)
          ⊎ ((f : Level) × (reason : String) × Memᴰ (some (f, reason)) (rules s)
              × ((classify s).criticality ≡ f)))
unfolding classify
classify-rules s =
    (λ f reason m. floor-level_from low f reason (rules s) m, level_from-IsFrom low (rules s))
