-- ===== src/Routing/Criticality/Graded.antt =====
-- What the grading words can do to the level of a task.
use shiroe.Prelude.{
  ◌≤◌, String, Bool, true, false, none, some, List, [], ◌∷◌, ◌≡◌, refl, Bool-cases, inl, inr, ltb,
  arith,
}
use shiroe.Routing.Levels.{Level, low, medium, high, critical, level_index, bump}
use shiroe.Routing.Signals.{Environment, ChangeShape, ClaimDirection, FinancialEffect, TaskSignals}
use shiroe.Routing.Criticality.{
  Rule, is_production, when, graded, public_claim, financial, schema_change, sensitive, team_change,
  rules, level_from, classify,
}
use shiroe.Routing.Criticality.Floors.{current-bump}

-- no rule of the first list forces more than the one in its place in the second
abbrev RuleBelow : Rule → Rule → Type 0
RuleBelow none r = Unit
RuleBelow (some (f, reason)) none = ⊥
RuleBelow (some (f, reason)) (some (g, other)) = level_index f ≤ level_index g

abbrev AreBelow : List Rule → List Rule → Type 0
AreBelow [] [] = Unit
AreBelow (r ∷ rs) (q ∷ qs) = RuleBelow r q × AreBelow rs qs
AreBelow _ _ = ⊥

RuleBelow-refl : (r : Rule) → RuleBelow r r
RuleBelow-refl none = tt
RuleBelow-refl (some (f, reason)) = ground arith

bump_both :
    (l m f g : Level)
    → level_index l ≤ level_index m
    → level_index f ≤ level_index g
    → level_index (bump l f) ≤ level_index (bump m g)
unfolding bump
bump_both l m f g h k = elim (Bool-cases (ltb (level_index l) (level_index f))) [
  | inl t ↦ elim (Bool-cases (ltb (level_index m) (level_index g))) [
    | inl u ↦ rw (t, bump) (rw (u, bump) k)
    | inr u ↦ rw (t, bump) (rw (u, bump) (ground arith))
  ]
  | inr t ↦ elim (Bool-cases (ltb (level_index m) (level_index g))) [
    | inl u ↦ rw (t, bump) (rw (u, bump) (ground arith))
    | inr u ↦ rw (t, bump) (rw (u, bump) h)
  ]
]

level_from-AreBelow :
    (l m : Level) (rs qs : List Rule)
    → level_index l ≤ level_index m
    → AreBelow rs qs
    → level_index (level_from l rs) ≤ level_index (level_from m qs)
unfolding level_from
level_from-AreBelow l m [] [] h b = h
level_from-AreBelow l m [] (q ∷ qs) h b = elim b [ ]
level_from-AreBelow l m (r ∷ rs) [] h b = elim b [ ]
level_from-AreBelow l m (none ∷ rs) (none ∷ qs) h (b, c) = level_from-AreBelow l m rs qs h c
level_from-AreBelow l m (none ∷ rs) (some (g, reason) ∷ qs) h (b, c) =
    let p = current-bump m g in level_from-AreBelow l (bump m g) rs qs (omega arith) c
level_from-AreBelow l m (some (f, reason) ∷ rs) (none ∷ qs) h (b, c) = elim b [ ]
level_from-AreBelow l m (some (f, reason) ∷ rs) (some (g, other) ∷ qs) h (b, c) =
    level_from-AreBelow (bump l f) (bump m g) rs qs (bump_both l m f g h b) c

when-RuleBelow :
    (b c : Bool) (f : Level) (reason : String)
    → (b ≡ true → c ≡ true)
    → RuleBelow (when b f reason) (when c f reason)
when-RuleBelow false c f reason h = tt
when-RuleBelow true c f reason h = rw (h refl) (ground arith)

graded-RuleBelow :
    (b w v : Bool) (f g : Level) (r q : String)
    → level_index g ≤ level_index f
    → (w ≡ true → v ≡ true)
    → RuleBelow (graded b w (f, r) (g, q)) (graded b v (f, r) (g, q))
graded-RuleBelow false w v f g r q l h = tt
graded-RuleBelow true true v f g r q l h = rw (h refl) (ground arith)
graded-RuleBelow true false true f g r q l h = l
graded-RuleBelow true false false f g r q l h = ground arith

-- the signals with the words that a caller who names none gets
unfoldable pub ungraded : TaskSignals → TaskSignals
ungraded s = record s {
  environment = Environment.production;
  change_shape = ChangeShape.breaking;
  claim_direction = ClaimDirection.asserting;
  financial_effect = FinancialEffect.executes;
}

schema_change-RuleBelow :
    (s : TaskSignals) → RuleBelow (schema_change s) (schema_change (ungraded s))
unfolding schema_change ungraded
schema_change-RuleBelow s = elim (Bool-cases s.schema_or_migration) [
  | inr a ↦ rw (a, schema_change) tt
  | inl a ↦ elim (Bool-cases (is_production s.environment)) [
    | inl b ↦ rw (a, schema_change) (rw (b, schema_change) (ground arith))
    | inr b ↦ elim (Bool-cases s.reversible) [
      | inl c ↦ rw (a, schema_change) (rw (b, schema_change) (rw (c, schema_change) (ground arith)))
      | inr c ↦ rw (a, schema_change) (rw (b, schema_change) (rw (c, schema_change) (ground arith)))
    ]
  ]
]

team_change-RuleBelow : (s : TaskSignals) → RuleBelow (team_change s) (team_change (ungraded s))
unfolding team_change ungraded
team_change-RuleBelow s = when-RuleBelow _ _ medium _ (λ h. ground (arith, h))

-- A task is never graded higher than with the words that are the defaults: whatever the environment, the
-- change shape, the claim direction and the financial effect are, they only ever lower the criticality.
pub classify-ungraded :
    (s : TaskSignals)
    → level_index (classify s).criticality ≤ level_index (classify (ungraded s)).criticality
unfolding classify rules ungraded public_claim financial sensitive
classify-ungraded s = level_from-AreBelow low low (rules s) (rules (ungraded s)) (ground arith) (
  graded-RuleBelow s.is_public_claim _ _ critical high _ _ (ground arith) (λ h. refl),
  (
    graded-RuleBelow s.financial_or_legal_impact _ _ critical high _ _ (ground arith) (λ h. refl),
    (
      RuleBelow-refl _,
      (
        RuleBelow-refl _,
        (
          RuleBelow-refl _,
          (
            RuleBelow-refl _,
            (
              RuleBelow-refl _,
              (
                schema_change-RuleBelow s,
                (
                  RuleBelow-refl _,
                  (
                    RuleBelow-refl _,
                    (RuleBelow-refl _, (RuleBelow-refl _, (team_change-RuleBelow s, tt))),
                  ),
                ),
              ),
            ),
          ),
        ),
      ),
    ),
  ),
)
