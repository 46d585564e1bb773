-- ===== src/Policy/Engine/Verdicts.antt =====
-- What the autonomy gate makes of a verdict of the layers.
use shiroe.Prelude.{◌≡◌, ◌≢◌, ◌↔◌, ◌⊎◌, true, false, List, contains, arith, inl, inr}
use shiroe.Policy.Schema.{ActionKind, kind_eq, allow, deny, require_approval, Action, PolicyLayer}
use shiroe.Policy.Precedence.Allowed.{Permits, resolve-allow_iff, resolve_verdict}
use shiroe.Policy.Autonomy.{AutonomyMode, suggest, autonomy_gate, always_require_approval}
use shiroe.Policy.Engine.{evaluate}

-- No mode runs a kind of the always-approval list, and no kind runs in the mode `suggest`.
gate-held :
    (kind : ActionKind) (mode : AutonomyMode)
    → (contains always_require_approval kind ≡ true) ⊎ (mode ≡ suggest)
    → autonomy_gate kind mode ≡ false
unfolding autonomy_gate
gate-held kind mode h = ground arith

module _ (action : Action) (stack : List PolicyLayer) (mode : AutonomyMode) where
  -- `evaluate` allows an action exactly if the layers permit it and the mode may run its kind
  -- without a human; it asks for approval exactly if they permit it and the mode may not; it denies
  -- exactly if they do not permit it.
  pub evaluate_verdict_iff :
      (((evaluate action stack mode).verdict ≡ allow)
        ↔ (Permits action stack × (autonomy_gate action.kind mode ≡ true)))
      × (((evaluate action stack mode).verdict ≡ require_approval)
          ↔ (Permits action stack × (autonomy_gate action.kind mode ≡ false)))
      × (((evaluate action stack mode).verdict ≡ deny) ↔ (¬ Permits action stack))
  unfolding evaluate
  evaluate_verdict_iff =
      let (fwd, bwd) = resolve-allow_iff action stack in
      elim (resolve_verdict action stack) [
        | inl raw ↦
            let p = fwd raw in
            (
              (λ h. (p, ground arith), λ h. ground arith),
              (λ h. (p, ground arith), λ h. ground arith),
              (λ h. ground arith, λ h. absurd (h p)),
            )
        | inr raw ↦
            let np : ¬ Permits action stack = λ p. cc (raw, bwd p) in
            (
              (λ h. ground arith, λ h. absurd (np h.0)),
              (λ h. ground arith, λ h. absurd (np h.0)),
              (λ h. np, λ h. ground arith),
            )
      ]

  -- An action whose kind is on the always-approval list is not allowed, whatever the layers and the
  -- mode are, and no action is allowed in the mode `suggest`.
  pub evaluate-ne-allow :
      (contains always_require_approval action.kind ≡ true) ⊎ (mode ≡ suggest)
      → (evaluate action stack mode).verdict ≢ allow
  unfolding evaluate
  evaluate-ne-allow h = ground (arith, gate-held action.kind mode h)
