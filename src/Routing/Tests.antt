-- ===== src/Routing/Tests.antt =====
-- Tasks through the classifier and the gateway.
use mathlib.Core.List.{Memᴰ}
use shiroe.Prelude.{◌≤◌, String, Bool, true, false, ◌&&◌, not, Option, none, some, ◌≡◌, refl, ◌⊎◌}
use shiroe.Routing.Levels.{
  Level, low, medium, high, level_index, ReasoningClass, fast, deep, class_index, resolve_class,
}
use shiroe.Routing.Signals.{
  BlastRadius, PrivacyClass, Environment, ChangeShape, ClaimDirection, FinancialEffect, TaskSignals,
}
use shiroe.Routing.Criticality.{rules, classify}
use shiroe.Routing.Criticality.Floors.{classify-rules}
use shiroe.Routing.Criticality.Graded.{ungraded, classify-ungraded}
use shiroe.Routing.Gateway.{
  Routed, routed, refused, approval_required, over_entitled, Granted, buys, is_placement,
  RouteDecision, classify_and_route,
}
use shiroe.Routing.Gateway.Entitled.{classify_and_route-routed}

-- a reversible change of a schema in staging, for a team
abbrev staging_change : TaskSignals
staging_change = record {
  reversible = true;
  blast_radius = BlastRadius.team;
  privacy_class = PrivacyClass.internal;
  is_public_claim = false;
  schema_or_migration = true;
  production_or_credential_access = false;
  financial_or_legal_impact = false;
  writes_canonical_state = false;
  ambiguous = true;
  environment = Environment.staging;
  change_shape = ChangeShape.additive;
  claim_direction = ClaimDirection.asserting;
  financial_effect = FinancialEffect.executes;
}

staging_is_medium : (classify staging_change).criticality ≡ medium
unfolding classify
staging_is_medium = refl

defaults_are_high : (classify (ungraded staging_change)).criticality ≡ high
unfolding classify ungraded
defaults_are_high = refl

classify-rules_example :
    ((f : Level) (reason : String)
      → Memᴰ (some (f, reason)) (rules staging_change)
      → level_index f ≤ level_index (classify staging_change).criticality)
    × (((classify staging_change).criticality ≡ low)
        ⊎ ((f : Level) × (reason : String) × Memᴰ (some (f, reason)) (rules staging_change)
            × ((classify staging_change).criticality ≡ f)))
classify-rules_example = classify-rules staging_change

classify-ungraded_example :
    level_index (classify staging_change).criticality
    ≤ level_index (classify (ungraded staging_change)).criticality
classify-ungraded_example = classify-ungraded staging_change

-- a provider with a model for each class, which it names by the class, and a digest that is the text
abbrev provider_model : Granted → String → Bool → Option Granted
provider_model g provider live = some g

abbrev digest : String → String
digest text = text

abbrev outcome : TaskSignals → Option String → Routed (RouteDecision Granted)
outcome s asked =
    classify_and_route provider_model digest s "review a change" asked "any" "internal" "anthropic"
      false false

abbrev decision_or : RouteDecision Granted → Routed (RouteDecision Granted) → RouteDecision Granted
decision_or d (routed e) = e
decision_or d (refused f) = d

abbrev nothing : RouteDecision Granted
nothing = record {
  model_spec = buys fast;
  criticality = low;
  entitled_class = fast;
  reasoning_class = buys fast;
  placement = "";
  privacy_class = "";
  provider = "";
  purpose = "";
  task_digest = "";
  classification = none;
}

abbrev decided : RouteDecision Granted
decided = decision_or nothing (outcome staging_change (some "fast"))

staging_routed : outcome staging_change (some "fast") ≡ routed decided
unfolding classify_and_route
staging_routed = refl

-- more than the criticality is entitled to
staging_refused : outcome staging_change (some "deep") ≡ refused (over_entitled medium deep)
unfolding classify_and_route
staging_refused = refl

-- an ambiguous task of high criticality waits for a human
ambiguous_refused :
    outcome (ungraded staging_change) none
    ≡ refused (approval_required (classify (ungraded staging_change)))
unfolding classify_and_route ungraded
ambiguous_refused = refl

classify_and_route-routed_example :
    (((classify staging_change).flagged_for_review && not false) ≡ false)
    × (decided.classification ≡ some (classify staging_change))
    × (decided.criticality ≡ (classify staging_change).criticality)
    × ((c : ReasoningClass) × (decided.reasoning_class ≡ buys c)
        × (class_index c ≤ class_index (resolve_class decided.criticality)))
    × (is_placement "any" ≡ false)
    × (provider_model decided.reasoning_class "anthropic" true ≡ some decided.model_spec)
classify_and_route-routed_example =
    classify_and_route-routed provider_model digest staging_change "review a change" (some "fast")
      "any" "internal" "anthropic" false false decided staging_routed
