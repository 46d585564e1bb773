-- ===== src/Routing/Criticality.antt =====
-- `classify` of shiroe/routing/criticality.py. A rule that fires bumps the level to a floor and gives a
-- reason; the rules stand in the order of the source.
pub mod Floors
pub mod Graded
use Prim.Native.String.{◌++◌ as str_append}
use shiroe.Prelude.{
  String, Bool, true, false, ◌&&◌, ◌||◌, not, Option, none, some, List, [], ◌∷◌, ◌++◌,
  if◌then◌else◌,
}
use shiroe.Routing.Levels.{Level, low, medium, high, critical, bump}
use shiroe.Routing.Signals.{
  BlastRadius, PrivacyClass, Environment, ChangeShape, ClaimDirection, FinancialEffect, TaskSignals,
}

pub record Classification : Type 0 where
  pub criticality : Level
  pub rationale : String
  pub flagged_for_review : Bool
  pub reasons : List String

-- what a rule says: the floor and the reason, where it fires
abbrev pub Rule : Type 0
Rule = Option (Level × String)

abbrev pub is_asserting : ClaimDirection → Bool
is_asserting ClaimDirection.asserting = true
is_asserting ClaimDirection.corrective = false

abbrev pub is_executing : FinancialEffect → Bool
is_executing FinancialEffect.executes = true
is_executing FinancialEffect.touches_path = false

abbrev pub is_production : Environment → Bool
is_production Environment.production = true
is_production other = false

abbrev pub is_breaking : ChangeShape → Bool
is_breaking ChangeShape.breaking = true
is_breaking ChangeShape.additive = false

-- `in ("org", "public")`
abbrev pub is_wide : BlastRadius → Bool
is_wide BlastRadius.org = true
is_wide BlastRadius.public = true
is_wide other = false

abbrev pub is_local : BlastRadius → Bool
is_local BlastRadius.local = true
is_local other = false

abbrev pub is_team : BlastRadius → Bool
is_team BlastRadius.team = true
is_team other = false

abbrev pub is_restricted : PrivacyClass → Bool
is_restricted PrivacyClass.restricted = true
is_restricted other = false

-- `in ("confidential", "restricted")`
abbrev pub is_sensitive : PrivacyClass → Bool
is_sensitive PrivacyClass.confidential = true
is_sensitive PrivacyClass.restricted = true
is_sensitive other = false

environment_word : Environment → String
environment_word Environment.production = "production"
environment_word Environment.staging = "staging"
environment_word Environment.development = "development"

radius_word : BlastRadius → String
radius_word BlastRadius.local = "local"
radius_word BlastRadius.team = "team"
radius_word BlastRadius.org = "org"
radius_word BlastRadius.public = "public"

privacy_word : PrivacyClass → String
privacy_word PrivacyClass.public = "public"
privacy_word PrivacyClass.internal = "internal"
privacy_word PrivacyClass.confidential = "confidential"
privacy_word PrivacyClass.restricted = "restricted"

abbrev pub when : Bool → Level → String → Rule
when true floor reason = some (floor, reason)
when false floor reason = none

-- one floor where a second test holds, another where it does not
abbrev pub graded : Bool → Bool → (Level × String) → (Level × String) → Rule
graded false worse severe mild = none
graded true true severe mild = some severe
graded true false severe mild = some mild

unfoldable pub public_claim : TaskSignals → Rule
public_claim s =
    graded s.is_public_claim (is_asserting s.claim_direction || not s.reversible)
      (critical, "asserts a new public claim, or the publication cannot be retracted")
      (high, "corrective public claim that can itself be retracted")

unfoldable pub financial : TaskSignals → Rule
financial s =
    graded s.financial_or_legal_impact
      (is_executing s.financial_effect || (not s.reversible || s.writes_canonical_state))
      (
        critical,
        "commits funds or legal obligation, is irreversible, or writes the canonical ledger",
      )
      (high, "touches a financial or legal code path without committing to it, reversibly")

-- the schema rule of the high triggers
unfoldable pub schema_change : TaskSignals → Rule
unfolding environment_word
schema_change s = elim s.schema_or_migration [
  | false ↦ none
  | true ↦ elim (is_production s.environment) [
    | true ↦ some (high, "production schema or migration impact")
    | false ↦ elim s.reversible [
      | false ↦
          some (high, str_append "irreversible schema change in " (environment_word s.environment))
      | true ↦ some (
        medium,
        str_append "reversible schema change confined to " (environment_word s.environment),
      )
    ]
  ]
]

unfoldable pub sensitive : TaskSignals → Rule
unfolding privacy_word
sensitive s =
    graded (is_sensitive s.privacy_class) (not (is_local s.blast_radius))
      (high, str_append (privacy_word s.privacy_class) " data leaving local blast radius")
      (medium, str_append (privacy_word s.privacy_class) " data, but blast radius stays local")

unfoldable pub team_change : TaskSignals → Rule
team_change s =
    when
      (is_team s.blast_radius
        && (is_production s.environment || (not s.reversible || is_breaking s.change_shape)))
      medium "team-scoped change that is production-facing, irreversible, or breaking"

-- the rules of `classify`, each with the floor that it forces
unfoldable pub rules : TaskSignals → List Rule
unfolding public_claim financial schema_change sensitive team_change radius_word
rules s =
    public_claim s
    ∷ financial s
    ∷ when (s.schema_or_migration && s.writes_canonical_state) critical
        "schema change that migrates canonical state"
    ∷ when (s.production_or_credential_access && not s.reversible) critical
        "irreversible action touching production or credentials"
    ∷ when (not s.reversible && is_wide s.blast_radius) critical
        "irreversible action with org/public blast radius"
    ∷ when (is_restricted s.privacy_class && not s.reversible) critical
        "irreversible action on restricted-class data"
    ∷ when s.writes_canonical_state high "writes to canonical (shared source-of-truth) state"
    ∷ schema_change s
    ∷ when s.production_or_credential_access high "touches production or credential access"
    ∷ when (is_wide s.blast_radius) high
        (str_append "blast radius is " (radius_word s.blast_radius))
    ∷ sensitive s
    ∷ when (not s.reversible) medium "action is not reversible"
    ∷ team_change s
    ∷ []

unfoldable pub level_word : Level → String
level_word low = "LOW"
level_word medium = "MEDIUM"
level_word high = "HIGH"
level_word critical = "CRITICAL"

-- the nested function `bump`, over the rules that fire
unfoldable pub level_from : Level → List Rule → Level
unfolding bump
level_from level [] = level
level_from level (none ∷ more) = level_from level more
level_from level (some (floor, reason) ∷ more) = level_from (bump level floor) more

unfoldable pub reasons_of : List Rule → List String
unfolding level_word
reasons_of [] = []
reasons_of (none ∷ more) = reasons_of more
reasons_of (some (floor, reason) ∷ more) =
    str_append reason (str_append " -> floor " (level_word floor)) ∷ reasons_of more

-- `"; ".join`
unfoldable pub joined : List String → String
joined [] = "no elevated-risk signals present; baseline LOW"
joined (reason ∷ []) = reason
joined (reason ∷ more) = str_append reason (str_append "; " (joined more))

-- `level in ("HIGH", "CRITICAL")`
abbrev pub is_elevated : Level → Bool
is_elevated low = false
is_elevated medium = false
is_elevated high = true
is_elevated critical = true

unfoldable pub classify : TaskSignals → Classification
unfolding rules level_from reasons_of joined
classify s =
    let level = level_from low (rules s) in
    let reasons = reasons_of (rules s) in
    record {
      criticality = level;
      rationale = joined reasons;
      flagged_for_review = s.ambiguous && is_elevated level;
      reasons = reasons;
    }
