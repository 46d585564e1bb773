-- ===== src/Routing/Signals.antt =====
-- `TaskSignals` of shiroe/routing/criticality.py, without its description, and the check of its words.
use shiroe.Prelude.{String, Bool, true, false, Option, none, some, List, [], ◌∷◌, ◌==◌, string_eq}

-- `BLAST_RADII`
pub data BlastRadius : Type 0 where
  local team org public : BlastRadius

-- `PRIVACY_CLASSES`
pub data PrivacyClass : Type 0 where
  public internal confidential restricted : PrivacyClass

-- `ENVIRONMENTS`
pub data Environment : Type 0 where
  production staging development : Environment

-- `CHANGE_SHAPES`
pub data ChangeShape : Type 0 where
  breaking additive : ChangeShape

-- `CLAIM_DIRECTIONS`
pub data ClaimDirection : Type 0 where
  asserting corrective : ClaimDirection

-- `FINANCIAL_EFFECTS`
pub data FinancialEffect : Type 0 where
  executes touches_path : FinancialEffect

pub record TaskSignals : Type 0 where
  pub reversible : Bool
  pub blast_radius : BlastRadius
  pub privacy_class : PrivacyClass
  pub is_public_claim : Bool
  pub schema_or_migration : Bool
  pub production_or_credential_access : Bool
  pub financial_or_legal_impact : Bool
  pub writes_canonical_state : Bool
  pub ambiguous : Bool
  pub environment : Environment
  pub change_shape : ChangeShape
  pub claim_direction : ClaimDirection
  pub financial_effect : FinancialEffect

-- the word that a text is, of a list of words
unfoldable pub word_in {ℓ} : {A : Type ℓ} → List (String × A) → String → Option A
word_in [] text = none
word_in ((word, value) ∷ words) text = elim (word == text) [
  | true ↦ some value
  | false ↦ word_in words text
]

abbrev pub blast_radii : List (String × BlastRadius)
blast_radii =
    ("local", BlastRadius.local)
    ∷ ("team", BlastRadius.team)
    ∷ ("org", BlastRadius.org)
    ∷ ("public", BlastRadius.public)
    ∷ []

abbrev pub privacy_classes : List (String × PrivacyClass)
privacy_classes =
    ("public", PrivacyClass.public)
    ∷ ("internal", PrivacyClass.internal)
    ∷ ("confidential", PrivacyClass.confidential)
    ∷ ("restricted", PrivacyClass.restricted)
    ∷ []
