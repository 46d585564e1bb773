-- ===== src/Routing/Gateway.antt =====
-- shiroe/routing/gateway.py, with `resolve_class` and `validate_request` of shiroe/core/reasoning.py. The
-- provider's model and the digest of a text are parameters. `str.upper` is that of the ASCII letters.
pub mod Entitled
use Prim.Native.String.{◌++◌ as str_append}
use shiroe.Prelude.{
  ℕ, ◌-◌, String, Bool, true, false, ◌&&◌, ◌||◌, not, Option, none, some, List, [], ◌∷◌, map, ◌==◌,
  string_eq, ltb, leb, if◌then◌else◌,
}
use shiroe.Prelude.Text.{codes, strip, same_text}
use shiroe.Routing.Levels.{
  Level, low, medium, high, critical, ReasoningClass, fast, balanced, deep, frontier, class_index,
  resolve_class,
}
use shiroe.Routing.Signals.{TaskSignals, word_in, privacy_classes, PrivacyClass}
use shiroe.Routing.Criticality.{Classification, level_word, classify}

pub data RoutingError : Type 0 where
  unknown_criticality unknown_placement unknown_privacy unknown_class placement_as_class
        no_local_adapter no_model :
      String → RoutingError
  no_purpose : RoutingError
  over_entitled : Level → ReasoningClass → RoutingError
  approval_required : Classification → RoutingError

pub data Routed {ℓ} (T : Type ℓ) : Type ℓ where
  routed : T → Routed T
  refused : RoutingError → Routed T

-- `str.upper` of one code point
abbrev pub upper_code : ℕ → ℕ
upper_code c = if leb 97 c && leb c 122 then c - 32 else c

-- the criticality that a text names after `upper`
unfoldable pub level_in : List (List ℕ × Level) → List ℕ → Option Level
unfolding same_text
level_in [] text = none
level_in ((word, level) ∷ words) text = elim (same_text word text) [
  | true ↦ some level
  | false ↦ level_in words text
]

unfoldable pub level_of : String → Option Level
unfolding level_in
level_of text =
    level_in
      ((codes "LOW", low)
        ∷ (codes "MEDIUM", medium)
        ∷ (codes "HIGH", high)
        ∷ (codes "CRITICAL", critical)
        ∷ [])
      (map upper_code (codes text))

-- a granted class: one that buys reasoning, or a placement that `validate_request` lets through
pub data Granted : Type 0 where
  buys : ReasoningClass → Granted
  stays : String → Granted

abbrev pub class_words : List (String × ReasoningClass)
class_words = ("fast", fast) ∷ ("balanced", balanced) ∷ ("deep", deep) ∷ ("frontier", frontier) ∷ []

-- `in (LOCAL, PRIVATE)`
unfoldable pub is_placement : String → Bool
is_placement text = (text == "local") || (text == "private")

unfoldable pub validate_request : Level → String → Routed Granted
unfolding is_placement word_in resolve_class
validate_request level requested = elim (is_placement requested) [
  | true ↦ routed (stays requested)
  | false ↦ elim (word_in class_words requested) [
    | none ↦ refused (unknown_class requested)
    | some c ↦ elim (ltb (class_index (resolve_class level)) (class_index c)) [
      | true ↦ refused (over_entitled level c)
      | false ↦ routed (buys c)
    ]
  ]
]

pub record ModelCallRequest : Type 0 where
  pub criticality : String
  pub purpose : String
  pub requested_class : Option String
  pub placement : String
  pub privacy_class : String
  pub provider : String
  pub dry_run : Bool

-- `purpose.strip()` is empty
unfoldable pub is_blank : String → Bool
unfolding strip
is_blank text = elim (strip (codes text)) [ [] ↦ true | c ∷ cs ↦ false ]

-- the check that no placement is asked for as a class
unfoldable pub check_class : ModelCallRequest → Routed ModelCallRequest
unfolding is_placement
check_class r = elim r.requested_class [
  | none ↦ routed r
  | some requested ↦ elim (is_placement requested) [
    | true ↦ refused (placement_as_class requested)
    | false ↦ routed r
  ]
]

-- `ModelCallRequest.__post_init__`
unfoldable pub check_request : ModelCallRequest → Routed ModelCallRequest
unfolding level_of is_blank word_in is_placement check_class
check_request r = elim (level_of r.criticality) [
  | none ↦ refused (unknown_criticality r.criticality)
  | some level ↦ elim (is_blank r.purpose) [
    | true ↦ refused no_purpose
    | false ↦ elim ((r.placement == "any") || is_placement r.placement) [
      | false ↦ refused (unknown_placement r.placement)
      | true ↦ elim (word_in privacy_classes r.privacy_class) [
        | none ↦ refused (unknown_privacy r.privacy_class)
        | some privacy ↦ check_class r
      ]
    ]
  ]
]

pub record RouteDecision (Spec : Type 0) : Type 0 where
  pub model_spec : Spec
  pub criticality : Level
  pub entitled_class : ReasoningClass
  pub reasoning_class : Granted
  pub placement : String
  pub privacy_class : String
  pub provider : String
  pub purpose : String
  pub task_digest : String
  pub classification : Option Classification

-- `"|".join` of the six texts of `task_digest`, with the criticality in upper case
unfoldable pub digest_material : Level → ModelCallRequest → String
unfolding level_word
digest_material level r =
    let requested : String = elim r.requested_class [
      | none ↦ "-"
      | some c ↦ if c == "" then "-" else c
    ] in
    let bar = λ (a b : String). str_append a (str_append "|" b) in
    bar (level_word level)
      (bar r.purpose (bar requested (bar r.placement (bar r.privacy_class r.provider))))

unfoldable pub grant : Level → Option String → Routed Granted
unfolding resolve_class validate_request
grant level none = routed (buys (resolve_class level))
grant level (some requested) = validate_request level requested

module _ {Spec : Type 0} (resolve_model : Granted → String → Bool → Option Spec)
    (digest : String → String) where
  -- the end of `route`: the placement and the model
  unfoldable pub place : ModelCallRequest → Level → Granted → Routed (RouteDecision Spec)
  unfolding is_placement digest_material resolve_class
  place r level granted = elim (is_placement r.placement) [
    | true ↦ refused (no_local_adapter r.placement)
    | false ↦ elim (resolve_model granted r.provider (not r.dry_run)) [
      | none ↦ refused (no_model r.provider)
      | some spec ↦ routed (record {
        model_spec = spec;
        criticality = level;
        entitled_class = resolve_class level;
        reasoning_class = granted;
        placement = r.placement;
        privacy_class = r.privacy_class;
        provider = r.provider;
        purpose = r.purpose;
        task_digest = digest (digest_material level r);
        classification = none;
      })
    ]
  ]

  unfoldable pub route : ModelCallRequest → Routed (RouteDecision Spec)
  unfolding level_of grant place
  route r = elim (level_of r.criticality) [
    | none ↦ refused (unknown_criticality r.criticality)
    | some level ↦ elim (grant level r.requested_class) [
      | refused e ↦ refused e
      | routed granted ↦ place r level granted
    ]
  ]

  -- the call that `classify_and_route` makes
  abbrev pub request_for :
      Level
      → (purpose : String) → Option String
      → (placement privacy_class provider : String) → (dry_run : Bool) → ModelCallRequest
  request_for level purpose requested_class placement privacy_class provider dry_run = record {
    criticality = level_word level;
    purpose = purpose;
    requested_class = requested_class;
    placement = placement;
    privacy_class = privacy_class;
    provider = provider;
    dry_run = dry_run;
  }

  unfoldable pub classify_and_route :
      TaskSignals
      → (purpose : String) → Option String
      → (placement privacy_class provider : String) → (dry_run approved : Bool)
      → Routed (RouteDecision Spec)
  unfolding classify level_word check_request route
  classify_and_route s purpose requested_class placement privacy_class provider dry_run approved =
      let c = classify s in
      elim (c.flagged_for_review && not approved) [
        | true ↦ refused (approval_required c)
        | false ↦
            let r =
              request_for c.criticality purpose requested_class placement privacy_class provider
                dry_run in
            elim (check_request r) [
              | refused e ↦ refused e
              | routed ok ↦ elim (route ok) [
                | refused e ↦ refused e
                | routed d ↦ routed (record d { classification = some c })
              ]
            ]
      ]
