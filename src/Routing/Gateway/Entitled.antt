-- ===== src/Routing/Gateway/Entitled.antt =====
-- What the gateway grants.
use shiroe.Prelude.{
  ◌≤◌, String, Bool, false, ◌&&◌, ◌||◌, not, Option, none, some, ◌≡◌, refl, sym, ap, ◌∙◌, subst,
  ◌⊎◌, inl, inr, Bool-cases, Option-cases, arith, ◌==◌, string_eq, ltb,
}
use shiroe.Routing.Levels.{
  Level, low, medium, high, critical, ReasoningClass, class_index, resolve_class,
}
use shiroe.Routing.Signals.{TaskSignals, word_in, privacy_classes}
use shiroe.Routing.Criticality.{classify, level_word}
use shiroe.Routing.Gateway.{
  Routed, routed, refused, RoutingError, level_of, class_words, Granted, buys, is_placement,
  validate_request, ModelCallRequest, is_blank, check_class, check_request, RouteDecision, grant,
  place, route, request_for, classify_and_route,
}

Routed-cases {ℓ} :
    {T : Type ℓ} (o : Routed T)
    → ((f : RoutingError) × (o ≡ refused f)) ⊎ ((t : T) × (o ≡ routed t))
Routed-cases (routed t) = inr (t, refl)
Routed-cases (refused f) = inl (f, refl)

-- no placement is asked for as a class
abbrev AsksClass : Option String → Type 0
AsksClass none = Unit
AsksClass (some requested) = is_placement requested ≡ false

abbrev IsEntitled : Level → Granted → Type 0
IsEntitled level g =
    (c : ReasoningClass) × (g ≡ buys c) × (class_index c ≤ class_index (resolve_class level))

grant-IsEntitled :
    (level : Level) (asked : Option String) (g : Granted)
    → AsksClass asked
    → grant level asked ≡ routed g
    → IsEntitled level g
unfolding grant validate_request
grant-IsEntitled level none g a h =
    let p : buys (resolve_class level) ≡ g = ground arith in
    (resolve_class level, sym p, ground arith)
grant-IsEntitled level (some requested) g a h =
    elim (Option-cases (word_in class_words requested)) [
      | inl e ↦ ground (arith, a, e)
      | inr (c, e) ↦ elim (Bool-cases (ltb (class_index (resolve_class level)) (class_index c))) [
        | inl t ↦ ground (arith, a, e, t)
        | inr t ↦ let p : buys c ≡ g = ground (arith, a, e, t) in (c, sym p, ground arith)
      ]
    ]

check_class-routed :
    (r t : ModelCallRequest) → check_class r ≡ routed t → (r ≡ t) × AsksClass r.requested_class
unfolding check_class
check_class-routed r t h = elim (Option-cases r.requested_class) [
  | inl e ↦ (ground (arith, e), subst AsksClass (sym e) tt)
  | inr (requested, e) ↦ elim (Bool-cases (is_placement requested)) [
    | inl p ↦ ground (arith, e, p)
    | inr p ↦ (ground (arith, e, p), subst AsksClass (sym e) p)
  ]
]

check_request-routed :
    (r t : ModelCallRequest) → check_request r ≡ routed t → (r ≡ t) × AsksClass r.requested_class
unfolding check_request
check_request-routed r t h = elim (Option-cases (level_of r.criticality)) [
  | inl e ↦ ground (arith, e)
  | inr (level, e) ↦ elim (Bool-cases (is_blank r.purpose)) [
    | inl b ↦ ground (arith, e, b)
    | inr b ↦ elim (Bool-cases ((r.placement == "any") || is_placement r.placement)) [
      | inr p ↦ ground (arith, e, b, p)
      | inl p ↦ elim (Option-cases (word_in privacy_classes r.privacy_class)) [
        | inl q ↦ ground (arith, e, b, p, q)
        | inr (privacy, q) ↦ check_class-routed r t (
            rw (q, check_request) at
              (rw (p, check_request) at (rw (b, check_request) at (rw (e, check_request) at h))))
      ]
    ]
  ]
]

level_of-level_word : (level : Level) → level_of (level_word level) ≡ some level
unfolding level_of level_word
level_of-level_word low = refl
level_of-level_word medium = refl
level_of-level_word high = refl
level_of-level_word critical = refl

module _ {Spec : Type 0} (resolve_model : Granted → String → Bool → Option Spec)
    (digest : String → String) where
  place-routed :
      (r : ModelCallRequest) (level : Level) (g : Granted) (d : RouteDecision Spec)
      → place resolve_model digest r level g ≡ routed d
      → (is_placement r.placement ≡ false)
        × (resolve_model g r.provider (not r.dry_run) ≡ some d.model_spec)
        × (d.criticality ≡ level)
        × (d.reasoning_class ≡ g)
  unfolding place
  place-routed r level g d h = elim (Bool-cases (is_placement r.placement)) [
    | inl p ↦ ground (arith, p)
    | inr p ↦ elim (Option-cases (resolve_model g r.provider (not r.dry_run))) [
      | inl e ↦ ground (arith, p, e)
      | inr (spec, e) ↦
          let q : spec ≡ d.model_spec = ground (arith, p, e) in
          (p, e ∙ ap some q, ground (arith, p, e), ground (arith, p, e))
    ]
  ]

  route-routed :
      (r : ModelCallRequest) (d : RouteDecision Spec)
      → AsksClass r.requested_class
      → route resolve_model digest r ≡ routed d
      → (level_of r.criticality ≡ some d.criticality)
        × IsEntitled d.criticality d.reasoning_class
        × (is_placement r.placement ≡ false)
        × (resolve_model d.reasoning_class r.provider (not r.dry_run) ≡ some d.model_spec)
  unfolding route
  route-routed r d a h = elim (Option-cases (level_of r.criticality)) [
    | inl e ↦ ground (arith, e)
    | inr (level, e) ↦ elim (Routed-cases (grant level r.requested_class)) [
      | inl (f, g) ↦ ground (arith, e, g)
      | inr (granted, g) ↦
          let (p, m, c, q) =
            place-routed r level granted d (rw (g, route) at (rw (e, route) at h)) in
          let entitled = grant-IsEntitled level r.requested_class granted a g in
          (
            e ∙ ap some (sym c),
            subst (λ l. IsEntitled l d.reasoning_class) (sym c)
                (subst (IsEntitled level) (sym q) entitled),
            p,
            subst (λ x. resolve_model x r.provider (not r.dry_run) ≡ some d.model_spec) (sym q) m,
          )
    ]
  ]

  -- Where a classified task is routed, its classification was not flagged for review or a human approved
  -- it; the decision carries that classification and its criticality, grants a class that is no dearer than
  -- the one the criticality is entitled to, and names the model that the provider has for the granted class,
  -- live unless the call is a dry run; the placement is neither local nor private.
  pub classify_and_route-routed :
      (s : TaskSignals) (purpose : String) (asked : Option String)
      (placement privacy_class provider : String) (dry_run approved : Bool) (d : RouteDecision Spec)
      → classify_and_route resolve_model digest s purpose asked placement privacy_class provider
          dry_run approved
        ≡ routed d
      → (((classify s).flagged_for_review && not approved) ≡ false)
        × (d.classification ≡ some (classify s))
        × (d.criticality ≡ (classify s).criticality)
        × ((c : ReasoningClass) × (d.reasoning_class ≡ buys c)
            × (class_index c ≤ class_index (resolve_class d.criticality)))
        × (is_placement placement ≡ false)
        × (resolve_model d.reasoning_class provider (not dry_run) ≡ some d.model_spec)
  unfolding classify_and_route
  classify_and_route-routed s purpose asked placement privacy_class provider dry_run approved d h =
      let c = classify s in
      let r =
        request_for resolve_model digest c.criticality purpose asked placement privacy_class
          provider dry_run in
      elim (Bool-cases (c.flagged_for_review && not approved)) [
        | inl b ↦ ground (arith, b)
        | inr b ↦ elim (Routed-cases (check_request r)) [
          | inl (f, e) ↦ ground (arith, b, e)
          | inr (t, e) ↦ elim (Routed-cases (route resolve_model digest t)) [
            | inl (f, g) ↦ ground (arith, b, e, g)
            | inr (d', g) ↦
                let (same, asks) = check_request-routed r t e in
                let g' : route resolve_model digest r ≡ routed d' = rw same g in
                let (l, entitled, p, m) = route-routed r d' asks g' in
                let k : some c.criticality ≡ some d'.criticality =
                  sym (level_of-level_word c.criticality) ∙ l in
                let q : record d' { classification = some c } ≡ d = ground (arith, b, e, g) in
                (
                  b,
                  ap (λ x. x.classification) (sym q),
                  ap (λ x. x.criticality) (sym q) ∙ ground (arith, k),
                  subst (λ x. IsEntitled x.criticality x.reasoning_class) q entitled,
                  p,
                  subst
                      (λ x.
                        resolve_model x.reasoning_class provider (not dry_run) ≡ some x.model_spec)
                      q m,
                )
          ]
        ]
      ]
