-- ===== src/Policy/Precedence/Allowed.antt =====
-- When `resolve` allows: the layers that stand above a grant, and the order of the defaults.
use shiroe.Prelude.{
  String, ◌≡◌, refl, ◌↔◌, ◌⊎◌, inl, inr, true, false, none, some, List, [], ◌∷◌, arith, contains,
  Option-cases, Bool-cases,
}
use mathlib.Core.List.{Memᴰ}
use mathlib.Core.List.Memᴰ
use Prim.Native.String.{◌++◌ as str_append}
use shiroe.Policy.Schema.{kind_eq, allow, deny, Action, Decision, PolicyLayer}
use shiroe.Policy.Precedence.{
  layer_named, decision, denies_action, allows_action, invariant_check, deny_check, grant_check,
  defaults_check, deny_names, default_names, resolve,
}

module _ (action : Action) (stack : List PolicyLayer) where
  -- The layer of that name is in the stack and allows the action.
  abbrev pub Allows : String → Type 0
  Allows name =
      (layer : PolicyLayer) × (layer_named stack name ≡ some layer)
      × (allows_action action layer ≡ true)

  -- If the layer of that name is in the stack, it does not deny the action.
  abbrev pub IsSilent : String → Type 0
  IsSilent name =
      (layer : PolicyLayer)
      → layer_named stack name ≡ some layer
      → denies_action action layer ≡ false

  -- If the layer of that name is in the stack, it does not allow the action.
  abbrev pub IsUnwilling : String → Type 0
  IsUnwilling name =
      (layer : PolicyLayer)
      → layer_named stack name ≡ some layer
      → allows_action action layer ≡ false

  abbrev pub InvariantHolds : Type 0
  InvariantHolds =
      (layer : PolicyLayer)
      → layer_named stack "runtime-invariant" ≡ some layer
      → contains layer.denies action.kind ≡ false

  -- Of the layers in this order the first that says something allows the action.
  pub data FirstAllows : List String → Type 0 where
    here : {name : String} {names : List String} → Allows name → FirstAllows (name ∷ names)
    later :
        {name : String} {names : List String}
        → IsUnwilling name
        → IsSilent name
        → FirstAllows names
        → FirstAllows (name ∷ names)

  pub record Permits : Type 0 where
    pub invariant : InvariantHolds
    pub denies : (name : String) → Memᴰ name deny_names → IsSilent name
    pub willing : Allows "explicit-user-grant" ⊎ FirstAllows default_names

module _ (action : Action) (stack : List PolicyLayer) where
  invariant_check-none : (invariant_check action stack ≡ none) ↔ InvariantHolds action stack
  unfolding invariant_check
  invariant_check-none = (
    λ h layer e. ground arith,
    λ h. elim (Option-cases (layer_named stack "runtime-invariant")) [
      | inl e ↦ ground arith
      | inr (layer, e) ↦ ground (arith, h layer e)
    ],
  )

  deny_check-none :
      (names : List String)
      → (deny_check action stack names ≡ none)
        ↔ ((name : String) → Memᴰ name names → IsSilent action stack name)
  unfolding deny_check
  deny_check-none [] = (λ h name m. absurd (Memᴰ.not-nil m), λ h. refl)
  deny_check-none (name ∷ names) = elim (Option-cases (layer_named stack name)) [
    | inl e ↦ (
      λ h other m layer found. elim (Memᴰ.cases_cons m) [
        | inl p ↦ ground arith
        | inr m' ↦ (deny_check-none names).0 (ground arith) other m' layer found
      ],
      λ h. ground (arith, (deny_check-none names).1 (λ other m. h other (Memᴰ.tail m))),
    )
    | inr (layer, e) ↦ (
      λ h other m layer' found. elim (Memᴰ.cases_cons m) [
        | inl p ↦ ground arith
        | inr m' ↦ (deny_check-none names).0 (ground arith) other m' layer' found
      ],
      λ h. ground (
        arith,
        h name (Memᴰ.head refl) layer e,
        (deny_check-none names).1 (λ other m. h other (Memᴰ.tail m)),
      ),
    )
  ]

  defaults_check-allow :
      (names : List String) (d : Decision)
      → defaults_check action stack names ≡ some d
      → d.verdict ≡ allow
      → FirstAllows action stack names
  unfolding defaults_check
  defaults_check-allow [] d e v = cc
  defaults_check-allow (name ∷ names) d e v = elim (Option-cases (layer_named stack name)) [
    | inl gone ↦
        later (λ layer found. cc) (λ layer found. cc)
          (defaults_check-allow names d (ground arith) v)
    | inr (layer, found) ↦ elim (Bool-cases (allows_action action layer)) [
      | inl yes_allows ↦ here (layer, found, yes_allows)
      | inr not_allows ↦
          later (λ other same. ground arith) (λ other same. ground arith)
            (defaults_check-allow names d (ground arith) v)
    ]
  ]

  FirstAllows-defaults_check :
      {names : List String}
      → FirstAllows action stack names
      → (d : Decision) × (defaults_check action stack names ≡ some d) × (d.verdict ≡ allow)
  unfolding defaults_check
  FirstAllows-defaults_check (here {name} (layer, found, allows)) =
      (decision allow (str_append "allowed by " name) name, ground arith, refl)
  FirstAllows-defaults_check (later {name} {names} unwilling silent rest) =
      let (d, e, v) = FirstAllows-defaults_check rest in
      elim (Option-cases (layer_named stack name)) [
        | inl gone ↦ (d, ground arith, v)
        | inr (layer, found) ↦ (d, ground (arith, unwilling layer found, silent layer found), v)
      ]

  deny_check-deny :
      (names : List String) (d : Decision)
      → deny_check action stack names ≡ some d
      → d.verdict ≡ deny
  unfolding deny_check
  deny_check-deny [] d e = cc
  deny_check-deny (name ∷ names) d e = ground (arith, deny_check-deny names d)

  invariant_check-deny : (d : Decision) → invariant_check action stack ≡ some d → d.verdict ≡ deny
  unfolding invariant_check
  invariant_check-deny d e = ground arith

  grant_check-some :
      (d : Decision) → grant_check action stack ≡ some d → Allows action stack "explicit-user-grant"
  unfolding grant_check
  grant_check-some d e = elim (Option-cases (layer_named stack "explicit-user-grant")) [
    | inl gone ↦ ground arith
    | inr (layer, found) ↦ (layer, found, ground arith)
  ]

  Allows-grant_check :
      Allows action stack "explicit-user-grant"
      → (d : Decision) × (grant_check action stack ≡ some d) × (d.verdict ≡ allow)
  unfolding grant_check
  Allows-grant_check (layer, found, allows) =
      (decision allow "explicit user grant" "explicit-user-grant", ground arith, refl)

  grant_check-allow : (d : Decision) → grant_check action stack ≡ some d → d.verdict ≡ allow
  unfolding grant_check
  grant_check-allow d e = ground arith

  permits_of_allow : (resolve action stack).verdict ≡ allow → Permits action stack
  unfolding resolve
  permits_of_allow h = elim (Option-cases (invariant_check action stack)) [
    | inr (d, e) ↦ ground (arith, invariant_check-deny d e)
    | inl free ↦ elim (Option-cases (deny_check action stack deny_names)) [
      | inr (d, e) ↦ ground (arith, deny_check-deny deny_names d e)
      | inl quiet ↦ record {
        invariant = invariant_check-none.0 free;
        denies = (deny_check-none deny_names).0 quiet;
        willing = elim (Option-cases (grant_check action stack)) [
          | inr (d, e) ↦ inl (grant_check-some d e)
          | inl ungranted ↦ elim (Option-cases (defaults_check action stack default_names)) [
            | inr (d, e) ↦ inr (defaults_check-allow default_names d e (ground arith))
            | inl silent ↦ ground arith
          ]
        ];
      }
    ]
  ]

  allow_of_permits : Permits action stack → (resolve action stack).verdict ≡ allow
  unfolding resolve
  allow_of_permits p =
      let free = invariant_check-none.1 p.invariant in
      let quiet = (deny_check-none deny_names).1 p.denies in
      elim p.willing [
        | inl granted ↦ let (d, e, v) = Allows-grant_check granted in ground arith
        | inr first ↦
            let (d, e, v) = FirstAllows-defaults_check first in
            elim (Option-cases (grant_check action stack)) [
              | inr (g, e') ↦ ground (arith, grant_check-allow g e')
              | inl ungranted ↦ ground arith
            ]
      ]

  -- `resolve` allows an action exactly if the runtime invariants do not deny its kind, neither deny
  -- layer denies it, and either the explicit grant allows it or, of the default layers in their
  -- order, the first that says something about it allows it.
  pub resolve-allow_iff : ((resolve action stack).verdict ≡ allow) ↔ Permits action stack
  resolve-allow_iff = (permits_of_allow, allow_of_permits)

  defaults_check_verdict :
      (names : List String) (d : Decision)
      → defaults_check action stack names ≡ some d
      → (d.verdict ≡ allow) ⊎ (d.verdict ≡ deny)
  unfolding defaults_check
  defaults_check_verdict [] d e = cc
  defaults_check_verdict (name ∷ names) d e = ground (arith, defaults_check_verdict names d)

  pub resolve_verdict :
      ((resolve action stack).verdict ≡ allow) ⊎ ((resolve action stack).verdict ≡ deny)
  unfolding resolve grant_check invariant_check
  resolve_verdict = elim (Option-cases (deny_check action stack deny_names)) [
    | inr (d, e) ↦ ground (arith, deny_check-deny deny_names d e)
    | inl quiet ↦ elim (Option-cases (defaults_check action stack default_names)) [
      | inr (d, e) ↦ ground (arith, defaults_check_verdict default_names d e)
      | inl silent ↦ ground arith
    ]
  ]
