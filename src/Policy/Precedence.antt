-- ===== src/Policy/Precedence.antt =====
-- shiroe/policy/precedence.py: layers of rules, from the ones that nothing overrides to defaults.
pub mod Allowed
pub mod Scopes
pub mod Narrower
use Prim.Native.String.{◌++◌ as str_append}
use shiroe.Prelude.{
  ℕ, String, Bool, true, false, ◌||◌, Option, none, some, List, [], ◌∷◌, ◌++◌, contains, ◌==◌, eqb,
  string_eq, if◌then◌else◌,
}
use shiroe.Prelude.Sets.{intersect, sorted_set}
use shiroe.Prelude.Text.{codes, strip, drop_while_end, starts_with, same_text}
use shiroe.Policy.Schema.{
  network, fs_write, fs_read, kind_eq, Verdict, allow, deny, Action, Decision, PolicyLayer,
}

-- `layers.get(name)` of the dict that `_layer_dict` builds: the last layer of that name.
unfoldable pub layer_named : List PolicyLayer → String → Option PolicyLayer
layer_named [] name = none
layer_named (layer ∷ rest) name = elim (layer_named rest name) [
  | some later ↦ some later
  | none ↦ if layer.name == name then some layer else none
]

-- `text.strip().rstrip("/")`
pub normalized : String → List ℕ
unfolding strip drop_while_end
normalized text = drop_while_end (λ c. eqb c b'/') (strip (codes text))

-- the body of the loop over the scopes
pub in_scope : List ℕ → String → Bool
unfolding normalized same_text starts_with
in_scope target scope = elim (normalized scope) [
  | [] ↦ false
  | c ∷ cs ↦ same_text target (c ∷ cs) || starts_with target ((c ∷ cs) ++ b'/' ∷ [])
]

pub in_some_scope : List ℕ → List String → Bool
in_some_scope target [] = false
in_some_scope target (scope ∷ scopes) = in_scope target scope || in_some_scope target scopes

unfoldable pub path_in_scopes : String → List String → Bool
unfolding in_scope in_some_scope
path_in_scopes target [] = true
path_in_scopes target (scope ∷ scopes) = elim (normalized target) [
  | [] ↦ false
  | c ∷ cs ↦ in_some_scope (c ∷ cs) (scope ∷ scopes)
]

is_empty {ℓ} : {A : Type ℓ} → List A → Bool
is_empty [] = true
is_empty _ = false

unfoldable pub target_allowed : Action → PolicyLayer → Bool
unfolding path_in_scopes is_empty contains
target_allowed action layer = elim action.kind [
  | network ↦ is_empty layer.network_hosts || contains layer.network_hosts action.target
  | fs_write ↦ path_in_scopes action.target layer.fs_write_scopes
  | fs_read ↦ path_in_scopes action.target layer.fs_read_scopes
  | _ ↦ true
]

-- `action.kind in layer.denies and _target_allowed(action, layer)`
abbrev pub denies_action : Action → PolicyLayer → Bool
denies_action action layer =
    if contains layer.denies action.kind then target_allowed action layer else false

abbrev pub allows_action : Action → PolicyLayer → Bool
allows_action action layer =
    if contains layer.allows action.kind then target_allowed action layer else false

abbrev decision : Verdict → String → String → Decision
decision verdict reason layer = record {
  verdict = verdict;
  reason = reason;
  deciding_layer = layer;
}

abbrev pub deny_names : List String
deny_names = "project-deny" ∷ "global-deny" ∷ []

abbrev pub default_names : List String
default_names = "project-defaults" ∷ "global-defaults" ∷ "harness-defaults" ∷ []

module _ (action : Action) (stack : List PolicyLayer) where
  -- 1. the runtime invariants, whatever their scopes
  invariant_check : Option Decision
  invariant_check = elim (layer_named stack "runtime-invariant") [
    | none ↦ none
    | some inv ↦
        if contains inv.denies action.kind
        then some (decision deny "runtime safety invariant" "runtime-invariant")
        else none
  ]

  -- 2. and 3. the loop over the deny layers
  deny_check : List String → Option Decision
  deny_check [] = none
  deny_check (name ∷ names) =
      let rest = deny_check names in
      elim (layer_named stack name) [
        | none ↦ rest
        | some layer ↦
            if denies_action action layer
            then some (decision deny (str_append "denied by " name) name)
            else rest
      ]

  -- 4. the explicit user grant
  grant_check : Option Decision
  grant_check = elim (layer_named stack "explicit-user-grant") [
    | none ↦ none
    | some egrant ↦
        if allows_action action egrant
        then some (decision allow "explicit user grant" "explicit-user-grant")
        else none
  ]

  -- 5. to 7. the loop over the defaults: the first layer that says something decides
  defaults_check : List String → Option Decision
  defaults_check [] = none
  defaults_check (name ∷ names) =
      let rest = defaults_check names in
      elim (layer_named stack name) [
        | none ↦ rest
        | some layer ↦
            if allows_action action layer
            then some (decision allow (str_append "allowed by " name) name)
            else if denies_action action layer
            then some (decision deny (str_append "denied by " name) name)
            else rest
      ]

  unfoldable pub resolve : Decision
  unfolding invariant_check deny_check grant_check defaults_check
  resolve = elim invariant_check [
    | some d ↦ d
    | none ↦ elim (deny_check deny_names) [
      | some d ↦ d
      | none ↦ elim grant_check [
        | some d ↦ d
        | none ↦ elim (defaults_check default_names) [
          | some d ↦ d
          | none ↦ decision deny "no matching allow rule" "default-deny"
        ]
      ]
    ]
  ]

-- The union of two sets is their concatenation.
pub narrower : PolicyLayer → PolicyLayer → PolicyLayer
unfolding intersect sorted_set
narrower a b = record {
  name = a.name;
  denies = a.denies ++ b.denies;
  allows = intersect a.allows b.allows;
  fs_write_scopes = sorted_set (intersect a.fs_write_scopes b.fs_write_scopes);
  fs_read_scopes = sorted_set (a.fs_read_scopes ++ b.fs_read_scopes);
  network_hosts = sorted_set (intersect a.network_hosts b.network_hosts);
}
