-- ===== src/Policy/Tests.antt =====
-- Small policies, and what the program decides on them.
use mathlib.Core.List.{Memᴰ}
use mathlib.Core.List.Memᴰ
use shiroe.Prelude.{
  String, ◌≡◌, ◌≢◌, refl, ◌↔◌, ◌⊎◌, inl, true, false, List, [], ◌∷◌, contains, contains_iff,
  string_eq,
}
use shiroe.Policy.Schema.{
  ActionKind, fs_write, push, kind_eq, allow, deny, require_approval, Action, PolicyLayer,
}
use shiroe.Policy.Precedence.{
  layer_named, resolve, path_in_scopes, normalized, narrower, target_allowed, allows_action,
}
use shiroe.Policy.Precedence.Allowed.{Permits, resolve-allow_iff}
use shiroe.Policy.Precedence.Scopes.{Below, path_in_scopes_iff}
use shiroe.Policy.Precedence.Narrower.{narrower_narrows, narrower_widens}
use shiroe.Policy.Autonomy.{auto_safe, policy_bound, autonomy_gate, always_require_approval}
use shiroe.Policy.Engine.{evaluate}
use shiroe.Policy.Engine.Verdicts.{evaluate_verdict_iff, evaluate-ne-allow}

abbrev views_only : PolicyLayer
views_only = record {
  name = "project-defaults";
  denies = [];
  allows = fs_write ∷ push ∷ [];
  fs_write_scopes = "memory/views/" ∷ "docs" ∷ [];
  fs_read_scopes = [];
  network_hosts = [];
}

abbrev docs_only : PolicyLayer
docs_only = record views_only { fs_write_scopes = "docs" ∷ [] }

abbrev raw_only : PolicyLayer
raw_only = record views_only { fs_write_scopes = "memory/raw" ∷ [] }

abbrev no_push : PolicyLayer
no_push = record {
  name = "project-deny";
  denies = push ∷ [];
  allows = [];
  fs_write_scopes = [];
  fs_read_scopes = [];
  network_hosts = [];
}

abbrev write_to : String → Action
write_to target = record { kind = fs_write; target = target }

abbrev push_it : Action
push_it = record { kind = push; target = "origin" }

abbrev stack : List PolicyLayer
stack = no_push ∷ views_only ∷ []

-- a sibling of a scope is outside, a path below it is inside, and so is one that climbs out of it
scope_tests :
    (path_in_scopes "memory/views/a.md" views_only.fs_write_scopes ≡ true)
    × (path_in_scopes "memory/views2/a.md" views_only.fs_write_scopes ≡ false)
    × (path_in_scopes "docs/../etc" views_only.fs_write_scopes ≡ true)
unfolding path_in_scopes
scope_tests = (refl, refl, refl)

resolve_tests :
    ((resolve push_it stack).deciding_layer ≡ "project-deny")
    × ((resolve (write_to "docs/x") stack).verdict ≡ allow)
    × ((resolve (write_to "src/x") stack).deciding_layer ≡ "default-deny")
unfolding resolve layer_named target_allowed contains
resolve_tests = (refl, refl, refl)

evaluate_tests :
    ((evaluate (write_to "docs/x") stack auto_safe).verdict ≡ require_approval)
    × ((evaluate (write_to "docs/x") stack policy_bound).verdict ≡ allow)
unfolding evaluate resolve layer_named target_allowed contains autonomy_gate
evaluate_tests = (refl, refl)

resolve-allow_iff_example :
    ((resolve (write_to "docs/x") stack).verdict ≡ allow) ↔ Permits (write_to "docs/x") stack
resolve-allow_iff_example = resolve-allow_iff (write_to "docs/x") stack

evaluate_verdict_iff_example :
    (((evaluate push_it stack policy_bound).verdict ≡ allow)
      ↔ (Permits push_it stack × (autonomy_gate push policy_bound ≡ true)))
    × (((evaluate push_it stack policy_bound).verdict ≡ require_approval)
        ↔ (Permits push_it stack × (autonomy_gate push policy_bound ≡ false)))
    × (((evaluate push_it stack policy_bound).verdict ≡ deny) ↔ (¬ Permits push_it stack))
evaluate_verdict_iff_example = evaluate_verdict_iff push_it stack policy_bound

push_is_listed : contains always_require_approval push ≡ true
unfolding contains
push_is_listed = refl

evaluate-ne-allow_example : (evaluate push_it (views_only ∷ []) policy_bound).verdict ≢ allow
evaluate-ne-allow_example =
    evaluate-ne-allow push_it (views_only ∷ []) policy_bound (inl push_is_listed)

path_in_scopes_iff_example : (path_in_scopes "docs/x" ("docs" ∷ []) ≡ true) ↔ (
    (◌≡◌ {A = List String} ("docs" ∷ []) [])
    ⊎ (normalized "docs/x" ≢ [])
      × ((scope : String) × Memᴰ scope ("docs" ∷ [])
          × Below (normalized "docs/x") (normalized scope)))
path_in_scopes_iff_example = path_in_scopes_iff "docs/x" ("docs" ∷ [])

narrower_narrows_example :
    ((kind : ActionKind)
      → (contains (narrower views_only docs_only).allows kind ≡ true)
        ↔ ((contains views_only.allows kind ≡ true) × (contains docs_only.allows kind ≡ true)))
    × ((kind : ActionKind)
        → (contains (narrower views_only docs_only).denies kind ≡ true)
          ↔ ((contains views_only.denies kind ≡ true) ⊎ (contains docs_only.denies kind ≡ true)))
    × ((target : String)
        → path_in_scopes target (narrower views_only docs_only).fs_write_scopes ≡ true
        → (path_in_scopes target views_only.fs_write_scopes ≡ true)
          × (path_in_scopes target docs_only.fs_write_scopes ≡ true))
narrower_narrows_example =
    narrower_narrows views_only docs_only "docs" (Memᴰ.tail (Memᴰ.head refl)) (Memᴰ.head refl)

no_common_scope :
    (s : String) → Memᴰ s views_only.fs_write_scopes → Memᴰ s raw_only.fs_write_scopes → ⊥
unfolding contains
no_common_scope s m k =
    let p : s ≡ "memory/raw" = Memᴰ.eq_of_singleton k in
    let c = (contains_iff views_only.fs_write_scopes "memory/raw").1 (rw p at m) in cc

write_is_listed : contains views_only.allows fs_write ≡ true
unfolding contains
write_is_listed = refl

narrower_widens_example : allows_action (write_to "src/x") (narrower views_only raw_only) ≡ true
narrower_widens_example =
    narrower_widens views_only raw_only no_common_scope write_is_listed write_is_listed "src/x"
