-- ===== src/Policy/Precedence/Scopes.antt =====
-- Which targets lie in a list of path scopes.
use mathlib.Core.List.{Memᴰ}
use mathlib.Core.List.Memᴰ
use shiroe.Prelude.{
  ℕ, String, ◌≡◌, ◌≢◌, refl, ◌↔◌, ◌⊎◌, inl, inr, true, List, [], ◌∷◌, ◌++◌, arith, Bool-cases,
}
use shiroe.Prelude.Lists.{List-cases}
use shiroe.Prelude.Text.{same_text_iff, starts_with_iff}
use shiroe.Policy.Precedence.{normalized, in_scope, in_some_scope, path_in_scopes}

-- The target is the scope, or lies below it: the scope's text ends at a slash of the target.
abbrev pub Below : List ℕ → List ℕ → Type 0
Below target scope =
    (scope ≢ []) × ((target ≡ scope) ⊎ ((rest : List ℕ) × (target ≡ (scope ++ b'/' ∷ []) ++ rest)))

in_scope_iff :
    (target : List ℕ) (scope : String)
    → (in_scope target scope ≡ true) ↔ Below target (normalized scope)
unfolding in_scope
in_scope_iff target scope = elim (List-cases (normalized scope)) [
  | inl e ↦ ground arith
  | inr (c, cs, e) ↦
      rw (e, in_scope)
        (ground
          (arith, same_text_iff target (c ∷ cs), starts_with_iff target ((c ∷ cs) ++ b'/' ∷ [])))
]

in_some_scope_iff :
    (target : List ℕ) (scopes : List String)
    → (in_some_scope target scopes ≡ true)
      ↔ ((scope : String) × Memᴰ scope scopes × Below target (normalized scope))
unfolding in_some_scope
in_some_scope_iff target [] = (λ h. cc, λ h. absurd (Memᴰ.not-nil h.1))
in_some_scope_iff target (scope ∷ scopes) =
    let (split, join) = in_some_scope_iff target scopes in
    let (fits, fit) = in_scope_iff target scope in
    elim (Bool-cases (in_scope target scope)) [
      | inl e ↦ (λ h. (scope, Memᴰ.head refl, fits e), λ h. rw e)
      | inr e ↦ (
        λ h. let (other, m, b) = split (ground arith) in (other, Memᴰ.tail m, b),
        λ (other, m, b). elim (Memᴰ.cases_cons m) [
          | inl same ↦ let b' : Below target (normalized scope) = rw (← same) b in cc (fit b', e)
          | inr m' ↦ let r = join (other, m', b) in ground arith
        ],
      )
    ]

-- A target is accepted exactly if there are no scopes, or it is not empty and it is one of the
-- scopes or lies below one, both without surrounding space and trailing slashes; a scope that is
-- empty then covers nothing. A name that only begins like a scope (`src2` for `src`) is not
-- accepted, while the text behind the scope's slash is not looked at (`src/../etc`).
pub path_in_scopes_iff :
    (target : String) (scopes : List String)
    → (path_in_scopes target scopes ≡ true) ↔ (
        (scopes ≡ [])
        ⊎ (normalized target ≢ [])
          × ((scope : String) × Memᴰ scope scopes × Below (normalized target) (normalized scope)))
unfolding path_in_scopes
path_in_scopes_iff target [] = (λ h. inl refl, λ h. refl)
path_in_scopes_iff target (scope ∷ scopes) =
    let (split, join) = in_some_scope_iff (normalized target) (scope ∷ scopes) in
    elim (List-cases (normalized target)) [
      | inl e ↦ ground arith
      | inr (c, cs, e) ↦ (
        λ h. inr (λ empty. cc, split (ground arith)),
        λ h. elim h [ inl none_given ↦ cc | inr (_, found) ↦ let r = join found in ground arith ],
      )
    ]
