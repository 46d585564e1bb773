-- ===== src/Policy/Precedence/Narrower.antt =====
-- What `narrower` does to the rules and to the write scopes of two layers.
use mathlib.Core.List.{Memᴰ}
use mathlib.Core.List.Memᴰ
use shiroe.Prelude.{
  String, ◌≡◌, ◌≢◌, refl, ◌↔◌, ◌⊎◌, inl, inr, true, List, [], arith, contains, contains_iff,
  string_eq,
}
use shiroe.Prelude.Lists.{List-cases, Memᴰ-append}
use shiroe.Prelude.Sets.{intersect, mem-intersect, mem-sorted_set}
use shiroe.Policy.Schema.{ActionKind, kind_eq, fs_write, PolicyLayer}
use shiroe.Policy.Precedence.{narrower, allows_action, path_in_scopes, target_allowed}
use shiroe.Policy.Precedence.Scopes.{path_in_scopes_iff}

module _ (a b : PolicyLayer) where
  mem-write_scopes :
      (s : String)
      → Memᴰ s (narrower a b).fs_write_scopes
        ↔ (Memᴰ s a.fs_write_scopes × Memᴰ s b.fs_write_scopes)
  unfolding narrower
  mem-write_scopes s = ground (
    arith,
    mem-sorted_set s (intersect a.fs_write_scopes b.fs_write_scopes),
    mem-intersect s a.fs_write_scopes b.fs_write_scopes,
  )

  allows_iff :
      (kind : ActionKind)
      → (contains (narrower a b).allows kind ≡ true)
        ↔ ((contains a.allows kind ≡ true) × (contains b.allows kind ≡ true))
  unfolding narrower
  allows_iff kind = ground (
    arith,
    contains_iff (intersect a.allows b.allows) kind,
    contains_iff a.allows kind,
    contains_iff b.allows kind,
    mem-intersect kind a.allows b.allows,
  )

  denies_iff :
      (kind : ActionKind)
      → (contains (narrower a b).denies kind ≡ true)
        ↔ ((contains a.denies kind ≡ true) ⊎ (contains b.denies kind ≡ true))
  unfolding narrower
  denies_iff kind = ground (
    arith,
    contains_iff (narrower a b).denies kind,
    contains_iff a.denies kind,
    contains_iff b.denies kind,
    Memᴰ-append kind a.denies b.denies,
  )

  -- A target in scopes that are not empty is in each larger list of scopes.
  in_larger_scopes :
      (target : String) (inner outer : List String)
      → inner ≢ []
      → ((s : String) → Memᴰ s inner → Memᴰ s outer)
      → path_in_scopes target inner ≡ true
      → path_in_scopes target outer ≡ true
  in_larger_scopes target inner outer some_inner larger h =
      elim ((path_in_scopes_iff target inner).0 h) [
        | inl e ↦ absurd (some_inner e)
        | inr (given, (s, m, below)) ↦
            (path_in_scopes_iff target outer).1 (inr (given, (s, larger s m, below)))
      ]

  -- `narrower` allows a kind exactly if both layers allow it and denies it exactly if one of them
  -- does; if the two layers share a write scope, a path that the result lets through to a write is
  -- let through by both layers.
  pub narrower_narrows :
      (shared : String)
      → Memᴰ shared a.fs_write_scopes
      → Memᴰ shared b.fs_write_scopes
      → ((kind : ActionKind)
          → (contains (narrower a b).allows kind ≡ true)
            ↔ ((contains a.allows kind ≡ true) × (contains b.allows kind ≡ true)))
        × ((kind : ActionKind)
            → (contains (narrower a b).denies kind ≡ true)
              ↔ ((contains a.denies kind ≡ true) ⊎ (contains b.denies kind ≡ true)))
        × ((target : String)
            → path_in_scopes target (narrower a b).fs_write_scopes ≡ true
            → (path_in_scopes target a.fs_write_scopes ≡ true)
              × (path_in_scopes target b.fs_write_scopes ≡ true))
  narrower_narrows shared in_a in_b =
      let scopes = (narrower a b).fs_write_scopes in
      let some_scope : scopes ≢ [] =
        λ e. Memᴰ.not-nil (rw e at ((mem-write_scopes shared).1 (in_a, in_b))) in
      (
        allows_iff,
        denies_iff,
        λ target h. (
          in_larger_scopes target scopes a.fs_write_scopes some_scope
              (λ s m. ((mem-write_scopes s).0 m).0) h,
          in_larger_scopes target scopes b.fs_write_scopes some_scope
              (λ s m. ((mem-write_scopes s).0 m).1) h,
        ),
      )

  -- If two layers allow writes and share no write scope, `narrower` allows a write to every path,
  -- also to the paths that neither layer lets through.
  pub narrower_widens :
      ((s : String) → Memᴰ s a.fs_write_scopes → Memᴰ s b.fs_write_scopes → ⊥)
      → contains a.allows fs_write ≡ true
      → contains b.allows fs_write ≡ true
      → (target : String)
      → allows_action (record { kind = fs_write; target = target }) (narrower a b) ≡ true
  unfolding target_allowed path_in_scopes
  narrower_widens disjoint in_a in_b target = elim (List-cases (narrower a b).fs_write_scopes) [
    | inl e ↦ ground (arith, allows_iff fs_write)
    | inr (s, rest, e) ↦
        let m : Memᴰ s (narrower a b).fs_write_scopes = rw e (Memᴰ.head refl) in
        let (l, r) = (mem-write_scopes s).0 m in absurd (disjoint s l r)
  ]
