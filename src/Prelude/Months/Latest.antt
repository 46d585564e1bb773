-- ===== src/Prelude/Months/Latest.antt =====
-- A line of the latest month goes to the end of what is read.
use Prim.Native.Nat.{Ordering}
use mathlib.Core.List.{append_assoc, append-nil}
use shiroe.Prelude.{◌≡◌, refl, sym, subst, inl, inr, List, [], ◌∷◌, ◌++◌, arith}
use shiroe.Prelude.Sets.{Ordering-cases}
use shiroe.Prelude.Months.{Month, lex, Files, add_line, lines, IsLatest, IsSorted}

lex_eq : (a b : Month) → lex a b ≡ Ordering.eq → a ≡ b
unfolding lex
lex_eq [] [] h = refl
lex_eq [] (b ∷ bs) h = cc
lex_eq (a ∷ as') [] h = cc
lex_eq (a ∷ as') (b ∷ bs) h = ground (arith, lex_eq as' bs)

lex_gt : (a b : Month) → lex a b ≡ Ordering.gt → lex b a ≡ Ordering.lt
unfolding lex
lex_gt [] [] h = cc
lex_gt [] (b ∷ bs) h = cc
lex_gt (a ∷ as') [] h = refl
lex_gt (a ∷ as') (b ∷ bs) h = ground (arith, lex_gt as' bs)

module _ {ℓ} {L : Type ℓ} where
  pub lines-add_line :
      (month : Month) (line : L) (files : Files L)
      → IsSorted files
      → IsLatest month files
      → lines (add_line month line files) ≡ lines files ++ line ∷ []
  unfolding add_line
  lines-add_line month line [] s l = refl
  lines-add_line month line ((m, ls) ∷ []) s l = elim (Ordering-cases (lex month m)) [
    | inl e ↦ absurd (l.0 e)
    | inr (inl e) ↦ rw (e, add_line) (simp append-nil)
    | inr (inr e) ↦ rw (e, add_line) (simp append-nil)
  ]
  lines-add_line month line ((m, ls) ∷ (m', ls') ∷ files) s l =
      elim (Ordering-cases (lex month m)) [
        | inl e ↦ absurd (l.0 e)
        | inr (inl e) ↦
            let p : month ≡ m = lex_eq month m e in
            absurd (l.1.0 (subst (λ k. lex k m' ≡ Ordering.lt) (sym p) s.0))
        | inr (inr e) ↦
            rw (e, add_line)
              (rw (lines-add_line month line ((m', ls') ∷ files) s.1 l.1) (simp append_assoc))
      ]

  IsSorted-cons :
      (m : Month) (ls : List L) (month : Month) (line : L) (files : Files L)
      → lex month m ≡ Ordering.gt
      → IsSorted ((m, ls) ∷ files)
      → IsSorted (add_line month line files)
      → IsSorted ((m, ls) ∷ add_line month line files)
  unfolding add_line
  IsSorted-cons m ls month line [] g s t = (lex_gt month m g, tt)
  IsSorted-cons m ls month line ((m', ls') ∷ files) g s t = elim (Ordering-cases (lex month m')) [
    | inl e ↦ rw (e, add_line) (lex_gt month m g, rw (e, add_line) at t)
    | inr (inl e) ↦ rw (e, add_line) (s.0, rw (e, add_line) at t)
    | inr (inr e) ↦ rw (e, add_line) (s.0, rw (e, add_line) at t)
  ]

  IsSorted-tail :
      (m : Month) (ls : List L) (files : Files L) → IsSorted ((m, ls) ∷ files) → IsSorted files
  IsSorted-tail m ls [] s = tt
  IsSorted-tail m ls (f ∷ files) s = s.1

  IsSorted-longer :
      (m : Month) (ls more : List L) (files : Files L)
      → IsSorted ((m, ls) ∷ files)
      → IsSorted ((m, more) ∷ files)
  IsSorted-longer m ls more [] s = tt
  IsSorted-longer m ls more (f ∷ files) s = s

  pub add_line-IsSorted :
      (month : Month) (line : L) (files : Files L)
      → IsSorted files
      → IsSorted (add_line month line files)
  unfolding add_line
  add_line-IsSorted month line [] s = tt
  add_line-IsSorted month line ((m, ls) ∷ files) s = elim (Ordering-cases (lex month m)) [
    | inl e ↦ rw (e, add_line) (e, s)
    | inr (inl e) ↦ rw (e, add_line) (IsSorted-longer m ls (ls ++ line ∷ []) files s)
    | inr (inr e) ↦
        rw (e, add_line)
          (IsSorted-cons m ls month line files e s
            (add_line-IsSorted month line files (IsSorted-tail m ls files s)))
  ]
