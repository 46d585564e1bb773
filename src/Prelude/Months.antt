-- ===== src/Prelude/Months.antt =====
-- Files of lines, one for each month, that are read in the order of their paths.
pub mod Latest
use Prim.Native.Nat.{ℕ, zero, suc, compare, Ordering}
use Prim.Native.String.{String}
use mathlib.Core.Path.{◌≡◌, ◌∙◌, refl, ap, sym}
use mathlib.Core.Logic.{◌≢◌, ◌⊎◌, inl, inr}
use mathlib.Core.List.{List, [], ◌∷◌, ◌++◌, append_assoc, append-nil}
use native.Mathlib.Omega.{arith}
use shiroe.Prelude.Tests.{eqb}
use shiroe.Prelude.Text.{codes}
use shiroe.Prelude.Sets.{Ordering-cases}

abbrev pub Month : Type 0
Month = List ℕ

-- The order of two paths, by the code points of their parts.
unfoldable pub lex : Month → Month → Ordering
lex [] [] = Ordering.eq
lex [] (b ∷ bs) = Ordering.lt
lex (a ∷ as') [] = Ordering.gt
lex (a ∷ as') (b ∷ bs) =
    let rest = lex as' bs in
    elim (compare a b) [
      | Ordering.lt ↦ Ordering.lt
      | Ordering.gt ↦ Ordering.gt
      | Ordering.eq ↦ rest
    ]

take : ℕ → List ℕ → List ℕ
take zero xs = []
take (suc n) [] = []
take (suc n) (x ∷ xs) = x ∷ take n xs

drop : ℕ → List ℕ → List ℕ
drop zero xs = xs
drop (suc n) [] = []
drop (suc n) (x ∷ xs) = drop n xs

-- a folder of a path, behind it a mark before all characters; an empty text is no folder
folder : List ℕ → Month
folder [] = []
folder (c ∷ cs) = c ∷ cs ++ 0 ∷ []

-- the path of the file of a time stamp, from its year and month `ts[:4], ts[5:7]`
unfoldable pub month_of : String → Month
unfolding take drop folder
month_of ts =
    folder (take 4 (codes ts)) ++ folder (take 2 (drop 5 (codes ts))) ++ codes "events.jsonl"

-- The months that have a file, in order, and the lines of each.
abbrev pub Files {ℓ} : Type ℓ → Type ℓ
Files L = List (Month × List L)

module _ {ℓ} {L : Type ℓ} where
  -- appends a line to the file of a month, which is made if it is not there
  unfoldable pub add_line : Month → L → Files L → Files L
  unfolding lex
  add_line month line [] = (month, line ∷ []) ∷ []
  add_line month line ((m, ls) ∷ files) =
      let later = add_line month line files in
      elim (lex month m) [
        | Ordering.lt ↦ (month, line ∷ []) ∷ (m, ls) ∷ files
        | Ordering.eq ↦ (m, ls ++ line ∷ []) ∷ files
        | Ordering.gt ↦ (m, ls) ∷ later
      ]

  abbrev pub lines : Files L → List L
  lines [] = []
  lines ((m, ls) ∷ files) = ls ++ lines files

  -- no file is of a later month
  abbrev pub IsLatest : Month → Files L → Type 0
  IsLatest month [] = Unit
  IsLatest month ((m, ls) ∷ files) = (lex month m ≢ Ordering.lt) × IsLatest month files

  -- each month stands before the next
  abbrev pub IsSorted : Files L → Type 0
  IsSorted [] = Unit
  IsSorted ((m, ls) ∷ []) = Unit
  IsSorted ((m, ls) ∷ (m', ls') ∷ files) = (lex m m' ≡ Ordering.lt) × IsSorted ((m', ls') ∷ files)
