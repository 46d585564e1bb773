-- ===== src/Prelude/Text.antt =====
-- Python's `str` as the list of its code points, where the program looks inside a text.
use Prim.Native.Char.{code}
use Prim.Native.String.{String}
use mathlib.Core.Path.{◌≡◌, refl}
use mathlib.Core.Bool.{Bool, true, false, ◌&&◌, ◌||◌}
use mathlib.Core.List.{List, [], ◌∷◌, ◌++◌}
use mathlib.Core.Logic.{◌↔◌}
use Prim.Native.Nat.{ℕ}
use native.Mathlib.Omega.{arith}
use shiroe.Prelude.Tests.{leb, eqb, if◌then◌else◌}

abbrev pub codes : String → List ℕ
codes String.[] = []
codes (String.◌∷◌ c s) = code c ∷ codes s

-- `str.isspace` of one character
pub is_space : ℕ → Bool
is_space c =
    leb 9 c && leb c 13
    || leb 28 c && leb c 32
    || eqb c 0x85
    || eqb c 0xa0
    || eqb c 0x1680
    || leb 0x2000 c && leb c 0x200a
    || eqb c 0x2028
    || eqb c 0x2029
    || eqb c 0x202f
    || eqb c 0x205f
    || eqb c 0x3000

unfoldable pub drop_while : (ℕ → Bool) → List ℕ → List ℕ
drop_while p [] = []
drop_while p (c ∷ cs) = let rest = drop_while p cs in if p c then rest else c ∷ cs

-- drops the longest suffix of characters that pass the test
unfoldable pub drop_while_end : (ℕ → Bool) → List ℕ → List ℕ
drop_while_end p [] = []
drop_while_end p (c ∷ cs) = elim (drop_while_end p cs) [
  | [] ↦ if p c then [] else c ∷ []
  | d ∷ ds ↦ c ∷ d ∷ ds
]

-- `s.strip()`
unfoldable pub strip : List ℕ → List ℕ
unfolding is_space drop_while drop_while_end
strip s = drop_while_end is_space (drop_while is_space s)

-- `s.startswith(prefix)`
unfoldable pub starts_with : List ℕ → List ℕ → Bool
starts_with s [] = true
starts_with [] (p ∷ ps) = false
starts_with (c ∷ cs) (p ∷ ps) = if eqb c p then starts_with cs ps else false

unfoldable pub same_text : List ℕ → List ℕ → Bool
same_text [] [] = true
same_text (c ∷ cs) (d ∷ ds) = if eqb c d then same_text cs ds else false
same_text _ _ = false

pub starts_with_iff :
    (s p : List ℕ) → (starts_with s p ≡ true) ↔ ((rest : List ℕ) × (s ≡ p ++ rest))
unfolding starts_with
starts_with_iff s [] = (λ h. (s, refl), λ h. refl)
starts_with_iff [] (p ∷ ps) = (λ h. cc, λ h. cc (h.1))
starts_with_iff (c ∷ cs) (p ∷ ps) = ground (arith, starts_with_iff cs ps)

pub same_text_iff : (s t : List ℕ) → (same_text s t ≡ true) ↔ (s ≡ t)
unfolding same_text
same_text_iff [] [] = (λ h. refl, λ h. refl)
same_text_iff [] (d ∷ ds) = (λ h. cc, λ h. cc)
same_text_iff (c ∷ cs) [] = (λ h. cc, λ h. cc)
same_text_iff (c ∷ cs) (d ∷ ds) = ground (arith, same_text_iff cs ds)
