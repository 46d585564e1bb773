-- ===== src/Execution/Budget.antt =====
-- shiroe/execution/budget.py. An amount that is given as a text counts as 0 here. An amount of money is a whole
-- number of a unit that is small enough; the rounding of floats is not modelled. A cap of 0 is no cap.
use shiroe.Prelude.{
  ℕ, ◌+◌, ◌≤◌, String, Bool, true, false, ◌&&◌, not, Option, none, some, ◌≡◌, ◌↔◌, ◌⊎◌, ltb, eqb,
  if◌then◌else◌, arith, string_eq,
}
use shiroe.Prelude.Int.{ℤ, at_least}
use shiroe.Prelude.Json.{num, bool, Fields, get_field}

pub record BudgetTracker : Type 0 where
  pub usd_max : ℕ
  pub tokens_input_max : ℕ
  pub tokens_output_max : ℕ
  pub usd_spent : ℕ
  pub tokens_input_spent : ℕ
  pub tokens_output_spent : ℕ

-- what a projection or a usage names
pub record Spend : Type 0 where
  pub usd : ℕ
  pub tokens_input : ℕ
  pub tokens_output : ℕ

-- `BudgetTracker(usd_max=..., ...)`; `none` is the ValueError of a cap below 0
unfoldable pub make_budget : ℤ → ℤ → ℤ → Option BudgetTracker
unfolding at_least
make_budget usd_max tokens_input_max tokens_output_max = elim (at_least 0 usd_max) [
  | none ↦ none
  | some usd ↦ elim (at_least 0 tokens_input_max) [
    | none ↦ none
    | some input ↦ elim (at_least 0 tokens_output_max) [
      | none ↦ none
      | some output ↦ some (record {
        usd_max = usd;
        tokens_input_max = input;
        tokens_output_max = output;
        usd_spent = 0;
        tokens_input_spent = 0;
        tokens_output_spent = 0;
      })
    ]
  ]
]

-- `int(fields.get(key, 0) or 0)` where the value is a number, a truth value or null
unfoldable pub amount : String → Fields → ℕ
unfolding get_field
amount key fields = elim (get_field key fields) [ some (num n) ↦ n | some (bool true) ↦ 1 | _ ↦ 0 ]

unfoldable pub spend_of : Fields → Spend
unfolding amount
spend_of fields = record {
  usd = amount "cost_usd" fields;
  tokens_input = amount "tokens_in" fields;
  tokens_output = amount "tokens_out" fields;
}

-- `cap and spent + projected > cap`
unfoldable pub bursts : (cap spent projected : ℕ) → Bool
bursts cap spent projected = not (eqb cap 0) && ltb cap (spent + projected)

unfoldable pub would_exceed : BudgetTracker → Spend → Option String
unfolding bursts
would_exceed b p =
    if bursts b.usd_max b.usd_spent p.usd
    then some "usd_max"
    else if bursts b.tokens_input_max b.tokens_input_spent p.tokens_input
    then some "tokens_input_max"
    else if bursts b.tokens_output_max b.tokens_output_spent p.tokens_output
    then some "tokens_output_max"
    else none

unfoldable pub charge : BudgetTracker → Spend → BudgetTracker
charge b p = record b {
  usd_spent = b.usd_spent + p.usd;
  tokens_input_spent = b.tokens_input_spent + p.tokens_input;
  tokens_output_spent = b.tokens_output_spent + p.tokens_output;
}

-- the cap is none, or what is spent stays within it
abbrev pub IsUnder : (cap spent : ℕ) → Type 0
IsUnder cap spent = (cap ≡ 0) ⊎ (spent ≤ cap)

abbrev pub IsWithin : BudgetTracker → Type 0
IsWithin b =
    IsUnder b.usd_max b.usd_spent
    × IsUnder b.tokens_input_max b.tokens_input_spent
    × IsUnder b.tokens_output_max b.tokens_output_spent

bursts_iff : (cap spent p : ℕ) → (bursts cap spent p ≡ false) ↔ IsUnder cap (spent + p)
unfolding bursts
bursts_iff cap spent p = (λ h. ground arith, λ h. ground arith)

-- `would_exceed` names no cap exactly where each cap is 0 or is at least what is spent after the
-- projection is charged.
pub would_exceed_iff :
    (b : BudgetTracker) (p : Spend) → (would_exceed b p ≡ none) ↔ IsWithin (charge b p)
unfolding would_exceed charge
would_exceed_iff b p =
    let (u, v) = bursts_iff b.usd_max b.usd_spent p.usd in
    let (i, j) = bursts_iff b.tokens_input_max b.tokens_input_spent p.tokens_input in
    let (o, q) = bursts_iff b.tokens_output_max b.tokens_output_spent p.tokens_output in
    (
      λ h. (u (ground arith), i (ground arith), o (ground arith)),
      λ (x, y, z). let x' = v x in let y' = j y in let z' = q z in ground arith,
    )
