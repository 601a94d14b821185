-- ===== src/Strategies/Balance.antt =====
-- The debts as strategies/engine.py reads them: `estimate_balance` of common/rates.py,
-- `_resolved_mortgage_balance`, `_first_mortgage` and `_distress_present`. The clock, which is read
-- where no date is given, is the argument `today`.
use house_analysis_ai.Prelude.{
  Bool, false, ◌&&◌, ◌||◌, Option, none, some, List, [], ◌∷◌, String, ◌==◌, string_eq,
  if◌then◌else◌, any, keep,
}
use house_analysis_ai.Prelude.Int.{ℤ, pos, ◌-ℤ◌, leb_ℤ}
use house_analysis_ai.Python.{
  Python, ◌⊕◌, ◌⊖◌, ◌⊗◌, ◌⊘◌, zero_decimal, one_decimal, lt, nonzero, same,
}
use house_analysis_ai.Contracts.{Date, NormalizedProperty, MortgageRecord, TrackedValue}
use house_analysis_ai.Finance.{value_of, int_or, historical_rate, months_from, is_heloc, is_first}

-- `max(0, n)`
abbrev not_negative : ℤ → ℤ
not_negative n = if leb_ℤ (pos 0) n then n else pos 0

-- `as_of or datetime.now(UTC).date()`
abbrev date_or : Date → Option Date → Date
date_or today none = today
date_or today (some as_of) = as_of

module _ {D : Type 0} ⦃py : Python D⦄ where
  open py use {dec, of_int, power, le, casefold}

  -- `x or ZERO`
  abbrev pub decimal_or_zero : Option D → D
  decimal_or_zero none = zero_decimal
  decimal_or_zero (some v) = if nonzero v then v else zero_decimal

  -- `_tracked(block) or ZERO`
  abbrev pub tracked_or_zero : Option (TrackedValue D) → D
  tracked_or_zero tracked = decimal_or_zero (value_of tracked)

  -- the balance, `months` into a loan of `term` months that are not over
  unfoldable pub balance_within : D → D → ℤ → ℤ → D
  balance_within original annual term months =
      let monthly = annual ⊘ dec 12 0 in
      let growth = power (one_decimal ⊕ monthly) (of_int term) in
      let grown = power (one_decimal ⊕ monthly) (of_int months) in
      if same annual zero_decimal
      then original ⊗ of_int (term -ℤ months) ⊘ of_int term
      else original ⊗ (growth ⊖ grown) ⊘ (growth ⊖ one_decimal)

  -- `estimate_balance` of common/rates.py
  unfoldable pub amortized_balance :
      Option D → Option D → Option ℤ → Option Date → Option Date → String → Option D
  amortized_balance (some original) rate term_months (some origination_date) (some as_of)
        loan_type =
      let term = int_or (pos 360) term_months in
      let months = not_negative (months_from origination_date as_of) in
      let annual : D = elim rate [
        | none ↦ historical_rate origination_date.year loan_type
        | some given ↦ given
      ] in
      if le original zero_decimal
      then none
      else if leb_ℤ term months
      then some zero_decimal
      else some (balance_within original annual term months)
  amortized_balance _ _ _ _ _ _ = none

  -- the balance where none is reported
  unfoldable pub unreported_balance : MortgageRecord D → Option Date → Date → Option D
  unreported_balance mortgage as_of today =
      if is_heloc mortgage
      then none
      else amortized_balance (value_of mortgage.original_amount) mortgage.rate mortgage.term_months
          mortgage.origination_date (some (date_or today as_of)) "conventional"

  -- `_resolved_mortgage_balance`
  unfoldable pub resolved_mortgage_balance : MortgageRecord D → Option Date → Date → Option D
  resolved_mortgage_balance mortgage as_of today = elim (value_of mortgage.estimated_balance) [
    | none ↦ unreported_balance mortgage as_of today
    | some reported ↦
        (if le zero_decimal reported
          then some reported
          else unreported_balance mortgage as_of today)
  ]

  -- `max(candidates, key=...)`, the first of equal ones
  unfoldable pub largest : MortgageRecord D → List (MortgageRecord D) → MortgageRecord D
  largest best [] = best
  largest best (m ∷ ms) =
      largest
        (if lt (tracked_or_zero best.estimated_balance) (tracked_or_zero m.estimated_balance)
          then m
          else best)
        ms

  -- `_first_mortgage`
  unfoldable pub first_mortgage : NormalizedProperty D → Option (MortgageRecord D)
  first_mortgage record' = elim (keep (λ m. m.is_open && is_first m) record'.mortgages) [
    | [] ↦ none
    | m ∷ ms ↦ some (largest m ms)
  ]

  abbrev pub is_foreclosing : NormalizedProperty D → Bool
  is_foreclosing record' = elim record'.foreclosure [ none ↦ false | some f ↦ f.is_active ]

  -- `_distress_present`
  unfoldable pub distress_present : NormalizedProperty D → Bool
  distress_present record' =
      is_foreclosing record'
      || any (λ b. casefold b.status == "active") record'.bankruptcies
      || lt zero_decimal (tracked_or_zero record'.taxes.delinquent_amount)
