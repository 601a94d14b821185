-- ===== src/Finance/Debt.antt =====
-- The debts of finance/engine.py: `_mortgage_balance`, `_published_bid`, `_bid_mismatch` and
-- `finance_flags`.
use house_analysis_ai.Prelude.{
  ℕ, Bool, true, ◌&&◌, ◌||◌, Option, none, some, List, [], ◌∷◌, ◌++◌, String, ◌==◌, string_eq,
  if◌then◌else◌, one_of, is_some, collect, enumerate,
}
use house_analysis_ai.Python.{Python, ◌⊖◌, ◌⊘◌, zero_decimal, lt, nonzero}
use house_analysis_ai.Contracts.{Date, NormalizedProperty, MortgageRecord, LienRecord}
use house_analysis_ai.Finance.Money.{money, value_of}
use house_analysis_ai.Finance.Rates.{contains, position_key, estimate_balance}

abbrev pub closed_statuses : List String
closed_statuses = "closed" ∷ "paid" ∷ "released" ∷ "satisfied" ∷ []

-- The part of a `FlagRequest` that the engine's flags fill: the type, what the payload and the
-- dedupe key are made of, and the impact.
pub data FinanceFlag (D : Type 0) : Type 0 where
  bid_mismatch : (bid balance divergence impact : D) → FinanceFlag D
  missing_lien_amount : (index : ℕ) (lien_type : String) → FinanceFlag D

module _ {D : Type 0} ⦃py : Python D⦄ where
  open py use {dec, casefold, absolute}

  abbrev pub is_heloc : MortgageRecord D → Bool
  is_heloc mortgage = contains "heloc" (casefold mortgage.position)

  abbrev pub is_first : MortgageRecord D → Bool
  is_first mortgage = position_key py mortgage.position == "1"

  -- the balance where none is reported: amortized, but never for a credit line
  abbrev derived_balance : MortgageRecord D → Option Date → Option (D × Bool)
  derived_balance mortgage as_of =
      if is_heloc mortgage
      then none
      else elim (estimate_balance (value_of mortgage.original_amount) mortgage.rate
          mortgage.term_months mortgage.origination_date as_of "conventional") [
            | none ↦ none
            | some balance ↦ some (balance, true)
          ]

  -- `_mortgage_balance`: the balance, and whether it is estimated; `none` where no balance is known
  unfoldable pub mortgage_balance : MortgageRecord D → Option Date → Option (D × Bool)
  mortgage_balance mortgage as_of = elim mortgage.estimated_balance [
    | none ↦ derived_balance mortgage as_of
    | some tracked ↦ elim tracked.value [
      | none ↦ derived_balance mortgage as_of
      | some reported ↦
          (if lt reported zero_decimal then none else some (money reported, tracked.is_estimated))
    ]
  ]

  -- `_published_bid`
  unfoldable pub published_bid : NormalizedProperty D → Option D
  published_bid record' = elim record'.foreclosure [
    | none ↦ none
    | some f ↦
        (if f.is_active
          then elim (value_of f.published_bid) [ none ↦ none | some bid ↦ some (money bid) ]
          else none)
  ]

  -- `_first_mortgage_balance`
  unfoldable pub first_mortgage_balance : List (MortgageRecord D) → Option Date → Option D
  first_mortgage_balance [] as_of = none
  first_mortgage_balance (mortgage ∷ rest) as_of =
      let later = first_mortgage_balance rest as_of in
      if mortgage.is_open && is_first mortgage
      then elim (mortgage_balance mortgage as_of) [
        | none ↦ later
        | some (balance, _) ↦ some balance
      ]
      else later

  abbrev diverge : D → D → Bool
  diverge bid balance = lt (dec 20 2) (absolute (bid ⊖ balance) ⊘ bid)

  -- `_bid_mismatch`
  unfoldable pub bid_mismatch_of : NormalizedProperty D → Option Date → Option (D × D)
  bid_mismatch_of record' as_of = elim (published_bid record') [
    | none ↦ none
    | some bid ↦
        (if nonzero bid
          then elim (first_mortgage_balance record'.mortgages as_of) [
            | none ↦ none
            | some balance ↦ (if diverge bid balance then some (bid, balance) else none)
          ]
          else none)
  ]

  abbrev pub is_closed : LienRecord D → Bool
  is_closed lien = one_of (casefold lien.status) closed_statuses

  abbrev lien_flag : ℕ × LienRecord D → Option (FinanceFlag D)
  lien_flag (index, lien) =
      if is_closed lien || is_some (value_of lien.amount)
      then none
      else some (missing_lien_amount index lien.lien_type)

  -- `as_of or newest_report_date`
  abbrev pub reference_of : NormalizedProperty D → Option Date → Option Date
  reference_of record' none = record'.data_quality.newest_report_date
  reference_of record' (some as_of) = some as_of

  unfoldable pub finance_flags : NormalizedProperty D → Option Date → List (FinanceFlag D)
  finance_flags record' as_of =
      let mismatch : List (FinanceFlag D) =
        elim (bid_mismatch_of record' (reference_of record' as_of)) [
          | none ↦ []
          | some (bid, balance) ↦
              bid_mismatch bid balance (absolute (bid ⊖ balance) ⊘ bid) (absolute (bid ⊖ balance))
              ∷ []
        ] in
      mismatch ++ collect lien_flag (enumerate record'.liens)
