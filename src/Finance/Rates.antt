-- ===== src/Finance/Rates.antt =====
-- common/rates.py (`historical_rate`), finance/transfer_tax.py, common/mortgage.py, and
-- `_months_between` and `estimate_balance` of finance/engine.py.
use text.Mathlib.Text.{starts_with, find?}
use house_analysis_ai.Prelude.{
  ℕ, ◌+◌, ◌*◌, Bool, ◌||◌, not, Option, none, some, List, [], ◌∷◌, String, Dict, lookup, assoc,
  ◌==◌, number_eq, string_eq, ltb, one_of, is_some, if◌then◌else◌,
}
use house_analysis_ai.Prelude.Int.{ℤ, pos, negsuc, sub_ℕ, ◌-ℤ◌, leb_ℤ}
use house_analysis_ai.Python.{Python, ◌⊕◌, ◌⊖◌, ◌⊗◌, ◌⊘◌, zero_decimal, one_decimal, lt, same}
use house_analysis_ai.Contracts.{Date}
use house_analysis_ai.Finance.Money.{money, get_or}

-- `needle in text`
abbrev pub contains : String → String → Bool
contains needle text = is_some (find? text needle)

-- `_months_between`
unfoldable pub months_from : Date → Date → ℤ
months_from start end' =
    sub_ℕ (end'.year * 12 + end'.month)
      (start.year * 12 + start.month + (if ltb end'.day start.day then 1 else 0))

-- `position_key` of common/mortgage.py
unfoldable pub position_key : {D : Type 0} → Python D → String → String
position_key py position =
    let normalized = py.casefold (py.strip position) in
    if one_of normalized ("first" ∷ "1" ∷ "1st" ∷ []) || starts_with normalized "first"
    then "1"
    else if one_of normalized ("second" ∷ "2" ∷ "2nd" ∷ []) || starts_with normalized "second"
    then "2"
    else if contains "heloc" normalized
    then "heloc"
    else normalized

-- `x or default` of an optional integer, which is also the default where it is zero
abbrev pub int_or : ℤ → Option ℤ → ℤ
int_or default none = default
int_or default (some (pos n)) = if n == 0 then default else pos n
int_or default (some (negsuc n)) = negsuc n

module _ {D : Type 0} ⦃py : Python D⦄ where
  open py use {dec, of_int, power, le, strip, upper, before_colon}

  -- `CONVENTIONAL_30YR`, by year
  abbrev conventional_30yr : List (ℕ × D)
  conventional_30yr =
      (1971, dec 754 4)
      ∷ (1972, dec 738 4)
      ∷ (1973, dec 796 4)
      ∷ (1974, dec 919 4)
      ∷ (1975, dec 905 4)
      ∷ (1976, dec 887 4)
      ∷ (1977, dec 885 4)
      ∷ (1978, dec 964 4)
      ∷ (1979, dec 1120 4)
      ∷ (1980, dec 1374 4)
      ∷ (1981, dec 1664 4)
      ∷ (1982, dec 1604 4)
      ∷ (1983, dec 1324 4)
      ∷ (1984, dec 1388 4)
      ∷ (1985, dec 1243 4)
      ∷ (1986, dec 1019 4)
      ∷ (1987, dec 1021 4)
      ∷ (1988, dec 1034 4)
      ∷ (1989, dec 1032 4)
      ∷ (1990, dec 1013 4)
      ∷ (1991, dec 925 4)
      ∷ (1992, dec 839 4)
      ∷ (1993, dec 731 4)
      ∷ (1994, dec 838 4)
      ∷ (1995, dec 793 4)
      ∷ (1996, dec 781 4)
      ∷ (1997, dec 760 4)
      ∷ (1998, dec 694 4)
      ∷ (1999, dec 744 4)
      ∷ (2000, dec 805 4)
      ∷ (2001, dec 697 4)
      ∷ (2002, dec 654 4)
      ∷ (2003, dec 583 4)
      ∷ (2004, dec 584 4)
      ∷ (2005, dec 587 4)
      ∷ (2006, dec 641 4)
      ∷ (2007, dec 634 4)
      ∷ (2008, dec 603 4)
      ∷ (2009, dec 504 4)
      ∷ (2010, dec 469 4)
      ∷ (2011, dec 445 4)
      ∷ (2012, dec 366 4)
      ∷ (2013, dec 398 4)
      ∷ (2014, dec 417 4)
      ∷ (2015, dec 385 4)
      ∷ (2016, dec 365 4)
      ∷ (2017, dec 399 4)
      ∷ (2018, dec 454 4)
      ∷ (2019, dec 394 4)
      ∷ (2020, dec 311 4)
      ∷ (2021, dec 296 4)
      ∷ (2022, dec 534 4)
      ∷ (2023, dec 681 4)
      ∷ (2024, dec 672 4)
      ∷ (2025, dec 670 4)
      ∷ []

  -- `LOAN_TYPE_SPREAD`
  abbrev loan_type_spread : Dict D
  loan_type_spread =
      ("conventional", zero_decimal)
      ∷ ("fha", zero_decimal ⊖ dec 20 4)
      ∷ ("va", zero_decimal ⊖ dec 25 4)
      ∷ ("second", dec 150 4)
      ∷ ("heloc", dec 200 4)
      ∷ ("hard_money", dec 400 4)
      ∷ []

  -- `historical_rate`: a year outside the table takes its first or its last rate
  unfoldable pub historical_rate : ℕ → String → D
  historical_rate year loan_type =
      let base : D = elim (assoc year conventional_30yr) [
        | none ↦ (if ltb year 1971 then dec 754 4 else dec 670 4)
        | some rate ↦ rate
      ] in
      base ⊕ get_or loan_type loan_type_spread zero_decimal

  abbrev transfer_tax_rates : Dict D
  transfer_tax_rates =
      ("CA", dec 11 4)
      ∷ ("FL", dec 70 4)
      ∷ ("NY", dec 40 4)
      ∷ ("TX", zero_decimal)
      ∷ ("WA", dec 128 4)
      ∷ []

  unfoldable pub transfer_tax_rate : Option String → D
  transfer_tax_rate none = zero_decimal
  transfer_tax_rate (some lookup_key) =
      if lookup_key == ""
      then zero_decimal
      else (let key = upper (strip lookup_key) in
          elim (lookup key transfer_tax_rates) [
            | none ↦ get_or (before_colon key) transfer_tax_rates zero_decimal
            | some rate ↦ rate
          ])

  -- the balance of a loan of `term` months, `months` after its first day
  unfoldable pub amortized : D → D → ℤ → ℤ → D
  amortized original rate term months =
      let r = rate ⊘ dec 12 0 in
      let growth_term = power (one_decimal ⊕ r) (of_int term) in
      let growth_now = power (one_decimal ⊕ r) (of_int months) in
      money (original ⊗ (growth_term ⊖ growth_now) ⊘ (growth_term ⊖ one_decimal))

  -- `estimate_balance` after its checks of the dates and of the term
  unfoldable pub balance_after : D → D → ℤ → ℤ → Option D
  balance_after original rate term months =
      if not (leb_ℤ (pos 0) months)
      then none
      else if leb_ℤ months (pos 0)
      then some (money original)
      else if leb_ℤ term months
      then some zero_decimal
      else if lt rate zero_decimal
      then none
      else if same rate zero_decimal
      then some (money (original ⊗ of_int (term -ℤ months) ⊘ of_int term))
      else some (amortized original rate term months)

  unfoldable pub estimate_balance :
      Option D → Option D → Option ℤ → Option Date → Option Date → String → Option D
  estimate_balance (some original) rate term_months (some origination_date) (some as_of) loan_type =
      let term = int_or (pos 360) term_months in
      let used : D = elim rate [
        | none ↦ historical_rate origination_date.year loan_type
        | some given ↦ given
      ] in
      if lt original zero_decimal || leb_ℤ term (pos 0)
      then none
      else balance_after original used term (months_from origination_date as_of)
  estimate_balance _ _ _ _ _ _ = none
