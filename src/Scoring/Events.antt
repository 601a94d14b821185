-- ===== src/Scoring/Events.antt =====
-- `_distress`, its dated events: decay, foreclosure and bankruptcies. The terms are listed in the
-- order in which the code adds them to its dict, which never has a name twice.
use house_analysis_ai.Prelude.{
  Bool, false, ◌&&◌, ◌||◌, Option, none, some, List, [], ◌∷◌, ◌++◌, map, String, Dict, string_eq,
  leb, if◌then◌else◌, keep, any, one_of, is_some, Result, ok, ◌>>=◌,
}
use house_analysis_ai.Prelude.Int.{ℤ, pos, leb_ℤ}
use house_analysis_ai.Python.{Python, ◌⊗◌, one_decimal, nonzero, min, max_of, sum}
use house_analysis_ai.Contracts.{
  Date, to_ordinal, days_since, basis_eq, ForeclosureState, BankruptcyRecord,
}
use house_analysis_ai.Scoring.Configuration.{Config, at_key, bound_number}
use house_analysis_ai.Scoring.Numbers.{months_between, decay}

-- `bool(x)` of an optional flag
abbrev pub is_true : Option Bool → Bool
is_true (some b) = b
is_true none = false

-- `x or 0` of an optional integer
abbrev pub int_or_zero : Option ℤ → ℤ
int_or_zero (some i) = i
int_or_zero none = pos 0

abbrev pub tax_lien_types : List String
tax_lien_types = "tax" ∷ "property_tax" ∷ "state_tax" ∷ "federal_tax" ∷ []

abbrev pub near_sale_stages : List String
near_sale_stages = "nts" ∷ "auction" ∷ []

abbrev pub active_bankruptcy_statuses : List String
active_bankruptcy_statuses = "active" ∷ []

abbrev pub prior_bankruptcy_statuses : List String
prior_bankruptcy_statuses = "dismissed" ∷ "discharged" ∷ "closed" ∷ []

abbrev pub failed_listing_statuses : List String
failed_listing_statuses = "expired" ∷ "cancelled" ∷ []

-- `days_to_sale is not None and 0 <= days_to_sale <= near_days`
abbrev pub sale_is_near : Date → ℤ → Option Date → Bool
sale_is_near as_of near_days none = false
sale_is_near as_of near_days (some sale) =
    leb (to_ordinal as_of) (to_ordinal sale) && leb_ℤ (pos (days_since sale as_of)) near_days

-- `item.status.casefold() in statuses`
abbrev pub with_status : (String → String) → List String → BankruptcyRecord → Bool
with_status casefold statuses item = one_of (casefold item.status) statuses

abbrev is_repeat : BankruptcyRecord → Bool
is_repeat item = elim item.sequence [ none ↦ false | some s ↦ leb_ℤ (pos 2) s ]

abbrev pub values : {D : Type 0} → Dict D → List D
values terms = map (λ item. item.1) terms

module _ {D : Type 0} ⦃py : Python D⦄ where
  open py use {of_int, to_int, quantize, le, casefold}

  -- one term of the dict
  abbrev pub term : String → D → Dict D
  term name value = (name, value) ∷ []

  abbrev pub term_if : Bool → String → D → Dict D
  term_if test name value = if test then term name value else []

  -- `event_decay`: an event with no date counts in full
  abbrev pub event_decay : Date → D → Option Date → D
  event_decay as_of half_life none = one_decimal
  event_decay as_of half_life (some date) = decay (months_between as_of (some date)) half_life

  unfoldable pub nts_term : Dict D → Config D → Date → D → ForeclosureState D → Result (Dict D)
  nts_term p config as_of half_life f =
      if is_some f.nts_date || one_of (casefold f.stage) near_sale_stages
      then (do
        near_days ← bound_number config "nts_near_days"
        base ←
            at_key
              (if sale_is_near as_of (to_int near_days) f.current_sale_date
                then "nts_near"
                else "nts_far")
              p
        ok (term "distress_nts" (quantize 4 (base ⊗ event_decay as_of half_life f.nts_date))))
      else ok []

  unfoldable pub nod_term : Dict D → Date → D → ForeclosureState D → Result (Dict D)
  nod_term p as_of half_life f =
      if is_some f.nod_date
      then (do
        base ← at_key "nod" p
        ok (term "distress_nod" (quantize 4 (base ⊗ event_decay as_of half_life f.nod_date))))
      else ok []

  unfoldable pub foreclosure_terms :
      Dict D → Config D → Date → D → Option (ForeclosureState D) → Result (Dict D)
  foreclosure_terms p config as_of half_life none = ok []
  foreclosure_terms p config as_of half_life (some f) =
      if f.is_active
      then (do
        nts ← nts_term p config as_of half_life f
        nod ← nod_term p as_of half_life f
        cap ← at_key "prior_foreclosure_cap" p
        each_one ← at_key "prior_foreclosure_each" p
        let prior = min cap (each_one ⊗ of_int f.rescission_count)
        ok (nts ++ nod ++ term_if (nonzero prior) "distress_prior_foreclosure" (quantize 4 prior)))
      else ok []

  abbrev filing_decay : Date → D → BankruptcyRecord → D
  filing_decay as_of half_life item = event_decay as_of half_life item.filing_date

  unfoldable pub active_term : Dict D → Date → D → List BankruptcyRecord → Result (Dict D)
  active_term p as_of half_life [] = ok []
  active_term p as_of half_life (x ∷ xs) = do
    base ← at_key "bankruptcy_active" p
    let recent = max_of (filing_decay as_of half_life x) (map (filing_decay as_of half_life) xs)
    ok (term "distress_bankruptcy_active" (quantize 4 (base ⊗ recent)))

  unfoldable pub prior_term : Dict D → Date → D → List BankruptcyRecord → Result (Dict D)
  prior_term p as_of half_life [] = ok []
  prior_term p as_of half_life (x ∷ xs) = do
    cap ← at_key "bankruptcy_prior_cap" p
    each_one ← at_key "bankruptcy_prior_each" p
    let shares = map (λ item. each_one ⊗ filing_decay as_of half_life item) (x ∷ xs)
    ok (term "distress_bankruptcy_prior" (quantize 4 (min cap (sum shares))))

  unfoldable pub bankruptcy_terms : Dict D → Date → D → List BankruptcyRecord → Result (Dict D)
  bankruptcy_terms p as_of half_life items = do
    active ←
        active_term p as_of half_life (keep (with_status casefold active_bankruptcy_statuses) items)
    prior ←
        prior_term p as_of half_life (keep (with_status casefold prior_bankruptcy_statuses) items)
    repeats ←
        (if any is_repeat items
          then (do v ← at_key "repeat_filings" p; ok (term "distress_repeat_filings" v))
          else ok [])
    ok (active ++ prior ++ repeats)
