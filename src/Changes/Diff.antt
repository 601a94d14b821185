-- ===== src/Changes/Diff.antt =====
-- The functions of changes/diff.py on resolved records. The old and the new value of a change, any
-- objects in Python, are a sum of what the code puts there; the path of a field, a formatted text,
-- is its format with the arguments.
use house_analysis_ai.Prelude.{
  Bool, true, false, not, ◌&&◌, ◌||◌, Option, none, some, List, [], ◌∷◌, ◌++◌, map, String, ◌==◌,
  string_eq, number_eq, same_option, if◌then◌else◌, one_of, collect, Result, ok, err, value_error,
}
use house_analysis_ai.Prelude.Int.{leb_ℤ}
use house_analysis_ai.Python.{
  Python, ◌⊕◌, ◌⊖◌, ◌⊗◌, ◌⊘◌, zero_decimal, one_decimal, lt, same, nonzero,
}
use house_analysis_ai.Contracts.{
  Date, date_eq, ValuationCandidate, LienRecord, ForeclosureState, BankruptcyRecord, ListingRecord,
  OwnershipBlock, NormalizedProperty,
}
use house_analysis_ai.Finance.{value_of, text_le}
use house_analysis_ai.Changes.Matching.{match_items}

pub data ChangeType : Type 0 where
  new_foreclosure_notice sale_date_moved sale_cancelled sale_completed : ChangeType
  new_lien lien_released lien_amount_corrected new_listing price_cut : ChangeType
  ownership_transfer new_bankruptcy value_shift : ChangeType

pub data FieldPath : Type 0 where
  foreclosure_stage foreclosure_current_sale_date owner_names valuation_value : FieldPath
  lien lien_status lien_amount bankruptcy : String → FieldPath
  listing listing_price : Date → FieldPath

pub data ChangeValue (D : Type 0) : Type 0 where
  nothing : ChangeValue D
  text : String → ChangeValue D
  number : D → ChangeValue D
  day : Date → ChangeValue D
  names : List String → ChangeValue D

pub record ChangeEvent (D : Type 0) : Type 0 where
  pub change_type : ChangeType
  pub field_path : FieldPath
  pub old_value : ChangeValue D
  pub new_value : ChangeValue D
  pub score_delta : Option D

abbrev sold : List String
sold = "sold" ∷ "completed" ∷ []

abbrev cancelled : List String
cancelled = "rescinded" ∷ "cancelled" ∷ []

abbrev same_date : Date → Date → Bool
same_date a b = a == b

abbrev insert_text : String → List String → List String
insert_text x [] = x ∷ []
insert_text x (y ∷ ys) = let rest = insert_text x ys in if text_le x y then x ∷ y ∷ ys else y ∷ rest

-- `sorted`
abbrev pub sort_texts : List String → List String
sort_texts [] = []
sort_texts (x ∷ xs) = insert_text x (sort_texts xs)

abbrev pub same_texts : List String → List String → Bool
same_texts [] [] = true
same_texts (x ∷ xs) (y ∷ ys) = x == y && same_texts xs ys
same_texts _ _ = false

unfoldable pub same_bankruptcy : BankruptcyRecord → BankruptcyRecord → Bool
same_bankruptcy a b = a.chapter == b.chapter && same_option same_date a.filing_date b.filing_date

module _ {D : Type 0} where
  -- `_lien_key`
  unfoldable pub same_lien : LienRecord D → LienRecord D → Bool
  same_lien a b =
      a.lien_type == b.lien_type && same_option same_date a.recording_date b.recording_date

  unfoldable pub same_listing : ListingRecord D → ListingRecord D → Bool
  same_listing a b = a.list_date == b.list_date && a.status == b.status

  abbrev number_or_nothing : Option D → ChangeValue D
  number_or_nothing none = nothing
  number_or_nothing (some x) = number x

  abbrev day_or_nothing : Option Date → ChangeValue D
  day_or_nothing none = nothing
  day_or_nothing (some d) = day d

  abbrev pub event :
      Option D → ChangeType → FieldPath → ChangeValue D → ChangeValue D → ChangeEvent D
  event score_delta change_type path old new = record {
    change_type = change_type;
    field_path = path;
    old_value = old;
    new_value = new;
    score_delta = score_delta;
  }

  -- the chain of tests on two states
  abbrev diff_states : ForeclosureState D → ForeclosureState D → Option D → List (ChangeEvent D)
  diff_states before after delta =
      if not (leb_ℤ after.rescission_count before.rescission_count)
        || (one_of after.stage cancelled && not (one_of before.stage cancelled))
      then event delta sale_cancelled foreclosure_stage (text before.stage) (text after.stage) ∷ []
      else if one_of after.stage sold && not (one_of before.stage sold)
      then event delta sale_completed foreclosure_stage (text before.stage) (text after.stage) ∷ []
      else if not (same_option same_date before.current_sale_date after.current_sale_date)
      then (event delta sale_date_moved foreclosure_current_sale_date
            (day_or_nothing before.current_sale_date) (day_or_nothing after.current_sale_date)
          ∷ [])
      else []

  -- `_diff_foreclosure`, by which of the two states are there
  unfoldable pub diff_foreclosure :
      Option (ForeclosureState D) → Option (ForeclosureState D) → Option D → List (ChangeEvent D)
  diff_foreclosure none none delta = []
  diff_foreclosure none (some after) delta =
      if after.is_active
      then event delta new_foreclosure_notice foreclosure_stage nothing (text after.stage) ∷ []
      else []
  diff_foreclosure (some before) none delta =
      if before.is_active
      then event delta sale_cancelled foreclosure_stage (text before.stage) nothing ∷ []
      else []
  diff_foreclosure (some before) (some after) delta =
      if not before.is_active && after.is_active
      then (event delta new_foreclosure_notice foreclosure_stage (text before.stage)
            (text after.stage)
          ∷ [])
      else diff_states before after delta

  unfoldable pub diff_ownership :
      OwnershipBlock D → OwnershipBlock D → Option D → List (ChangeEvent D)
  diff_ownership before after delta =
      if same_texts (sort_texts before.owner_names) (sort_texts after.owner_names)
      then []
      else (event delta ownership_transfer owner_names (names before.owner_names)
            (names after.owner_names)
          ∷ [])

  unfoldable pub diff_bankruptcies :
      List BankruptcyRecord → List BankruptcyRecord → Option D → List (ChangeEvent D)
  diff_bankruptcies before after delta =
      map
        (λ b.
          event delta new_bankruptcy (bankruptcy b.chapter) nothing (day_or_nothing b.filing_date))
        (match_items same_bankruptcy before after).2

module _ {D : Type 0} ⦃py : Python D⦄ where
  open py use {dec, le, absolute}

  unfoldable pub lien_change : Option D → LienRecord D × LienRecord D → Option (ChangeEvent D)
  lien_change delta (old, new) =
      if new.status == "released" && not (old.status == "released")
      then some (
          event delta lien_released (lien_status new.lien_type) (text old.status) (text new.status))
      else if not (same_option same (value_of old.amount) (value_of new.amount))
      then some (
          event delta lien_amount_corrected (lien_amount new.lien_type)
            (number_or_nothing (value_of old.amount)) (number_or_nothing (value_of new.amount)))
      else none

  unfoldable pub diff_liens :
      List (LienRecord D) → List (LienRecord D) → Option D → List (ChangeEvent D)
  diff_liens before after delta =
      let matched = match_items same_lien before after in
      map
        (λ l.
          event delta new_lien (lien l.lien_type) nothing (number_or_nothing (value_of l.amount)))
        matched.2
      ++ (map
            (λ l.
              event delta lien_released (lien l.lien_type) (number_or_nothing (value_of l.amount))
                nothing)
            matched.1
          ++ collect (lien_change delta) matched.0)

  unfoldable pub is_price_cut : Option D → Option D → Bool
  is_price_cut (some old) (some new) = lt new old
  is_price_cut _ _ = false

  unfoldable pub listing_change :
      Option D → ListingRecord D × ListingRecord D → Option (ChangeEvent D)
  listing_change delta (old, new) =
      if is_price_cut (value_of old.price) (value_of new.price)
      then some (
          event delta price_cut (listing_price new.list_date)
            (number_or_nothing (value_of old.price)) (number_or_nothing (value_of new.price)))
      else none

  unfoldable pub diff_listings :
      List (ListingRecord D) → List (ListingRecord D) → Option D → List (ChangeEvent D)
  diff_listings before after delta =
      let matched = match_items same_listing before after in
      map
        (λ l.
          event delta new_listing (listing l.list_date) nothing
            (number_or_nothing (value_of l.price)))
        matched.2
      ++ collect (listing_change delta) matched.0

  -- `weight_hint or Decimal(1)`, times the confidence
  abbrev weight_of_candidate : ValuationCandidate D → D
  weight_of_candidate c =
      elim c.weight_hint [
        | none ↦ one_decimal
        | some hint ↦ if nonzero hint then hint else one_decimal
      ]
      ⊗ c.value.confidence

  -- the loop of `_representative_value`: the weighted sum and the weight
  unfoldable pub totals : List (ValuationCandidate D) → D × D → D × D
  totals [] sums = sums
  totals (c ∷ cs) (weighted, total) = totals cs (elim c.value.value [
    | none ↦ (weighted, total)
    | some value ↦ (weighted ⊕ value ⊗ weight_of_candidate c, total ⊕ weight_of_candidate c)
  ])

  unfoldable pub representative_value : List (ValuationCandidate D) → Option D
  representative_value candidates =
      let sums = totals candidates (zero_decimal, zero_decimal) in
      if nonzero sums.1 then some (sums.0 ⊘ sums.1) else none

  unfoldable pub value_change : Option D → Option D → Option D → List (ChangeEvent D)
  value_change (some old) (some new) delta =
      if not (nonzero old) || le (absolute (new ⊖ old) ⊘ absolute old) (dec 10 2)
      then []
      else event delta value_shift valuation_value (number old) (number new) ∷ []
  value_change _ _ delta = []

  -- `_diff_value`
  unfoldable pub diff_value :
      List (ValuationCandidate D) → List (ValuationCandidate D) → Option D → List (ChangeEvent D)
  diff_value before after delta =
      value_change (representative_value before) (representative_value after) delta

  unfoldable pub diff_properties :
      NormalizedProperty D → NormalizedProperty D → Option D → Result (List (ChangeEvent D))
  diff_properties before after delta =
      if not (before.property_id == after.property_id)
      then err (value_error "cannot diff snapshots of different properties")
      else ok (
          diff_foreclosure before.foreclosure after.foreclosure delta
          ++ (diff_liens before.liens after.liens delta
              ++ (diff_listings before.listings after.listings delta
                  ++ (diff_ownership before.ownership after.ownership delta
                      ++ (diff_bankruptcies before.bankruptcies after.bankruptcies delta
                          ++ diff_value before.valuation_candidates after.valuation_candidates
                              delta)))))
