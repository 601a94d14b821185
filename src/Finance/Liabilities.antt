-- ===== src/Finance/Liabilities.antt =====
-- `_liabilities` of finance/engine.py: confirmed, potential and probability-weighted obligations,
-- with the breakdown, a line for each of them.
use Prim.Native.Nat.{Ordering}
use Prim.Native.String.{compare, ◌++◌ as text_join}
use house_analysis_ai.Prelude.{
  Bool, true, false, not, ◌&&◌, Option, none, some, List, [], ◌∷◌, ◌++◌, String, Dict, assoc, ◌==◌,
  string_eq, if◌then◌else◌, any, is_some, collect, foldl,
}
use house_analysis_ai.Python.{Python, ◌⊕◌, ◌⊖◌, ◌⊗◌, zero_decimal, one_decimal, lt, nonzero, max_of}
use house_analysis_ai.Contracts.{
  Date, AttachmentBasis, basis_eq, NormalizedProperty, MortgageRecord, LienRecord, TrackedValue,
  LiabilityBlock, BreakdownItem, AssumptionSet, basis_text,
}
use house_analysis_ai.Finance.Money.{money, money_or_zero, value_of, get_or, default_to, clamp}
use house_analysis_ai.Finance.Rates.{position_key}
use house_analysis_ai.Finance.Debt.{is_heloc, is_first, is_closed, mortgage_balance, published_bid}

-- the three running sums, and the breakdown so far
pub record Sums (D : Type 0) : Type 0 where
  pub confirmed : D
  pub potential : D
  pub potential_weighted : D
  pub breakdown : List (BreakdownItem D)

-- An open mortgage with its balance, and whether the balance is estimated.
abbrev pub Evaluated : Type 0 → Type 0
Evaluated D = D × Bool × MortgageRecord D

-- `a <= b` of two texts
abbrev pub text_le : String → String → Bool
text_le a b = elim (compare a b) [ Ordering.gt ↦ false | _ ↦ true ]

abbrev pub mortgage_label : String → String
mortgage_label position = text_join "mortgage:" position

module _ {D : Type 0} ⦃py : Python D⦄ where
  open py use {dec}

  -- `by_position.setdefault(key, []).append(mortgage)`
  unfoldable pub add_to_group :
      String → MortgageRecord D → Dict (List (MortgageRecord D)) → Dict (List (MortgageRecord D))
  add_to_group key mortgage [] = (key, mortgage ∷ []) ∷ []
  add_to_group key mortgage ((j, group) ∷ groups) =
      if j == key
      then (j, group ++ (mortgage ∷ [])) ∷ groups
      else (j, group) ∷ add_to_group key mortgage groups

  unfoldable pub group_open :
      Dict (List (MortgageRecord D)) → List (MortgageRecord D) → Dict (List (MortgageRecord D))
  group_open groups [] = groups
  group_open groups (mortgage ∷ rest) =
      group_open
        (if mortgage.is_open
          then add_to_group (position_key py mortgage.position) mortgage groups
          else groups)
        rest

  -- `sorted(by_position.items())`, whose keys differ
  unfoldable pub insert_group :
      String × List (MortgageRecord D)
      → Dict (List (MortgageRecord D))
      → Dict (List (MortgageRecord D))
  insert_group g [] = g ∷ []
  insert_group g (h ∷ rest) = if text_le g.0 h.0 then g ∷ h ∷ rest else h ∷ insert_group g rest

  unfoldable pub sort_groups : Dict (List (MortgageRecord D)) → Dict (List (MortgageRecord D))
  sort_groups [] = []
  sort_groups (g ∷ groups) = insert_group g (sort_groups groups)

  abbrev evaluate : Option Date → MortgageRecord D → Option (Evaluated D)
  evaluate as_of mortgage = elim (mortgage_balance mortgage as_of) [
    | none ↦ none
    | some (balance, is_estimated) ↦ some (balance, is_estimated, mortgage)
  ]

  -- the limit of a credit line with no known draw
  abbrev pub unknown_limit : Option Date → MortgageRecord D → Option D
  unknown_limit as_of mortgage =
      if is_heloc mortgage && not (is_some (mortgage_balance mortgage as_of))
      then elim (value_of mortgage.original_amount) [
        | none ↦ none
        | some limit ↦ (if lt zero_decimal limit then some limit else none)
      ]
      else none

  -- `max(evaluated, key=balance)`, the first of equal ones
  unfoldable pub highest : Evaluated D → List (Evaluated D) → Evaluated D
  highest best [] = best
  highest best (item ∷ items) = highest (if lt best.0 item.0 then item else best) items

  abbrev pub probability_of : AssumptionSet D → AttachmentBasis → D → D
  probability_of assumptions basis default =
      clamp (default_to default (assoc basis assumptions.attachment_probability)) zero_decimal
        one_decimal

  -- a line of the breakdown
  abbrev pub line : String → D → Option D → String → Bool → BreakdownItem D
  line label amount expected_amount basis is_estimated = record {
    label = label;
    amount = amount;
    expected_amount = expected_amount;
    basis = basis;
    is_estimated = is_estimated;
  }

  -- an obligation that may attach: its amount, its amount times the probability, and its line
  unfoldable pub add_potential : D → D → BreakdownItem D → Sums D → Sums D
  add_potential amount probability item sums = record sums {
    potential = sums.potential ⊕ amount;
    potential_weighted = sums.potential_weighted ⊕ money_or_zero (amount ⊗ probability);
    breakdown = sums.breakdown ++ (item ∷ []);
  }

  unfoldable pub add_confirmed : D → BreakdownItem D → Sums D → Sums D
  add_confirmed amount item sums = record sums {
    confirmed = sums.confirmed ⊕ amount;
    breakdown = sums.breakdown ++ (item ∷ []);
  }

  abbrev undrawn_probability : AssumptionSet D → D
  undrawn_probability assumptions =
      probability_of assumptions AttachmentBasis.undrawn_heloc_capacity (dec 50 2)

  abbrev capacity_line : String → D → BreakdownItem D
  capacity_line position capacity =
      line (text_join (mortgage_label position) ":draw_unknown") capacity (some capacity)
        "heloc_capacity_no_draw_data" true

  -- the largest unknown limit of a position is a potential obligation
  unfoldable pub add_capacity : AssumptionSet D → String → List D → Sums D → Sums D
  add_capacity assumptions position [] sums = sums
  add_capacity assumptions position (limit ∷ limits) sums =
      let capacity = money_or_zero (max_of limit limits) in
      add_potential capacity (undrawn_probability assumptions) (capacity_line position capacity)
        sums

  abbrev undrawn_line : String → D → BreakdownItem D
  undrawn_line position undrawn =
      line (text_join (mortgage_label position) ":undrawn") undrawn (some undrawn)
        "undrawn_heloc_capacity" true

  -- what a credit line leaves undrawn is a potential obligation
  unfoldable pub add_undrawn : AssumptionSet D → String → MortgageRecord D → D → Sums D → Sums D
  add_undrawn assumptions position chosen balance sums = elim (value_of chosen.original_amount) [
    | none ↦ sums
    | some original ↦
        (let undrawn = money_or_zero (original ⊖ balance) in
          if lt balance original
          then add_potential undrawn (undrawn_probability assumptions)
              (undrawn_line position undrawn) sums
          else sums)
  ]

  -- the published bid wins over the balance of a first mortgage
  abbrev reconciled : Option D → Evaluated D → D
  reconciled none (balance, _, chosen) = balance
  reconciled (some bid) (balance, _, chosen) = if is_first chosen then bid else balance

  -- with a bid on a first mortgage, a reported balance says whether it is estimated
  abbrev reconciled_estimated : Option D → Evaluated D → Bool
  reconciled_estimated none (_, is_estimated, chosen) = is_estimated
  reconciled_estimated (some bid) (_, is_estimated, chosen) =
      if is_first chosen
      then elim chosen.estimated_balance [
        | none ↦ is_estimated
        | some tracked ↦ (if is_some tracked.value then tracked.is_estimated else is_estimated)
      ]
      else is_estimated

  abbrev balance_basis : Evaluated D → String
  balance_basis (_, is_estimated, chosen) =
      if is_some (value_of chosen.estimated_balance)
      then (if is_estimated then "estimated_recorded" else "recorded")
      else "amortization_v1"

  unfoldable pub add_evaluated :
      AssumptionSet D → Option D → String → List D → List (Evaluated D) → Sums D → Sums D
  add_evaluated assumptions bid position limits [] sums =
      add_capacity assumptions position limits sums
  add_evaluated assumptions bid position limits (x ∷ xs) sums =
      let best = highest x xs in
      let balance = reconciled bid best in
      let owed =
        add_confirmed balance
          (line (mortgage_label position) balance none (balance_basis best)
            (reconciled_estimated bid best))
          sums in
      if is_heloc best.2
      then add_undrawn assumptions position best.2 balance owed
      else add_capacity assumptions position limits owed

  -- a round of the loop over the positions
  abbrev pub add_group :
      AssumptionSet D → Option Date → Option D → Sums D → String × List (MortgageRecord D) → Sums D
  add_group assumptions as_of bid sums (position, group) =
      add_evaluated assumptions bid position (collect (unknown_limit as_of) group)
        (collect (evaluate as_of) group) sums

  -- a bid with no open first mortgage is an obligation of its own
  unfoldable pub add_bid : Option D → List (MortgageRecord D) → Sums D → Sums D
  add_bid none mortgages sums = sums
  add_bid (some bid) mortgages sums =
      if any (λ m. m.is_open && is_first m) mortgages
      then sums
      else add_confirmed bid (line "foreclosure:published_bid" bid none "published_bid" false) sums

  abbrev lien_line : AssumptionSet D → LienRecord D → D → Option D → BreakdownItem D
  lien_line assumptions lien amount expected_amount =
      line lien.lien_type amount expected_amount (basis_text lien.attachment_basis)
        (if is_some (value_of lien.amount) then lien.amount_is_estimated else true)

  -- a round of the loop over the liens
  unfoldable pub add_lien : AssumptionSet D → Sums D → LienRecord D → Sums D
  add_lien assumptions sums lien =
      let reported = value_of lien.amount in
      let median = get_or lien.lien_type assumptions.unknown_lien_medians zero_decimal in
      let amount = money_or_zero (default_to median reported) in
      let probability = probability_of assumptions lien.attachment_basis one_decimal in
      let potential_line =
        lien_line assumptions lien amount (some (money_or_zero (amount ⊗ probability))) in
      if is_closed lien
      then sums
      else if nonzero amount && not (is_some reported)
      then add_potential amount probability potential_line sums
      else if lien.attachment_basis == AttachmentBasis.recorded_against_property
      then add_confirmed amount (lien_line assumptions lien amount none) sums
      else add_potential amount probability potential_line sums

  unfoldable pub add_reported : String → Option (TrackedValue D) → Sums D → Sums D
  add_reported label tracked sums = elim (value_of tracked) [
    | none ↦ sums
    | some v ↦ add_confirmed (money_or_zero v) (line label (money v) none "recorded" false) sums
  ]

  abbrev pub no_sums : Sums D
  no_sums = record {
    confirmed = zero_decimal;
    potential = zero_decimal;
    potential_weighted = zero_decimal;
    breakdown = [];
  }

  -- the sums of every obligation
  unfoldable pub total_sums : NormalizedProperty D → AssumptionSet D → Option Date → Sums D
  total_sums record' assumptions as_of =
      let bid = published_bid record' in
      let groups = sort_groups (group_open [] record'.mortgages) in
      let mortgages = foldl (add_group assumptions as_of bid) no_sums groups in
      let liens =
        foldl (add_lien assumptions) (add_bid bid record'.mortgages mortgages) record'.liens in
      add_reported "hoa_arrears" record'.hoa.arrears
        (add_reported "delinquent_taxes" record'.taxes.delinquent_amount liens)

  -- the block, and the weighted potential
  unfoldable pub liabilities :
      NormalizedProperty D → AssumptionSet D → Option Date → LiabilityBlock D × D
  liabilities record' assumptions as_of =
      let sums = total_sums record' assumptions as_of in
      (
        record {
          confirmed = some (money_or_zero sums.confirmed);
          potential = some (money_or_zero sums.potential);
          maximum = some (money_or_zero (sums.confirmed ⊕ sums.potential));
          breakdown = sums.breakdown;
        },
        money_or_zero sums.potential_weighted,
      )
