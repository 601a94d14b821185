-- ===== src/Strategies/Deductions.antt =====
-- How the sums of `_liabilities` of finance/engine.py and `_weighted_potential` of
-- strategies/engine.py go together: one invariant of the running sums and of the breakdown.
use house_analysis_ai.Prelude.{Option, none, some, List, [], ◌∷◌, ◌++◌, ◌≡◌, refl}
use house_analysis_ai.Python.{Python, ◌≼◌, ◌⊕◌, ◌⊗◌, zero_decimal}
use house_analysis_ai.Python.Laws.{IsDecimal}
use house_analysis_ai.Contracts.{BreakdownItem, AssumptionSet}
use house_analysis_ai.Finance.{Sums, money_or_zero, add_potential, add_confirmed}
use house_analysis_ai.Finance.Rounded
use house_analysis_ai.Finance.Rounded.{IsRounded}
use house_analysis_ai.Strategies.{
  share_or, plus_share, expected_share, share_by_basis, add_share, weighted_from,
}

module _ {D : Type 0} ⦃py : Python D⦄ where
  open py use {quantize}

  -- `_weighted_potential` of the breakdown so far
  abbrev pub weighted_of : AssumptionSet D → Sums D → D
  weighted_of a sums = weighted_from a zero_decimal sums.breakdown

  -- The offers deduct at least what the equity deducts and at most the potential obligations, and
  -- both sums are in cents.
  pub record Deducts (a : AssumptionSet D) (sums : Sums D) : Type 0 where
    pub zero-le : zero_decimal ≼ weighted_of a sums
    pub finance-le : sums.potential_weighted ≼ weighted_of a sums
    pub weighted-le : weighted_of a sums ≼ sums.potential
    pub weighted-IsRounded : IsRounded (weighted_of a sums)
    pub potential-IsRounded : IsRounded sums.potential

  weighted_from-append :
      (a : AssumptionSet D) (w : D) (items : List (BreakdownItem D)) (item : BreakdownItem D)
      → weighted_from a w (items ++ (item ∷ [])) ≡ add_share a (weighted_from a w items) item
  unfolding weighted_from
  weighted_from-append a w [] item = refl
  weighted_from-append a w (i ∷ items) item = weighted_from-append a (add_share a w i) items item

  add_share-some :
      (a : AssumptionSet D) (w e : D) (item : BreakdownItem D)
      → item.expected_amount ≡ some e
      → add_share a w item ≡ w ⊕ quantize 2 e
  unfolding add_share expected_share
  add_share-some a w e item h = rw h refl

  no_share :
      (w : D) (expected share : Option D)
      → expected ≡ none
      → share ≡ none
      → plus_share w (share_or share expected) ≡ w
  no_share w none none h k = refl
  no_share w none (some s) h k = cc
  no_share w (some e) share h k = cc

  add_share-none :
      (a : AssumptionSet D) (w : D) (item : BreakdownItem D)
      → item.expected_amount ≡ none
      → share_by_basis a item ≡ none
      → add_share a w item ≡ w
  unfolding add_share expected_share
  add_share-none a w item h k = no_share w item.expected_amount (share_by_basis a item) h k

module _ {D : Type 0} ⦃py : Python D⦄ (laws : IsDecimal D) (a : AssumptionSet D) where
  open py use {quantize}
  open laws use {plus_mono, zero-le-plus}

  -- Such a line may be added: the share of the equity is at most that of the offers, which is at
  -- most the amount.
  pub record IsShared (amount probability expected : D) : Type 0 where
    pub finance-le : money_or_zero (amount ⊗ probability) ≼ quantize 2 expected
    pub expected-le : quantize 2 expected ≼ amount
    pub zero-le : zero_decimal ≼ quantize 2 expected
    pub amount-IsRounded : IsRounded amount

  pub add_potential-Deducts :
      (amount probability expected : D) (item : BreakdownItem D) (sums : Sums D)
      → item.expected_amount ≡ some expected
      → IsShared amount probability expected
      → Deducts a sums
      → Deducts a (add_potential amount probability item sums)
  unfolding add_potential
  add_potential-Deducts amount probability expected item sums e s h =
      let w = weighted_of a sums in
      let total : weighted_from a zero_decimal (sums.breakdown ++ (item ∷ []))
          ≡ w ⊕ quantize 2 expected =
        rw (weighted_from-append a zero_decimal sums.breakdown item)
          (add_share-some a w expected item e) in
      record {
        zero-le = rw total (zero-le-plus _ _ h.zero-le s.zero-le);
        finance-le = rw total (plus_mono _ _ _ _ h.finance-le s.finance-le);
        weighted-le = rw total (plus_mono _ _ _ _ h.weighted-le s.expected-le);
        weighted-IsRounded = rw total (
            Rounded.plus-IsRounded laws _ _ h.weighted-IsRounded
              (Rounded.quantize-IsRounded laws expected));
        potential-IsRounded =
            Rounded.plus-IsRounded laws _ _ h.potential-IsRounded s.amount-IsRounded;
      }

  pub add_confirmed-Deducts :
      (amount : D) (item : BreakdownItem D) (sums : Sums D)
      → item.expected_amount ≡ none
      → share_by_basis a item ≡ none
      → Deducts a sums
      → Deducts a (add_confirmed amount item sums)
  unfolding add_confirmed
  add_confirmed-Deducts amount item sums e k h =
      let total : weighted_from a zero_decimal (sums.breakdown ++ (item ∷ []))
          ≡ weighted_of a sums =
        rw (weighted_from-append a zero_decimal sums.breakdown item)
          (add_share-none a (weighted_of a sums) item e k) in
      record {
        zero-le = rw total h.zero-le;
        finance-le = rw total h.finance-le;
        weighted-le = rw total h.weighted-le;
        weighted-IsRounded = rw total h.weighted-IsRounded;
        potential-IsRounded = h.potential-IsRounded;
      }
