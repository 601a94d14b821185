-- ===== src/Strategies/Steps.antt =====
-- Every step of `_liabilities` of finance/engine.py keeps the invariant of the deductions.
use house_analysis_ai.Prelude.{
  Bool, true, false, not, ◌&&◌, if◌then◌else◌, Bool-cases, Option-elim_keeps, if_keeps, any, Option,
  none, some, List, [], ◌∷◌, String, Dict, ◌==◌, is_some, All, ◌≡◌, refl, inl, inr, arith,
}
use house_analysis_ai.Python.{Python, ◌≼◌, ◌⊗◌, zero_decimal, one_decimal, lt, nonzero, max_of}
use house_analysis_ai.Python.Laws.{IsDecimal}
use house_analysis_ai.Python.Order
use house_analysis_ai.Contracts.{
  AttachmentBasis, basis_eq, basis_text, MortgageRecord, LienRecord, TrackedValue, AssumptionSet,
}
use house_analysis_ai.Finance.{
  Sums, Evaluated, money_or_zero, value_of, get_or, default_to, is_closed, is_heloc, any_below_zero,
  line, add_capacity, add_undrawn, add_evaluated, add_lien, add_reported, add_bid, probability_of,
  highest, is_first,
}
use house_analysis_ai.Finance.Rounded
use house_analysis_ai.Finance.Rounded.{IsRounded}
use house_analysis_ai.Strategies.{share_by_basis}
use house_analysis_ai.Strategies.Deductions.{
  Deducts, IsShared, add_potential-Deducts, add_confirmed-Deducts,
}

module _ {D : Type 0} ⦃py : Python D⦄ where
  -- A lien whose amount, where it is reported, is not negative.
  abbrev pub IsOwed : LienRecord D → Type 0
  IsOwed lien = zero_decimal ≼ default_to zero_decimal (value_of lien.amount)

  balance-share :
      (a : AssumptionSet D) (label : String) (m : D) (reported estimated is_estimated : Bool)
      → share_by_basis a (
          line label m none
            (if reported
              then (if estimated then "estimated_recorded" else "recorded")
              else "amortization_v1")
            is_estimated)
        ≡ none
  unfolding share_by_basis
  balance-share a label m true true is_estimated = refl
  balance-share a label m true false is_estimated = refl
  balance-share a label m false estimated is_estimated = refl

  recorded-share :
      (a : AssumptionSet D) (label : String) (m : D) (basis : AttachmentBasis) (is_estimated : Bool)
      → (basis == AttachmentBasis.recorded_against_property) ≡ true
      → share_by_basis a (line label m none (basis_text basis) is_estimated) ≡ none
  unfolding share_by_basis
  recorded-share a label m AttachmentBasis.recorded_against_property is_estimated h = refl
  recorded-share a label m AttachmentBasis.owner_named_only is_estimated h = cc
  recorded-share a label m AttachmentBasis.unknown is_estimated h = cc
  recorded-share a label m AttachmentBasis.undrawn_heloc_capacity is_estimated h = cc

  bid-share :
      (a : AssumptionSet D) (label : String) (m : D)
      → share_by_basis a (line label m none "published_bid" false) ≡ none
  unfolding share_by_basis
  bid-share a label m = refl

  reported-share :
      (a : AssumptionSet D) (label : String) (m : D)
      → share_by_basis a (line label m none "recorded" false) ≡ none
  unfolding share_by_basis
  reported-share a label m = refl

module _ {D : Type 0} ⦃py : Python D⦄ (laws : IsDecimal D) (a : AssumptionSet D) where
  open py use {dec, quantize}
  open laws use {le_trans, zero-le-times, zero-le-minus, zero-le-dec, quantize_mono}

  zero-le-get_or :
      (key : String) (d : Dict D)
      → any_below_zero d ≡ false
      → zero_decimal ≼ get_or key d zero_decimal
  zero-le-get_or key [] h = Order.le_refl laws zero_decimal
  zero-le-get_or key ((k, v) ∷ d) h = ground (arith, zero-le-get_or key d)

  -- An amount that the offers deduct in full.
  full-IsShared :
      (c p : D) → IsRounded c → zero_decimal ≼ c → p ≼ one_decimal → IsShared laws a c p c
  full-IsShared c p h k l = record {
    finance-le = le_trans _ _ _ (Rounded.share-le laws c p h k l) h.le-quantize;
    expected-le = h.quantize-le;
    zero-le = Rounded.zero-le-quantize laws c k;
    amount-IsRounded = h;
  }

  -- An amount that both deduct at its probability.
  likely-IsShared :
      (c p : D)
      → IsRounded c
      → zero_decimal ≼ c
      → zero_decimal ≼ p
      → p ≼ one_decimal
      → IsShared laws a c p (money_or_zero (c ⊗ p))
  likely-IsShared c p h k l m =
      let share = Rounded.money_or_zero-IsRounded laws (c ⊗ p) in
      record {
        finance-le = share.le-quantize;
        expected-le = le_trans _ _ _ share.quantize-le (Rounded.share-le laws c p h k m);
        zero-le =
            Rounded.zero-le-quantize laws _
              (Rounded.zero-le-money_or_zero laws _ (zero-le-times c p k l));
        amount-IsRounded = h;
      }

  probability_bounds :
      (basis : AttachmentBasis) (default' : D)
      → (zero_decimal ≼ probability_of a basis default')
        × (probability_of a basis default' ≼ one_decimal)
  probability_bounds basis default' =
      Order.clamp_bounds laws zero_decimal one_decimal _ (zero-le-dec 1 0)

  pub add_capacity-Deducts :
      (position : String) (limits : List D) (sums : Sums D)
      → All (λ l. zero_decimal ≼ l) limits
      → Deducts a sums
      → Deducts a (add_capacity a position limits sums)
  unfolding add_capacity
  add_capacity-Deducts position [] sums h d = d
  add_capacity-Deducts position (limit ∷ limits) sums h d =
      let x = max_of limit limits in
      add_potential-Deducts laws a _ _ _ _ sums refl
        (full-IsShared _ _ (Rounded.money_or_zero-IsRounded laws x)
          (Rounded.zero-le-money_or_zero laws x
            (le_trans _ _ _ h.0 (Order.le-max_of laws limit limits)))
          (probability_bounds AttachmentBasis.undrawn_heloc_capacity (dec 50 2)).1)
        d

  pub add_undrawn-Deducts :
      (position : String) (chosen : MortgageRecord D) (balance : D) (sums : Sums D)
      → Deducts a sums
      → Deducts a (add_undrawn a position chosen balance sums)
  unfolding add_undrawn
  add_undrawn-Deducts position chosen balance sums d =
      Option-elim_keeps (Deducts a) (value_of chosen.original_amount) _ _ d λ original e.
        if_keeps (Deducts a) (lt balance original) _ _
          (λ h.
            add_potential-Deducts laws a _ _ _ _ sums refl
              (full-IsShared _ _ (Rounded.money_or_zero-IsRounded laws _)
                (Rounded.zero-le-money_or_zero laws _
                  (zero-le-minus balance original (Order.lt→le laws balance original h)))
                (probability_bounds AttachmentBasis.undrawn_heloc_capacity (dec 50 2)).1)
              d)
          λ h. d

  pub add_evaluated-Deducts :
      (bid : Option D) (position : String) (limits : List D) (items : List (Evaluated D))
      (sums : Sums D)
      → All (λ l. zero_decimal ≼ l) limits
      → Deducts a sums
      → Deducts a (add_evaluated a bid position limits items sums)
  unfolding add_evaluated
  add_evaluated-Deducts bid position limits [] sums h d =
      add_capacity-Deducts position limits sums h d
  add_evaluated-Deducts bid position limits (x ∷ xs) sums h d =
      let owed = add_confirmed-Deducts laws a _ _ sums refl (balance-share a _ _ _ _ _) d in
      elim (Bool-cases (is_heloc (highest x xs).2)) [
        | inl e ↦ rw e (add_undrawn-Deducts position _ _ _ owed)
        | inr e ↦ rw e (add_capacity-Deducts position limits _ h owed)
      ]

  pub add_bid-Deducts :
      (bid : Option D) (mortgages : List (MortgageRecord D)) (sums : Sums D)
      → Deducts a sums
      → Deducts a (add_bid bid mortgages sums)
  unfolding add_bid
  add_bid-Deducts none mortgages sums d = d
  add_bid-Deducts (some bid) mortgages sums d =
      elim (Bool-cases (any (λ m. m.is_open && is_first m) mortgages)) [
        | inl e ↦ rw e d
        | inr e ↦ rw e (add_confirmed-Deducts laws a _ _ sums refl (bid-share a _ _) d)
      ]

  pub add_reported-Deducts :
      (label : String) (tracked : Option (TrackedValue D)) (sums : Sums D)
      → Deducts a sums
      → Deducts a (add_reported label tracked sums)
  unfolding add_reported
  add_reported-Deducts label tracked sums d =
      Option-elim_keeps (Deducts a) (value_of tracked) _ _ d
        λ v e. add_confirmed-Deducts laws a _ _ sums refl (reported-share a _ _) d

  lien_amount :
      (lien : LienRecord D) (median : D)
      → IsOwed lien
      → zero_decimal ≼ median
      → zero_decimal ≼ default_to median (value_of lien.amount)
  lien_amount lien median h k = go (value_of lien.amount) h
    where
      go :
          (o : Option D)
          → zero_decimal ≼ default_to zero_decimal o
          → zero_decimal ≼ default_to median o
      go none h = k
      go (some v) h = h

  pub add_lien-Deducts :
      (sums : Sums D) (lien : LienRecord D)
      → any_below_zero a.unknown_lien_medians ≡ false
      → IsOwed lien
      → Deducts a sums
      → Deducts a (add_lien a sums lien)
  unfolding add_lien
  add_lien-Deducts sums lien m h d =
      let x =
        default_to (get_or lien.lien_type a.unknown_lien_medians zero_decimal)
          (value_of lien.amount) in
      let (low, high) = probability_bounds lien.attachment_basis one_decimal in
      let amount = money_or_zero x in
      let attaches =
        add_potential-Deducts laws a amount _ _ _ sums refl
          (likely-IsShared amount _ (Rounded.money_or_zero-IsRounded laws x)
            (Rounded.zero-le-money_or_zero laws x
              (lien_amount lien _ h (zero-le-get_or lien.lien_type _ m)))
            low high)
          d in
      if_keeps (Deducts a) (is_closed lien) _ _ (λ e. d)
        λ e.
          if_keeps (Deducts a) (nonzero amount && not (is_some (value_of lien.amount))) _ _
            (λ k. attaches)
            λ k.
              if_keeps (Deducts a)
                (lien.attachment_basis == AttachmentBasis.recorded_against_property) _ _
                (λ b.
                  add_confirmed-Deducts laws a _ _ sums refl
                    (recorded-share a _ _ lien.attachment_basis _ b) d)
                λ b. attaches
