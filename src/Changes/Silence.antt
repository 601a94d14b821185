-- ===== src/Changes/Silence.antt =====
-- changes/diff.py reports nothing between a record and itself.
use house_analysis_ai.Prelude.{
  Bool, true, false, Option, none, some, List, [], ◌∷◌, map, String, ◌≡◌, refl, ap, sym, subst, ℕ,
  ◌==◌, string_eq, number_eq, same_option, collect, arith, Bool-cases, inl, inr, eq_refl, ok,
}
use house_analysis_ai.Python.{nonzero, Python, same}
use house_analysis_ai.Python.Laws.{IsDecimal}
use house_analysis_ai.Python.Order
use house_analysis_ai.Contracts.{
  Date, date_eq, LienRecord, ForeclosureState, BankruptcyRecord, ListingRecord, OwnershipBlock,
  NormalizedProperty,
}
use house_analysis_ai.Finance.{value_of}
use house_analysis_ai.Changes.{
  match_items, take_first, same_bankruptcy, same_lien, same_listing, same_texts, sort_texts,
  diff_foreclosure, diff_liens, diff_listings, diff_ownership, diff_bankruptcies, lien_change,
  is_price_cut, listing_change, diff_value, value_change, representative_value, diff_properties,
}

same_id : (n : ℕ) → (n == n) ≡ true
same_id n = ground arith

same_date_refl : (a : Date) → (a == a) ≡ true
same_date_refl a = ground arith

same_dates_refl : (a : Option Date) → same_option (λ (x : Date) (y : Date). x == y) a a ≡ true
same_dates_refl none = refl
same_dates_refl (some a) = same_date_refl a

same_texts_refl : (xs : List String) → same_texts xs xs ≡ true
same_texts_refl [] = refl
same_texts_refl (x ∷ xs) = rw (eq_refl x, same_texts_refl xs) refl

module _ {A : Type 0} where
  abbrev twice : A → A × A
  twice x = (x, x)

  take_first-head :
      (p : A → Bool) (x : A) (xs : List A) → p x ≡ true → take_first p (x ∷ xs) ≡ some (x, xs)
  unfolding take_first
  take_first-head p x xs h = rw h refl

  match_items_self :
      (same_key : A → A → Bool) (xs : List A)
      → ((x : A) → same_key x x ≡ true)
      → match_items same_key xs xs ≡ (map twice xs, [], [])
  unfolding match_items
  match_items_self same_key [] h = refl
  match_items_self same_key (x ∷ xs) h =
      subst
        (λ o.
          elim o as (λ _. List (A × A) × List A × List A) [
            | none ↦ (let rest = match_items same_key (x ∷ xs) xs in (rest.0, rest.1, x ∷ rest.2))
            | some found ↦
                (let rest = match_items same_key found.1 xs in
                  ((found.0, x) ∷ rest.0, rest.1, rest.2))
          ]
          ≡ (map twice (x ∷ xs), [], []))
        (sym (take_first-head (λ c. same_key c x) x xs (h x)))
        (ap (λ (m : List (A × A) × List A × List A). ((x, x) ∷ m.0, m.1, m.2))
          (match_items_self same_key xs h))

  collect-twice :
      {B : Type 0} (f : A × A → Option B) (xs : List A)
      → ((x : A) → f (x, x) ≡ none)
      → collect f (map twice xs) ≡ []
  collect-twice f [] h = refl
  collect-twice f (x ∷ xs) h = rw (h x, collect-twice f xs h) refl

same_bankruptcy_refl : (b : BankruptcyRecord) → same_bankruptcy b b ≡ true
unfolding same_bankruptcy
same_bankruptcy_refl b = rw (eq_refl b.chapter, same_dates_refl b.filing_date) refl

module _ {D : Type 0} where
  same_lien_refl : (l : LienRecord D) → same_lien l l ≡ true
  unfolding same_lien
  same_lien_refl l = rw (eq_refl l.lien_type, same_dates_refl l.recording_date) refl

  same_listing_refl : (l : ListingRecord D) → same_listing l l ≡ true
  unfolding same_listing
  same_listing_refl l = rw (same_date_refl l.list_date, eq_refl l.status) refl

  diff_foreclosure_self :
      (f : Option (ForeclosureState D)) (delta : Option D) → diff_foreclosure f f delta ≡ []
  unfolding diff_foreclosure
  diff_foreclosure_self none delta = refl
  diff_foreclosure_self (some f) delta = ground (arith, same_dates_refl f.current_sale_date)

  diff_ownership_self : (o : OwnershipBlock D) (delta : Option D) → diff_ownership o o delta ≡ []
  unfolding diff_ownership
  diff_ownership_self o delta = rw (same_texts_refl (sort_texts o.owner_names)) refl

  diff_bankruptcies_self :
      (items : List BankruptcyRecord) (delta : Option D) → diff_bankruptcies items items delta ≡ []
  unfolding diff_bankruptcies
  diff_bankruptcies_self items delta =
      rw (match_items_self same_bankruptcy items same_bankruptcy_refl) refl

module _ {D : Type 0} ⦃py : Python D⦄ (laws : IsDecimal D) where
  open py use {dec, absolute}
  open laws use {le_trans, absolute_minus_self, zero-lt-absolute, over-le-zero, zero-le-dec}

  same_refl : (a : D) → same a a ≡ true
  same_refl a = ground (arith, Order.le_refl laws a)

  same_option_refl : (a : Option D) → same_option same a a ≡ true
  same_option_refl none = refl
  same_option_refl (some a) = same_refl a

  lien_change_self : (delta : Option D) (l : LienRecord D) → lien_change delta (l, l) ≡ none
  unfolding lien_change
  lien_change_self delta l = ground (arith, same_option_refl (value_of l.amount))

  no_cut : (v : Option D) → is_price_cut v v ≡ false
  unfolding is_price_cut
  no_cut none = refl
  no_cut (some p) = ground (arith, Order.le_refl laws p)

  listing_change_self :
      (delta : Option D) (l : ListingRecord D) → listing_change delta (l, l) ≡ none
  unfolding listing_change
  listing_change_self delta l = rw (no_cut (value_of l.price)) refl

  diff_liens_self :
      (items : List (LienRecord D)) (delta : Option D) → diff_liens items items delta ≡ []
  unfolding diff_liens
  diff_liens_self items delta =
      rw (match_items_self same_lien items same_lien_refl)
        (collect-twice (lien_change delta) items (lien_change_self delta))

  diff_listings_self :
      (items : List (ListingRecord D)) (delta : Option D) → diff_listings items items delta ≡ []
  unfolding diff_listings
  diff_listings_self items delta =
      rw (match_items_self same_listing items same_listing_refl)
        (collect-twice (listing_change delta) items (listing_change_self delta))

  value_change_self : (v : Option D) (delta : Option D) → value_change v v delta ≡ []
  unfolding value_change
  value_change_self none delta = refl
  value_change_self (some v) delta = elim (Bool-cases (nonzero v)) [
    | inl some_value ↦
        (let positive = zero-lt-absolute v some_value in
          let share =
            le_trans _ _ _ (over-le-zero _ _ (absolute_minus_self v) positive) (zero-le-dec 10 2) in
          ground arith)
    | inr no_value ↦ ground arith
  ]

  -- A record compared with itself gives no change, whatever it holds: repeated liens, listings and
  -- bankruptcies included.
  pub diff_properties_self :
      (r : NormalizedProperty D) (delta : Option D) → diff_properties r r delta ≡ ok []
  unfolding diff_properties diff_value
  diff_properties_self r delta =
      rw
        (
          same_id r.property_id,
          diff_foreclosure_self r.foreclosure delta,
          diff_liens_self r.liens delta,
          diff_listings_self r.listings delta,
          diff_ownership_self r.ownership delta,
          diff_bankruptcies_self {D = D} r.bankruptcies delta,
          value_change_self (representative_value r.valuation_candidates) delta,
        )
        refl
