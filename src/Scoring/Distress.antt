-- ===== src/Scoring/Distress.antt =====
-- `_distress`: additive points with decay, caps by category, and a cap of 100 overall.
use house_analysis_ai.Prelude.{
  Bool, false, not, ◌&&◌, Option, none, some, List, [], ◌∷◌, ◌++◌, Dict, ◌==◌, string_eq,
  if◌then◌else◌, keep, one_of, Result, ok, value_error, ◌>>=◌, ◌>>◌, raise_if,
}
use house_analysis_ai.Prelude.Int.{leb_ℤ}
use house_analysis_ai.Python.{Python, ◌⊕◌, ◌⊗◌, zero_decimal, lt, nonzero, min, sum}
use house_analysis_ai.Contracts.{
  Date, AttachmentBasis, basis_eq, NormalizedProperty, LienRecord, HoaBlock, TrackedValue,
  ListingRecord,
}
use house_analysis_ai.Scoring.Configuration.{Config, at_key, points, bound_number}
use house_analysis_ai.Scoring.Numbers.{clamp100, months_between, decay, is_open_lien}
use house_analysis_ai.Scoring.Events.{
  is_true, int_or_zero, tax_lien_types, failed_listing_statuses, values, term, term_if, event_decay,
  foreclosure_terms, bankruptcy_terms,
}

module _ {D : Type 0} ⦃py : Python D⦄ where
  open py use {of_int, to_int, quantize, le, casefold}

  -- the loop over the liens: the points of tax liens on the property, of tax liens on the owner
  -- and of the other open liens
  unfoldable pub lien_points :
      Dict D → Date → D → List (LienRecord D) → D × D × D → Result (D × D × D)
  lien_points p as_of half_life [] sums = ok sums
  lien_points p as_of half_life (lien ∷ liens) (on_property, on_owner, other) = do
    next ←
        (let share = event_decay as_of half_life lien.recording_date in
          if not (is_open_lien lien)
          then ok (on_property, on_owner, other)
          else if one_of (casefold lien.lien_type) tax_lien_types
          then (if lien.attachment_basis == AttachmentBasis.recorded_against_property
              then (do
                v ← at_key "tax_lien_property" p
                ok (on_property ⊕ v ⊗ share, on_owner, other))
              else (do
                v ← at_key "tax_lien_owner" p
                ok (on_property, on_owner ⊕ v ⊗ share, other)))
          else (do v ← at_key "other_lien_each" p; ok (on_property, on_owner, other ⊕ v ⊗ share)))
    lien_points p as_of half_life liens next

  -- `(x.value or zero_decimal) > zero_decimal` of an optional tracked value
  abbrev pub is_positive : Option (TrackedValue D) → Bool
  is_positive none = false
  is_positive (some t) = elim t.value [ none ↦ false | some v ↦ lt zero_decimal v ]

  unfoldable pub lien_terms : Dict D → Date → D → HoaBlock D → List (LienRecord D) → Result (Dict D)
  lien_terms p as_of half_life hoa liens = do
    (on_property, on_owner, open_other) ←
        lien_points p as_of half_life liens (zero_decimal, zero_decimal, zero_decimal)
    other ←
        (if hoa.has_lien && is_positive hoa.arrears
          then (do v ← at_key "other_lien_each" p; ok (open_other ⊕ v))
          else ok open_other)
    others ←
        (if nonzero other
          then (do
            cap ← at_key "other_lien_cap" p
            ok (term "distress_other_involuntary_liens" (quantize 4 (min cap other))))
          else ok [])
    ok (
        term_if (nonzero on_property) "distress_tax_lien_attached" (quantize 4 on_property)
        ++ term_if (nonzero on_owner) "distress_tax_lien_owner_only" (quantize 4 on_owner)
        ++ others)

  unfoldable pub owner_terms : Dict D → Config D → NormalizedProperty D → Result (Dict D)
  owner_terms p config record' = do
    threshold ← bound_number config "delinquent_years_threshold"
    late ←
        (if leb_ℤ (to_int threshold) (int_or_zero record'.taxes.delinquent_years)
          then (do v ← at_key "taxes_delinquent" p; ok (term "distress_taxes_delinquent_2yr" v))
          else ok [])
    absent ←
        (if is_true record'.ownership.is_absentee
          then (do v ← at_key "absentee" p; ok (term "distress_absentee" v))
          else ok [])
    long ← elim record'.ownership.years_owned [
      | none ↦ ok []
      | some years ↦ (do
        years_threshold ← bound_number config "years_owned_threshold"
        if lt years_threshold years
            then (do v ← at_key "long_ownership" p; ok (term "distress_owned_over_15yr" v))
            else ok [])
    ]
    ok (late ++ absent ++ long)

  abbrev has_failed : ListingRecord D → Bool
  has_failed listing = one_of (casefold listing.status) failed_listing_statuses

  -- `listing.delist_date or listing.list_date`
  abbrev end_date : ListingRecord D → Date
  end_date listing = elim listing.delist_date [ none ↦ listing.list_date | some d ↦ d ]

  -- the sum over the failed listings; no key is read where there is none
  unfoldable pub listing_points : Dict D → Date → D → List (ListingRecord D) → D → Result D
  listing_points p as_of half_life [] acc = ok acc
  listing_points p as_of half_life (x ∷ xs) acc = do
    v ← at_key "listing_failure_each" p
    listing_points p as_of half_life xs
        (acc ⊕ v ⊗ decay (months_between as_of (some (end_date x))) half_life)

  unfoldable pub listing_terms : Dict D → Date → D → List (ListingRecord D) → Result (Dict D)
  listing_terms p as_of half_life listings = do
    failures ← listing_points p as_of half_life (keep has_failed listings) zero_decimal
    if nonzero failures
        then (do
          cap ← at_key "listing_failure_cap" p
          ok (term "distress_listing_expired" (quantize 4 (min cap failures))))
        else ok []

  -- the bonus counts only beside another sign of distress
  unfoldable pub bonus_terms : Dict D → Config D → Option D → Dict D → Result (Dict D)
  bonus_terms p config none terms = ok []
  bonus_terms p config (some share) terms = do
    threshold ← bound_number config "high_equity_threshold"
    if le threshold share && lt zero_decimal (sum (values terms))
        then (do v ← at_key "high_equity_bonus" p; ok (term "distress_high_equity_bonus" v))
        else ok []

  -- the terms that stand before the bonus
  unfoldable pub distress_terms :
      Dict D → Config D → Date → D → NormalizedProperty D → Result (Dict D)
  distress_terms p config as_of half_life record' = do
    foreclosure ← foreclosure_terms p config as_of half_life record'.foreclosure
    bankruptcy ← bankruptcy_terms p as_of half_life record'.bankruptcies
    liens ← lien_terms p as_of half_life record'.hoa record'.liens
    owner ← owner_terms p config record'
    listings ← listing_terms p as_of half_life record'.listings
    ok (foreclosure ++ bankruptcy ++ liens ++ owner ++ listings)

  unfoldable pub distress_score :
      NormalizedProperty D → Config D → Date → Option D → Result (D × Dict D)
  distress_score record' config as_of equity_pct = do
    p ← points config "distress_points"
    half_life ← bound_number config "distress_decay_half_life_months"
    raise_if (le half_life zero_decimal)
        (value_error "distress decay half-life must be greater than zero")
    terms ← distress_terms p config as_of half_life record'
    bonus ← bonus_terms p config equity_pct terms
    let all = terms ++ bonus
    ok (clamp100 (sum (values all)), all)
