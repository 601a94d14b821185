-- ===== src/Scoring/Numbers.antt =====
-- The arithmetic helpers of scoring/engine.py: `n`, `_clamp100`, `_months_between`, `_decay`.
use house_analysis_ai.Prelude.{
  ◌||◌, Option, none, some, if◌then◌else◌, Result, ok, value_error, ◌>>◌, raise_if, not, one_of,
  string_eq, [], ◌∷◌, Bool,
}
use house_analysis_ai.Prelude.Int.{pos}
use house_analysis_ai.Python.{Python, ◌⊖◌, ◌⊘◌, zero_decimal, one_decimal, hundred, max, min}
use house_analysis_ai.Contracts.{Date, days_since, LienRecord}

module _ {D : Type 0} ⦃py : Python D⦄ where
  open py use {dec, of_int, power, le, casefold}

  -- `n`: where a value lies between two bounds, from 0 to 1
  unfoldable pub normalized : Option D → D → D → Result D
  normalized none low high = ok zero_decimal
  normalized (some value) low high = do
    raise_if (le high low)
        (value_error "normalization upper bound must be greater than lower bound")
    ok (max zero_decimal (min one_decimal ((value ⊖ low) ⊘ (high ⊖ low))))

  abbrev pub clamp100 : D → D
  clamp100 value = max zero_decimal (min hundred value)

  -- `_months_between`, in months of 30.4375 days
  unfoldable pub months_between : Date → Option Date → D
  unfolding days_since
  months_between as_of none = zero_decimal
  months_between as_of (some when) = of_int (pos (days_since as_of when)) ⊘ dec 304375 4

  -- `_decay`
  unfoldable pub decay : D → D → D
  decay months half_life =
      if le months zero_decimal || le half_life zero_decimal
      then one_decimal
      else power (dec 5 1) (months ⊘ half_life)

  -- `_is_open_lien`
  abbrev pub is_open_lien : LienRecord D → Bool
  is_open_lien lien =
      not (one_of (casefold lien.status) ("closed" ∷ "paid" ∷ "released" ∷ "satisfied" ∷ []))
