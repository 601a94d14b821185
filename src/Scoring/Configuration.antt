-- ===== src/Scoring/Configuration.antt =====
-- The scoring configuration: `DEFAULT_CONFIG`, `resolve_config`, `_weights`, `_points`, `_bound`.
--
-- A configuration is a dict of sections; a section is a dict of entries; an entry is a number, a
-- list of numbers or a dict of these. Deeper values are never read.
use house_analysis_ai.Prelude.{
  ℕ, Bool, Option, none, some, List, [], ◌∷◌, String, Dict, lookup, insert, update, ◌==◌, string_eq,
  if◌then◌else◌, any, Result, ok, err, value_error, key_error, type_error, ◌>>=◌, ◌>>◌, raise_if,
  or_raise, each,
}
use house_analysis_ai.Python.{Python, lt, zero_decimal}

pub data Leaf (D : Type 0) : Type 0 where
  num : D → Leaf D
  seq : List D → Leaf D

pub data Entry (D : Type 0) : Type 0 where
  leaf : Leaf D → Entry D
  table : Dict (Leaf D) → Entry D

pub data Section (D : Type 0) : Type 0 where
  plain : Leaf D → Section D
  entries : Dict (Entry D) → Section D

abbrev pub Config : Type 0 → Type 0
Config D = Dict (Section D)

-- `d[key]`
abbrev pub at_key {ℓ} : {V : Type ℓ} → String → Dict V → Result V
at_key key d = or_raise (lookup key d) (key_error key)

-- `_bound` gives a number or a pair.
pub data Bound (D : Type 0) : Type 0 where
  one : D → Bound D
  pair : D → D → Bound D

module _ {D : Type 0} ⦃py : Python D⦄ where
  open py use {dec}

  abbrev number : ℕ → ℕ → Entry D
  number n k = leaf (num (dec n k))

  abbrev interval : ℕ → ℕ → Entry D
  interval n k = leaf (seq (dec 0 0 ∷ dec n k ∷ []))

  abbrev weight : ℕ → Leaf D
  weight n = num (dec n 2)

  abbrev pub default_weights : Dict (Entry D)
  default_weights =
      (
        "overall",
        table (
            ("fos", weight 50)
            ∷ ("distress", weight 20)
            ∷ ("dcs", weight 20)
            ∷ ("risk", weight 25)
            ∷ []),
      )
      ∷ (
        "fos",
        table (
            ("profit", weight 30)
            ∷ ("roi", weight 25)
            ∷ ("equity_pct", weight 20)
            ∷ ("discount_to_value", weight 15)
            ∷ ("margin_of_safety", weight 10)
            ∷ []),
      )
      ∷ (
        "dcs",
        table (
            ("coverage", weight 30)
            ∷ ("corroboration", weight 20)
            ∷ ("recency", weight 20)
            ∷ ("conflict", weight 15)
            ∷ ("verification", weight 10)
            ∷ ("extraction", weight 5)
            ∷ []),
      )
      ∷ []

  abbrev pub default_bounds : Dict (Entry D)
  default_bounds =
      ("profit", interval 150000 0)
      ∷ ("roi", interval 50 2)
      ∷ ("equity_pct", interval 60 2)
      ∷ ("discount_to_value", interval 35 2)
      ∷ ("margin_of_safety", interval 35 2)
      ∷ ("critical_field_count", number 22 0)
      ∷ ("conflict_penalty_divisor", number 5 0)
      ∷ ("dcs_recency_half_life_days", number 180 0)
      ∷ ("distress_decay_half_life_months", number 18 0)
      ∷ ("nts_near_days", number 30 0)
      ∷ ("owner_only_lien_threshold", number 10000 0)
      ∷ ("high_equity_threshold", number 50 2)
      ∷ ("years_owned_threshold", number 15 0)
      ∷ ("delinquent_years_threshold", number 2 0)
      ∷ ("near_tie_points", number 5 0)
      ∷ []

  abbrev pub default_distress : Dict (Entry D)
  default_distress =
      ("nts_near", number 30 0)
      ∷ ("nts_far", number 24 0)
      ∷ ("nod", number 18 0)
      ∷ ("prior_foreclosure_each", number 8 0)
      ∷ ("prior_foreclosure_cap", number 16 0)
      ∷ ("bankruptcy_active", number 12 0)
      ∷ ("bankruptcy_prior_each", number 6 0)
      ∷ ("bankruptcy_prior_cap", number 18 0)
      ∷ ("repeat_filings", number 8 0)
      ∷ ("tax_lien_property", number 10 0)
      ∷ ("tax_lien_owner", number 4 0)
      ∷ ("other_lien_each", number 3 0)
      ∷ ("other_lien_cap", number 12 0)
      ∷ ("taxes_delinquent", number 10 0)
      ∷ ("absentee", number 5 0)
      ∷ ("long_ownership", number 4 0)
      ∷ ("listing_failure_each", number 6 0)
      ∷ ("listing_failure_cap", number 12 0)
      ∷ ("high_equity_bonus", number 5 0)
      ∷ []

  abbrev pub default_risk : Dict (Entry D)
  default_risk =
      ("lien_count", number 6 0)
      ∷ ("active_bankruptcy", number 15 0)
      ∷ ("foreclosure_stage", number 12 0)
      ∷ ("owner_only_lien", number 10 0)
      ∷ ("title_flag", number 10 0)
      ∷ ("owner_occupied", number 8 0)
      ∷ ("hoa_arrears", number 8 0)
      ∷ ("material_conflict", number 10 0)
      ∷ ("low_confidence", number 12 0)
      ∷ ("federal_tax_lien", number 6 0)
      ∷ []

  abbrev pub default_gates : Dict (Entry D)
  default_gates =
      ("dcs_cap_threshold", number 40 0)
      ∷ ("dcs_cap", number 45 0)
      ∷ ("dcs_low_threshold", number 50 0)
      ∷ ("foreclosure_dcs_threshold", number 75 0)
      ∷ ("foreclosure_cap", number 70 0)
      ∷ ("wholesale_min", number 60 0)
      ∷ []

  -- `DEFAULT_CONFIG`
  abbrev pub default_config : Config D
  default_config =
      ("version", plain (num (dec 0 0)))
      ∷ ("weights", entries default_weights)
      ∷ ("bounds", entries default_bounds)
      ∷ ("distress_points", entries default_distress)
      ∷ ("risk_points", entries default_risk)
      ∷ ("gates", entries default_gates)
      ∷ []

  -- `{**old, **new}` where both are dicts, and else the new value
  abbrev merge_entry : Entry D → Option (Entry D) → Entry D
  merge_entry (table new) (some (table old)) = table (update old new)
  merge_entry v _ = v

  -- the inner loop of `resolve_config`
  unfoldable pub merge_entries : Dict (Entry D) → Dict (Entry D) → Dict (Entry D)
  merge_entries merged [] = merged
  merge_entries merged ((key, value) ∷ rest) =
      merge_entries (insert key (merge_entry value (lookup key merged)) merged) rest

  unfoldable pub merge_section : String → Section D → Option (Section D) → Section D
  merge_section section (entries new) (some (entries old)) =
      if section == "version" then entries new else entries (merge_entries old new)
  merge_section section values _ = values

  -- the outer loop of `resolve_config`
  unfoldable pub merge_config : Config D → Config D → Config D
  merge_config merged [] = merged
  merge_config merged ((section, values) ∷ rest) =
      merge_config (insert section (merge_section section values (lookup section merged)) merged)
        rest

  -- `none` is the argument `None`. The copies of the default's dicts are its values themselves.
  unfoldable pub resolve_config : Option (Config D) → Config D
  unfolding merge_config merge_section merge_entries
  resolve_config none = default_config
  resolve_config (some config) = merge_config default_config config

  abbrev entries_of : Section D → Result (Dict (Entry D))
  entries_of (plain _) = err type_error
  entries_of (entries d) = ok d

  abbrev table_of : Entry D → Result (Dict (Leaf D))
  table_of (leaf _) = err type_error
  table_of (table d) = ok d

  -- `_d`, of what is not a list
  abbrev decimal_of : Leaf D → Result D
  decimal_of (num d) = ok d
  decimal_of (seq _) = err type_error

  abbrev item_of : String × Leaf D → Result (String × D)
  item_of (key, value) = do d ← decimal_of value; ok (key, d)

  abbrev entry_of : String × Entry D → Result (String × D)
  entry_of (key, leaf value) = do d ← decimal_of value; ok (key, d)
  entry_of (key, table _) = err type_error

  abbrev any_negative : Dict D → Bool
  any_negative d = any (λ item. lt item.1 zero_decimal) d

  -- `_weights`
  unfoldable pub weights : Config D → String → Result (Dict D)
  weights config section = do
    found ← at_key "weights" config
    sections ← entries_of found
    entry ← at_key section sections
    items ← table_of entry
    values ← each item_of items
    raise_if (any_negative values) (value_error "weights must be nonnegative")
    ok values

  -- `_points`
  unfoldable pub points : Config D → String → Result (Dict D)
  points config section = do
    found ← at_key section config
    items ← entries_of found
    values ← each entry_of items
    raise_if (any_negative values) (value_error "values must be nonnegative")
    ok values

  abbrev bound_of : Entry D → Result (Bound D)
  bound_of (leaf (num d)) = ok (one d)
  bound_of (leaf (seq (low ∷ high ∷ []))) = ok (pair low high)
  bound_of (leaf (seq _)) = err (value_error "bound must contain exactly two values")
  bound_of (table _) = err type_error

  -- `_bound`
  unfoldable pub bound : Config D → String → Result (Bound D)
  bound config key = do
    found ← at_key "bounds" config
    items ← entries_of found
    entry ← at_key key items
    bound_of entry

  -- a use of a bound as a number, and as `low, high = ...`
  abbrev number_of : Bound D → Result D
  number_of (one d) = ok d
  number_of (pair _ _) = err type_error

  abbrev limits_of : Bound D → Result (D × D)
  limits_of (one _) = err type_error
  limits_of (pair low high) = ok (low, high)

  unfoldable pub bound_number : Config D → String → Result D
  unfolding bound
  bound_number config key = do b ← bound config key; number_of b

  unfoldable pub bound_limits : Config D → String → Result (D × D)
  unfolding bound
  bound_limits config key = do b ← bound config key; limits_of b
