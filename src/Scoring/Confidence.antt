-- ===== src/Scoring/Confidence.antt =====
-- `_dcs`: the data confidence score, a weighted sum of shares between 0 and 1.
use house_analysis_ai.Prelude.{
  ◌||◌, Option, none, some, [], ◌∷◌, Dict, count_if, Result, ok, value_error, ◌>>=◌, ◌>>◌, raise_if,
}
use house_analysis_ai.Prelude.Int.{pos, leb_ℤ}
use house_analysis_ai.Python.{
  Python, ◌⊕◌, ◌⊖◌, ◌⊗◌, ◌⊘◌, zero_decimal, one_decimal, hundred, max, min,
}
use house_analysis_ai.Contracts.{Date, days_since, NormalizedProperty}
use house_analysis_ai.Scoring.Configuration.{Config, at_key, weights, bound_number, resolve_config}
use house_analysis_ai.Scoring.Numbers.{decay}

-- `as_of or today`
abbrev pub reference_date : Option Date → Date → Date
reference_date none today = today
reference_date (some as_of) today = as_of

module _ {D : Type 0} ⦃py : Python D⦄ where
  open py use {of_int, quantize, le}

  abbrev pub clamp1 : D → D
  clamp1 x = max zero_decimal (min one_decimal x)

  abbrev recency_of : Date → D → Option Date → D
  recency_of as_of half_life none = zero_decimal
  recency_of as_of half_life (some newest) =
      decay (of_int (pos (days_since as_of newest))) half_life

  unfoldable pub dcs_score : NormalizedProperty D → Config D → Date → Result (D × Dict D)
  dcs_score record' config as_of = do
    let quality = record'.data_quality
    w ← weights config "dcs"
    critical ← bound_number config "critical_field_count"
    divisor ← bound_number config "conflict_penalty_divisor"
    half_life ← bound_number config "dcs_recency_half_life_days"
    raise_if (le critical zero_decimal || le divisor zero_decimal || le half_life zero_decimal)
        (value_error "DCS count, conflict, and recency bounds must be greater than zero")
    let coverage = clamp1 quality.critical_field_coverage
    let corroborated = count_if (λ item. leb_ℤ (pos 2) item.1) quality.source_counts_by_field
    let corroboration = quantize 6 (clamp1 (of_int (pos corroborated) ⊘ critical))
    let recency = recency_of as_of half_life quality.newest_report_date
    let conflict_penalty = clamp1 (of_int quality.material_conflict_count ⊘ divisor)
    let verification = quantize 6 (clamp1 (of_int quality.verified_field_count ⊘ critical))
    let extraction = clamp1 quality.mean_extraction_confidence
    w_coverage ← at_key "coverage" w
    w_corroboration ← at_key "corroboration" w
    w_recency ← at_key "recency" w
    w_conflict ← at_key "conflict" w
    w_verification ← at_key "verification" w
    w_extraction ← at_key "extraction" w
    let weighted =
        hundred
        ⊗ (w_coverage ⊗ coverage
            ⊕ w_corroboration ⊗ corroboration
            ⊕ w_recency ⊗ recency
            ⊕ w_conflict ⊗ (one_decimal ⊖ conflict_penalty)
            ⊕ w_verification ⊗ verification
            ⊕ w_extraction ⊗ extraction)
    ok (
      quantize 4 weighted,
      ("dcs_field_coverage", quantize 6 coverage)
          ∷ ("dcs_corroboration", corroboration)
          ∷ ("dcs_recency", quantize 6 recency)
          ∷ ("dcs_conflict_free", quantize 6 (one_decimal ⊖ conflict_penalty))
          ∷ ("dcs_verification", verification)
          ∷ ("dcs_extraction_quality", quantize 6 extraction)
          ∷ [],
    )

  -- `today` stands for the clock
  unfoldable pub data_confidence :
      NormalizedProperty D → Option (Config D) → Option Date → Date → Result D
  data_confidence record' config as_of today = do
    (value, _) ← dcs_score record' (resolve_config config) (reference_date as_of today)
    ok value
