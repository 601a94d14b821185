-- ===== src/Scoring/Risk.antt =====
-- `_risk`: additive risk points, and a cap of 100.
use house_analysis_ai.Prelude.{
  Bool, false, ◌&&◌, Option, none, some, [], ◌∷◌, String, Dict, ◌==◌, string_eq, if◌then◌else◌,
  keep, any, count_if, one_of, length, Result, ok, ◌>>=◌,
}
use house_analysis_ai.Prelude.Int.{pos}
use house_analysis_ai.Python.{Python, ◌⊗◌, zero_decimal, lt, sum}
use house_analysis_ai.Contracts.{
  AttachmentBasis, FlagType, basis_eq, flag_eq, NormalizedProperty, ForeclosureState, LienRecord,
  FlagSummary, TrackedValue,
}
use house_analysis_ai.Scoring.Configuration.{Config, at_key, points, bound_number}
use house_analysis_ai.Scoring.Numbers.{clamp100, is_open_lien}
use house_analysis_ai.Scoring.Events.{
  is_true, with_status, near_sale_stages, active_bankruptcy_statuses, values,
}

module _ {D : Type 0} ⦃py : Python D⦄ where
  open py use {of_int, quantize, casefold}

  -- `flag.type.value in {...}`
  abbrev is_title_flag : FlagSummary D → Bool
  is_title_flag flag = one_of flag.type (
      FlagType.identity_conflict ∷ FlagType.conflicting_mortgage ∷ FlagType.foreclosure_unclear
      ∷ [])

  abbrev exceeds : D → Option (TrackedValue D) → Bool
  exceeds threshold none = false
  exceeds threshold (some t) = elim t.value [ none ↦ false | some v ↦ lt threshold v ]

  abbrev is_owner_only_over : D → LienRecord D → Bool
  is_owner_only_over threshold lien =
      lien.attachment_basis == AttachmentBasis.owner_named_only && exceeds threshold lien.amount

  abbrev sale_stage : Option (ForeclosureState D) → Bool
  sale_stage none = false
  sale_stage (some f) = f.is_active && one_of (casefold f.stage) near_sale_stages

  -- `points[key] if test else 0`, which reads the key only if the test holds
  abbrev points_if : Dict D → Bool → String → Result D
  points_if p test key = if test then at_key key p else ok zero_decimal

  unfoldable pub risk_score : NormalizedProperty D → Config D → D → Result (D × Dict D)
  risk_score record' config dcs = do
    p ← points config "risk_points"
    gates ← points config "gates"
    let open_liens = keep is_open_lien record'.liens
    lien_count ← at_key "lien_count" p
    bankruptcy ←
        points_if p (any (with_status casefold active_bankruptcy_statuses) record'.bankruptcies)
          "active_bankruptcy"
    stage ← points_if p (sale_stage record'.foreclosure) "foreclosure_stage"
    threshold ← bound_number config "owner_only_lien_threshold"
    owner_only ← at_key "owner_only_lien" p
    title ← at_key "title_flag" p
    occupied ← points_if p (is_true record'.ownership.is_owner_occupied) "owner_occupied"
    arrears ← points_if p (exceeds zero_decimal record'.hoa.arrears) "hoa_arrears"
    conflict ← at_key "material_conflict" p
    low_threshold ← at_key "dcs_low_threshold" gates
    low ← points_if p (lt dcs low_threshold) "low_confidence"
    federal ←
        points_if p (any (λ lien. casefold lien.lien_type == "federal_tax") open_liens)
          "federal_tax_lien"
    let terms =
        ("risk_liens", lien_count ⊗ of_int (pos (length open_liens)))
        ∷ ("risk_bankruptcy", bankruptcy)
        ∷ ("risk_foreclosure_stage", stage)
        ∷ (
          "risk_owner_only_liens_over_10k",
          owner_only ⊗ of_int (pos (count_if (is_owner_only_over threshold) open_liens)),
        )
        ∷ ("risk_title_flags", title ⊗ of_int (pos (count_if is_title_flag record'.open_flags)))
        ∷ ("risk_owner_occupied", occupied)
        ∷ ("risk_hoa_arrears", arrears)
        ∷ (
          "risk_material_conflicts",
          conflict ⊗ of_int record'.data_quality.material_conflict_count,
        )
        ∷ ("risk_low_dcs", low)
        ∷ ("risk_federal_tax_lien", federal)
        ∷ []
    ok (quantize 4 (clamp100 (sum (values terms))), terms)
