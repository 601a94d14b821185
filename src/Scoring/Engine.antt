-- ===== src/Scoring/Engine.antt =====
-- `score`: the components, the weighted overall score, the gates. The optional trace recorder,
-- which only reads the values, is absent.
use house_analysis_ai.Prelude.{
  Bool, not, ◌&&◌, Option, none, some, List, [], ◌∷◌, ◌++◌, String, Dict, assoc, update, ◌==◌,
  string_eq, if◌then◌else◌, any, one_of, Result, ok, ◌>>=◌,
}
use house_analysis_ai.Python.{Python, ◌⊕◌, ◌⊖◌, ◌⊗◌, ◌⊘◌, zero_decimal, lt, min, nonzero}
use house_analysis_ai.Contracts.{
  Uuid, Date, Scenario, StrategyType, scenario_eq, UnderwritingStatus, underwriting_eq,
  NormalizedProperty, ForeclosureState, UnderwritingResult, StrategyResult, ScoreSet,
}
use house_analysis_ai.Scoring.Configuration.{Config, at_key, weights, points, resolve_config}
use house_analysis_ai.Scoring.Numbers.{clamp100}
use house_analysis_ai.Scoring.Recommend.{recommend}
use house_analysis_ai.Scoring.Opportunity.{fos_score}
use house_analysis_ai.Scoring.Distress.{distress_score}
use house_analysis_ai.Scoring.Confidence.{dcs_score, reference_date}
use house_analysis_ai.Scoring.Risk.{risk_score}

-- `x.f if x else None`
abbrev pub and_then {ℓ κ} : {A : Type ℓ} {B : Type κ} → Option A → (A → Option B) → Option B
and_then none f = none
and_then (some a) f = f a

abbrev pub is_rankable : List String → Bool
is_rankable gates = not (one_of "insufficient_data" gates) && not (one_of "open_gating_flag" gates)

-- the name of a gate that applies
abbrev pub gate : Bool → String → List String
gate test name = if test then name ∷ [] else []

-- the names of the gates, in the order of the code
abbrev pub gate_list : Bool → List String → List String → Bool → List String
gate_list fine low sale gated =
    gate (not fine) "insufficient_data" ++ (low ++ (sale ++ gate gated "open_gating_flag"))

module _ {D : Type 0} ⦃py : Python D⦄ where
  open py use {quantize}

  -- `x or zero_decimal`
  abbrev pub or_zero : Option D → D
  or_zero none = zero_decimal
  or_zero (some x) = if nonzero x then x else zero_decimal

  -- the share of the expected value that the best offer leaves
  unfoldable pub discount_to_value : Option D → Option (StrategyResult D) → D
  discount_to_value (some value) (some best) = elim best.mao [
    | none ↦ zero_decimal
    | some mao ↦ if nonzero value then quantize 6 ((value ⊖ mao) ⊘ value) else zero_decimal
  ]
  discount_to_value _ _ = zero_decimal

  unfoldable pub active_foreclosure : Option (ForeclosureState D) → Bool
  active_foreclosure none = Bool.false
  active_foreclosure (some f) = f.is_active

  -- A cap on the score with the name of its gate. Its limits are read only where the code does.
  unfoldable pub dcs_gate : Dict D → D → D → Result (List String × D)
  dcs_gate limits dcs overall = do
    threshold ← at_key "dcs_cap_threshold" limits
    if lt dcs threshold
        then (do cap ← at_key "dcs_cap" limits; ok ("dcs_below_40" ∷ [], min overall cap))
        else ok ([], overall)

  unfoldable pub foreclosure_gate :
      Dict D → Option (ForeclosureState D) → D → D → Result (List String × D)
  foreclosure_gate limits foreclosure dcs overall =
      if active_foreclosure foreclosure
      then (do
        threshold ← at_key "foreclosure_dcs_threshold" limits
        if lt dcs threshold
            then (do
              cap ← at_key "foreclosure_cap" limits
              ok ("foreclosure_cap" ∷ [], min overall cap))
            else ok ([], overall))
      else ok ([], overall)

  -- the gates that apply, in the order of the code, and the score under their caps
  unfoldable pub apply_gates :
      Dict D → NormalizedProperty D → UnderwritingResult D → D → D → Result (List String × D)
  apply_gates limits record' underwriting dcs overall = do
    (low, first) ← dcs_gate limits dcs overall
    (sale, second) ← foreclosure_gate limits record'.foreclosure dcs first
    ok (
      gate_list (underwriting.status == UnderwritingStatus.ok) low sale
          (any (λ flag. flag.is_gating) record'.open_flags),
      second,
    )

  -- the weighted sum, from 0 to 100
  unfoldable pub overall_of : Config D → D → D → D → D → Result D
  overall_of config fos distress dcs risk = do
    w ← weights config "overall"
    w_fos ← at_key "fos" w
    w_distress ← at_key "distress" w
    w_dcs ← at_key "dcs" w
    w_risk ← at_key "risk" w
    ok (clamp100 (w_fos ⊗ fos ⊕ w_distress ⊗ distress ⊕ w_dcs ⊗ dcs ⊖ w_risk ⊗ risk))

  abbrev components_of :
      Option (StrategyResult D) → Option D → D → Dict D → Dict D → Dict D → Dict D → Dict D
  components_of best equity_pct discount fos_terms distress_terms dcs_terms risk_terms =
      let head : Dict D =
        ("profit", or_zero (and_then best (λ b. b.profit)))
        ∷ ("roi", or_zero (and_then best (λ b. b.roi)))
        ∷ ("equity_pct", or_zero equity_pct)
        ∷ ("discount_to_value", discount)
        ∷ ("margin_of_safety", or_zero (and_then best (λ b. b.margin_of_safety)))
        ∷ ("mao_best", elim (and_then best (λ b. b.mao)) [ none ↦ zero_decimal | some mao ↦ mao ])
        ∷ [] in
      update (update (update (update head fos_terms) distress_terms) dcs_terms) risk_terms

  -- the record that `score` returns, from its parts
  abbrev score_set :
      NormalizedProperty D
      → Uuid
      → (D × D × D × D × D)
      → Dict D
      → List String
      → Option (StrategyResult D)
      → List StrategyType
      → ScoreSet D
  score_set record' id (fos, distress, dcs, risk, overall) components gates best alternatives =
      record {
        property_id = record'.property_id;
        scoring_config_id = id;
        fos = quantize 4 fos;
        distress = quantize 4 distress;
        data_confidence = quantize 4 dcs;
        risk = quantize 4 risk;
        overall = quantize 4 overall;
        components = components;
        gates_applied = gates;
        is_rankable = is_rankable gates;
        recommended_strategy = and_then best (λ b. some b.strategy);
        recommended_alternatives = alternatives;
      }

  -- `today` stands for the clock, which is read if no `as_of` is given.
  unfoldable pub score :
      NormalizedProperty D
      → UnderwritingResult D
      → Uuid
      → List (StrategyResult D)
      → Option (Config D)
      → Option Date
      → Date
      → Result (ScoreSet D)
  score record' underwriting id strategies config as_of today = do
    let resolved = resolve_config config
    let when = reference_date as_of today
    let equity_pct = and_then (assoc Scenario.expected underwriting.equity) (λ e. e.equity_pct)
    (best, alternatives) ← recommend resolved strategies
    let discount = discount_to_value underwriting.value.v_expected best
    (raw_fos, fos_terms) ←
        fos_score resolved (and_then best (λ b. b.profit)) (and_then best (λ b. b.roi)) equity_pct
          discount (and_then best (λ b. b.margin_of_safety))
    let fos = quantize 4 raw_fos
    (distress, distress_terms) ← distress_score record' resolved when equity_pct
    (dcs, dcs_terms) ← dcs_score record' resolved when
    (risk, risk_terms) ← risk_score record' resolved dcs
    limits ← points resolved "gates"
    overall ← overall_of resolved fos distress dcs risk
    (gates, final) ← apply_gates limits record' underwriting dcs overall
    ok (
        score_set record' id (fos, distress, dcs, risk, final)
          (components_of best equity_pct discount fos_terms distress_terms dcs_terms risk_terms)
          gates best alternatives)
