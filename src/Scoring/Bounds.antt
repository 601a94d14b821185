-- ===== src/Scoring/Bounds.antt =====
-- The bounds of the scores of scoring/engine.py, for every configuration.
use house_analysis_ai.Prelude.{
  ℕ, false, Option, List, [], ◌∷◌, String, Dict, ◌≡◌, ◌==◌, string_eq, arith, All, Bool-cases, inl,
  inr, any, ok, Ensures, returns, raises, Ensures-ok, Ensures-then, Ensures-bind, Ensures-raise_if,
  Ensures-if,
}
use house_analysis_ai.Python.{Python, ◌≼◌, zero_decimal, hundred, lt, min}
use house_analysis_ai.Python.Laws.{IsDecimal}
use house_analysis_ai.Python.Order
use house_analysis_ai.Contracts.{
  Uuid, Date, NormalizedProperty, UnderwritingResult, StrategyResult, ScoreSet, ForeclosureState,
}
use house_analysis_ai.Scoring.{
  dcs_gate, foreclosure_gate, active_foreclosure, Config, at_key, points, clamp100, fos_score,
  distress_score, risk_score, overall_of, apply_gates, score,
}

module _ {D : Type 0} ⦃py : Python D⦄ where
  abbrev pub Within : D → Type 0
  Within x = (zero_decimal ≼ x) × (x ≼ hundred)

  abbrev pub NonNegatives : Dict D → Type 0
  NonNegatives d = All (λ item. zero_decimal ≼ item.1) d

  any_negative-false :
      (d : Dict D) → any (λ item. lt item.1 zero_decimal) d ≡ false → NonNegatives d
  any_negative-false [] h = tt
  any_negative-false (x ∷ d) h = ground (arith, any_negative-false d)

  -- `_points` refuses a negative value.
  pub points-NonNegatives :
      (config : Config D) (section : String) → Ensures NonNegatives (points config section)
  unfolding points
  points-NonNegatives config section = Ensures-then _ _ λ found. Ensures-then _ _ λ items.
      Ensures-then _ _
        λ values. Ensures-raise_if _ _ _ λ fine. returns (any_negative-false values fine)

  pub at_key-NonNegative :
      (key : String) (d : Dict D) → NonNegatives d → Ensures (λ v. zero_decimal ≼ v) (at_key key d)
  at_key-NonNegative key [] h = raises
  at_key-NonNegative key (x ∷ d) h = elim (Bool-cases (x.0 == key)) [
    | inl here ↦ rw here (returns h.0)
    | inr further ↦ rw further (at_key-NonNegative key d h.1)
  ]

module _ {D : Type 0} ⦃py : Python D⦄ (laws : IsDecimal D) where
  open laws use {le_trans, quantize_mono, quantize_whole, whole_quantize, dec_mono}
  open py use {quantize}

  clamp100-Within : (x : D) → Within (clamp100 x)
  clamp100-Within x =
      Order.clamp_bounds laws zero_decimal hundred x (dec_mono 0 100 0 (omega arith))

  quantize-Within : (k : ℕ) (x : D) → Within x → Within (quantize k x)
  quantize-Within k x w = (
    le_trans _ _ _ (whole_quantize k 0) (quantize_mono k zero_decimal x w.0),
    le_trans _ _ _ (quantize_mono k x hundred w.1) (quantize_whole k 100),
  )

  min-Within : (x cap : D) → Within x → zero_decimal ≼ cap → Within (min x cap)
  min-Within x cap w h = (
    Order.le-min laws x cap zero_decimal w.0 h,
    le_trans _ _ _ (Order.min-le_left laws x cap) w.1,
  )

  fos_score-Within :
      (config : Config D) (profit roi equity : Option D) (discount : D) (margin : Option D)
      → Ensures (λ r. Within r.0) (fos_score config profit roi equity discount margin)
  unfolding fos_score
  fos_score-Within config profit roi equity discount margin =
      Ensures-then _ _
        λ w. Ensures-then _ _ λ terms. Ensures-then _ _ λ products. returns (clamp100-Within _)

  distress_score-Within :
      (r : NormalizedProperty D) (config : Config D) (as_of : Date) (equity : Option D)
      → Ensures (λ r. Within r.0) (distress_score r config as_of equity)
  unfolding distress_score
  distress_score-Within r config as_of equity = Ensures-then _ _ λ p. Ensures-then _ _ λ half_life.
      Ensures-then _ _
        λ _. Ensures-then _ _ λ terms. Ensures-then _ _ λ bonus. returns (clamp100-Within _)

  overall_of-Within :
      (config : Config D) (fos distress dcs risk : D)
      → Ensures Within (overall_of config fos distress dcs risk)
  unfolding overall_of
  overall_of-Within config fos distress dcs risk = Ensures-then _ _ λ w. Ensures-then _ _ λ a.
      Ensures-then _ _ λ b. Ensures-then _ _ λ c. Ensures-then _ _ λ d. returns (clamp100-Within _)

  risk_score-Within :
      (r : NormalizedProperty D) (config : Config D) (dcs : D)
      → Ensures (λ r. Within r.0) (risk_score r config dcs)
  unfolding risk_score
  risk_score-Within r config dcs = Ensures-then _ _ λ p. Ensures-then _ _ λ gates.
      Ensures-then _ _ λ a. Ensures-then _ _ λ b. Ensures-then _ _ λ c. Ensures-then _ _ λ d.
        Ensures-then _ _ λ e. Ensures-then _ _ λ f. Ensures-then _ _ λ g. Ensures-then _ _ λ h.
          Ensures-then _ _ λ i. Ensures-then _ _ λ j.
            Ensures-then _ _
              λ k. Ensures-then _ _ λ l. returns (quantize-Within 4 _ (clamp100-Within _))

  dcs_gate-Within :
      (limits : Dict D) (dcs overall : D)
      → NonNegatives limits
      → Within overall
      → Ensures (λ g. Within g.1) (dcs_gate limits dcs overall)
  unfolding dcs_gate
  dcs_gate-Within limits dcs overall h w = Ensures-then _ _ λ threshold.
      Ensures-if (lt dcs threshold) _ _
        (λ _.
          Ensures-bind _ (at_key-NonNegative "dcs_cap" limits h)
            λ cap p. returns (min-Within overall cap w p))
        (λ _. returns w)

  foreclosure_gate-Within :
      (limits : Dict D) (f : Option (ForeclosureState D)) (dcs overall : D)
      → NonNegatives limits
      → Within overall
      → Ensures (λ g. Within g.1) (foreclosure_gate limits f dcs overall)
  unfolding foreclosure_gate
  foreclosure_gate-Within limits f dcs overall h w =
      Ensures-if (active_foreclosure f) _ _
        (λ _. Ensures-then _ _ λ threshold.
          Ensures-if (lt dcs threshold) _ _
            (λ _.
              Ensures-bind _ (at_key-NonNegative "foreclosure_cap" limits h)
                λ cap p. returns (min-Within overall cap w p))
            (λ _. returns w))
        (λ _. returns w)

  apply_gates-Within :
      (limits : Dict D) (r : NormalizedProperty D) (u : UnderwritingResult D) (dcs overall : D)
      → NonNegatives limits
      → Within overall
      → Ensures (λ g. Within g.1) (apply_gates limits r u dcs overall)
  apply_gates-Within limits r u dcs overall h w =
      unfold apply_gates in
      (Ensures-bind _ (dcs_gate-Within limits dcs overall h w) λ first w'.
        Ensures-bind _ (foreclosure_gate-Within limits r.foreclosure dcs first.1 h w')
          λ second w''. returns w'')

  abbrev pub InRange : ScoreSet D → Type 0
  InRange s = Within s.fos × Within s.distress × Within s.risk × Within s.overall

  -- Whatever the configuration, a property that is scored has an opportunity score, a distress
  -- score, a risk score and an overall score from 0 to 100.
  pub score-InRange :
      (r : NormalizedProperty D) (u : UnderwritingResult D) (id : Uuid)
      (strategies : List (StrategyResult D)) (config : Option (Config D)) (as_of : Option Date)
      (today : Date) {s : ScoreSet D}
      → score r u id strategies config as_of today ≡ ok s
      → InRange s
  unfolding score
  score-InRange r u id strategies config as_of today = Ensures-ok {P = InRange} (
      Ensures-then _ _ λ best. Ensures-bind _ (fos_score-Within _ _ _ _ _ _) λ fos w₁.
        Ensures-bind _ (distress_score-Within _ _ _ _) λ distress w₂. Ensures-then _ _ λ dcs.
          Ensures-bind _ (risk_score-Within _ _ _) λ risk w₃.
            Ensures-bind _ (points-NonNegatives _ _) λ limits h.
              Ensures-bind _ (overall_of-Within _ _ _ _ _) λ overall w₄.
                Ensures-bind _ (apply_gates-Within _ _ _ _ _ h w₄) λ final w₅. returns (
                  quantize-Within 4 _ (quantize-Within 4 _ w₁),
                  quantize-Within 4 _ w₂,
                  quantize-Within 4 _ w₃,
                  quantize-Within 4 _ w₅,
                ))
