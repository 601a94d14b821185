-- ===== src/Scoring/Opportunity.antt =====
-- `_fos`: the financial opportunity score.
use house_analysis_ai.Prelude.{Option, List, [], ◌∷◌, String, Dict, map, Result, ok, ◌>>=◌, each}
use house_analysis_ai.Python.{Python, ◌⊗◌, hundred, sum}
use house_analysis_ai.Scoring.Configuration.{Config, at_key, weights, bound_limits}
use house_analysis_ai.Scoring.Numbers.{normalized, clamp100}

-- a key of the weights and bounds, the name of its term, and the input
abbrev Input : Type 0 → Type 0
Input D = String × String × Option D

abbrev fos_name : {D : Type 0} → String × String × D → String × D
fos_name (key, name, term) = (name, term)

module _ {D : Type 0} ⦃py : Python D⦄ where
  open py use {quantize}

  abbrev pub fos_inputs : Option D → Option D → Option D → D → Option D → List (Input D)
  fos_inputs profit roi equity_pct discount margin =
      ("profit", "fos_profit_norm", profit)
      ∷ ("roi", "fos_roi_norm", roi)
      ∷ ("equity_pct", "fos_equity_pct_norm", equity_pct)
      ∷ ("discount_to_value", "fos_discount_to_value_norm", Option.some discount)
      ∷ ("margin_of_safety", "fos_margin_of_safety_norm", margin)
      ∷ []

  -- a round of the first loop: the key, and the term with its name
  abbrev fos_term : Config D → Input D → Result (String × String × D)
  fos_term config (key, name, value) = do
    (low, high) ← bound_limits config key
    share ← normalized value low high
    ok (key, name, quantize 6 share)

  abbrev fos_product : Dict D → String × String × D → Result D
  fos_product w (key, name, term) = do k ← at_key key w; ok (k ⊗ term)

  unfoldable pub fos_score :
      Config D → Option D → Option D → Option D → D → Option D → Result (D × Dict D)
  fos_score config profit roi equity_pct discount margin = do
    w ← weights config "fos"
    terms ← each (fos_term config) (fos_inputs profit roi equity_pct discount margin)
    products ← each (fos_product w) terms
    ok (clamp100 (hundred ⊗ sum products), map fos_name terms)
