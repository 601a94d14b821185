-- ===== src/Scoring/Gates.antt =====
-- The gates of `score` in scoring/engine.py: what makes a property rankable, and the caps on the
-- overall score under the default configuration.
use house_analysis_ai.Prelude.{
  Bool, true, false, not, ◌&&◌, Option, none, List, [], ◌∷◌, String, Dict, ◌≡◌, refl, ◌∙◌, ◌⊎◌, inl,
  inr, ◌==◌, string_eq, value_error, any, one_of, arith, ap, Result, ok, Ensures, ◌>>=◌, returns,
  Ensures-ok, Ensures-then, Ensures-bind, Ensures-raise_if, Ensures-if,
}
use house_analysis_ai.Python.{Python, ◌≼◌, lt, zero_decimal}
use house_analysis_ai.Python.Laws.{IsDecimal}
use house_analysis_ai.Python.Order
use house_analysis_ai.Contracts.{
  Uuid, Date, UnderwritingStatus, underwriting_eq, NormalizedProperty, UnderwritingResult,
  StrategyResult, ScoreSet, ForeclosureState,
}
use house_analysis_ai.Scoring.{
  Config, default_config, resolve_config, points, active_foreclosure, data_confidence, is_rankable,
  gate, gate_list, dcs_gate, foreclosure_gate, apply_gates, score,
}

-- A list that is empty or holds one name.
abbrev AtMost : String → List String → Type 0
AtMost name gates = (gates ≡ []) ⊎ (gates ≡ name ∷ [])

gate_list-rankable :
    (fine gated : Bool) (low sale : List String)
    → AtMost "dcs_below_40" low
    → AtMost "foreclosure_cap" sale
    → is_rankable (gate_list fine low sale gated) ≡ (fine && not gated)
gate_list-rankable true true low sale (inl a) (inl b) = rw (a, b)
gate_list-rankable true true low sale (inl a) (inr b) = rw (a, b)
gate_list-rankable true true low sale (inr a) (inl b) = rw (a, b)
gate_list-rankable true true low sale (inr a) (inr b) = rw (a, b)
gate_list-rankable true false low sale (inl a) (inl b) = rw (a, b)
gate_list-rankable true false low sale (inl a) (inr b) = rw (a, b)
gate_list-rankable true false low sale (inr a) (inl b) = rw (a, b)
gate_list-rankable true false low sale (inr a) (inr b) = rw (a, b)
gate_list-rankable false true low sale a b = refl
gate_list-rankable false false low sale a b = refl

module _ {D : Type 0} ⦃py : Python D⦄ where
  open py use {dec, quantize}

  abbrev pub fine : UnderwritingResult D → Bool
  fine u = u.status == UnderwritingStatus.ok

  abbrev pub gated : NormalizedProperty D → Bool
  gated r = any (λ flag. flag.is_gating) r.open_flags

  dcs_gate-AtMost :
      (limits : Dict D) (dcs overall : D)
      → Ensures (λ g. AtMost "dcs_below_40" g.0) (dcs_gate limits dcs overall)
  unfolding dcs_gate
  dcs_gate-AtMost limits dcs overall = Ensures-then _ _ λ threshold.
      Ensures-if (lt dcs threshold) _ _ (λ _. Ensures-then _ _ λ cap. returns (inr refl))
        (λ _. returns (inl refl))

  foreclosure_gate-AtMost :
      (limits : Dict D) (f : Option (ForeclosureState D)) (dcs overall : D)
      → Ensures (λ g. AtMost "foreclosure_cap" g.0) (foreclosure_gate limits f dcs overall)
  unfolding foreclosure_gate
  foreclosure_gate-AtMost limits f dcs overall =
      Ensures-if (active_foreclosure f) _ _
        (λ _. Ensures-then _ _ λ threshold.
          Ensures-if (lt dcs threshold) _ _ (λ _. Ensures-then _ _ λ cap. returns (inr refl))
            (λ _. returns (inl refl)))
        (λ _. returns (inl refl))

  apply_gates-rankable :
      (limits : Dict D) (r : NormalizedProperty D) (u : UnderwritingResult D) (dcs overall : D)
      → Ensures
          (λ g. is_rankable g.0 ≡ (fine u && not (gated r)))
          (apply_gates limits r u dcs overall)
  unfolding apply_gates
  apply_gates-rankable limits r u dcs overall =
      Ensures-bind _ (dcs_gate-AtMost limits dcs overall) λ first low.
        Ensures-bind _ (foreclosure_gate-AtMost limits r.foreclosure dcs first.1)
          λ second sale. returns (gate_list-rankable (fine u) (gated r) first.0 second.0 low sale)

  -- A scored property is rankable exactly when its underwriting has the status `ok` and none of
  -- its open flags is a gating one, whatever its scores are.
  pub score_rankable :
      (r : NormalizedProperty D) (u : UnderwritingResult D) (id : Uuid)
      (strategies : List (StrategyResult D)) (config : Option (Config D)) (as_of : Option Date)
      (today : Date) {s : ScoreSet D}
      → score r u id strategies config as_of today ≡ ok s
      → s.is_rankable ≡ (fine u && not (gated r))
  unfolding score
  score_rankable r u id strategies config as_of today =
      Ensures-ok {P = λ s. s.is_rankable ≡ (fine u && not (gated r))} (
        Ensures-then _ _ λ best. Ensures-then _ _ λ fos. Ensures-then _ _ λ distress.
          Ensures-then _ _ λ dcs. Ensures-then _ _ λ risk. Ensures-then _ _ λ limits.
            Ensures-then _ _ λ overall.
              Ensures-bind _ (apply_gates-rankable limits r u _ overall) λ final h. returns h)

  -- The values of the default gates.
  abbrev default_limits : Dict D
  default_limits =
      ("dcs_cap_threshold", dec 40 0)
      ∷ ("dcs_cap", dec 45 0)
      ∷ ("dcs_low_threshold", dec 50 0)
      ∷ ("foreclosure_dcs_threshold", dec 75 0)
      ∷ ("foreclosure_cap", dec 70 0)
      ∷ ("wholesale_min", dec 60 0)
      ∷ []

  points-default : Ensures (λ v. v ≡ default_limits) (points default_config "gates")
  unfolding points ◌>>=◌
  points-default =
      Ensures-raise_if (any (λ item. lt item.1 zero_decimal) default_limits)
        (value_error "values must be nonnegative") (λ _. ok default_limits) λ _. returns refl

  abbrev low : D → Bool
  low dcs = lt dcs (dec 40 0)

  abbrev early : NormalizedProperty D → D → Bool
  early r dcs = active_foreclosure r.foreclosure && lt dcs (dec 75 0)

module _ {D : Type 0} ⦃py : Python D⦄ (laws : IsDecimal D) where
  open py use {dec, quantize}
  open laws use {quantize_mono, le_trans, quantize_whole}

  dcs_gate-caps :
      (dcs overall : D)
      → Ensures
          (λ g. (g.0 ≡ gate (low dcs) "dcs_below_40") × (low dcs ≡ true → g.1 ≼ dec 45 0))
          (dcs_gate default_limits dcs overall)
  unfolding dcs_gate ◌>>=◌
  dcs_gate-caps dcs overall =
      Ensures-if (low dcs) _ _
        (λ e. returns (rw e, λ _. Order.min-le_right laws overall (dec 45 0)))
        (λ e. returns (rw e, λ t. cc))

  foreclosure_gate-caps :
      (r : NormalizedProperty D) (dcs overall : D)
      → Ensures
          (λ g.
            (g.0 ≡ gate (early r dcs) "foreclosure_cap")
            × (g.1 ≼ overall)
            × (early r dcs ≡ true → g.1 ≼ dec 70 0))
          (foreclosure_gate default_limits r.foreclosure dcs overall)
  unfolding foreclosure_gate ◌>>=◌
  foreclosure_gate-caps r dcs overall =
      Ensures-if (active_foreclosure r.foreclosure) _ _
        (λ active.
          Ensures-if (lt dcs (dec 75 0)) _ _
            (λ e. returns (
              rw (active, e),
              Order.min-le_left laws overall (dec 70 0),
              λ _. Order.min-le_right laws overall (dec 70 0),
            ))
            (λ e. returns (rw (active, e), Order.le_refl laws overall, rw (active, e) (λ t. cc))))
        (λ idle. returns (rw idle, Order.le_refl laws overall, rw idle (λ t. cc)))

  abbrev pub IsCapped : NormalizedProperty D → D → List String × D → Type 0
  IsCapped r dcs final =
      (one_of "dcs_below_40" final.0 ≡ low dcs)
      × (one_of "foreclosure_cap" final.0 ≡ early r dcs)
      × (low dcs ≡ true → final.1 ≼ dec 45 0)
      × (early r dcs ≡ true → final.1 ≼ dec 70 0)

  gate_list-dcs :
      (a b c d : Bool)
      → one_of "dcs_below_40" (gate_list a (gate b "dcs_below_40") (gate c "foreclosure_cap") d) ≡ b
  gate_list-dcs a b c d = ground arith

  gate_list-foreclosure :
      (a b c d : Bool)
      → one_of "foreclosure_cap" (gate_list a (gate b "dcs_below_40") (gate c "foreclosure_cap") d)
        ≡ c
  gate_list-foreclosure a b c d = ground arith

  apply_gates-IsCapped :
      (r : NormalizedProperty D) (u : UnderwritingResult D) (dcs overall : D)
      → Ensures (IsCapped r dcs) (apply_gates default_limits r u dcs overall)
  unfolding apply_gates
  apply_gates-IsCapped r u dcs overall = Ensures-bind _ (dcs_gate-caps dcs overall) λ first a.
      Ensures-bind _ (foreclosure_gate-caps r dcs first.1) λ second b. returns (
        ap (λ l. one_of "dcs_below_40" l) (names first.0 second.0 a.0 b.0)
            ∙ gate_list-dcs (fine u) (low dcs) (early r dcs) (gated r),
        ap (λ l. one_of "foreclosure_cap" l) (names first.0 second.0 a.0 b.0)
            ∙ gate_list-foreclosure (fine u) (low dcs) (early r dcs) (gated r),
        λ t. le_trans _ _ _ b.1 (a.1 t),
        b.2,
      )
    where
      names :
          (x y : List String)
          → x ≡ gate (low dcs) "dcs_below_40"
          → y ≡ gate (early r dcs) "foreclosure_cap"
          → gate_list (fine u) x y (gated r)
            ≡ gate_list
                (fine u)
                (gate (low dcs) "dcs_below_40")
                (gate (early r dcs) "foreclosure_cap")
                (gated r)
      names x y p q = cc

  first_part :
      (m : Result (D × Dict D)) (d : D) → (m >>= λ (v, _). ok v) ≡ ok d → Ensures (λ p. p.0 ≡ d) m
  unfolding ◌>>=◌
  first_part (Result.ok p) d h = returns (cc)
  first_part (Result.err e) d h = cc

  -- Under the default configuration: the gate "dcs_below_40" is named exactly when the data
  -- confidence is below 40, and then the overall score is at most 45; the gate "foreclosure_cap"
  -- is named exactly when a foreclosure is active and the data confidence is below 75, and then
  -- the overall score is at most 70.
  pub score-IsCapped :
      (r : NormalizedProperty D) (u : UnderwritingResult D) (id : Uuid)
      (strategies : List (StrategyResult D)) (as_of : Option Date) (today : Date) {dcs : D}
      {s : ScoreSet D}
      → data_confidence r none as_of today ≡ ok dcs
      → score r u id strategies none as_of today ≡ ok s
      → IsCapped r dcs (s.gates_applied, s.overall)
  unfolding score data_confidence resolve_config
  score-IsCapped r u id strategies as_of today {dcs} h =
      Ensures-ok {P = λ s. IsCapped r dcs (s.gates_applied, s.overall)} (
        Ensures-then _ _ λ best. Ensures-then _ _ λ fos. Ensures-then _ _ λ distress.
          Ensures-bind {Q = λ p. p.0 ≡ dcs} _ (first_part _ dcs h) λ found e.
            Ensures-then _ _ λ risk. Ensures-bind _ points-default λ limits l.
              Ensures-then _ _ λ overall.
                Ensures-bind {Q = IsCapped r dcs} _
                  (rw (e, l) (apply_gates-IsCapped r u dcs overall))
                  λ final c. returns (
                    c.0,
                    c.1,
                    λ t. le_trans _ _ _ (quantize_mono 4 _ _ (c.2 t)) (quantize_whole 4 45),
                    λ t. le_trans _ _ _ (quantize_mono 4 _ _ (c.3 t)) (quantize_whole 4 70),
                  ))
