-- ===== src/Tests.antt =====
-- The theorems at concrete records.
mod Flags
mod Strategies
use house_analysis_ai.Prelude.{
  ℕ, ◌+◌, String, arith, All, map, ◌==◌, number_eq, Bool, true, false, none, some, List, [], ◌∷◌,
  ◌≡◌, refl, Result, is_ok, ok, ◌>>=◌, ◌&&◌, not,
}
use house_analysis_ai.Python.Fixed.{Fixed, Fixed-IsDecimal, fixed_python}
use house_analysis_ai.Contracts.{
  to_ordinal, days_since, UnderwritingStatus, UnderwritingResult, ScoreSet, StrategyType,
}
use house_analysis_ai.Finance.{
  money, validate_assumptions, counted, weighted, candidate_weights, insufficient, sufficient,
  underwrite_from, underwrite_valid, underwrite,
}
use house_analysis_ai.Finance.ValueOrder
use house_analysis_ai.Scoring.{
  Rated, resolve_config, weights, points, bound, bound_number, bound_limits, normalized,
  months_between, decay, beats, best_of, insert_by_priority, sort_by_priority, near_ties, choose,
  rate, recommend_from, recommend, fos_score, nts_term, nod_term, foreclosure_terms, active_term,
  prior_term, bankruptcy_terms, lien_points, lien_terms, owner_terms, listing_points, listing_terms,
  bonus_terms, distress_terms, distress_score, dcs_score, data_confidence, risk_score,
  discount_to_value, active_foreclosure, dcs_gate, foreclosure_gate, apply_gates, overall_of, score,
}
use house_analysis_ai.Scoring.Bounds
use house_analysis_ai.Scoring.Gates
use house_analysis_ai.Scoring.Best
use house_analysis_ai.Scoring.Viable
use house_analysis_ai.Jobs.{
  Job, Handlers, is_queued, enqueue, active_holder, holds, fresh, run_once, run_job, finish,
}
use house_analysis_ai.Changes.{take_first, match_items, diff_properties}
use house_analysis_ai.Changes.Pairs
use house_analysis_ai.Changes.Silence
use house_analysis_ai.Ranking.{compute_ranks, sort_items, insert_item, comes_first, rows_from}
use house_analysis_ai.Ranking.Order
use house_analysis_ai.Prelude.Int.{pos, ◌+ℤ◌, ◌-ℤ◌}
use house_analysis_ai.Chat.{
  SessionState, reserve_chat_session_tokens, reconcile_chat_session_tokens, cached_document_text,
  cache_document_text,
}
use house_analysis_ai.Chat.Limits
use house_analysis_ai.Chat.Limits.{Spends, opened, reserved, reconciled}
use house_analysis_ai.Jobs.Invariant
use house_analysis_ai.Jobs.Invariant.{Reachable, created, enqueued}
use house_analysis_ai.Jobs.Progress
use house_analysis_ai.Samples.{
  house, assumptions, offer, offers, today, underwritten, returned_or, amount,
}

abbrev pub house_underwriting : UnderwritingResult Fixed
house_underwriting = underwrite_valid house assumptions (some today)

pub house-underwrites : underwrite house assumptions (some today) ≡ ok house_underwriting
unfolding underwrite validate_assumptions ◌>>=◌
house-underwrites = refl

house-Sufficient : house_underwriting.status ≡ UnderwritingStatus.ok
unfolding money to_ordinal days_since counted weighted candidate_weights underwrite_from sufficient
    underwrite_valid insufficient
house-Sufficient = refl

underwrite-IsOrdered_example : ValueOrder.IsOrdered Fixed-IsDecimal house_underwriting.value
underwrite-IsOrdered_example =
    ValueOrder.underwrite-IsOrdered Fixed-IsDecimal house assumptions (some today) house-underwrites
      house-Sufficient

-- The score of a house under the default configuration.
abbrev house_score : ScoreSet Fixed
house_score =
    returned_or
      (record {
        property_id = 0;
        scoring_config_id = 0;
        fos = amount 0 0;
        distress = amount 0 0;
        data_confidence = amount 0 0;
        risk = amount 0 0;
        overall = amount 0 0;
        components = [];
        gates_applied = [];
        is_rankable = true;
        recommended_strategy = none;
        recommended_alternatives = [];
      })
      (score house underwritten 3 offers none (some today) today)

house-scores_ok : is_ok (score house underwritten 3 offers none (some today) today) ≡ true
unfolding to_ordinal days_since resolve_config weights points bound bound_number bound_limits
    normalized months_between decay rate recommend_from recommend choose fos_score nts_term nod_term
    foreclosure_terms active_term prior_term bankruptcy_terms lien_points lien_terms owner_terms
    listing_points listing_terms bonus_terms distress_terms distress_score dcs_score risk_score
    best_of beats discount_to_value active_foreclosure dcs_gate foreclosure_gate apply_gates
    overall_of score ◌>>=◌
house-scores_ok = refl

pub ok-returned_or : {A : Type 0} (a : A) (r : Result A) → is_ok r ≡ true → r ≡ ok (returned_or a r)
ok-returned_or a (ok b) h = refl
ok-returned_or a (Result.err e) h = cc

house-scores : score house underwritten 3 offers none (some today) today ≡ ok house_score
house-scores =
    ok-returned_or _ (score house underwritten 3 offers none (some today) today) house-scores_ok

score-InRange_example : Bounds.InRange Fixed-IsDecimal house_score
score-InRange_example =
    Bounds.score-InRange Fixed-IsDecimal house underwritten 3 offers none (some today) today
      house-scores

score_rankable_example :
    house_score.is_rankable ≡ (Gates.fine underwritten && not (Gates.gated house))
score_rankable_example =
    Gates.score_rankable house underwritten 3 offers none (some today) today house-scores

house-recommends : house_score.recommended_strategy ≡ some StrategyType.flip
unfolding to_ordinal days_since resolve_config weights points bound bound_number bound_limits
    normalized months_between decay rate recommend_from recommend choose fos_score nts_term nod_term
    foreclosure_terms active_term prior_term bankruptcy_terms lien_points lien_terms owner_terms
    listing_points listing_terms bonus_terms distress_terms distress_score dcs_score risk_score
    best_of beats discount_to_value active_foreclosure dcs_gate foreclosure_gate apply_gates
    overall_of score ◌>>=◌
house-recommends = refl

score-IsBacked_example : Viable.IsBacked offers StrategyType.flip
score-IsBacked_example =
    Viable.score-IsBacked house underwritten 3 offers none (some today) today house-scores
      StrategyType.flip house-recommends

abbrev house_confidence : Fixed
house_confidence = returned_or (amount 0 0) (data_confidence house none (some today) today)

house-confidence_ok : is_ok (data_confidence house none (some today) today) ≡ true
unfolding to_ordinal days_since data_confidence resolve_config weights bound bound_number dcs_score
    ◌>>=◌
house-confidence_ok = refl

score-IsCapped_example :
    Gates.IsCapped Fixed-IsDecimal house house_confidence
      (house_score.gates_applied, house_score.overall)
score-IsCapped_example =
    Gates.score-IsCapped Fixed-IsDecimal house underwritten 3 offers (some today) today
      (ok-returned_or (amount 0 0) (data_confidence house none (some today) today)
        house-confidence_ok)
      house-scores

abbrev rated_offers : List (Rated Fixed)
rated_offers =
    (amount 40 0, offer StrategyType.wholesale 60_000)
    ∷ (amount 43 0, offer StrategyType.flip 64_500)
    ∷ (amount 12 0, offer StrategyType.cash 18_000)
    ∷ []

choose-rated_offers :
    choose (amount 5 0) rated_offers
    ≡ (some (offer StrategyType.flip 64_500), StrategyType.wholesale ∷ [])
unfolding choose best_of beats sort_by_priority insert_by_priority near_ties
choose-rated_offers = refl

choose-IsRecommended_example :
    Best.IsRecommended Fixed-IsDecimal (amount 5 0) rated_offers (choose (amount 5 0) rated_offers)
choose-IsRecommended_example = Best.choose-IsRecommended Fixed-IsDecimal (amount 5 0) rated_offers

-- Two calls with the same key and one with another, over payloads that are numbers; the handler
-- of the second name raises.
abbrev calls : List (Job ℕ)
calls =
    (enqueue 3 30 "export" 7 (some "export:7")
      (enqueue 2 20 "recompute" 5 (some "recompute:5")
        (enqueue 1 10 "recompute" 5 (some "recompute:5") []).0).0).0

calls-Reachable : Reachable calls
calls-Reachable = enqueued 3 30 "export" 7 (some "export:7") (
    enqueued 2 20 "recompute" 5 (some "recompute:5")
      (enqueued 1 10 "recompute" 5 (some "recompute:5") created))

calls-deduplicated : map (λ j. j.id) calls ≡ 1 ∷ 3 ∷ []
unfolding enqueue active_holder holds fresh
calls-deduplicated = refl

Reachable-IsSound_example : Invariant.IsDeduplicated calls × All Invariant.IsBounded calls
Reachable-IsSound_example = Invariant.Reachable-IsSound calls calls-Reachable

abbrev handlers : Handlers ℕ
handlers = ("recompute", λ n. none) ∷ ("export", λ n. some "no disk") ∷ []

calls-run : map (λ j. j.attempts) (Progress.run_times (λ s. s) handlers 4 calls) ≡ 1 ∷ 3 ∷ []
unfolding enqueue active_holder holds fresh Progress.run_times run_once run_job finish
calls-run = refl

drains_example :
    All
      (λ j. is_queued j.status ≡ false)
      (Progress.run_times (λ s. s) handlers (Progress.attempts_left calls) calls)
drains_example = Progress.drains (λ s. s) handlers calls calls-Reachable

-- Keys that are their numbers: the second list has the same keys but one.
abbrev same_number : ℕ → ℕ → Bool
same_number a b = a == b

match_items_run :
    match_items same_number (1 ∷ 2 ∷ 2 ∷ []) (2 ∷ 3 ∷ 1 ∷ [])
    ≡ ((2, 2) ∷ (1, 1) ∷ [], 2 ∷ [], 3 ∷ [])
unfolding match_items take_first
match_items_run = refl

match_items-IsMatching_example :
    Pairs.IsMatching same_number
      (1 ∷ 2 ∷ 2 ∷ [])
      (2 ∷ 3 ∷ 1 ∷ [])
      (match_items same_number (1 ∷ 2 ∷ 2 ∷ []) (2 ∷ 3 ∷ 1 ∷ []))
match_items-IsMatching_example =
    Pairs.match_items-IsMatching same_number (1 ∷ 2 ∷ 2 ∷ []) (2 ∷ 3 ∷ 1 ∷ [])

diff_properties_self_example : diff_properties house house (some (amount 3 0)) ≡ ok []
diff_properties_self_example =
    Silence.diff_properties_self Fixed-IsDecimal house (some (amount 3 0))

abbrev board : List (ℕ × Fixed)
board = (11, amount 40 0) ∷ (12, amount 75 0) ∷ (10, amount 40 0) ∷ []

board-ranks :
    map (λ row. row.property_id) (compute_ranks board (some ((12, 3) ∷ []))) ≡ 12 ∷ 10 ∷ 11 ∷ []
unfolding compute_ranks sort_items insert_item comes_first rows_from
board-ranks = refl

compute_ranks-IsRanking_example :
    Order.IsRanking Fixed-IsDecimal board ((12, 3) ∷ []) (compute_ranks board (some ((12, 3) ∷ [])))
compute_ranks-IsRanking_example = Order.compute_ranks-IsRanking Fixed-IsDecimal board ((12, 3) ∷ [])

-- 900 tokens reserved of 1000, of which 1200 were used.
abbrev session : SessionState ℕ
session =
    reconcile_chat_session_tokens
      (reserve_chat_session_tokens (record { tokens = pos 0; document_cache = [] }) (pos 900)
        (pos 1000)).0
      (pos 900) (pos 1200)

session-Spends : Spends (pos 1000) (0 + Limits.overspent (pos 900) (pos 1200)) session
session-Spends = reconciled (pos 900) (pos 1200) (reserved (pos 900) opened)

session-tokens : session.tokens ≡ pos 1200
unfolding reserve_chat_session_tokens reconcile_chat_session_tokens ◌+ℤ◌ ◌-ℤ◌
session-tokens = refl

Spends-IsSound_example :
    Limits.IsWithin (pos 1000) (0 + Limits.overspent (pos 900) (pos 1200)) session
    × ((key : String) (value : ℕ)
        → cached_document_text (cache_document_text session key value) key ≡ some value)
Spends-IsSound_example =
    Limits.Spends-IsSound (pos 1000) (0 + Limits.overspent (pos 900) (pos 1200)) session
      session-Spends
