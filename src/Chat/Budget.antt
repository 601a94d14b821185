-- ===== src/Chat/Budget.antt =====
-- `Budget` of ops/budget.py, and the reservations, the reconciliations and the document cache of
-- ops/chat_budget.py. The functions there read a row, change its dict and write it back under a
-- lock: here they take the dict and give the dict. A stored value has the type that was written.
use house_analysis_ai.Prelude.{
  ℕ, zero, suc, ◌-◌, Bool, true, false, Option, List, [], ◌∷◌, String, Dict, lookup, insert, length,
  if◌then◌else◌,
}
use house_analysis_ai.Prelude.Int.{ℤ, pos, ◌+ℤ◌, ◌-ℤ◌, leb_ℤ}
use house_analysis_ai.Python.{Python, ◌⊕◌, ◌⊖◌, zero_decimal, lt, max}

-- `max(0, n)`
abbrev pub at_least_zero : ℤ → ℤ
at_least_zero n = if leb_ℤ (pos 0) n then n else pos 0

pub record SessionState (V : Type 0) : Type 0 where
  pub tokens : ℤ
  pub document_cache : Dict V

-- the first n entries go: `cache.pop(next(iter(cache)))`, n times
unfoldable pub pop_first {ℓ} : {A : Type ℓ} → ℕ → List A → List A
pop_first zero xs = xs
pop_first (suc n) [] = []
pop_first (suc n) (x ∷ xs) = pop_first n xs

module _ {V : Type 0} where
  -- the state afterwards, and whether the tokens are reserved
  unfoldable pub reserve_chat_session_tokens : SessionState V → ℤ → ℤ → SessionState V × Bool
  unfolding ◌+ℤ◌
  reserve_chat_session_tokens state estimated cap =
      if leb_ℤ (state.tokens +ℤ at_least_zero estimated) (at_least_zero cap)
      then (
        record {
          tokens = state.tokens +ℤ at_least_zero estimated;
          document_cache = state.document_cache;
        },
        true,
      )
      else (state, false)

  unfoldable pub reconcile_chat_session_tokens : SessionState V → ℤ → ℤ → SessionState V
  reconcile_chat_session_tokens state reserved actual = record {
    tokens = at_least_zero (state.tokens -ℤ at_least_zero reserved +ℤ at_least_zero actual);
    document_cache = state.document_cache;
  }

  unfoldable pub cached_document_text : SessionState V → String → Option V
  cached_document_text state key = lookup key state.document_cache

  -- `while len(cache) > 20`: as many entries go as are over twenty
  unfoldable pub cache_document_text : SessionState V → String → V → SessionState V
  cache_document_text state key value =
      let cache = insert key value state.document_cache in
      record { tokens = state.tokens; document_cache = pop_first (length cache - 20) cache }

module _ {D : Type 0} ⦃py : Python D⦄ where
  -- `Budget.check_and_reserve`: the reserved sum afterwards, whether it is allowed, what remains
  unfoldable pub check_and_reserve : D → D → D → D × Bool × D
  check_and_reserve limit reserved cost =
      if lt (limit ⊖ reserved) cost
      then (reserved, false, limit ⊖ reserved)
      else (reserved ⊕ cost, true, limit ⊖ (reserved ⊕ cost))

  -- `Budget.release`
  unfoldable pub release : D → D → D → D
  release reserved actual reserved_cost = reserved ⊖ max zero_decimal (reserved_cost ⊖ actual)

  unfoldable pub reserve_daily_chat_budget : D → D → D → D × Bool
  reserve_daily_chat_budget reserved estimate limit =
      let decision = check_and_reserve limit reserved (max zero_decimal estimate) in
      (decision.0, decision.1)

  unfoldable pub reconcile_daily_chat_budget : D → D → D → D
  reconcile_daily_chat_budget spent reserved actual =
      max zero_decimal (spent ⊖ max zero_decimal reserved ⊕ max zero_decimal actual)
