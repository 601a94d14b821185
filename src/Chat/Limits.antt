-- ===== src/Chat/Limits.antt =====
-- The limits of a chat session: its tokens and its document cache.
use house_analysis_ai.Prelude.{
  ℕ, zero, suc, ◌+◌, ◌-◌, ◌≤◌, ◌≡◌, refl, true, false, none, some, List, [], ◌∷◌, String, Dict,
  lookup, insert, length, lookup-insert, eq_refl, leb→le, subst, sym, ◌==◌, string_eq, arith,
  Bool-cases, inl, inr, ◌⊎◌, leb,
}
use house_analysis_ai.Prelude.Int.{ℤ, pos, negsuc, pos_part, ◌+ℤ◌, ◌-ℤ◌, leb_ℤ, ◌≤ℤ◌}
use house_analysis_ai.Chat.{
  at_least_zero, SessionState, pop_first, reserve_chat_session_tokens,
  reconcile_chat_session_tokens, cached_document_text, cache_document_text,
}

-- What a call spends beyond its reservation.
abbrev pub overspent : ℤ → ℤ → ℕ
overspent kept actual = pos_part actual - pos_part kept

at_least_zero-pos : (n : ℤ) → at_least_zero n ≡ pos (pos_part n)
at_least_zero-pos (pos n) = ground arith
at_least_zero-pos (negsuc n) = ground arith

reconciled_bound :
    (n k a c over : ℕ)
    → n ≤ c + over
    → (pos 0 ≤ℤ at_least_zero (pos n -ℤ pos k +ℤ pos a))
      × (at_least_zero (pos n -ℤ pos k +ℤ pos a) ≤ℤ pos c +ℤ pos (over + (a - k)))
unfolding ◌+ℤ◌ ◌-ℤ◌
reconciled_bound n k a c over h = (ground arith, ground arith)

within_numbers : (n c over : ℕ) → pos n ≤ℤ pos c +ℤ pos over → n ≤ c + over
unfolding ◌+ℤ◌
within_numbers n c over h = ground arith

reconciled_within :
    (t kept actual cap : ℤ) (over : ℕ)
    → pos 0 ≤ℤ t
    → t ≤ℤ at_least_zero cap +ℤ pos over
    → (pos 0 ≤ℤ at_least_zero (t -ℤ at_least_zero kept +ℤ at_least_zero actual))
      × (at_least_zero (t -ℤ at_least_zero kept +ℤ at_least_zero actual)
          ≤ℤ at_least_zero cap +ℤ pos (over + overspent kept actual))
reconciled_within (pos n) kept actual cap over h k =
    rw (at_least_zero-pos kept, at_least_zero-pos actual, at_least_zero-pos cap)
      (reconciled_bound n (pos_part kept) (pos_part actual) (pos_part cap) over (
        within_numbers n (pos_part cap) over
          (subst (λ (x : ℤ). pos n ≤ℤ x +ℤ pos over) (at_least_zero-pos cap) k)))
reconciled_within (negsuc n) kept actual cap over h k = omega (arith, h)

module _ {A : Type 0} where
  length-pop_first : (n : ℕ) (xs : List A) → length (pop_first n xs) ≡ length xs - n
  unfolding pop_first
  length-pop_first zero xs = omega arith
  length-pop_first (suc n) [] = omega arith
  length-pop_first (suc n) (x ∷ xs) = omega (arith, length-pop_first n xs)

module _ {V : Type 0} where
  length-insert :
      (k : String) (v : V) (d : Dict V)
      → (length (insert k v d) ≡ length d)
        ⊎ ((length (insert k v d) ≡ suc (length d)) × (lookup k d ≡ none))
  length-insert k v [] = inr (refl, refl)
  length-insert k v ((j, w) ∷ d) = elim (Bool-cases (j == k)) [
    | inl e ↦ inl (rw e refl)
    | inr e ↦ elim (length-insert k v d) [
      | inl same ↦ inl (rw e (omega (arith, same)))
      | inr more ↦ inr (rw e (omega (arith, more.0)), rw e (more.1))
    ]
  ]

  lookup_inserted : (k : String) (v : V) (d : Dict V) → lookup k (insert k v d) ≡ some v
  lookup_inserted k v d = rw (lookup-insert k k v d, eq_refl k) refl

  pop_one :
      (k : String) (v : V) (d : Dict V)
      → lookup k d ≡ none
      → 1 ≤ length d
      → lookup k (pop_first 1 (insert k v d)) ≡ some v
  unfolding pop_first
  pop_one k v [] e h = ground arith
  pop_one k v ((j, w) ∷ d) e h = split (Bool-cases (j == k))
    where
      split :
          ((j == k) ≡ true) ⊎ ((j == k) ≡ false)
          → lookup k (pop_first 1 (insert k v ((j, w) ∷ d))) ≡ some v
      split (inl same) = ground arith
      split (inr other) = rw other (lookup_inserted k v d)

  pop_none : (k : String) (v : V) (d : Dict V) → lookup k (pop_first 0 (insert k v d)) ≡ some v
  unfolding pop_first
  pop_none k v d = lookup_inserted k v d

  -- Past the limit one entry goes, and it is not the new one.
  kept_after :
      (k : String) (v : V) (d : Dict V)
      → length d ≤ 20
      → lookup k (pop_first (length (insert k v d) - 20) (insert k v d)) ≡ some v
  kept_after k v d h = split (length-insert k v d) (Bool-cases (leb (length d) 19))
    where
      popped :
          (n : ℕ)
          → length (insert k v d) - 20 ≡ n
          → lookup k (pop_first n (insert k v d)) ≡ some v
          → lookup k (pop_first (length (insert k v d) - 20) (insert k v d)) ≡ some v
      popped n e t = subst (λ n. lookup k (pop_first n (insert k v d)) ≡ some v) (sym e) t

      split :
          (length (insert k v d) ≡ length d)
            ⊎ ((length (insert k v d) ≡ suc (length d)) × (lookup k d ≡ none))
          → (leb (length d) 19 ≡ true) ⊎ (leb (length d) 19 ≡ false)
          → lookup k (pop_first (length (insert k v d) - 20) (insert k v d)) ≡ some v
      split (inl same) b = popped 0 (omega (arith, same)) (pop_none k v d)
      split (inr more) (inl b) =
          popped 0 (let small = leb→le (length d) 19 b in omega (arith, more.0)) (pop_none k v d)
      split (inr more) (inr b) =
          let full : 20 ≤ length d = ground arith in
          popped 1 (omega (arith, more.0)) (pop_one k v d more.1 (omega arith))

  -- The states of a session under a cap, with what its calls spent beyond their reservations in all.
  pub data Spends (cap : ℤ) : ℕ → SessionState V → Type 0 where
    opened : Spends cap 0 (record { tokens = pos 0; document_cache = [] })
    reserved :
        {over : ℕ} {s : SessionState V} (estimated : ℤ)
        → Spends cap over s
        → Spends cap over (reserve_chat_session_tokens s estimated cap).0
    reconciled :
        {over : ℕ} {s : SessionState V} (kept actual : ℤ)
        → Spends cap over s
        → Spends cap (over + overspent kept actual) (reconcile_chat_session_tokens s kept actual)
    cached :
        {over : ℕ} {s : SessionState V} (key : String) (value : V)
        → Spends cap over s
        → Spends cap over (cache_document_text s key value)

  abbrev pub IsWithin : ℤ → ℕ → SessionState V → Type 0
  IsWithin cap over s =
      (pos 0 ≤ℤ s.tokens)
      × (s.tokens ≤ℤ at_least_zero cap +ℤ pos over)
      × (length s.document_cache ≤ 20)

  reserve-IsWithin :
      (cap : ℤ) (over : ℕ) (s : SessionState V) (estimated : ℤ)
      → IsWithin cap over s
      → IsWithin cap over (reserve_chat_session_tokens s estimated cap).0
  unfolding reserve_chat_session_tokens ◌+ℤ◌
  reserve-IsWithin cap over s estimated h =
      elim (Bool-cases (leb_ℤ (s.tokens +ℤ at_least_zero estimated) (at_least_zero cap))) [
        | inl e ↦ rw e (ground arith, ground arith, h.2)
        | inr e ↦ rw e h
      ]

  reconcile-IsWithin :
      (cap : ℤ) (over : ℕ) (s : SessionState V) (kept actual : ℤ)
      → IsWithin cap over s
      → IsWithin cap (over + overspent kept actual) (reconcile_chat_session_tokens s kept actual)
  unfolding reconcile_chat_session_tokens
  reconcile-IsWithin cap over s kept actual h =
      let (low, high) = reconciled_within s.tokens kept actual cap over h.0 h.1 in (low, high, h.2)

  cache-IsWithin :
      (cap : ℤ) (over : ℕ) (s : SessionState V) (key : String) (value : V)
      → IsWithin cap over s
      → IsWithin cap over (cache_document_text s key value)
  unfolding cache_document_text
  cache-IsWithin cap over s key value h = (
    h.0,
    h.1,
    omega (
      arith,
      length-pop_first (length (insert key value s.document_cache) - 20)
          (insert key value s.document_cache),
    ),
  )

  Spends-IsWithin :
      (cap : ℤ) (over : ℕ) (s : SessionState V) → Spends cap over s → IsWithin cap over s
  unfolding ◌+ℤ◌
  Spends-IsWithin cap over s opened = (ground arith, ground arith, omega arith)
  Spends-IsWithin cap over s (reserved {over = o} {s = before} estimated r) =
      reserve-IsWithin cap o before estimated (Spends-IsWithin cap o before r)
  Spends-IsWithin cap over s (reconciled {over = o} {s = before} kept actual r) =
      reconcile-IsWithin cap o before kept actual (Spends-IsWithin cap o before r)
  Spends-IsWithin cap over s (cached {over = o} {s = before} key value r) =
      cache-IsWithin cap o before key value (Spends-IsWithin cap o before r)

  -- In every state of a session, whatever its calls report, the tokens are at least 0 and at most
  -- the cap, which counts as 0 if it is negative, with what the calls spent beyond their
  -- reservations; the cache holds at most twenty documents; and a document that is cached then is
  -- found under its key.
  pub Spends-IsSound :
      (cap : ℤ) (over : ℕ) (s : SessionState V)
      → Spends cap over s
      → IsWithin cap over s
        × ((key : String) (value : V)
            → cached_document_text (cache_document_text s key value) key ≡ some value)
  unfolding cached_document_text cache_document_text
  Spends-IsSound cap over s r = (
    Spends-IsWithin cap over s r,
    λ key value. kept_after key value s.document_cache (Spends-IsWithin cap over s r).2,
  )
