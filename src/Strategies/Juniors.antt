-- ===== src/Strategies/Juniors.antt =====
-- The junior debts of `foreclosure` of strategies/engine.py.
use house_analysis_ai.Prelude.{
  Bool, true, false, not, ◌||◌, if◌then◌else◌, Option, none, some, List, [], ◌∷◌, String, Dict,
  lookup, insert, lookup-insert, collect, ◌==◌, string_eq, ◌≡◌, refl, ap, sym, ◌∙◌, Bool-cases, inl,
  inr, eq_iff,
}
use house_analysis_ai.Python.{Python, zero_decimal, max, max_of}
use house_analysis_ai.Contracts.{Date, MortgageRecord}
use house_analysis_ai.Finance.{get_or, position_key}
use house_analysis_ai.Strategies.{resolved_mortgage_balance, raise_junior, add_junior, juniors_from}

module _ {D : Type 0} ⦃py : Python D⦄ where
  -- The balance of an open junior mortgage at a position, where it is known.
  abbrev pub junior_at : Option Date → Date → String → MortgageRecord D → Option D
  junior_at as_of today key mortgage =
      if not mortgage.is_open || position_key py mortgage.position == "1"
      then none
      else (if position_key py mortgage.position == key
          then resolved_mortgage_balance mortgage as_of today
          else none)

  abbrev raise_to : D → Option D → D
  raise_to least none = least
  raise_to least (some balance) = max least balance

  get_or-insert :
      (k j : String) (v default' : D) (d : Dict D)
      → get_or j (insert k v d) default' ≡ (if k == j then v else get_or j d default')
  get_or-insert k j v default' d = ap (λ o. get_in o) (lookup-insert k j v d) ∙ split (k == j)
    where
      get_in : Option D → D
      get_in o = elim o [ none ↦ default' | some w ↦ w ]

      split :
          (b : Bool)
          → get_in (if b then some v else lookup j d) ≡ (if b then v else get_or j d default')
      split true = refl
      split false = refl

  insert-raises :
      (position key : String) (balance : D) (d : Dict D)
      → get_or key (insert position (max (get_or position d zero_decimal) balance) d) zero_decimal
        ≡ raise_to (get_or key d zero_decimal) (if position == key then some balance else none)
  insert-raises position key balance d =
      get_or-insert position key _ zero_decimal d ∙ elim (Bool-cases (position == key)) [
        | inl e ↦ (let same : position ≡ key = (eq_iff position key).0 e in rw (e, same) refl)
        | inr e ↦ rw e refl
      ]

  -- A round of the loop raises the balance at a position to that of the mortgage.
  add_junior-raises :
      (as_of : Option Date) (today : Date) (key : String) (d : Dict D) (m : MortgageRecord D)
      → get_or key (add_junior as_of today d m) zero_decimal
        ≡ raise_to (get_or key d zero_decimal) (junior_at as_of today key m)
  unfolding add_junior
  add_junior-raises as_of today key d m =
      elim (Bool-cases (not m.is_open || position_key py m.position == "1")) [
        | inl e ↦ rw e refl
        | inr e ↦ rw e (by_balance (resolved_mortgage_balance m as_of today))
      ]
    where
      by_balance :
          (o : Option D)
          → get_or key (raise_junior (position_key py m.position) d o) zero_decimal
            ≡ raise_to
                (get_or key d zero_decimal)
                (if position_key py m.position == key then o else none)
      by_balance none = elim (Bool-cases (position_key py m.position == key)) [
        | inl e ↦ rw e refl
        | inr e ↦ rw e refl
      ]
      by_balance (some balance) = insert-raises _ key balance d

  max_of-option :
      (least : D) (o : Option D) (xs : List D)
      → max_of least (elim o [ none ↦ xs | some x ↦ x ∷ xs ]) ≡ max_of (raise_to least o) xs
  max_of-option least none xs = refl
  max_of-option least (some x) xs = refl

  juniors_from-raises :
      (as_of : Option Date) (today : Date) (key : String) (d : Dict D)
      (ms : List (MortgageRecord D))
      → get_or key (juniors_from as_of today d ms) zero_decimal
        ≡ max_of (get_or key d zero_decimal) (collect (junior_at as_of today key) ms)
  unfolding juniors_from
  juniors_from-raises as_of today key d [] = refl
  juniors_from-raises as_of today key d (m ∷ ms) =
      juniors_from-raises as_of today key (add_junior as_of today d m) ms
      ∙ ap (λ w. max_of w (collect (junior_at as_of today key) ms))
          (add_junior-raises as_of today key d m)
      ∙ sym (max_of-option _ (junior_at as_of today key m) (collect (junior_at as_of today key) ms))

  -- Among the junior debts of a foreclosure, the debt at a position is the largest balance, at
  -- least zero, of the open mortgages at that position: a mortgage that a report repeats under
  -- another name of its position counts once. A closed or a first mortgage, or one without a known
  -- balance, adds nothing.
  pub junior_largest :
      (as_of : Option Date) (today : Date) (key : String) (ms : List (MortgageRecord D))
      → get_or key (juniors_from as_of today [] ms) zero_decimal
        ≡ max_of zero_decimal (collect (junior_at as_of today key) ms)
  junior_largest as_of today key ms = juniors_from-raises as_of today key [] ms
