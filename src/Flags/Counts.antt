-- ===== src/Flags/Counts.antt =====
-- How many rows of a group the parts of `sync_flags` of flags/store.py leave open.
use house_analysis_ai.Prelude.{
  ℕ, suc, ◌+◌, ◌≤◌, ◌<◌, Bool, true, false, ◌&&◌, Option, none, some, List, [], ◌∷◌, ◌++◌, ◌==◌,
  string_eq, number_eq, leb, leb→le, if◌then◌else◌, any, length, keep, ◌≡◌, refl, sym, ◌∙◌,
  nat_eq_iff, arith, Bool-cases, inl, inr, if_keeps, String,
}
use house_analysis_ai.Python.{Python, lt}
use house_analysis_ai.Contracts.{Uuid}
use house_analysis_ai.Flags.{
  Flag, Texts, Finding, Applied, is_open_flag, supersede, put_before, applied_or, refreshed,
  reopened, new_flag, has_fingerprint, is_superseded, impact_of, better, close_all_but,
  close_others, best_open, collapse, refresh_open, reopen_first, add_new, apply_finding, close_all,
}

if_then_some : {A : Type 0} (b : Bool) (x y : A) → (if b then some x else some y) ≡ none → ⊥
if_then_some true x y e = cc
if_then_some false x y e = cc

module _ {D P : Type 0} where
  -- the open rows of a group
  abbrev pub open_count : List (Flag D P) → ℕ
  open_count rows = length (keep is_open_flag rows)

  supersede-closed :
      (id : Option Uuid) (reason : String) (row : Flag D P)
      → is_open_flag (supersede id reason row) ≡ false
  unfolding supersede
  supersede-closed id reason row =
      if_keeps (λ (r : Flag D P). is_open_flag r ≡ false) (is_open_flag row) _ _ (λ h. refl) λ h. h

  open_count-closed :
      (row : Flag D P) (rows : List (Flag D P))
      → is_open_flag row ≡ false
      → open_count (row ∷ rows) ≡ open_count rows
  open_count-closed row rows e = rw e refl

  open_count_closed_bound :
      (row : Flag D P) (rows : List (Flag D P))
      → is_open_flag row ≡ false
      → open_count rows ≤ 1
      → open_count (row ∷ rows) ≤ 1
  open_count_closed_bound row rows e h = rw e h

  open_count-open :
      (row : Flag D P) (rows : List (Flag D P))
      → is_open_flag row ≡ true
      → open_count (row ∷ rows) ≡ suc (open_count rows)
  open_count-open row rows e = rw e refl

  open_count-append :
      (xs ys : List (Flag D P)) → open_count (xs ++ ys) ≡ open_count xs + open_count ys
  open_count-append [] ys = omega arith
  open_count-append (x ∷ xs) ys = elim (Bool-cases (is_open_flag x)) [
    | inl e ↦
        omega
          (arith, open_count-open x (xs ++ ys) e, open_count-open x xs e, open_count-append xs ys)
    | inr e ↦
        omega (
          arith,
          open_count-closed x (xs ++ ys) e,
          open_count-closed x xs e,
          open_count-append xs ys,
        )
  ]

  pub close_all-none : (rows : List (Flag D P)) → open_count (close_all rows) ≡ 0
  close_all-none [] = refl
  close_all-none (row ∷ rows) =
      open_count-closed (supersede none "superseded_recompute" row) (close_all rows)
        (supersede-closed none "superseded_recompute" row)
      ∙ close_all-none rows

  -- Past the place of the winner every row is closed.
  close_others-past :
      (winner : ℕ) (id : Uuid) (place : ℕ) (rows : List (Flag D P))
      → winner < place
      → open_count (close_others winner id place rows) ≡ 0
  unfolding close_others
  close_others-past winner id place [] h = refl
  close_others-past winner id place (row ∷ rows) h =
      let rest = close_others winner id (suc place) rows in
      let later = close_others-past winner id (suc place) rows (omega (arith, h)) in
      if_keeps (λ (r : Flag D P). open_count (r ∷ rest) ≡ 0) (place == winner) _ _
        (λ e. omega (arith, (nat_eq_iff place winner).0 e, h))
        λ e. open_count-closed _ rest (supersede-closed _ _ row) ∙ later

  close_others-Single :
      (winner : ℕ) (id : Uuid) (place : ℕ) (rows : List (Flag D P))
      → open_count (close_others winner id place rows) ≤ 1
  unfolding close_others
  close_others-Single winner id place [] = omega arith
  close_others-Single winner id place (row ∷ rows) =
      let rest = close_others winner id (suc place) rows in
      let later = close_others-Single winner id (suc place) rows in
      if_keeps (λ (r : Flag D P). open_count (r ∷ rest) ≤ 1) (place == winner) _ _
        (λ e. elim (Bool-cases (is_open_flag row)) [
          | inl o ↦ omega (
            arith,
            open_count-open row rest o,
            close_others-past winner id (suc place) rows
                (omega (arith, (nat_eq_iff place winner).0 e)),
          )
          | inr o ↦ omega (arith, open_count-closed row rest o, later)
        ])
        λ e.
          open_count_closed_bound (supersede (some id) "superseded_duplicate" row) rest
            (supersede-closed (some id) "superseded_duplicate" row) later

  -- Rows of which one was refreshed are open as before; there is none only where no row was open.
  abbrev Refreshes : ℕ → Option (Applied D P) → Type 0
  Refreshes n none = n ≡ 0
  Refreshes n (some applied) = open_count applied.0 ≡ n

  put_before-Refreshes :
      (row : Flag D P) (rows : List (Flag D P)) (o : Option (Applied D P))
      → is_open_flag row ≡ false
      → Refreshes (open_count rows) o
      → Refreshes (open_count (row ∷ rows)) (put_before row o)
  put_before-Refreshes row rows none e h = open_count-closed row rows e ∙ h
  put_before-Refreshes row rows (some (rest, changed)) e h =
      open_count-closed row rest e ∙ h ∙ sym (open_count-closed row rows e)

  refresh_open-Refreshes :
      (finding : Finding D P) (before rows : List (Flag D P))
      → Refreshes (open_count rows) (refresh_open finding before rows)
  unfolding refresh_open
  refresh_open-Refreshes finding before [] = refl
  refresh_open-Refreshes finding before (row ∷ rows) =
      if_keeps (Refreshes (open_count (row ∷ rows))) (is_open_flag row) _ _
        (λ e.
          open_count-open (refreshed finding (before ++ rows) row) rows e
          ∙ sym (open_count-open row rows e))
        λ e.
          put_before-Refreshes row rows _ e
            (refresh_open-Refreshes finding (before ++ (row ∷ [])) rows)

  -- Rows of which one was reopened have at most one more open.
  abbrev Reopens : ℕ → Option (Applied D P) → Type 0
  Reopens n none = Unit
  Reopens n (some applied) = open_count applied.0 ≤ suc n

  open_count_grows :
      (row : Flag D P) (rows : List (Flag D P)) → open_count rows ≤ open_count (row ∷ rows)
  open_count_grows row rows = elim (Bool-cases (is_open_flag row)) [
    | inl e ↦ omega (arith, open_count-open row rows e)
    | inr e ↦ omega (arith, open_count-closed row rows e)
  ]

  put_before-Reopens :
      (row : Flag D P) (rows : List (Flag D P)) (o : Option (Applied D P))
      → Reopens (open_count rows) o
      → Reopens (open_count (row ∷ rows)) (put_before row o)
  put_before-Reopens row rows none h = tt
  put_before-Reopens row rows (some (rest, changed)) h = elim (Bool-cases (is_open_flag row)) [
    | inl e ↦ omega (arith, open_count-open row rows e, open_count-open row rest e, h)
    | inr e ↦ omega (arith, open_count-closed row rows e, open_count-closed row rest e, h)
  ]

  reopen_first-Reopens :
      (finding : Finding D P) (rows : List (Flag D P))
      → Reopens (open_count rows) (reopen_first finding rows)
  unfolding reopen_first
  reopen_first-Reopens finding [] = tt
  reopen_first-Reopens finding (row ∷ rows) =
      if_keeps (Reopens (open_count (row ∷ rows)))
        (has_fingerprint finding.3 row && is_superseded row) _ _
        (λ e.
          omega
            (arith, open_count-open (reopened finding row) rows refl, open_count_grows row rows))
        λ e. put_before-Reopens row rows _ (reopen_first-Reopens finding rows)

  abbrev pub Single : Applied D P → Type 0
  Single applied = open_count applied.0 ≤ 1

  add_new-Single :
      (texts : Texts P) (id : Uuid) (finding : Finding D P) (rows : List (Flag D P))
      → open_count rows ≡ 0
      → Single (add_new texts id finding rows)
  unfolding add_new
  add_new-Single texts id finding rows h =
      if_keeps {B = Applied D P} (λ x. open_count x.0 ≤ 1) (any (has_fingerprint finding.3) rows) _
        _ (λ e. omega (arith, h))
        λ e. omega (
          arith,
          h,
          open_count-append rows (new_flag texts id finding rows ∷ []),
          open_count-open (new_flag texts id finding rows) [] refl,
        )

  -- A group with at most one open row still has at most one when a finding was applied.
  pub apply_finding-Single :
      (texts : Texts P) (id : Uuid) (finding : Finding D P) (rows : List (Flag D P))
      → open_count rows ≤ 1
      → Single (apply_finding texts id finding rows)
  unfolding apply_finding
  apply_finding-Single texts id finding rows h =
      by_refresh (refresh_open finding [] rows) (reopen_first finding rows)
        (refresh_open-Refreshes finding [] rows) (reopen_first-Reopens finding rows)
    where
      by_refresh :
          (o o' : Option (Applied D P))
          → Refreshes (open_count rows) o
          → Reopens (open_count rows) o'
          → open_count (applied_or o (applied_or o' (add_new texts id finding rows))).0 ≤ 1
      by_refresh (some applied) o' r s = omega (arith, h, r)
      by_refresh none (some applied) r s = omega (arith, r, s)
      by_refresh none none r s = add_new-Single texts id finding rows r

module _ {D P : Type 0} ⦃py : Python D⦄ where
  better-some :
      (best : Option (ℕ × Flag D P)) (place : ℕ) (row : Flag D P) → better best place row ≡ none → ⊥
  better-some none place row e = cc
  better-some (some kept) place row e = if_then_some (lt (impact_of kept.1) (impact_of row)) _ _ e

  best_open-none :
      (best : Option (ℕ × Flag D P)) (place : ℕ) (rows : List (Flag D P))
      → best_open best place rows ≡ none
      → (best ≡ none) × (open_count rows ≡ 0)
  unfolding best_open
  best_open-none best place [] e = (e, refl)
  best_open-none best place (row ∷ rows) e =
      let (first, rest) =
        best_open-none (if is_open_flag row then better best place row else best) (suc place) rows
          e in
      split (is_open_flag row) refl first rest
    where
      split :
          (b : Bool)
          → is_open_flag row ≡ b
          → (if b then better best place row else best) ≡ none
          → open_count rows ≡ 0
          → (best ≡ none) × (open_count (row ∷ rows) ≡ 0)
      split true k first rest = absurd (better-some best place row first)
      split false k first rest = (first, open_count-closed row rows k ∙ rest)

  pub collapse-Single : (rows : List (Flag D P)) → open_count (collapse rows) ≤ 1
  unfolding collapse
  collapse-Single rows =
      if_keeps (λ (rs : List (Flag D P)). open_count rs ≤ 1)
        (leb (length (keep is_open_flag rows)) 1) _ _ (leb→le _ _)
        λ h. by_winner (best_open none 0 rows) refl
    where
      by_winner :
          (o : Option (ℕ × Flag D P))
          → best_open none 0 rows ≡ o
          → open_count (close_all_but o rows) ≤ 1
      by_winner none e = omega (arith, (best_open-none none 0 rows e).1)
      by_winner (some (winner, flag)) e = close_others-Single winner flag.id 0 rows
