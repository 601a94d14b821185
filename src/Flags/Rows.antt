-- ===== src/Flags/Rows.antt =====
-- What the parts of `sync_flags` of flags/store.py keep of the rows of a finding: their ids, their
-- types and their logical keys.
use house_analysis_ai.Prelude.{
  ℕ, suc, ◌≤◌, Bool, ◌&&◌, Option, none, some, List, [], ◌∷◌, ◌++◌, String, ◌==◌, string_eq,
  number_eq, same_option, if◌then◌else◌, if_keeps, any, leb, length, keep, count_if, All, ◌≡◌, refl,
  sym, ap, ◌∙◌, arith,
}
use house_analysis_ai.Python.{Python}
use house_analysis_ai.Contracts.{Uuid}
use house_analysis_ai.Flags.{
  Flag, Texts, Key, same_key, Finding, Applied, is_open_flag, is_superseded, supersede,
  close_others, close_all_but, best_open, collapse, put_before, refresh_open, reopen_first,
  has_fingerprint, new_flag, add_new, applied_or, apply_finding, close_all,
}

abbrev pub one_if : Bool → ℕ
one_if b = if b then 1 else 0

module _ {D P : Type 0} where
  -- whether a row has the type and the logical key
  abbrev pub has_key : Key → Flag D P → Bool
  has_key key row =
      row.flag_type == key.0 && same_option (λ a b. a == b) row.logical_key (some key.1)

  -- The row is of the finding.
  abbrev pub HasKey : Key → Flag D P → Type 0
  HasKey key row = (row.flag_type ≡ key.0) × (row.logical_key ≡ some key.1)

  pub has_key-HasKey :
      (k key : Key) (row : Flag D P) → HasKey k row → has_key key row ≡ same_key k key
  has_key-HasKey k key row h = rw (h.0, h.1) refl

  -- whether a row has the id, the type and the logical key
  abbrev pub stands : Uuid → Key → Flag D P → Bool
  stands id key row = row.id == id && has_key key row

  -- The second row is the first one, but for its state and its finding.
  abbrev IsSame : Flag D P → Flag D P → Type 0
  IsSame row row' =
      (row'.id ≡ row.id) × (row'.flag_type ≡ row.flag_type) × (row'.logical_key ≡ row.logical_key)

  -- The second rows are the first ones, each the same row, with further rows of the finding.
  abbrev pub Extends : Key → List (Flag D P) → List (Flag D P) → Type 0
  Extends key [] rows' = All (HasKey key) rows'
  Extends key (row ∷ rows) [] = ⊥
  Extends key (row ∷ rows) (row' ∷ rows') = IsSame row row' × Extends key rows rows'

  IsSame-stands :
      (id : Uuid) (key : Key) (row row' : Flag D P)
      → IsSame row row'
      → stands id key row' ≡ stands id key row
  IsSame-stands id key row row' h = rw (h.0, h.1, h.2) refl

  pub Extends-stands :
      (id : Uuid) (k key : Key) (rows rows' : List (Flag D P))
      → Extends k rows rows'
      → count_if (stands id key) rows ≤ count_if (stands id key) rows'
  Extends-stands id k key [] rows' h = omega arith
  Extends-stands id k key (row ∷ rows) [] h = absurd h
  Extends-stands id k key (row ∷ rows) (row' ∷ rows') h =
      let one = ap one_if (IsSame-stands id key row row' h.0) in
      omega (arith, one, Extends-stands id k key rows rows' h.1)

  pub Extends-HasKey :
      (key : Key) (rows rows' : List (Flag D P))
      → Extends key rows rows'
      → All (HasKey key) rows
      → All (HasKey key) rows'
  Extends-HasKey key [] rows' h k = h
  Extends-HasKey key (row ∷ rows) [] h k = absurd h
  Extends-HasKey key (row ∷ rows) (row' ∷ rows') h k =
      ((h.0.1 ∙ k.0.0, h.0.2 ∙ k.0.1), Extends-HasKey key rows rows' h.1 k.1)

  pub Extends-refl : (key : Key) (rows : List (Flag D P)) → Extends key rows rows
  Extends-refl key [] = tt
  Extends-refl key (row ∷ rows) = ((refl, refl, refl), Extends-refl key rows)

  Extends-append :
      (key : Key) (rows more : List (Flag D P))
      → All (HasKey key) more
      → Extends key rows (rows ++ more)
  Extends-append key [] more h = h
  Extends-append key (row ∷ rows) more h = ((refl, refl, refl), Extends-append key rows more h)

  supersede-IsSame :
      (id : Option Uuid) (reason : String) (row : Flag D P) → IsSame row (supersede id reason row)
  unfolding supersede
  supersede-IsSame id reason row =
      if_keeps (IsSame row) (is_open_flag row) _ _ (λ e. (refl, refl, refl)) λ e. (refl, refl, refl)

  pub close_all-Extends : (key : Key) (rows : List (Flag D P)) → Extends key rows (close_all rows)
  close_all-Extends key [] = tt
  close_all-Extends key (row ∷ rows) =
      (supersede-IsSame none "superseded_recompute" row, close_all-Extends key rows)

  close_others-Extends :
      (key : Key) (winner : ℕ) (id : Uuid) (place : ℕ) (rows : List (Flag D P))
      → Extends key rows (close_others winner id place rows)
  unfolding close_others
  close_others-Extends key winner id place [] = tt
  close_others-Extends key winner id place (row ∷ rows) = (
    if_keeps (IsSame row) (place == winner) _ _ (λ e. (refl, refl, refl))
        λ e. supersede-IsSame (some id) "superseded_duplicate" row,
    close_others-Extends key winner id (suc place) rows,
  )

  -- The finding is of the type and has the logical key.
  abbrev pub IsFor : Key → Finding D P → Type 0
  IsFor key finding = (finding.0.flag_type ≡ key.0) × (finding.1 ≡ key.1)

  -- The rows after a step, where it took place, extend those before.
  abbrev MayExtend : Key → List (Flag D P) → Option (Applied D P) → Type 0
  MayExtend key rows none = Unit
  MayExtend key rows (some applied) = Extends key rows applied.0

  put_before-MayExtend :
      (key : Key) (row : Flag D P) (rows : List (Flag D P)) (o : Option (Applied D P))
      → MayExtend key rows o
      → MayExtend key (row ∷ rows) (put_before row o)
  put_before-MayExtend key row rows none h = tt
  put_before-MayExtend key row rows (some (rest, changed)) h = ((refl, refl, refl), h)

  refresh_open-MayExtend :
      (key : Key) (finding : Finding D P) (before rows : List (Flag D P))
      → IsFor key finding
      → All (HasKey key) rows
      → MayExtend key rows (refresh_open finding before rows)
  unfolding refresh_open
  refresh_open-MayExtend key finding before [] f h = tt
  refresh_open-MayExtend key finding before (row ∷ rows) f h =
      if_keeps (MayExtend key (row ∷ rows)) (is_open_flag row) _ _
        (λ e. ((refl, refl, ap some f.1 ∙ sym h.0.1), Extends-refl key rows))
        λ e.
          put_before-MayExtend key row rows _
            (refresh_open-MayExtend key finding (before ++ (row ∷ [])) rows f h.1)

  reopen_first-MayExtend :
      (key : Key) (finding : Finding D P) (rows : List (Flag D P))
      → IsFor key finding
      → All (HasKey key) rows
      → MayExtend key rows (reopen_first finding rows)
  unfolding reopen_first
  reopen_first-MayExtend key finding [] f h = tt
  reopen_first-MayExtend key finding (row ∷ rows) f h =
      if_keeps (MayExtend key (row ∷ rows)) (has_fingerprint finding.3 row && is_superseded row) _ _
        (λ e. ((refl, refl, ap some f.1 ∙ sym h.0.1), Extends-refl key rows))
        λ e. put_before-MayExtend key row rows _ (reopen_first-MayExtend key finding rows f h.1)

  add_new-Extends :
      (key : Key) (texts : Texts P) (id : Uuid) (finding : Finding D P) (rows : List (Flag D P))
      → IsFor key finding
      → Extends key rows (add_new texts id finding rows).0
  unfolding add_new
  add_new-Extends key texts id finding rows f =
      if_keeps (λ (a : Applied D P). Extends key rows a.0) (any (has_fingerprint finding.3) rows) _
        _ (λ e. Extends-refl key rows)
        λ e. Extends-append key rows (new_flag texts id finding rows ∷ []) ((f.0, ap some f.1), tt)

  -- A round of the loop over the findings keeps the rows of the finding.
  pub apply_finding-Extends :
      (key : Key) (texts : Texts P) (id : Uuid) (finding : Finding D P) (rows : List (Flag D P))
      → IsFor key finding
      → All (HasKey key) rows
      → Extends key rows (apply_finding texts id finding rows).0
  unfolding apply_finding
  apply_finding-Extends key texts id finding rows f h =
      by_step (refresh_open finding [] rows) (reopen_first finding rows)
        (refresh_open-MayExtend key finding [] rows f h)
        (reopen_first-MayExtend key finding rows f h)
    where
      by_step :
          (o o' : Option (Applied D P))
          → MayExtend key rows o
          → MayExtend key rows o'
          → Extends key rows (applied_or o (applied_or o' (add_new texts id finding rows))).0
      by_step (some applied) o' k l = k
      by_step none (some applied) k l = l
      by_step none none k l = add_new-Extends key texts id finding rows f

module _ {D P : Type 0} ⦃py : Python D⦄ where
  pub collapse-Extends : (key : Key) (rows : List (Flag D P)) → Extends key rows (collapse rows)
  unfolding collapse
  collapse-Extends key rows =
      if_keeps (Extends key rows) (leb (length (keep is_open_flag rows)) 1) _ _
        (λ e. Extends-refl key rows) λ e. by_winner (best_open none 0 rows)
    where
      by_winner : (o : Option (ℕ × Flag D P)) → Extends key rows (close_all_but o rows)
      by_winner none = Extends-refl key rows
      by_winner (some (winner, flag)) = close_others-Extends key winner flag.id 0 rows
