-- ===== src/Flags/Answers.antt =====
-- What `sync_flags` of flags/store.py leaves of the answers that a person gave.
use house_analysis_ai.Prelude.{
  true_not_false, ℕ, suc, String, Bool, true, false, ◌&&◌, Option, none, some, List, [], ◌∷◌, ◌++◌,
  In, ◌≡◌, ◌⊎◌, inl, inr, refl, sym, subst, ◌∙◌, ◌==◌, number_eq, leb, length, keep, any, if_keeps,
}
use house_analysis_ai.Python.{Python}
use house_analysis_ai.Contracts.{Uuid}
use house_analysis_ai.Flags.{
  Flag, FlagRequest, Texts, Key, same_key, Finding, Applied, is_open_flag, is_superseded, supersede,
  row_logical, findings_from, add_row, group_rows, close_others, close_all_but, best_open, collapse,
  collapse_all, put_before, refresh_open, reopen_first, has_fingerprint, add_new, applied_or,
  apply_finding, is_current, close_all, close_missing, apply_at, apply_all, sync_flags,
}

module _ {D P : Type 0} where
  -- A row that is closed, and not by a recomputation that missed its finding.
  abbrev pub IsAnswered : Flag D P → Type 0
  IsAnswered row = (is_open_flag row ≡ false) × (is_superseded row ≡ false)

  -- The row stands in one of the groups.
  abbrev pub InGroups : Flag D P → List (Key × List (Flag D P)) → Type 0
  InGroups x [] = ⊥
  InGroups x ((key, rows) ∷ groups) = In x rows ⊎ InGroups x groups

  In-append_left : (x : Flag D P) (xs ys : List (Flag D P)) → In x xs → In x (xs ++ ys)
  In-append_left x [] ys m = absurd m
  In-append_left x (y ∷ xs) ys (inl e) = inl e
  In-append_left x (y ∷ xs) ys (inr m) = inr (In-append_left x xs ys m)

  In-append_last : (x : Flag D P) (xs : List (Flag D P)) → In x (xs ++ (x ∷ []))
  In-append_last x [] = inl refl
  In-append_last x (y ∷ xs) = inr (In-append_last x xs)

  supersede-same :
      (id : Option Uuid) (reason : String) (x : Flag D P)
      → is_open_flag x ≡ false
      → supersede id reason x ≡ x
  unfolding supersede
  supersede-same id reason x h =
      if_keeps (λ (r : Flag D P). r ≡ x) (is_open_flag x) _ _
        (λ k. absurd (true_not_false (sym k ∙ h))) λ k. refl

  -- A row that is the answered one stays it when open rows are closed.
  superseded-same :
      (id : Option Uuid) (reason : String) (row x : Flag D P)
      → row ≡ x
      → is_open_flag x ≡ false
      → supersede id reason row ≡ x
  superseded-same id reason row x e h =
      subst (λ (r : Flag D P). supersede id reason r ≡ x) (sym e) (supersede-same id reason x h)

  close_others-keeps :
      (x : Flag D P) (winner : ℕ) (id : Uuid) (place : ℕ) (rows : List (Flag D P))
      → is_open_flag x ≡ false
      → In x rows
      → In x (close_others winner id place rows)
  unfolding close_others
  close_others-keeps x winner id place [] h m = absurd m
  close_others-keeps x winner id place (row ∷ rows) h (inl e) = inl (
      if_keeps (λ (r : Flag D P). r ≡ x) (place == winner) _ _ (λ k. e)
        λ k. superseded-same (some id) "superseded_duplicate" row x e h)
  close_others-keeps x winner id place (row ∷ rows) h (inr m) =
      inr (close_others-keeps x winner id (suc place) rows h m)

  close_all-keeps :
      (x : Flag D P) (rows : List (Flag D P))
      → is_open_flag x ≡ false
      → In x rows
      → In x (close_all rows)
  close_all-keeps x [] h m = absurd m
  close_all-keeps x (row ∷ rows) h (inl e) =
      inl (superseded-same none "superseded_recompute" row x e h)
  close_all-keeps x (row ∷ rows) h (inr m) = inr (close_all-keeps x rows h m)

  -- The rows after a step, where it took place, have the row.
  abbrev Keeps : Flag D P → Option (Applied D P) → Type 0
  Keeps x none = Unit
  Keeps x (some applied) = In x applied.0

  put_before-later :
      (x row : Flag D P) (o : Option (Applied D P)) → Keeps x o → Keeps x (put_before row o)
  put_before-later x row none h = tt
  put_before-later x row (some (rest, changed)) h = inr h

  put_before-here :
      (x row : Flag D P) (o : Option (Applied D P)) → row ≡ x → Keeps x (put_before row o)
  put_before-here x row none e = tt
  put_before-here x row (some (rest, changed)) e = inl e

  refresh_open-Keeps :
      (x : Flag D P) (finding : Finding D P) (before rows : List (Flag D P))
      → IsAnswered x
      → In x rows
      → Keeps x (refresh_open finding before rows)
  unfolding refresh_open
  refresh_open-Keeps x finding before [] h m = absurd m
  refresh_open-Keeps x finding before (row ∷ rows) h (inl e) =
      if_keeps (Keeps x) (is_open_flag row) _ _
        (λ k.
          absurd
            (true_not_false (sym k ∙ subst (λ (r : Flag D P). is_open_flag r ≡ false) (sym e) h.0)))
        λ k. put_before-here x row _ e
  refresh_open-Keeps x finding before (row ∷ rows) h (inr m) =
      if_keeps (Keeps x) (is_open_flag row) _ _ (λ k. inr m)
        λ k. put_before-later x row _ (refresh_open-Keeps x finding (before ++ (row ∷ [])) rows h m)

  reopen_first-Keeps :
      (x : Flag D P) (finding : Finding D P) (rows : List (Flag D P))
      → IsAnswered x
      → In x rows
      → Keeps x (reopen_first finding rows)
  unfolding reopen_first
  reopen_first-Keeps x finding [] h m = absurd m
  reopen_first-Keeps x finding (row ∷ rows) h (inl e) =
      if_keeps (Keeps x) (has_fingerprint finding.3 row && is_superseded row) _ _
        (λ k. absurd (
          true_not_false
            (sym (second _ _ k) ∙ subst (λ (r : Flag D P). is_superseded r ≡ false) (sym e) h.1)))
        λ k. put_before-here x row _ e
    where
      second : (a b : Bool) → (a && b) ≡ true → b ≡ true
      second true b e = e
      second false b e = cc
  reopen_first-Keeps x finding (row ∷ rows) h (inr m) =
      if_keeps (Keeps x) (has_fingerprint finding.3 row && is_superseded row) _ _ (λ k. inr m)
        λ k. put_before-later x row _ (reopen_first-Keeps x finding rows h m)

  add_new-keeps :
      (x : Flag D P) (texts : Texts P) (id : Uuid) (finding : Finding D P) (rows : List (Flag D P))
      → In x rows
      → In x (add_new texts id finding rows).0
  unfolding add_new
  add_new-keeps x texts id finding rows m =
      if_keeps (λ (a : Applied D P). In x a.0) (any (has_fingerprint finding.3) rows) _ _ (λ k. m)
        λ k. In-append_left x rows _ m

  apply_finding-keeps :
      (x : Flag D P) (texts : Texts P) (id : Uuid) (finding : Finding D P) (rows : List (Flag D P))
      → IsAnswered x
      → In x rows
      → In x (apply_finding texts id finding rows).0
  unfolding apply_finding
  apply_finding-keeps x texts id finding rows h m =
      by_step (refresh_open finding [] rows) (reopen_first finding rows)
        (refresh_open-Keeps x finding [] rows h m) (reopen_first-Keeps x finding rows h m)
    where
      by_step :
          (o o' : Option (Applied D P))
          → Keeps x o
          → Keeps x o'
          → In x (applied_or o (applied_or o' (add_new texts id finding rows))).0
      by_step (some applied) o' k l = k
      by_step none (some applied) k l = l
      by_step none none k l = add_new-keeps x texts id finding rows m

  InGroups-add_row_self :
      (key : Key) (x : Flag D P) (groups : List (Key × List (Flag D P)))
      → InGroups x (add_row key x groups)
  unfolding add_row
  InGroups-add_row_self key x [] = inl (inl refl)
  InGroups-add_row_self key x ((k, rows) ∷ groups) =
      if_keeps (InGroups x) (same_key k key) _ _ (λ e. inl (In-append_last x rows))
        λ e. inr (InGroups-add_row_self key x groups)

  InGroups-add_row :
      (key : Key) (row x : Flag D P) (groups : List (Key × List (Flag D P)))
      → InGroups x groups
      → InGroups x (add_row key row groups)
  unfolding add_row
  InGroups-add_row key row x [] m = absurd m
  InGroups-add_row key row x ((k, rows) ∷ groups) (inl m) =
      if_keeps (InGroups x) (same_key k key) _ _ (λ e. inl (In-append_left x rows _ m)) λ e. inl m
  InGroups-add_row key row x ((k, rows) ∷ groups) (inr m) =
      if_keeps (InGroups x) (same_key k key) _ _ (λ e. inr m)
        λ e. inr (InGroups-add_row key row x groups m)

  -- A row as the synchronisation reads it, with its logical key written.
  abbrev pub keyed : Texts P → Flag D P → Flag D P
  keyed texts row = record row { logical_key = some (row_logical texts row) }

  InGroups-group_rows :
      (texts : Texts P) (x : Flag D P) (groups : List (Key × List (Flag D P)))
      (rows : List (Flag D P))
      → InGroups x groups
      → InGroups x (group_rows texts groups rows)
  unfolding group_rows
  InGroups-group_rows texts x groups [] m = m
  InGroups-group_rows texts x groups (row ∷ rows) m =
      InGroups-group_rows texts x
        (add_row (row.flag_type, row_logical texts row) (keyed texts row) groups) rows
        (InGroups-add_row _ _ x groups m)

  group_rows-keeps :
      (texts : Texts P) (x : Flag D P) (groups : List (Key × List (Flag D P)))
      (rows : List (Flag D P))
      → In x rows
      → InGroups (keyed texts x) (group_rows texts groups rows)
  unfolding group_rows
  group_rows-keeps texts x groups [] m = absurd m
  group_rows-keeps texts x groups (row ∷ rows) (inl e) =
      subst (λ (r : Flag D P). InGroups (keyed texts r) (group_rows texts groups (row ∷ rows))) e
        (InGroups-group_rows texts (keyed texts row)
          (add_row (row.flag_type, row_logical texts row) (keyed texts row) groups) rows
          (InGroups-add_row_self _ (keyed texts row) groups))
  group_rows-keeps texts x groups (row ∷ rows) (inr m) =
      group_rows-keeps texts x
        (add_row (row.flag_type, row_logical texts row) (keyed texts row) groups) rows m

  close_missing-keeps :
      (x : Flag D P) (findings : List (Key × Finding D P)) (groups : List (Key × List (Flag D P)))
      → is_open_flag x ≡ false
      → InGroups x groups
      → InGroups x (close_missing findings groups)
  unfolding close_missing
  close_missing-keeps x findings [] h m = absurd m
  close_missing-keeps x findings ((key, rows) ∷ groups) h (inl m) = inl (
      if_keeps (λ (rs : List (Flag D P)). In x rs) (is_current findings key) _ _ (λ e. m)
        λ e. close_all-keeps x rows h m)
  close_missing-keeps x findings ((key, rows) ∷ groups) h (inr m) =
      inr (close_missing-keeps x findings groups h m)

  apply_at-keeps :
      (x : Flag D P) (texts : Texts P) (id : Uuid) (key : Key) (finding : Finding D P)
      (groups : List (Key × List (Flag D P)))
      → IsAnswered x
      → InGroups x groups
      → InGroups x (apply_at texts id key finding groups).0
  unfolding apply_at
  apply_at-keeps x texts id key finding [] h m = absurd m
  apply_at-keeps x texts id key finding ((k, rows) ∷ groups) h (inl m) =
      if_keeps (λ (a : List (Key × List (Flag D P)) × List (Flag D P)). InGroups x a.0)
        (same_key k key) _ _ (λ e. inl (apply_finding-keeps x texts id finding rows h m)) λ e. inl m
  apply_at-keeps x texts id key finding ((k, rows) ∷ groups) h (inr m) =
      if_keeps (λ (a : List (Key × List (Flag D P)) × List (Flag D P)). InGroups x a.0)
        (same_key k key) _ _ (λ e. inr m)
        λ e. inr (apply_at-keeps x texts id key finding groups h m)

  apply_all-keeps :
      (x : Flag D P) (texts : Texts P) (new_id : Key → Uuid) (findings : List (Key × Finding D P))
      (groups : List (Key × List (Flag D P)))
      → IsAnswered x
      → InGroups x groups
      → InGroups x (apply_all texts new_id findings groups).0
  unfolding apply_all
  apply_all-keeps x texts new_id [] groups h m = m
  apply_all-keeps x texts new_id ((key, finding) ∷ findings) groups h m =
      apply_all-keeps x texts new_id findings _ h
        (apply_at-keeps x texts (new_id key) key finding groups h m)

module _ {D P : Type 0} ⦃py : Python D⦄ where
  collapse-keeps :
      (x : Flag D P) (rows : List (Flag D P))
      → is_open_flag x ≡ false
      → In x rows
      → In x (collapse rows)
  unfolding collapse
  collapse-keeps x rows h m =
      if_keeps (λ (rs : List (Flag D P)). In x rs) (leb (length (keep is_open_flag rows)) 1) _ _
        (λ e. m) λ e. by_winner (best_open none 0 rows)
    where
      by_winner : (o : Option (ℕ × Flag D P)) → In x (close_all_but o rows)
      by_winner none = m
      by_winner (some (winner, flag)) = close_others-keeps x winner flag.id 0 rows h m

  collapse_all-keeps :
      (x : Flag D P) (groups : List (Key × List (Flag D P)))
      → is_open_flag x ≡ false
      → InGroups x groups
      → InGroups x (collapse_all groups)
  collapse_all-keeps x [] h m = absurd m
  collapse_all-keeps x ((key, rows) ∷ groups) h (inl m) = inl (collapse-keeps x rows h m)
  collapse_all-keeps x ((key, rows) ∷ groups) h (inr m) = inr (collapse_all-keeps x groups h m)

  -- A row that is closed, and not by a recomputation that missed its finding, is after a
  -- synchronisation as it was before, but for its logical key, which is written out.
  pub sync_flags-keeps :
      (texts : Texts P) (new_id : Key → Uuid) (property_id : Uuid) (rows : List (Flag D P))
      (requests : List (FlagRequest D P)) (x : Flag D P)
      → In x rows
      → IsAnswered x
      → InGroups (keyed texts x) (sync_flags texts new_id property_id rows requests).0
  unfolding sync_flags
  sync_flags-keeps texts new_id property_id rows requests x m h =
      let findings = findings_from texts property_id [] requests in
      apply_all-keeps (keyed texts x) texts new_id findings _ h (
        close_missing-keeps (keyed texts x) findings _ h.0
          (collapse_all-keeps (keyed texts x) _ h.0 (group_rows-keeps texts x [] rows m)))
