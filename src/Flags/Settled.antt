-- ===== src/Flags/Settled.antt =====
-- What the groups of rows of `sync_flags` of flags/store.py have open.
use house_analysis_ai.Prelude.{
  true_not_false, ◌≤◌, true, false, List, [], ◌∷◌, string_eq, number_eq, All, ◌≡◌, refl, sym, subst,
  ◌∙◌, arith, if_keeps,
}
use house_analysis_ai.Python.{Python}
use house_analysis_ai.Contracts.{Uuid}
use house_analysis_ai.Flags.{
  Flag, FlagRequest, Texts, Key, same_key, Finding, findings_from, group_rows, collapse_all,
  collapse, is_current, close_missing, apply_at, apply_all, sync_flags,
}
use house_analysis_ai.Flags.Counts.{
  open_count, close_all-none, apply_finding-Single, collapse-Single,
}
use house_analysis_ai.Flags.Tables.{same_key-path, same_key_refl}

module _ {D P : Type 0} ⦃py : Python D⦄ where
  -- What the rows of a key are like when the findings were taken over: at most one is open, and
  -- none where no finding has the key.
  pub record IsSettled (findings : List (Key × Finding D P)) (key : Key) (rows : List (Flag D P))
      : Type 0 where
    pub single : open_count rows ≤ 1
    pub gone : is_current findings key ≡ false → open_count rows ≡ 0

  abbrev pub AllSettled : List (Key × Finding D P) → List (Key × List (Flag D P)) → Type 0
  AllSettled findings groups = All (λ group. IsSettled findings group.0 group.1) groups

  close_missing-Settled :
      (findings : List (Key × Finding D P)) (groups : List (Key × List (Flag D P)))
      → AllSettled findings (close_missing findings (collapse_all groups))
  unfolding close_missing
  close_missing-Settled findings [] = tt
  close_missing-Settled findings ((key, rows) ∷ groups) = (
    if_keeps (IsSettled findings key) (is_current findings key) _ _
        (λ e. record {
          single = collapse-Single rows;
          gone = λ k. absurd (true_not_false (sym e ∙ k));
        })
        (λ e. record {
          single = omega (arith, close_all-none (collapse rows));
          gone = λ k. close_all-none (collapse rows);
        }),
    close_missing-Settled findings groups,
  )

  apply_at-Settled :
      (texts : Texts P) (id : Uuid) (findings : List (Key × Finding D P)) (key : Key)
      (finding : Finding D P) (groups : List (Key × List (Flag D P)))
      → is_current findings key ≡ true
      → AllSettled findings groups
      → AllSettled findings (apply_at texts id key finding groups).0
  unfolding apply_at
  apply_at-Settled texts id findings key finding [] c h = (
    record {
      single = apply_finding-Single texts id finding [] (omega arith);
      gone = λ k. absurd (true_not_false (sym c ∙ k));
    },
    tt,
  )
  apply_at-Settled texts id findings key finding ((k, rows) ∷ groups) c h =
      if_keeps (λ (x : List (Key × List (Flag D P)) × List (Flag D P)). AllSettled findings x.0)
        (same_key k key) _ _
        (λ e. (
          record {
            single = apply_finding-Single texts id finding rows h.0.single;
            gone = λ g. absurd (
                true_not_false
                  (sym c ∙ subst (λ x. is_current findings x ≡ false) (same_key-path k key e) g));
          },
          h.1,
        ))
        λ e. (h.0, apply_at-Settled texts id findings key finding groups c h.1)

  -- The keys of some of the findings.
  abbrev AllCurrent : List (Key × Finding D P) → List (Key × Finding D P) → Type 0
  AllCurrent findings some' = All (λ item. is_current findings item.0 ≡ true) some'

  AllCurrent-cons :
      (item : Key × Finding D P) (findings some' : List (Key × Finding D P))
      → AllCurrent findings some'
      → AllCurrent (item ∷ findings) some'
  AllCurrent-cons item findings [] h = tt
  AllCurrent-cons item findings (x ∷ xs) h =
      (ground (arith, h.0), AllCurrent-cons item findings xs h.1)

  AllCurrent-self : (findings : List (Key × Finding D P)) → AllCurrent findings findings
  AllCurrent-self [] = tt
  AllCurrent-self (item ∷ findings) = (
    rw (same_key_refl item.0) refl,
    AllCurrent-cons item findings findings (AllCurrent-self findings),
  )

  apply_all-Settled :
      (texts : Texts P) (new_id : Key → Uuid) (findings rest : List (Key × Finding D P))
      (groups : List (Key × List (Flag D P)))
      → AllCurrent findings rest
      → AllSettled findings groups
      → AllSettled findings (apply_all texts new_id rest groups).0
  unfolding apply_all
  apply_all-Settled texts new_id findings [] groups c h = h
  apply_all-Settled texts new_id findings ((key, finding) ∷ rest) groups c h =
      apply_all-Settled texts new_id findings rest _ c.1
        (apply_at-Settled texts (new_id key) findings key finding groups c.0 h)

  pub sync_flags-Settled :
      (texts : Texts P) (new_id : Key → Uuid) (property_id : Uuid) (rows : List (Flag D P))
      (requests : List (FlagRequest D P))
      → AllSettled
          (findings_from texts property_id [] requests)
          (sync_flags texts new_id property_id rows requests).0
  unfolding sync_flags
  sync_flags-Settled texts new_id property_id rows requests =
      let findings = findings_from texts property_id [] requests in
      apply_all-Settled texts new_id findings findings _ (AllCurrent-self findings)
        (close_missing-Settled findings (group_rows texts [] rows))
