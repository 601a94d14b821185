-- ===== src/Flags/Single.antt =====
-- What `sync_flags` of flags/store.py leaves open.
use house_analysis_ai.Prelude.{
  ℕ, ◌+◌, ◌≤◌, Bool, true, false, not, ◌&&◌, List, [], ◌∷◌, map, ◌==◌, string_eq, number_eq, All,
  count_if, ◌≡◌, refl, sym, subst, arith, Bool-cases, inl, inr, or_first_false, or_second_false,
}
use house_analysis_ai.Python.{Python}
use house_analysis_ai.Contracts.{Uuid}
use house_analysis_ai.Flags.{
  Flag, FlagRequest, Texts, Key, same_key, Finding, is_open_flag, findings_from, group_rows,
  collapse_all, is_current, close_missing, sync_flags,
}
use house_analysis_ai.Flags.Answers.{keyed}
use house_analysis_ai.Flags.Counts.{open_count}
use house_analysis_ai.Flags.Settled.{AllSettled, sync_flags-Settled}
use house_analysis_ai.Flags.Rows.{one_if, has_key, HasKey, has_key-HasKey, stands}
use house_analysis_ai.Flags.Tables.{
  same_key-path, all_rows, has_group, IsTable, count_if-append, group_rows-IsTable,
  group_rows-total, Follows-IsTable, Follows-total, close_missing-Follows, collapse_all-Follows,
}
use house_analysis_ai.Flags.Findings.{
  is_reported, findings_from-AllFor, findings_from-reported, apply_all-IsTable, apply_all-total,
}

module _ {D P : Type 0} where
  -- whether a row is open and has the type and the logical key
  abbrev pub open_at : Key → Flag D P → Bool
  open_at key row = is_open_flag row && has_key key row

  open_at-most :
      (key : Key) (rows : List (Flag D P)) → count_if (open_at key) rows ≤ open_count rows
  open_at-most key [] = omega arith
  open_at-most key (row ∷ rows) = ground (arith, open_at-most key rows)

  open_at-none :
      (k key : Key) (rows : List (Flag D P))
      → same_key k key ≡ false
      → All (HasKey k) rows
      → count_if (open_at key) rows ≡ 0
  open_at-none k key [] d h = refl
  open_at-none k key (row ∷ rows) d h =
      ground (arith, has_key-HasKey k key row h.0, d, open_at-none k key rows d h.1)

  -- Where no row of a key is open, the rows of the key are the closed ones.
  stands-closed :
      (id : Uuid) (key : Key) (rows : List (Flag D P))
      → count_if (open_at key) rows ≡ 0
      → count_if (stands id key) rows
        ≡ count_if (λ row. stands id key row && not (is_open_flag row)) rows
  stands-closed id key [] h = refl
  stands-closed id key (row ∷ rows) h =
      let rest = stands-closed id key rows (omega (arith, h)) in
      omega (arith, rest, by_tests (row.id == id) (has_key key row) (is_open_flag row) _ h)
    where
      by_tests :
          (a b c : Bool) (n : ℕ)
          → one_if (c && b) + n ≡ 0
          → one_if (a && b) ≡ one_if ((a && b) && not c)
      by_tests true true true n e = omega (arith, e)
      by_tests true true false n e = refl
      by_tests true false c n e = refl
      by_tests false b c n e = refl

  table-none :
      (key : Key) (groups : List (Key × List (Flag D P)))
      → IsTable groups
      → has_group key groups ≡ false
      → count_if (open_at key) (all_rows groups) ≡ 0
  table-none key [] t h = refl
  table-none key ((k, rows) ∷ groups) t h = omega (
    arith,
    count_if-append (open_at key) rows (all_rows groups),
    open_at-none k key rows (or_first_false (same_key k key) _ h) t.1,
    table-none key groups t.2 (or_second_false (same_key k key) _ h),
  )

module _ {D P : Type 0} ⦃py : Python D⦄ where
  -- The open rows of a key are those of its group.
  table-single :
      (findings : List (Key × Finding D P)) (key : Key) (groups : List (Key × List (Flag D P)))
      → IsTable groups
      → AllSettled findings groups
      → count_if (open_at key) (all_rows groups) ≤ 1
  table-single findings key [] t h = omega arith
  table-single findings key ((k, rows) ∷ groups) t h = elim (Bool-cases (same_key k key)) [
    | inl e ↦ omega (
      arith,
      count_if-append (open_at key) rows (all_rows groups),
      open_at-most key rows,
      h.0.single,
      table-none key groups t.2
          (subst (λ (x : Key). has_group x groups ≡ false) (same_key-path k key e) t.0),
    )
    | inr e ↦ omega (
      arith,
      count_if-append (open_at key) rows (all_rows groups),
      open_at-none k key rows e t.1,
      table-single findings key groups t.2 h.1,
    )
  ]

  table-gone :
      (findings : List (Key × Finding D P)) (key : Key) (groups : List (Key × List (Flag D P)))
      → is_current findings key ≡ false
      → IsTable groups
      → AllSettled findings groups
      → count_if (open_at key) (all_rows groups) ≡ 0
  table-gone findings key [] c t h = refl
  table-gone findings key ((k, rows) ∷ groups) c t h = elim (Bool-cases (same_key k key)) [
    | inl e ↦ omega (
      arith,
      count_if-append (open_at key) rows (all_rows groups),
      open_at-most key rows,
      h.0.gone (subst (λ (x : Key). is_current findings x ≡ false) (sym (same_key-path k key e)) c),
      table-gone findings key groups c t.2 h.1,
    )
    | inr e ↦ omega (
      arith,
      count_if-append (open_at key) rows (all_rows groups),
      open_at-none k key rows e t.1,
      table-gone findings key groups c t.2 h.1,
    )
  ]

  module _ (texts : Texts P) (new_id : Key → Uuid) (property_id : Uuid) (rows : List (Flag D P))
      (requests : List (FlagRequest D P)) where
    -- the rows of the table after a synchronisation
    abbrev pub rows_after : List (Flag D P)
    rows_after = all_rows (sync_flags texts new_id property_id rows requests).0

    sync_flags-IsTable : IsTable (sync_flags texts new_id property_id rows requests).0
    unfolding sync_flags
    sync_flags-IsTable =
        let findings = findings_from texts property_id [] requests in
        let groups = group_rows texts [] rows in
        apply_all-IsTable texts new_id findings _
          (findings_from-AllFor texts property_id [] requests tt)
          (Follows-IsTable (collapse_all groups) _
            (close_missing-Follows findings (collapse_all groups))
            (Follows-IsTable groups _ (collapse_all-Follows groups)
              (group_rows-IsTable texts [] rows tt)))

    sync_flags-stands :
        (id : Uuid) (key : Key)
        → count_if (stands id key) (map (keyed texts) rows) ≤ count_if (stands id key) rows_after
    unfolding sync_flags
    sync_flags-stands id key =
        let findings = findings_from texts property_id [] requests in
        let groups = group_rows texts [] rows in
        let collapsed = collapse_all groups in
        let left = close_missing findings collapsed in
        omega (
          arith,
          group_rows-total texts id key [] rows,
          Follows-total id key groups collapsed (collapse_all-Follows groups),
          Follows-total id key collapsed left (close_missing-Follows findings collapsed),
          apply_all-total texts new_id id key findings left
              (findings_from-AllFor texts property_id [] requests tt)
              (Follows-IsTable collapsed left (close_missing-Follows findings collapsed) (
                Follows-IsTable groups collapsed (collapse_all-Follows groups)
                  (group_rows-IsTable texts [] rows tt))),
        )

    pub sync_flags-Single :
        (id : Uuid) (key : Key)
        → (count_if (open_at key) rows_after ≤ 1)
          × (count_if (stands id key) (map (keyed texts) rows)
              ≤ count_if (stands id key) rows_after)
    sync_flags-Single id key = (
      table-single (findings_from texts property_id [] requests) key _ sync_flags-IsTable
          (sync_flags-Settled texts new_id property_id rows requests),
      sync_flags-stands id key,
    )

    pub sync_flags-closed :
        (id : Uuid) (key : Key)
        → is_reported texts property_id requests key ≡ false
        → (count_if (open_at key) rows_after ≡ 0)
          × (count_if (stands id key) (map (keyed texts) rows)
              ≤ count_if (λ row. stands id key row && not (is_open_flag row)) rows_after)
    sync_flags-closed id key h =
        let none_open =
          table-gone (findings_from texts property_id [] requests) key _
            (findings_from-reported texts property_id key [] requests refl h) sync_flags-IsTable
            (sync_flags-Settled texts new_id property_id rows requests) in
        (
          none_open,
          omega (arith, sync_flags-stands id key, stands-closed id key rows_after none_open),
        )
