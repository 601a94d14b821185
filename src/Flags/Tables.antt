-- ===== src/Flags/Tables.antt =====
-- The rows that `sync_flags` of flags/store.py groups by finding, as the rows of one table.
use house_analysis_ai.Prelude.{
  ℕ, ◌+◌, ◌≤◌, Bool, true, false, List, [], ◌∷◌, ◌++◌, map, string_eq, number_eq, if_keeps, any,
  count_if, All, ◌≡◌, refl, sym, subst, ◌∙◌, arith, eq_iff, eq_refl, Bool-cases, inl, inr,
  true_not_false, or_both_false, or_first_false, or_second_false,
}
use house_analysis_ai.Python.{Python}
use house_analysis_ai.Contracts.{Uuid}
use house_analysis_ai.Flags.{
  Flag, Texts, Key, same_key, Finding, row_logical, add_row, group_rows, collapse_all, is_current,
  close_missing,
}
use house_analysis_ai.Flags.Answers.{keyed}
use house_analysis_ai.Flags.Rows.{
  HasKey, stands, Extends, Extends-stands, Extends-HasKey, Extends-refl, close_all-Extends,
  collapse-Extends,
}

pub same_key-path : (a b : Key) → same_key a b ≡ true → a ≡ b
same_key-path (a, c) (b, d) e =
    let first : a ≡ b = (eq_iff a b).0 (ground arith) in
    let second : c ≡ d = (eq_iff c d).0 (ground arith) in cc (first, second)

pub same_key_refl : (a : Key) → same_key a a ≡ true
same_key_refl (a, c) = rw (eq_refl a, eq_refl c) refl

pub same_key_sym : (a b : Key) → same_key a b ≡ false → same_key b a ≡ false
same_key_sym a b h = elim (Bool-cases (same_key b a)) [
  | inl e ↦ absurd (
      true_not_false
        (sym (same_key_refl a) ∙ subst (λ (k : Key). same_key a k ≡ false) (same_key-path b a e) h))
  | inr e ↦ e
]

module _ {D P : Type 0} where
  -- all rows of the groups
  abbrev pub all_rows : List (Key × List (Flag D P)) → List (Flag D P)
  all_rows [] = []
  all_rows ((key, rows) ∷ groups) = rows ++ all_rows groups

  -- whether there is a group of the key
  abbrev pub has_group : Key → List (Key × List (Flag D P)) → Bool
  has_group key groups = any (λ group. same_key group.0 key) groups

  -- No key has two groups, and each row is in the group of its type and logical key.
  abbrev pub IsTable : List (Key × List (Flag D P)) → Type 0
  IsTable [] = Unit
  IsTable ((key, rows) ∷ groups) =
      (has_group key groups ≡ false) × All (HasKey key) rows × IsTable groups

  -- the rows with the id, the type and the logical key
  abbrev pub total : Uuid → Key → List (Key × List (Flag D P)) → ℕ
  total id key groups = count_if (stands id key) (all_rows groups)

  pub count_if-append :
      (p : Flag D P → Bool) (xs ys : List (Flag D P))
      → count_if p (xs ++ ys) ≡ count_if p xs + count_if p ys
  count_if-append p [] ys = omega arith
  count_if-append p (x ∷ xs) ys = omega (arith, count_if-append p xs ys)

  All-append :
      (k : Key) (xs ys : List (Flag D P))
      → All (HasKey k) xs
      → All (HasKey k) ys
      → All (HasKey k) (xs ++ ys)
  All-append k [] ys h g = g
  All-append k (x ∷ xs) ys h g = (h.0, All-append k xs ys h.1 g)

  -- The loop that groups the rows.
  add_row-has_group :
      (j key : Key) (row : Flag D P) (groups : List (Key × List (Flag D P)))
      → same_key key j ≡ false
      → has_group j groups ≡ false
      → has_group j (add_row key row groups) ≡ false
  unfolding add_row
  add_row-has_group j key row [] d h = or_both_false (same_key key j) false d refl
  add_row-has_group j key row ((k, rows) ∷ groups) d h =
      if_keeps (λ (x : List (Key × List (Flag D P))). has_group j x ≡ false) (same_key k key) _ _
        (λ e. h)
        λ e.
          or_both_false (same_key k j) _ (or_first_false (same_key k j) _ h)
            (add_row-has_group j key row groups d (or_second_false (same_key k j) _ h))

  add_row-IsTable :
      (key : Key) (row : Flag D P) (groups : List (Key × List (Flag D P)))
      → HasKey key row
      → IsTable groups
      → IsTable (add_row key row groups)
  unfolding add_row
  add_row-IsTable key row [] r t = (refl, (r, tt), tt)
  add_row-IsTable key row ((k, rows) ∷ groups) r t =
      if_keeps IsTable (same_key k key) _ _
        (λ e. (
          t.0,
          All-append k rows (row ∷ []) t.1
              (subst (λ (x : Key). HasKey x row) (sym (same_key-path k key e)) r, tt),
          t.2,
        ))
        λ e. (
          add_row-has_group k key row groups (same_key_sym k key e) t.0,
          t.1,
          add_row-IsTable key row groups r t.2,
        )

  add_row-total :
      (id : Uuid) (j key : Key) (row : Flag D P) (groups : List (Key × List (Flag D P)))
      → total id j (add_row key row groups) ≡ count_if (stands id j) (row ∷ []) + total id j groups
  unfolding add_row
  add_row-total id j key row [] = omega arith
  add_row-total id j key row ((k, rows) ∷ groups) =
      if_keeps
        (λ (x : List (Key × List (Flag D P))).
          total id j x ≡ count_if (stands id j) (row ∷ []) + total id j ((k, rows) ∷ groups))
        (same_key k key) _ _
        (λ e. omega (
          arith,
          count_if-append (stands id j) (rows ++ (row ∷ [])) (all_rows groups),
          count_if-append (stands id j) rows (row ∷ []),
          count_if-append (stands id j) rows (all_rows groups),
        ))
        λ e. omega (
          arith,
          count_if-append (stands id j) rows (all_rows (add_row key row groups)),
          count_if-append (stands id j) rows (all_rows groups),
          add_row-total id j key row groups,
        )

  module _ (texts : Texts P) where
    pub group_rows-IsTable :
        (groups : List (Key × List (Flag D P))) (rows : List (Flag D P))
        → IsTable groups
        → IsTable (group_rows texts groups rows)
    unfolding group_rows
    group_rows-IsTable groups [] t = t
    group_rows-IsTable groups (row ∷ rows) t =
        group_rows-IsTable (add_row (row.flag_type, row_logical texts row) (keyed texts row) groups)
          rows
          (add_row-IsTable (row.flag_type, row_logical texts row) (keyed texts row) groups
            (refl, refl) t)

    pub group_rows-total :
        (id : Uuid) (key : Key) (groups : List (Key × List (Flag D P))) (rows : List (Flag D P))
        → total id key (group_rows texts groups rows)
          ≡ total id key groups + count_if (stands id key) (map (keyed texts) rows)
    unfolding group_rows
    group_rows-total id key groups [] = omega arith
    group_rows-total id key groups (row ∷ rows) = omega (
      arith,
      group_rows-total id key
          (add_row (row.flag_type, row_logical texts row) (keyed texts row) groups) rows,
      add_row-total id key (row.flag_type, row_logical texts row) (keyed texts row) groups,
    )

  -- The second groups are the first ones, each with its rows and maybe further ones.
  abbrev pub Follows : List (Key × List (Flag D P)) → List (Key × List (Flag D P)) → Type 0
  Follows [] [] = Unit
  Follows [] (g ∷ gs) = ⊥
  Follows (g ∷ gs) [] = ⊥
  Follows ((k, rows) ∷ gs) ((k', rows') ∷ gs') = (k' ≡ k) × Extends k rows rows' × Follows gs gs'

  Follows-has_group :
      (j : Key) (gs gs' : List (Key × List (Flag D P)))
      → Follows gs gs'
      → has_group j gs ≡ false
      → has_group j gs' ≡ false
  Follows-has_group j [] [] f h = h
  Follows-has_group j [] (g ∷ gs) f h = absurd f
  Follows-has_group j (g ∷ gs) [] f h = absurd f
  Follows-has_group j ((k, rows) ∷ gs) ((k', rows') ∷ gs') f h =
      or_both_false (same_key k' j) _
        (subst (λ (x : Key). same_key x j ≡ false) (sym f.0) (or_first_false (same_key k j) _ h))
        (Follows-has_group j gs gs' f.2 (or_second_false (same_key k j) _ h))

  pub Follows-IsTable :
      (gs gs' : List (Key × List (Flag D P))) → Follows gs gs' → IsTable gs → IsTable gs'
  Follows-IsTable [] [] f t = t
  Follows-IsTable [] (g ∷ gs) f t = absurd f
  Follows-IsTable (g ∷ gs) [] f t = absurd f
  Follows-IsTable ((k, rows) ∷ gs) ((k', rows') ∷ gs') f t = (
    subst (λ (x : Key). has_group x gs' ≡ false) (sym f.0) (Follows-has_group k gs gs' f.2 t.0),
    subst (λ (x : Key). All (HasKey x) rows') (sym f.0) (Extends-HasKey k rows rows' f.1 t.1),
    Follows-IsTable gs gs' f.2 t.2,
  )

  pub Follows-total :
      (id : Uuid) (key : Key) (gs gs' : List (Key × List (Flag D P)))
      → Follows gs gs'
      → total id key gs ≤ total id key gs'
  Follows-total id key [] [] f = omega arith
  Follows-total id key [] (g ∷ gs) f = absurd f
  Follows-total id key (g ∷ gs) [] f = absurd f
  Follows-total id key ((k, rows) ∷ gs) ((k', rows') ∷ gs') f = omega (
    arith,
    count_if-append (stands id key) rows (all_rows gs),
    count_if-append (stands id key) rows' (all_rows gs'),
    Extends-stands id k key rows rows' f.1,
    Follows-total id key gs gs' f.2,
  )

  pub close_missing-Follows :
      (findings : List (Key × Finding D P)) (gs : List (Key × List (Flag D P)))
      → Follows gs (close_missing findings gs)
  unfolding close_missing
  close_missing-Follows findings [] = tt
  close_missing-Follows findings ((key, rows) ∷ gs) = (
    refl,
    if_keeps (Extends key rows) (is_current findings key) _ _ (λ e. Extends-refl key rows)
        λ e. close_all-Extends key rows,
    close_missing-Follows findings gs,
  )

  pub Follows-refl : (gs : List (Key × List (Flag D P))) → Follows gs gs
  Follows-refl [] = tt
  Follows-refl ((k, rows) ∷ gs) = (refl, Extends-refl k rows, Follows-refl gs)

module _ {D P : Type 0} ⦃py : Python D⦄ where
  pub collapse_all-Follows : (gs : List (Key × List (Flag D P))) → Follows gs (collapse_all gs)
  collapse_all-Follows [] = tt
  collapse_all-Follows ((k, rows) ∷ gs) = (refl, collapse-Extends k rows, collapse_all-Follows gs)
