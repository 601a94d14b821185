-- ===== src/Flags/Findings.antt =====
-- The findings that `sync_flags` of flags/store.py reads from the requests, and what their loop does
-- to the rows of the table.
use house_analysis_ai.Prelude.{
  ◌≤◌, Bool, true, false, ◌&&◌, List, [], ◌∷◌, ◌==◌, string_eq, number_eq, if◌then◌else◌, if_keeps,
  any, All, ◌≡◌, refl, sym, subst, arith, or_both_false, or_first_false, or_second_false,
}
use house_analysis_ai.Contracts.{Uuid}
use house_analysis_ai.Flags.{
  Flag, FlagRequest, Texts, Key, same_key, Finding, set_default, normalized_request, logical_key_of,
  findings_from, is_current, apply_finding, apply_at, apply_all,
}
use house_analysis_ai.Flags.Rows.{
  HasKey, stands, Extends, Extends-stands, Extends-HasKey, IsFor, apply_finding-Extends,
}
use house_analysis_ai.Flags.Tables.{
  same_key-path, same_key_sym, all_rows, has_group, IsTable, total, count_if-append,
}

module _ {D P : Type 0} where
  -- Each finding stands under its type and its logical key.
  abbrev pub AllFor : List (Key × Finding D P) → Type 0
  AllFor findings = All (λ item. IsFor item.0 item.1) findings

  set_default-AllFor :
      (key : Key) (finding : Finding D P) (found : List (Key × Finding D P))
      → IsFor key finding
      → AllFor found
      → AllFor (set_default key finding found)
  unfolding set_default
  set_default-AllFor key finding [] f h = (f, tt)
  set_default-AllFor key finding ((k, other) ∷ rest) f h =
      if_keeps AllFor (same_key k key) _ _ (λ e. h)
        λ e. (h.0, set_default-AllFor key finding rest f h.1)

  set_default-is_current :
      (j key : Key) (finding : Finding D P) (found : List (Key × Finding D P))
      → same_key key j ≡ false
      → is_current found j ≡ false
      → is_current (set_default key finding found) j ≡ false
  unfolding set_default
  set_default-is_current j key finding [] d h = or_both_false (same_key key j) false d refl
  set_default-is_current j key finding ((k, other) ∷ rest) d h =
      if_keeps (λ (x : List (Key × Finding D P)). is_current x j ≡ false) (same_key k key) _ _
        (λ e. h)
        λ e.
          or_both_false (same_key k j) _ (or_first_false (same_key k j) _ h)
            (set_default-is_current j key finding rest d (or_second_false (same_key k j) _ h))

  module _ (texts : Texts P) (property_id : Uuid) where
    -- whether the request is of the property and has the type and the logical key
    abbrev reports : Key → FlagRequest D P → Bool
    reports key request =
        request.property_id == property_id
        && same_key (request.flag_type, logical_key_of texts request) key

    -- whether some request is of the property and has the type and the logical key
    abbrev pub is_reported : List (FlagRequest D P) → Key → Bool
    is_reported requests key = any (reports key) requests

    pub findings_from-AllFor :
        (found : List (Key × Finding D P)) (requests : List (FlagRequest D P))
        → AllFor found
        → AllFor (findings_from texts property_id found requests)
    unfolding findings_from normalized_request
    findings_from-AllFor found [] h = h
    findings_from-AllFor found (request ∷ requests) h =
        let finding = normalized_request texts request in
        findings_from-AllFor
          (if request.property_id == property_id
            then set_default (request.flag_type, finding.1) finding found
            else found)
          requests
          (if_keeps AllFor (request.property_id == property_id) _ _
            (λ e. set_default-AllFor (request.flag_type, finding.1) finding found (refl, refl) h)
            λ e. h)

    pub findings_from-reported :
        (key : Key) (found : List (Key × Finding D P)) (requests : List (FlagRequest D P))
        → is_current found key ≡ false
        → is_reported requests key ≡ false
        → is_current (findings_from texts property_id found requests) key ≡ false
    unfolding findings_from normalized_request
    findings_from-reported key found [] c h = c
    findings_from-reported key found (request ∷ requests) c h =
        let finding = normalized_request texts request in
        findings_from-reported key
          (if request.property_id == property_id
            then set_default (request.flag_type, finding.1) finding found
            else found)
          requests
          (if_keeps (λ (x : List (Key × Finding D P)). is_current x key ≡ false)
            (request.property_id == property_id) _ _
            (λ e.
              set_default-is_current key (request.flag_type, finding.1) finding found
                (second _ _ e (or_first_false (reports key request) _ h)) c)
            λ e. c)
          (or_second_false (reports key request) _ h)
      where
        second : (a b : Bool) → a ≡ true → (a && b) ≡ false → b ≡ false
        second true b e f = f
        second false b e f = cc

  module _ (texts : Texts P) (id : Uuid) (key : Key) (finding : Finding D P) where
    apply_at-has_group :
        (j : Key) (groups : List (Key × List (Flag D P)))
        → same_key key j ≡ false
        → has_group j groups ≡ false
        → has_group j (apply_at texts id key finding groups).0 ≡ false
    unfolding apply_at
    apply_at-has_group j [] d h = or_both_false (same_key key j) false d refl
    apply_at-has_group j ((k, rows) ∷ groups) d h =
        if_keeps (λ (x : List (Key × List (Flag D P)) × List (Flag D P)). has_group j x.0 ≡ false)
          (same_key k key) _ _ (λ e. h)
          λ e.
            or_both_false (same_key k j) _ (or_first_false (same_key k j) _ h)
              (apply_at-has_group j groups d (or_second_false (same_key k j) _ h))

    apply_rows-Extends :
        (k : Key) (rows : List (Flag D P))
        → IsFor key finding
        → same_key k key ≡ true
        → All (HasKey k) rows
        → Extends k rows (apply_finding texts id finding rows).0
    apply_rows-Extends k rows f e h =
        apply_finding-Extends k texts id finding rows
          (subst (λ (x : Key). IsFor x finding) (sym (same_key-path k key e)) f) h

    apply_at-IsTable :
        (groups : List (Key × List (Flag D P)))
        → IsFor key finding
        → IsTable groups
        → IsTable (apply_at texts id key finding groups).0
    unfolding apply_at
    apply_at-IsTable [] f t = (
      refl,
      Extends-HasKey key [] (apply_finding texts id finding []).0
          (apply_finding-Extends key texts id finding [] f tt) tt,
      tt,
    )
    apply_at-IsTable ((k, rows) ∷ groups) f t =
        if_keeps (λ (x : List (Key × List (Flag D P)) × List (Flag D P)). IsTable x.0)
          (same_key k key) _ _
          (λ e. (
            t.0,
            Extends-HasKey k rows (apply_finding texts id finding rows).0
                (apply_rows-Extends k rows f e t.1) t.1,
            t.2,
          ))
          λ e. (
            apply_at-has_group k groups (same_key_sym k key e) t.0,
            t.1,
            apply_at-IsTable groups f t.2,
          )

    apply_at-total :
        (i : Uuid) (j : Key) (groups : List (Key × List (Flag D P)))
        → IsFor key finding
        → IsTable groups
        → total i j groups ≤ total i j (apply_at texts id key finding groups).0
    unfolding apply_at
    apply_at-total i j [] f t = omega arith
    apply_at-total i j ((k, rows) ∷ groups) f t =
        if_keeps
          (λ (x : List (Key × List (Flag D P)) × List (Flag D P)).
            total i j ((k, rows) ∷ groups) ≤ total i j x.0)
          (same_key k key) _ _
          (λ e. omega (
            arith,
            count_if-append (stands i j) rows (all_rows groups),
            count_if-append (stands i j) (apply_finding texts id finding rows).0 (all_rows groups),
            Extends-stands i k j rows (apply_finding texts id finding rows).0
                (apply_rows-Extends k rows f e t.1),
          ))
          λ e. omega (
            arith,
            count_if-append (stands i j) rows (all_rows groups),
            count_if-append (stands i j) rows (all_rows (apply_at texts id key finding groups).0),
            apply_at-total i j groups f t.2,
          )

  module _ (texts : Texts P) (new_id : Key → Uuid) where
    pub apply_all-IsTable :
        (findings : List (Key × Finding D P)) (groups : List (Key × List (Flag D P)))
        → AllFor findings
        → IsTable groups
        → IsTable (apply_all texts new_id findings groups).0
    unfolding apply_all
    apply_all-IsTable [] groups f t = t
    apply_all-IsTable ((key, finding) ∷ findings) groups f t =
        apply_all-IsTable findings (apply_at texts (new_id key) key finding groups).0 f.1
          (apply_at-IsTable texts (new_id key) key finding groups f.0 t)

    pub apply_all-total :
        (i : Uuid) (j : Key) (findings : List (Key × Finding D P))
        (groups : List (Key × List (Flag D P)))
        → AllFor findings
        → IsTable groups
        → total i j groups ≤ total i j (apply_all texts new_id findings groups).0
    unfolding apply_all
    apply_all-total i j [] groups f t = omega arith
    apply_all-total i j ((key, finding) ∷ findings) groups f t =
        let next = (apply_at texts (new_id key) key finding groups).0 in
        omega (
          arith,
          apply_at-total texts (new_id key) key finding i j groups f.0 t,
          apply_all-total i j findings next f.1
              (apply_at-IsTable texts (new_id key) key finding groups f.0 t),
        )
