-- ===== src/Flags/Store.antt =====
-- The reading of requests and rows in flags/store.py. A row of `flags` is without the times and the
-- value of its resolution, a request without its producer; the session and the history rows are left
-- out, and the ids that the database gives to new rows are an argument.
use Prim.Native.String.{◌++◌ as text_join}
use text.Mathlib.Text.{starts_with}
use house_analysis_ai.Prelude.{
  ℕ, suc, Bool, ◌&&◌, Option, none, some, List, [], ◌∷◌, ◌++◌, String, ◌==◌, number_eq, string_eq,
  if◌then◌else◌, keep, length, is_some, leb,
}
use house_analysis_ai.Python.{Python, ◌⊖◌, zero_decimal, one_decimal, lt, nonzero}
use house_analysis_ai.Contracts.{Uuid}

-- a row of the table `flags`, with a payload of type P
pub record Flag (D P : Type 0) : Type 0 where
  pub id : Uuid
  pub property_id : Uuid
  pub flag_type : String
  pub payload : P
  pub financial_impact_usd : Option D
  pub status : String
  pub resolution : Option String
  pub note : Option String
  pub dedupe_key : String
  pub logical_key : Option String
  pub fingerprint : Option String
  pub superseded_by : Option Uuid

-- a `FlagRequest`, with the text of its type
pub record FlagRequest (D P : Type 0) : Type 0 where
  pub property_id : Uuid
  pub flag_type : String
  pub payload : P
  pub financial_impact_usd : Option D
  pub dedupe_key : String
  pub logical_key : Option String
  pub fingerprint : Option String

-- What is not in the repository: `str` of a UUID, `str.removeprefix`, the entry "logical_key" of a
-- payload, and SHA-256 of its JSON with the text's first 16 characters.
pub record Texts (P : Type 0) : Type 0 where
  pub text_of : Uuid → String
  pub remove_prefix : String → String → String
  pub payload_key : P → Option String
  pub digest : P → String
  pub first_16 : String → String

-- the type and the logical key of a finding
abbrev pub Key : Type 0
Key = String × String

abbrev pub same_key : Key → Key → Bool
same_key a b = a.0 == b.0 && a.1 == b.1

-- a current finding: its request, its logical key, its dedupe key and its fingerprint
abbrev pub Finding : Type 0 → Type 0 → Type 0
Finding D P = FlagRequest D P × String × String × String

-- `a or b` of an optional text, which is also b where the text is empty
abbrev text_or : Option String → String → String
text_or none b = b
text_or (some a) b = if a == "" then b else a

-- `d.setdefault(key, value)`
unfoldable pub set_default {ℓ} : {V : Type ℓ} → Key → V → List (Key × V) → List (Key × V)
set_default key value [] = (key, value) ∷ []
set_default key value ((k, v) ∷ rest) =
    if same_key k key then (k, v) ∷ rest else (k, v) ∷ set_default key value rest

module _ {D P : Type 0} where
  -- whether a row is open
  abbrev pub is_open_flag : Flag D P → Bool
  is_open_flag flag = flag.status == "open"

  -- `_supersede`
  unfoldable pub supersede : Option Uuid → String → Flag D P → Flag D P
  supersede winner reason flag =
      if is_open_flag flag
      then record flag {
        status = "resolved";
        resolution = some reason;
        note = some "Automatically closed because the recomputed finding is no longer current.";
        superseded_by = if is_some winner then winner else flag.superseded_by;
      }
      else flag

  -- `groups.setdefault(key, []).append(row)`
  unfoldable pub add_row :
      Key → Flag D P → List (Key × List (Flag D P)) → List (Key × List (Flag D P))
  add_row key row [] = (key, row ∷ []) ∷ []
  add_row key row ((k, rows) ∷ groups) =
      if same_key k key
      then (k, rows ++ (row ∷ [])) ∷ groups
      else (k, rows) ∷ add_row key row groups

  module _ (texts : Texts P) where
    -- `_logical_key`
    unfoldable pub logical_key_of : FlagRequest D P → String
    logical_key_of request =
        let logical =
          text_or request.logical_key
            (text_or (texts.payload_key request.payload) request.dedupe_key) in
        let prefix = text_join (texts.text_of request.property_id) ":" in
        if starts_with logical prefix then texts.remove_prefix prefix logical else logical

    -- `_normalized`
    unfoldable pub normalized_request : FlagRequest D P → Finding D P
    normalized_request request =
        let logical = logical_key_of request in
        let dedupe = text_join (texts.text_of request.property_id) (text_join ":" logical) in
        (request, logical, dedupe, text_or request.fingerprint (texts.digest request.payload))

    -- `_row_logical`
    unfoldable pub row_logical : Flag D P → String
    row_logical flag = text_or flag.logical_key (
        if flag.flag_type == "short_sale_candidate"
        then "short_sale_candidate"
        else texts.remove_prefix (text_join (texts.text_of flag.property_id) ":") flag.dedupe_key)

    -- the findings of the property, the first of each type and logical key
    unfoldable pub findings_from :
        Uuid → List (Key × Finding D P) → List (FlagRequest D P) → List (Key × Finding D P)
    findings_from property_id found [] = found
    findings_from property_id found (request ∷ requests) =
        let finding = normalized_request request in
        findings_from property_id
          (if request.property_id == property_id
            then set_default (request.flag_type, finding.1) finding found
            else found)
          requests

    -- the rows by type and logical key, each with its logical key written
    unfoldable pub group_rows :
        List (Key × List (Flag D P)) → List (Flag D P) → List (Key × List (Flag D P))
    group_rows groups [] = groups
    group_rows groups (row ∷ rows) =
        let logical = row_logical row in
        group_rows
          (add_row (row.flag_type, logical) (record row { logical_key = some logical }) groups) rows

  -- close the open rows but the one at the place `winner`
  unfoldable pub close_others : ℕ → Uuid → ℕ → List (Flag D P) → List (Flag D P)
  close_others winner id place [] = []
  close_others winner id place (row ∷ rows) =
      (if place == winner then row else supersede (some id) "superseded_duplicate" row)
      ∷ close_others winner id (suc place) rows

module _ {D P : Type 0} ⦃py : Python D⦄ where
  open py use {dec}

  -- `row.financial_impact_usd or Decimal(-1)`
  abbrev pub impact_of : Flag D P → D
  impact_of flag = elim flag.financial_impact_usd [
    | none ↦ zero_decimal ⊖ one_decimal
    | some impact ↦ (if nonzero impact then impact else zero_decimal ⊖ one_decimal)
  ]

  -- the better of two open rows, by impact
  abbrev pub better : Option (ℕ × Flag D P) → ℕ → Flag D P → Option (ℕ × Flag D P)
  better none place row = some (place, row)
  better (some kept) place row =
      if lt (impact_of kept.1) (impact_of row) then some (place, row) else some kept

  -- the open row of the largest impact, the first of equal ones, with its place
  unfoldable pub best_open : Option (ℕ × Flag D P) → ℕ → List (Flag D P) → Option (ℕ × Flag D P)
  best_open best place [] = best
  best_open best place (row ∷ rows) =
      best_open (if is_open_flag row then better best place row else best) (suc place) rows

  abbrev pub close_all_but : Option (ℕ × Flag D P) → List (Flag D P) → List (Flag D P)
  close_all_but none rows = rows
  close_all_but (some (winner, flag)) rows = close_others winner flag.id 0 rows

  -- the duplicates of a group: all open rows but the one of the largest impact are closed
  unfoldable pub collapse : List (Flag D P) → List (Flag D P)
  collapse rows =
      if leb (length (keep is_open_flag rows)) 1
      then rows
      else close_all_but (best_open none 0 rows) rows
