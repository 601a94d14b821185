-- ===== src/Flags/Sync.antt =====
-- `sync_flags` of flags/store.py: the rows of a property against its current findings.
use Prim.Native.String.{◌++◌ as text_join}
use house_analysis_ai.Prelude.{
  Bool, ◌&&◌, Option, none, some, List, [], ◌∷◌, ◌++◌, map, String, ◌==◌, string_eq, if◌then◌else◌,
  any, same_option,
}
use house_analysis_ai.Python.{Python}
use house_analysis_ai.Contracts.{Uuid}
use house_analysis_ai.Flags.Store.{
  Flag, FlagRequest, Texts, Key, same_key, Finding, is_open_flag, supersede, findings_from,
  group_rows, collapse,
}

-- The rows of a finding after a recomputation, and those that it changed or created.
abbrev pub Applied : Type 0 → Type 0 → Type 0
Applied D P = List (Flag D P) × List (Flag D P)

module _ {D P : Type 0} where
  -- the open row of a current finding; its dedupe key stays where another row has the new one
  abbrev pub refreshed : Finding D P → List (Flag D P) → Flag D P → Flag D P
  refreshed (request, logical, dedupe, fingerprint) others winner = record winner {
    payload = request.payload;
    financial_impact_usd = request.financial_impact_usd;
    logical_key = some logical;
    fingerprint = some fingerprint;
    dedupe_key = if any (λ row. row.dedupe_key == dedupe) others then winner.dedupe_key else dedupe;
  }

  -- the row before those that were applied
  abbrev pub put_before : Flag D P → Option (Applied D P) → Option (Applied D P)
  put_before row none = none
  put_before row (some (rest, changed)) = some (row ∷ rest, changed)

  -- the first open row, refreshed; none where no row is open
  unfoldable pub refresh_open :
      Finding D P → List (Flag D P) → List (Flag D P) → Option (Applied D P)
  refresh_open finding before [] = none
  refresh_open finding before (row ∷ rows) =
      let later = refresh_open finding (before ++ (row ∷ [])) rows in
      let winner = refreshed finding (before ++ rows) row in
      if is_open_flag row then some (winner ∷ rows, winner ∷ []) else put_before row later

  abbrev pub has_fingerprint : String → Flag D P → Bool
  has_fingerprint fingerprint row = same_option (λ a b. a == b) row.fingerprint (some fingerprint)

  -- closed by a recomputation that did not find the finding any more
  abbrev pub is_superseded : Flag D P → Bool
  is_superseded row =
      row.status == "resolved"
      && same_option (λ a b. a == b) row.resolution (some "superseded_recompute")

  abbrev pub reopened : Finding D P → Flag D P → Flag D P
  reopened (request, logical, dedupe, fingerprint) row = record row {
    status = "open";
    resolution = none;
    note = none;
    payload = request.payload;
    financial_impact_usd = request.financial_impact_usd;
    dedupe_key = dedupe;
    logical_key = some logical;
    fingerprint = some fingerprint;
  }

  -- the first row with the fingerprint that a recomputation closed, reopened
  unfoldable pub reopen_first : Finding D P → List (Flag D P) → Option (Applied D P)
  reopen_first finding [] = none
  reopen_first finding (row ∷ rows) =
      let later = reopen_first finding rows in
      if has_fingerprint finding.3 row && is_superseded row
      then some (reopened finding row ∷ rows, reopened finding row ∷ [])
      else put_before row later

  -- `_new_flag`, under a dedupe key that no row of the group has yet
  abbrev pub new_flag : Texts P → Uuid → Finding D P → List (Flag D P) → Flag D P
  new_flag texts id (request, logical, dedupe, fingerprint) rows = record {
    id = id;
    property_id = request.property_id;
    flag_type = request.flag_type;
    payload = request.payload;
    financial_impact_usd = request.financial_impact_usd;
    status = "open";
    resolution = none;
    note = none;
    dedupe_key =
        if any (λ row. row.dedupe_key == dedupe) rows
        then text_join dedupe (text_join ":v" (texts.first_16 fingerprint))
        else dedupe;
    logical_key = some logical;
    fingerprint = some fingerprint;
    superseded_by = none;
  }

  -- a finding that no open row and no row closed by a recomputation stands for: a row that a person
  -- resolved answers it if the fingerprint is the same, and else it is new
  unfoldable pub add_new : Texts P → Uuid → Finding D P → List (Flag D P) → Applied D P
  add_new texts id finding rows =
      let flag = new_flag texts id finding rows in
      if any (has_fingerprint finding.3) rows then (rows, []) else (rows ++ (flag ∷ []), flag ∷ [])

  abbrev pub applied_or : Option (Applied D P) → Applied D P → Applied D P
  applied_or none other = other
  applied_or (some applied) other = applied

  -- a round of the loop over the findings, on the rows of its group
  unfoldable pub apply_finding : Texts P → Uuid → Finding D P → List (Flag D P) → Applied D P
  apply_finding texts id finding rows =
      applied_or (refresh_open finding [] rows)
        (applied_or (reopen_first finding rows) (add_new texts id finding rows))

  -- whether a finding has the key
  abbrev pub is_current : List (Key × Finding D P) → Key → Bool
  is_current findings key = any (λ item. same_key item.0 key) findings

  abbrev pub close_all : List (Flag D P) → List (Flag D P)
  close_all rows = map (supersede none "superseded_recompute") rows

  -- the loop that closes the rows of the findings that disappeared
  unfoldable pub close_missing :
      List (Key × Finding D P) → List (Key × List (Flag D P)) → List (Key × List (Flag D P))
  close_missing findings [] = []
  close_missing findings ((key, rows) ∷ groups) =
      (key, if is_current findings key then rows else close_all rows)
      ∷ close_missing findings groups

  -- the group of a key with a finding applied; a key without a group starts with no rows
  unfoldable pub apply_at :
      Texts P
      → Uuid
      → Key
      → Finding D P
      → List (Key × List (Flag D P))
      → List (Key × List (Flag D P)) × List (Flag D P)
  apply_at texts id key finding [] =
      let applied = apply_finding texts id finding [] in ((key, applied.0) ∷ [], applied.1)
  apply_at texts id key finding ((k, rows) ∷ groups) =
      let applied = apply_finding texts id finding rows in
      let later = apply_at texts id key finding groups in
      if same_key k key
      then ((k, applied.0) ∷ groups, applied.1)
      else ((k, rows) ∷ later.0, later.1)

  -- the loop over the findings; `new_id` gives the ids of new rows
  unfoldable pub apply_all :
      Texts P
      → (Key → Uuid)
      → List (Key × Finding D P)
      → List (Key × List (Flag D P))
      → List (Key × List (Flag D P)) × List (Flag D P)
  apply_all texts new_id [] groups = (groups, [])
  apply_all texts new_id ((key, finding) ∷ findings) groups =
      let applied = apply_at texts (new_id key) key finding groups in
      let rest = apply_all texts new_id findings applied.0 in (rest.0, applied.1 ++ rest.1)

module _ {D P : Type 0} ⦃py : Python D⦄ where
  -- the loop over the groups that closes duplicates
  abbrev pub collapse_all : List (Key × List (Flag D P)) → List (Key × List (Flag D P))
  collapse_all groups = map (λ group. (group.0, collapse group.1)) groups

  -- `sync_flags`: the rows of the property by finding, and those changed or created
  unfoldable pub sync_flags :
      Texts P
      → (Key → Uuid)
      → Uuid
      → List (Flag D P)
      → List (FlagRequest D P)
      → List (Key × List (Flag D P)) × List (Flag D P)
  sync_flags texts new_id property_id rows requests =
      let findings = findings_from texts property_id [] requests in
      let groups = collapse_all (group_rows texts [] rows) in
      apply_all texts new_id findings (close_missing findings groups)
