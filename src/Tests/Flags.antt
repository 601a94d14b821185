-- ===== src/Tests/Flags.antt =====
-- The theorems on flags/store.py and `resolve_flag` at concrete rows.
use house_analysis_ai.Prelude.{
  ℕ, Bool, true, false, Option, none, some, List, [], ◌∷◌, ◌++◌, map, Dict, string_eq, ◌&&◌, not,
  keep, count_if, number_eq, In, inl, inr, ◌≡◌, refl, ◌≤◌, String,
}
use house_analysis_ai.Python.Fixed.{Fixed, fixed_python}
use house_analysis_ai.Samples.{amount}
use house_analysis_ai.Flags.{
  Flag, FlagRequest, Texts, Key, findings_from, sync_flags, set_default, normalized_request,
  logical_key_of, row_logical, group_rows, add_row, collapse, best_open, close_others,
  close_missing, supersede, apply_all, apply_at, apply_finding, refresh_open, reopen_first, add_new,
  persist_flags, create_all, deduped_from, put_first, resolve_flag, find_flag, answer_at,
  answer_row, Resolution, Effect, Refusal, is_open_flag,
}
use house_analysis_ai.Flags.Rows
use house_analysis_ai.Flags.Findings
use house_analysis_ai.Flags.Single
use house_analysis_ai.Flags.Answers
use house_analysis_ai.Flags.Resolved
use house_analysis_ai.Flags.Added

abbrev texts : Texts String
texts = record {
  text_of = λ id. "1";
  remove_prefix = λ prefix text. text;
  payload_key = λ payload. none;
  digest = λ payload. payload;
  first_16 = λ text. text;
}

-- A row of the type, with the status, the resolution and the impact.
abbrev row : ℕ → String → String → Option String → ℕ → Flag Fixed String
row id flag_type status resolution impact = record {
  id = id;
  property_id = 1;
  flag_type = flag_type;
  payload = "old";
  financial_impact_usd = some (amount impact 0);
  status = status;
  resolution = resolution;
  note = none;
  dedupe_key = "1:a";
  logical_key = some "a";
  fingerprint = some "old";
  superseded_by = none;
}

abbrev request : FlagRequest Fixed String
request = record {
  property_id = 1;
  flag_type = "lien";
  payload = "new";
  financial_impact_usd = some (amount 700 0);
  dedupe_key = "1:a";
  logical_key = some "a";
  fingerprint = none;
}

-- Two open rows of a lien, and a row of an insurance and one of a lien that a person resolved.
abbrev answered : Flag Fixed String
answered = row 4 "lien" "resolved" (some "reject") 10

abbrev rows : List (Flag Fixed String)
rows =
    answered
    ∷ row 2 "lien" "open" none 100
    ∷ row 3 "lien" "open" none 500
    ∷ row 5 "insurance" "open" none 20
    ∷ []

abbrev groups : List (Key × List (Flag Fixed String))
groups = (sync_flags texts (λ key. 9) 1 rows (request ∷ [])).0

abbrev after : List (Flag Fixed String)
after = Single.rows_after texts (λ key. 9) 1 rows (request ∷ [])

-- The lien with the larger impact stays open, and no insurance does.
after-open : map (λ (r : Flag Fixed String). r.id) (keep is_open_flag after) ≡ 3 ∷ []
unfolding sync_flags findings_from set_default normalized_request logical_key_of row_logical
    group_rows add_row collapse best_open close_others close_missing supersede apply_all apply_at
    apply_finding refresh_open reopen_first add_new
after-open = refl

sync_flags-Single_example :
    (count_if (Single.open_at ("lien", "a")) after ≤ 1)
    × (count_if (Rows.stands 2 ("lien", "a")) (map (Answers.keyed texts) rows)
        ≤ count_if (Rows.stands 2 ("lien", "a")) after)
sync_flags-Single_example =
    Single.sync_flags-Single texts (λ key. 9) 1 rows (request ∷ []) 2 ("lien", "a")

insurance-unreported : Findings.is_reported texts 1 (request ∷ []) ("insurance", "a") ≡ false
unfolding logical_key_of
insurance-unreported = refl

sync_flags-closed_example :
    (count_if (Single.open_at ("insurance", "a")) after ≡ 0)
    × (count_if (Rows.stands 5 ("insurance", "a")) (map (Answers.keyed texts) rows)
        ≤ count_if (λ r. Rows.stands 5 ("insurance", "a") r && not (is_open_flag r)) after)
sync_flags-closed_example =
    Single.sync_flags-closed texts (λ key. 9) 1 rows (request ∷ []) 5 ("insurance", "a")
      insurance-unreported

answered-IsAnswered : Answers.IsAnswered answered
answered-IsAnswered = (refl, refl)

sync_flags-keeps_example : Answers.InGroups (Answers.keyed texts answered) groups
sync_flags-keeps_example =
    Answers.sync_flags-keeps texts (λ key. 9) 1 rows (request ∷ []) answered (inl refl)
      answered-IsAnswered

-- A finding that was added after an answer, went and came back.
abbrev synchronised :
    List (FlagRequest Fixed String) → List (Flag Fixed String) → List (Flag Fixed String)
synchronised requests rows = Single.rows_after texts (λ key. 9) 1 rows requests

-- The row that comes back takes the dedupe key of the answered one.
reopened-twice :
    map
      (λ (r : Flag Fixed String). r.dedupe_key)
      (synchronised (request ∷ []) (synchronised [] (synchronised (request ∷ []) (answered ∷ []))))
    ≡ "1:a" ∷ "1:a" ∷ []
unfolding sync_flags findings_from set_default normalized_request logical_key_of row_logical
    group_rows add_row collapse best_open close_others close_missing supersede apply_all apply_at
    apply_finding refresh_open reopen_first add_new
reopened-twice = refl

abbrev other_request : FlagRequest Fixed String
other_request = record request { logical_key = some "b" }

abbrev added : List (Flag Fixed String)
added =
    persist_flags texts (λ dedupe. 9) (answered ∷ []) (request ∷ other_request ∷ other_request ∷ [])

added-once : map (λ (r : Flag Fixed String). r.dedupe_key) added ≡ "1:b" ∷ []
unfolding persist_flags create_all deduped_from put_first normalized_request logical_key_of
added-once = refl

persist_flags-IsUnique_example : Added.IsUnique (added ++ (answered ∷ []))
persist_flags-IsUnique_example =
    Added.persist_flags-IsUnique texts (λ dedupe. 9) (answered ∷ [])
      (request ∷ other_request ∷ other_request ∷ []) (refl, tt)

persist_flags_again_example :
    persist_flags texts
      (λ dedupe. 10)
      (added ++ (answered ∷ []))
      (request ∷ other_request ∷ other_request ∷ [])
    ≡ []
persist_flags_again_example =
    Added.persist_flags_again texts (λ dedupe. 9) (λ dedupe. 10) (answered ∷ [])
      (request ∷ other_request ∷ other_request ∷ [])

-- The open lien of the rows above, answered by a replacement.
abbrev value : Option (Dict String)
value = some (("field_path", "liens.amount") ∷ ("value", "80000") ∷ [])

abbrev replace : String
replace = "replace"

abbrev is_text : String → Bool
is_text json = true

abbrev resolution : Resolution Fixed String String
resolution = resolve_flag is_text (λ payload. []) "f" 2 replace value none rows

abbrev rows_of : Resolution Fixed String String → List (Flag Fixed String)
rows_of (Resolution.refused why) = []
rows_of (Resolution.resolved left kept effects) = left

abbrev kept_of : Resolution Fixed String String → Option (Dict String)
kept_of (Resolution.refused why) = none
kept_of (Resolution.resolved left kept effects) = kept

abbrev effects_of : Resolution Fixed String String → List (Effect String)
effects_of (Resolution.refused why) = []
effects_of (Resolution.resolved left kept effects) = effects

resolution-resolves :
    resolution
    ≡ Resolution.resolved (rows_of resolution) (kept_of resolution) (effects_of resolution)
unfolding resolve_flag find_flag answer_at
resolution-resolves = refl

abbrev replaced : Flag Fixed String
replaced = answer_row replace none (row 2 "lien" "open" none 100)

In-replaced : In replaced (rows_of resolution)
unfolding resolve_flag find_flag answer_at
In-replaced = inr (inl refl)

resolve_flag_again_example :
    resolve_flag is_text (λ payload. []) "g" 2 "dismiss" none none (rows_of resolution)
    ≡ Resolution.refused Refusal.conflict
resolve_flag_again_example =
    Resolved.resolve_flag_again is_text (λ payload. []) "f" "g" 2 replace "dismiss" value none none
      none rows (rows_of resolution) (kept_of resolution) (effects_of resolution)
      resolution-resolves refl

resolve_flag_stays_example :
    Answers.InGroups
      (Answers.keyed texts replaced)
      (sync_flags texts (λ key. 9) 1 (rows_of resolution) (request ∷ [])).0
resolve_flag_stays_example =
    Resolved.resolve_flag_stays is_text (λ payload. []) "f" 2 replace value none rows
      (rows_of resolution) (kept_of resolution) (effects_of resolution) replaced texts (λ key. 9) 1
      (request ∷ []) resolution-resolves In-replaced refl
