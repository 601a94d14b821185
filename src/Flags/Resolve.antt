-- ===== src/Flags/Resolve.antt =====
-- `resolve_flag` of flags/workflow.py on the rows of the table. What it writes elsewhere, by SQL, by
-- `apply_override` and by the job that it asks for, is a list of effects, in order; the id of the
-- fact that an override writes, as JSON, is an argument, V is the type of JSON values, and `is_text`
-- tells which of them are texts. The user's id, which only the history keeps, is left out.
use Prim.Native.String.{◌++◌ as text_join}
use house_analysis_ai.Prelude.{
  Bool, Option, none, some, List, [], ◌∷◌, ◌++◌, String, Dict, insert, lookup, ◌==◌, string_eq,
  number_eq, if◌then◌else◌, any,
}
use house_analysis_ai.Contracts.{Uuid}
use house_analysis_ai.Flags.Store.{Flag, is_open_flag}

-- why a resolution is refused: the codes of `AcqError` that it raises, and Python's exception
pub data Refusal : Type 0 where
  invalid_input : Refusal
  not_found : Refusal
  conflict : Refusal
  attribute_error : Refusal

pub data Effect (V : Type 0) : Type 0 where
  -- the facts that won are verified by a human
  verify_facts : List String → Effect V
  -- the facts are not active any more
  deactivate_facts : List String → Effect V
  -- `apply_override` at a field path, with a value and the note
  override_field : Uuid → V → V → Option String → Effect V
  -- a history row of the flag
  write_history : Uuid → String → Effect V
  -- the hook that recomputes the property, with its reason
  recompute : Uuid → String → Effect V

pub data Resolution (D P V : Type 0) : Type 0 where
  refused : Refusal → Resolution D P V
  -- the rows after it, the value that is kept with the flag, and the effects
  resolved : List (Flag D P) → Option (Dict V) → List (Effect V) → Resolution D P V

-- `RESOLUTIONS`
abbrev pub resolutions : List String
resolutions = "approve" ∷ "reject" ∷ "replace" ∷ "dismiss" ∷ []

abbrev pub is_resolution : String → Bool
is_resolution action = any (λ name. name == action) resolutions

abbrev pub fact_effects : {V : Type 0} → String → List String → List (Effect V)
fact_effects action [] = []
fact_effects action (id ∷ ids) =
    if action == "approve"
    then Effect.verify_facts (id ∷ ids) ∷ []
    else if action == "reject"
    then Effect.deactivate_facts (id ∷ ids) ∷ []
    else []

module _ {V : Type 0} where
  abbrev pair_of : Option V → Option V → Option (V × V)
  pair_of none value = none
  pair_of (some path) none = none
  pair_of (some path) (some value) = some (path, value)

  -- the field path and the value of a replacement, where it has both
  abbrev pub replacement_of : Option (Dict V) → Option (V × V)
  replacement_of none = none
  replacement_of (some value) = pair_of (lookup "field_path" value) (lookup "value" value)

  abbrev pub with_fact : V → Option (Dict V) → Option (Dict V)
  with_fact fact none = none
  with_fact fact (some value) = some (insert "fact_id" fact value)

module _ {D P : Type 0} where
  -- `session.get(Flag, flag_id)`
  unfoldable pub find_flag : Uuid → List (Flag D P) → Option (Flag D P)
  find_flag id [] = none
  find_flag id (row ∷ rows) = if row.id == id then some row else find_flag id rows

  abbrev pub answer_row : String → Option String → Flag D P → Flag D P
  answer_row action remark flag = record flag {
    status = "resolved";
    resolution = some action;
    note = remark;
  }

  -- the rows with the answer written to the flag
  unfoldable pub answer_at : Uuid → String → Option String → List (Flag D P) → List (Flag D P)
  answer_at id action remark [] = []
  answer_at id action remark (row ∷ rows) =
      (if row.id == id then answer_row action remark row else row) ∷ answer_at id action remark rows

module _ {D P V : Type 0} where
  -- the last part, which all resolutions share
  abbrev pub finish :
      Uuid
      → String
      → Option String
      → List (Flag D P)
      → Flag D P
      → Option (Dict V)
      → List (Effect V)
      → Resolution D P V
  finish id action remark rows flag value effects =
      Resolution.resolved (answer_at id action remark rows) value (
        effects
        ++ (Effect.write_history id (text_join "flag_" action)
            ∷ Effect.recompute flag.property_id (text_join "flag_resolved:" flag.flag_type)
            ∷ []))

  module _ (is_text : V → Bool) (fact_ids : P → List String) (fact : V) (id : Uuid)
      (action : String) (value : Option (Dict V)) (remark : Option String)
      (rows : List (Flag D P)) where
    -- a replacement overrides the field; it is refused without a path or a value, and a path that is
    -- not a text has no `split`
    abbrev pub replace_field : Flag D P → Option (V × V) → Resolution D P V
    replace_field flag none = Resolution.refused Refusal.invalid_input
    replace_field flag (some (path, new)) =
        if is_text path
        then finish id action remark rows flag (with_fact fact value)
            (Effect.override_field flag.property_id path new remark ∷ [])
        else Resolution.refused Refusal.attribute_error

    abbrev pub resolve_found : Option (Flag D P) → Resolution D P V
    resolve_found none = Resolution.refused Refusal.not_found
    resolve_found (some flag) =
        if is_open_flag flag
        then (if action == "replace"
            then replace_field flag (replacement_of value)
            else finish id action remark rows flag value
                (fact_effects action (fact_ids flag.payload)))
        else Resolution.refused Refusal.conflict

    -- `resolve_flag`
    unfoldable pub resolve_flag : Resolution D P V
    resolve_flag =
        if is_resolution action
        then resolve_found (find_flag id rows)
        else Resolution.refused Refusal.invalid_input
