-- ===== src/Flags/Resolved.antt =====
-- When `resolve_flag` of flags/workflow.py resolves a flag, and what `sync_flags` leaves of it.
use house_analysis_ai.Prelude.{
  Bool, true, false, Option, none, some, List, [], ◌∷◌, String, Dict, ◌==◌, string_eq, number_eq,
  is_some, In, inl, inr, ◌≡◌, refl, sym, subst, ◌∙◌, Bool-cases, eq_iff, if_keeps, nat_eq_iff,
  true_not_false,
}
use house_analysis_ai.Python.{Python}
use house_analysis_ai.Contracts.{Uuid}
use house_analysis_ai.Flags.{
  Flag, FlagRequest, Texts, Key, Refusal, Effect, Resolution, is_open_flag, is_resolution,
  replacement_of, find_flag, answer_row, answer_at, replace_field, resolve_found, resolve_flag,
  sync_flags,
}
use house_analysis_ai.Flags.Answers.{IsAnswered, InGroups, keyed, sync_flags-keeps}

is_resolution-superseded :
    (action : String) → is_resolution action ≡ true → (action == "superseded_recompute") ≡ false
is_resolution-superseded action h = elim (Bool-cases (action == "superseded_recompute")) [
  | inl e ↦ absurd (
      true_not_false (
        sym h
        ∙ subst (λ (t : String). is_resolution t ≡ false)
            (sym ((eq_iff action "superseded_recompute").0 e)) refl))
  | inr e ↦ e
]

module _ {D P : Type 0} where
  -- A flag is there, and it is not open.
  abbrev IsClosed : Option (Flag D P) → Type 0
  IsClosed none = ⊥
  IsClosed (some flag) = is_open_flag flag ≡ false

  find_flag-answer_at :
      (id : Uuid) (action : String) (remark : Option String) (rows : List (Flag D P))
      → is_some (find_flag id rows) ≡ true
      → IsClosed (find_flag id (answer_at id action remark rows))
  unfolding find_flag answer_at
  find_flag-answer_at id action remark [] h = absurd (true_not_false (sym h))
  find_flag-answer_at id action remark (row ∷ rows) h = elim (Bool-cases (row.id == id)) [
    | inl e ↦ rw e (rw e refl)
    | inr e ↦ rw e (rw e (find_flag-answer_at id action remark rows (rw e at h)))
  ]

  IsAnswered-answer_row :
      (action : String) (remark : Option String) (row : Flag D P)
      → is_resolution action ≡ true
      → IsAnswered (answer_row action remark row)
  IsAnswered-answer_row action remark row h = (refl, is_resolution-superseded action h)

  answer_at-IsAnswered :
      (id : Uuid) (action : String) (remark : Option String) (rows : List (Flag D P)) (x : Flag D P)
      → is_resolution action ≡ true
      → In x (answer_at id action remark rows)
      → x.id ≡ id
      → IsAnswered x
  unfolding answer_at
  answer_at-IsAnswered id action remark [] x h m e = absurd m
  answer_at-IsAnswered id action remark (row ∷ rows) x h (inr m) e =
      answer_at-IsAnswered id action remark rows x h m e
  answer_at-IsAnswered id action remark (row ∷ rows) x h (inl m) e =
      subst (λ (r : Flag D P). IsAnswered r) m
        (if_keeps (λ (r : Flag D P). r ≡ x → IsAnswered r) (row.id == id) _ _
          (λ k l. IsAnswered-answer_row action remark row h)
          (λ k l. absurd (
            true_not_false
              (sym ((nat_eq_iff row.id id).1 (subst (λ (r : Flag D P). r.id ≡ id) (sym l) e)) ∙ k)))
          m)

module _ {D P V : Type 0} where
  -- The rows after a resolution are the rows with the answer written, and the flag was found.
  abbrev Writes :
      Option (Flag D P)
      → Uuid
      → String
      → Option String
      → List (Flag D P)
      → Resolution D P V
      → Type 0
  Writes found id action remark rows (Resolution.refused why) = Unit
  Writes found id action remark rows (Resolution.resolved rows' value effects) =
      (is_resolution action ≡ true)
      × (rows' ≡ answer_at id action remark rows)
      × (is_some found ≡ true)

  module _ (is_text : V → Bool) (fact_ids : P → List String) (fact : V) (id : Uuid)
      (action : String) (value : Option (Dict V)) (remark : Option String)
      (rows : List (Flag D P)) where
    replace_field-Writes :
        (flag : Flag D P) (o : Option (V × V))
        → is_resolution action ≡ true
        → Writes
            (some flag)
            id
            action
            remark
            rows
            (replace_field is_text fact_ids fact id action value remark rows flag o)
    replace_field-Writes flag none h = tt
    replace_field-Writes flag (some (path, new)) h =
        if_keeps (Writes (some flag) id action remark rows) (is_text path) _ _
          (λ e. (h, refl, refl)) λ e. tt

    resolve_found-Writes :
        (o : Option (Flag D P))
        → is_resolution action ≡ true
        → Writes o id action remark rows
            (resolve_found is_text fact_ids fact id action value remark rows o)
    resolve_found-Writes none h = tt
    resolve_found-Writes (some flag) h =
        if_keeps (Writes (some flag) id action remark rows) (is_open_flag flag) _ _
          (λ e.
            if_keeps (Writes (some flag) id action remark rows) (action == "replace") _ _
              (λ k. replace_field-Writes flag (replacement_of value) h) λ k. (h, refl, refl))
          λ e. tt

    resolve_flag-Writes :
        Writes
          (find_flag id rows)
          id
          action
          remark
          rows
          (resolve_flag is_text fact_ids fact id action value remark rows)
    unfolding resolve_flag
    resolve_flag-Writes =
        if_keeps (Writes (find_flag id rows) id action remark rows) (is_resolution action) _ _
          (λ h. resolve_found-Writes (find_flag id rows) h) λ h. tt

module _ {D P V : Type 0} where
  resolved-Writes :
      (is_text : V → Bool) (fact_ids : P → List String) (fact : V) (id : Uuid) (action : String)
      (value : Option (Dict V)) (remark : Option String) (rows rows' : List (Flag D P))
      (value' : Option (Dict V)) (effects : List (Effect V))
      → resolve_flag is_text fact_ids fact id action value remark rows
        ≡ Resolution.resolved rows' value' effects
      → Writes (find_flag id rows) id action remark rows (Resolution.resolved rows' value' effects)
  resolved-Writes is_text fact_ids fact id action value remark rows rows' value' effects e =
      subst (Writes (find_flag id rows) id action remark rows) e
        (resolve_flag-Writes is_text fact_ids fact id action value remark rows)

  resolve_found-conflict :
      (is_text : V → Bool) (fact_ids : P → List String) (fact : V) (id : Uuid) (action : String)
      (value : Option (Dict V)) (remark : Option String) (rows : List (Flag D P))
      (o : Option (Flag D P))
      → IsClosed o
      → resolve_found is_text fact_ids fact id action value remark rows o
        ≡ Resolution.refused Refusal.conflict
  resolve_found-conflict is_text fact_ids fact id action value remark rows none h = absurd h
  resolve_found-conflict is_text fact_ids fact id action value remark rows (some flag) h = rw h refl

  -- A flag that was resolved is not resolved again: another resolution of it is refused as a
  -- conflict, whatever its action, its value and its note.
  pub resolve_flag_again :
      (is_text : V → Bool) (fact_ids : P → List String) (fact fact' : V) (id : Uuid)
      (action action' : String) (value next : Option (Dict V)) (remark remark' : Option String)
      (rows rows' : List (Flag D P)) (value' : Option (Dict V)) (effects : List (Effect V))
      → resolve_flag is_text fact_ids fact id action value remark rows
        ≡ Resolution.resolved rows' value' effects
      → is_resolution action' ≡ true
      → resolve_flag is_text fact_ids fact' id action' next remark' rows'
        ≡ Resolution.refused Refusal.conflict
  unfolding resolve_flag
  resolve_flag_again is_text fact_ids fact fact' id action action' value next remark remark' rows
        rows' value' effects e h =
      let written =
        resolved-Writes is_text fact_ids fact id action value remark rows rows' value' effects e in
      rw h (
        resolve_found-conflict is_text fact_ids fact' id action' next remark' rows'
          (find_flag id rows')
          (subst (λ (r : List (Flag D P)). IsClosed (find_flag id r)) (sym written.1)
            (find_flag-answer_at id action remark rows written.2)))

module _ {D P V : Type 0} ⦃py : Python D⦄ where
  -- A flag that was resolved is in every synchronisation of the rows after it left as it is, but for
  -- its logical key, which is written out.
  pub resolve_flag_stays :
      (is_text : V → Bool) (fact_ids : P → List String) (fact : V) (id : Uuid) (action : String)
      (value : Option (Dict V)) (remark : Option String) (rows rows' : List (Flag D P))
      (value' : Option (Dict V)) (effects : List (Effect V)) (x : Flag D P) (texts : Texts P)
      (new_id : Key → Uuid) (property_id : Uuid) (requests : List (FlagRequest D P))
      → resolve_flag is_text fact_ids fact id action value remark rows
        ≡ Resolution.resolved rows' value' effects
      → In x rows'
      → x.id ≡ id
      → InGroups (keyed texts x) (sync_flags texts new_id property_id rows' requests).0
  resolve_flag_stays is_text fact_ids fact id action value remark rows rows' value' effects x texts
        new_id property_id requests e m i =
      let written =
        resolved-Writes is_text fact_ids fact id action value remark rows rows' value' effects e in
      sync_flags-keeps texts new_id property_id rows' requests x m (
        answer_at-IsAnswered id action remark rows x written.0
          (subst (λ (r : List (Flag D P)). In x r) written.1 m) i)
