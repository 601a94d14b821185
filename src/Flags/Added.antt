-- ===== src/Flags/Added.antt =====
-- What `persist_flags` of flags/store.py adds.
use house_analysis_ai.Prelude.{
  Bool, true, false, List, [], ◌∷◌, ◌++◌, String, Dict, ◌==◌, string_eq, any, if_keeps, All, ◌≡◌,
  refl, sym, subst, ◌∙◌, eq_iff, eq_refl, arith, true_not_false, or_both_false, or_first_false,
  or_second_false, or_first_true, or_second_true, Bool-cases, inl, inr,
}
use house_analysis_ai.Contracts.{Uuid}
use house_analysis_ai.Flags.{
  Flag, FlagRequest, Texts, Finding, normalized_request, new_flag, put_first, is_existing,
  deduped_from, create_all, persist_flags,
}

module _ {V : Type 0} where
  -- whether the dict has the key
  abbrev has_key : String → Dict V → Bool
  has_key key dict = any (λ item. item.0 == key) dict

  -- No key stands twice.
  abbrev IsDict : Dict V → Type 0
  IsDict [] = Unit
  IsDict ((key, value) ∷ rest) = (has_key key rest ≡ false) × IsDict rest

  has_key-put_first :
      (k key : String) (value : V) (dict : Dict V)
      → (key == k) ≡ false
      → has_key k dict ≡ false
      → has_key k (put_first key value dict) ≡ false
  unfolding put_first
  has_key-put_first k key value [] d h = ground (arith, d)
  has_key-put_first k key value ((j, v) ∷ rest) d h = elim (Bool-cases (j == k)) [
    | inl e ↦ absurd (true_not_false (sym (or_first_true (j == k) (has_key k rest) e) ∙ h))
    | inr e ↦
        if_keeps (λ (x : Dict V). has_key k x ≡ false) (j == key) _ _ (λ f. h)
          λ f.
            or_both_false (j == k) _ e
              (has_key-put_first k key value rest d (or_second_false (j == k) (has_key k rest) h))
  ]

  put_first-IsDict :
      (key : String) (value : V) (dict : Dict V) → IsDict dict → IsDict (put_first key value dict)
  unfolding put_first
  put_first-IsDict key value [] h = (refl, tt)
  put_first-IsDict key value ((j, v) ∷ rest) h =
      if_keeps IsDict (j == key) _ _ (λ e. h)
        λ e.
          (has_key-put_first j key value rest (flipped e) h.0, put_first-IsDict key value rest h.1)
    where
      flipped : (j == key) ≡ false → (key == j) ≡ false
      flipped e = ground (arith, e, eq_iff j key, eq_iff key j)

module _ {D P : Type 0} where
  -- No two rows have the same dedupe key, as the table demands.
  abbrev pub IsUnique : List (Flag D P) → Type 0
  IsUnique [] = Unit
  IsUnique (row ∷ rows) = (is_existing row.dedupe_key rows ≡ false) × IsUnique rows

  -- Each finding stands under its own dedupe key.
  abbrev AllKeyed : Dict (Finding D P) → Type 0
  AllKeyed [] = Unit
  AllKeyed ((key, finding) ∷ rest) = (finding.2 ≡ key) × AllKeyed rest

  put_first-AllKeyed :
      (finding : Finding D P) (found : Dict (Finding D P))
      → AllKeyed found
      → AllKeyed (put_first finding.2 finding found)
  unfolding put_first
  put_first-AllKeyed finding [] h = (refl, tt)
  put_first-AllKeyed finding ((k, other) ∷ rest) h =
      if_keeps {B = Dict (Finding D P)} AllKeyed (k == finding.2) _ _ (λ e. h)
        λ e. (h.0, put_first-AllKeyed finding rest h.1)

  deduped_from-AllKeyed :
      (texts : Texts P) (found : Dict (Finding D P)) (requests : List (FlagRequest D P))
      → IsDict found
      → AllKeyed found
      → IsDict (deduped_from texts found requests) × AllKeyed (deduped_from texts found requests)
  unfolding deduped_from
  deduped_from-AllKeyed texts found [] d h = (d, h)
  deduped_from-AllKeyed texts found (request ∷ requests) d h =
      let finding = normalized_request texts request in
      deduped_from-AllKeyed texts (put_first finding.2 finding found) requests
        (put_first-IsDict finding.2 finding found d) (put_first-AllKeyed finding found h)

  -- A key that neither the rows nor the findings have is not taken by what is added.
  create_all-free :
      (texts : Texts P) (new_id : String → Uuid) (key : String) (rows : List (Flag D P))
      (found : Dict (Finding D P))
      → AllKeyed found
      → has_key key found ≡ false
      → is_existing key rows ≡ false
      → is_existing key (create_all texts new_id rows found ++ rows) ≡ false
  unfolding create_all
  create_all-free texts new_id key rows [] k h r = r
  create_all-free texts new_id key rows ((dedupe, finding) ∷ rest) k h r =
      let later = create_all-free texts new_id key rows rest k.1 (or_second_false _ _ h) r in
      if_keeps (λ (x : List (Flag D P)). is_existing key (x ++ rows) ≡ false)
        (is_existing dedupe rows) _ _ (λ e. later)
        λ e.
          or_both_false _ _
            (subst (λ (t : String). (t == key) ≡ false) (sym k.0) (or_first_false _ _ h)) later

  create_all-IsUnique :
      (texts : Texts P) (new_id : String → Uuid) (rows : List (Flag D P))
      (found : Dict (Finding D P))
      → IsDict found
      → AllKeyed found
      → IsUnique rows
      → IsUnique (create_all texts new_id rows found ++ rows)
  unfolding create_all
  create_all-IsUnique texts new_id rows [] d k h = h
  create_all-IsUnique texts new_id rows ((dedupe, finding) ∷ rest) d k h =
      let later = create_all-IsUnique texts new_id rows rest d.1 k.1 h in
      if_keeps (λ (x : List (Flag D P)). IsUnique (x ++ rows)) (is_existing dedupe rows) _ _
        (λ e. later)
        λ e. (
          subst (λ (t : String). is_existing t (create_all texts new_id rows rest ++ rows) ≡ false)
              (sym k.0) (create_all-free texts new_id dedupe rows rest k.1 d.0 e),
          later,
        )

  -- Where no two rows have the same dedupe key, the rows with those that `persist_flags` adds have
  -- this too.
  pub persist_flags-IsUnique :
      (texts : Texts P) (new_id : String → Uuid) (rows : List (Flag D P))
      (requests : List (FlagRequest D P))
      → IsUnique rows
      → IsUnique (persist_flags texts new_id rows requests ++ rows)
  unfolding persist_flags
  persist_flags-IsUnique texts new_id rows [] h = h
  persist_flags-IsUnique texts new_id rows (request ∷ requests) h =
      let (dict, keyed) = deduped_from-AllKeyed texts [] (request ∷ requests) tt tt in
      create_all-IsUnique texts new_id rows (deduped_from texts [] (request ∷ requests)) dict keyed
        h

  -- The rows have the dedupe key of each of the findings.
  abbrev Covers : Dict (Finding D P) → List (Flag D P) → Type 0
  Covers found rows = All (λ item. is_existing item.0 rows ≡ true) found

  is_existing-append :
      (key : String) (xs rows : List (Flag D P))
      → is_existing key rows ≡ true
      → is_existing key (xs ++ rows) ≡ true
  is_existing-append key [] rows h = h
  is_existing-append key (x ∷ xs) rows h =
      or_second_true (x.dedupe_key == key) _ (is_existing-append key xs rows h)

  Covers-cons :
      (row : Flag D P) (found : Dict (Finding D P)) (rows : List (Flag D P))
      → Covers found rows
      → Covers found (row ∷ rows)
  Covers-cons row [] rows h = tt
  Covers-cons row ((key, finding) ∷ found) rows h =
      (or_second_true (row.dedupe_key == key) _ h.0, Covers-cons row found rows h.1)

  create_all-Covers :
      (texts : Texts P) (new_id : String → Uuid) (rows : List (Flag D P))
      (found : Dict (Finding D P))
      → AllKeyed found
      → Covers found (create_all texts new_id rows found ++ rows)
  unfolding create_all
  create_all-Covers texts new_id rows [] k = tt
  create_all-Covers texts new_id rows ((dedupe, finding) ∷ rest) k =
      let later = create_all-Covers texts new_id rows rest k.1 in
      let flag = new_flag texts (new_id dedupe) finding [] in
      let added = create_all texts new_id rows rest in
      if_keeps (λ (x : List (Flag D P)). Covers ((dedupe, finding) ∷ rest) (x ++ rows))
        (is_existing dedupe rows) _ _ (λ e. (is_existing-append dedupe added rows e, later))
        λ e. (
          or_first_true (finding.2 == dedupe) _
              (subst (λ (t : String). (t == dedupe) ≡ true) (sym k.0) (eq_refl dedupe)),
          Covers-cons flag rest (added ++ rows) later,
        )

  create_all-none :
      (texts : Texts P) (new_id : String → Uuid) (rows : List (Flag D P))
      (found : Dict (Finding D P))
      → Covers found rows
      → create_all texts new_id rows found ≡ []
  unfolding create_all
  create_all-none texts new_id rows [] h = refl
  create_all-none texts new_id rows ((dedupe, finding) ∷ rest) h =
      if_keeps (λ (x : List (Flag D P)). x ≡ []) (is_existing dedupe rows) _ _
        (λ e. create_all-none texts new_id rows rest h.1) λ e. absurd (true_not_false (sym h.0 ∙ e))

  -- To persist the same requests again, in a table that has the rows that were added, adds nothing.
  pub persist_flags_again :
      (texts : Texts P) (new_id new_id' : String → Uuid) (rows : List (Flag D P))
      (requests : List (FlagRequest D P))
      → persist_flags texts new_id' (persist_flags texts new_id rows requests ++ rows) requests ≡ []
  unfolding persist_flags
  persist_flags_again texts new_id new_id' rows [] = refl
  persist_flags_again texts new_id new_id' rows (request ∷ requests) =
      let found = deduped_from texts [] (request ∷ requests) in
      create_all-none texts new_id' _ found (
        create_all-Covers texts new_id rows found
          (deduped_from-AllKeyed texts [] (request ∷ requests) tt tt).1)
