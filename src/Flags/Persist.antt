-- ===== src/Flags/Persist.antt =====
-- `persist_flags` of flags/store.py: the flags of requests that are only added, never closed.
use house_analysis_ai.Prelude.{
  Bool, List, [], ◌∷◌, String, Dict, ◌==◌, string_eq, if◌then◌else◌, any,
}
use house_analysis_ai.Contracts.{Uuid}
use house_analysis_ai.Flags.Store.{Flag, FlagRequest, Texts, Finding, normalized_request}
use house_analysis_ai.Flags.Sync.{new_flag}

-- `deduped.setdefault(dedupe, value)`
unfoldable pub put_first {ℓ} : {V : Type ℓ} → String → V → Dict V → Dict V
put_first key value [] = (key, value) ∷ []
put_first key value ((k, v) ∷ rest) =
    if k == key then (k, v) ∷ rest else (k, v) ∷ put_first key value rest

module _ {D P : Type 0} where
  -- whether a row has the dedupe key
  abbrev pub is_existing : String → List (Flag D P) → Bool
  is_existing dedupe rows = any (λ row. row.dedupe_key == dedupe) rows

  -- the first request of each dedupe key
  unfoldable pub deduped_from :
      Texts P → Dict (Finding D P) → List (FlagRequest D P) → Dict (Finding D P)
  deduped_from texts found [] = found
  deduped_from texts found (request ∷ requests) =
      let finding = normalized_request texts request in
      deduped_from texts (put_first finding.2 finding found) requests

  -- the loop that adds a flag where no row has the dedupe key
  unfoldable pub create_all :
      Texts P → (String → Uuid) → List (Flag D P) → Dict (Finding D P) → List (Flag D P)
  create_all texts new_id rows [] = []
  create_all texts new_id rows ((dedupe, finding) ∷ rest) =
      let later = create_all texts new_id rows rest in
      if is_existing dedupe rows then later else new_flag texts (new_id dedupe) finding [] ∷ later

  -- `persist_flags`: the flags that are added to the rows of the table
  unfoldable pub persist_flags :
      Texts P → (String → Uuid) → List (Flag D P) → List (FlagRequest D P) → List (Flag D P)
  persist_flags texts new_id rows [] = []
  persist_flags texts new_id rows (request ∷ requests) =
      create_all texts new_id rows (deduped_from texts [] (request ∷ requests))
