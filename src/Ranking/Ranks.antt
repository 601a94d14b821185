-- ===== src/Ranking/Ranks.antt =====
-- `compute_ranks` and `rank_scope` of scoring/ranking.py. Scores are the items of the mapping, in
-- its order. The SQL statement is an argument, which gives the row count of its result; loading a
-- configuration row is left out.
use house_analysis_ai.Prelude.{
  ℕ, ◌+◌, Bool, ◌&&◌, ◌||◌, Option, none, some, List, [], ◌∷◌, String, assoc, ◌==◌, string_eq,
  number_eq, leb, if◌then◌else◌, Result, ok, err, value_error, ◌>>◌, raise_if, is_some, not,
}
use house_analysis_ai.Prelude.Int.{ℤ, pos_part}
use house_analysis_ai.Python.{Python, lt, same}
use house_analysis_ai.Contracts.{Uuid}

pub record RankedRow (D : Type 0) : Type 0 where
  pub property_id : Uuid
  pub rank : ℕ
  pub prev_rank : Option ℕ
  pub score : D

abbrev pub Item : Type 0 → Type 0
Item D = Uuid × D

module _ {D : Type 0} ⦃py : Python D⦄ where
  -- the order of the keys `(-item[1], item[0].int)`
  unfoldable pub comes_first : Item D → Item D → Bool
  comes_first a b = lt b.1 a.1 || (same a.1 b.1 && leb a.0 b.0)

  unfoldable pub insert_item : Item D → List (Item D) → List (Item D)
  insert_item item [] = item ∷ []
  insert_item item (x ∷ xs) =
      let rest = insert_item item xs in if comes_first item x then item ∷ x ∷ xs else x ∷ rest

  -- `sorted`
  unfoldable pub sort_items : List (Item D) → List (Item D)
  sort_items [] = []
  sort_items (x ∷ xs) = insert_item x (sort_items xs)

  -- the rows of the items from a rank on
  unfoldable pub rows_from : List (Uuid × ℕ) → ℕ → List (Item D) → List (RankedRow D)
  rows_from previous rank [] = []
  rows_from previous rank ((property_id, value) ∷ items) =
      record {
        property_id = property_id;
        rank = rank;
        prev_rank = assoc property_id previous;
        score = value;
      }
      ∷ rows_from previous (rank + 1) items

  unfoldable pub compute_ranks : List (Item D) → Option (List (Uuid × ℕ)) → List (RankedRow D)
  compute_ranks scores none = rows_from [] 1 (sort_items scores)
  compute_ranks scores (some previous) = rows_from previous 1 (sort_items scores)

-- the guards of `rank_scope`; the last text is without the scope that the code appends
unfoldable pub check_scope : String → Option Uuid → Result (Unit {0})
check_scope scope_type scope_id =
    if scope_type == "portfolio"
    then raise_if (is_some scope_id) (value_error "portfolio ranking does not accept a scope_id")
    else if scope_type == "batch"
    then raise_if (not (is_some scope_id)) (value_error "batch ranking requires a scope_id")
    else err (value_error "unsupported ranking scope")

-- `max(0, result.rowcount or 0)`
unfoldable pub rank_scope : (String → Option Uuid → Option ℤ) → String → Option Uuid → Result ℕ
rank_scope execute scope_type scope_id = do
  check_scope scope_type scope_id
  ok (elim (execute scope_type scope_id) [ none ↦ 0 | some count ↦ pos_part count ])
