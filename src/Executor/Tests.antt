-- ===== src/Executor/Tests.antt =====
-- Concrete runs of the theorems on src/executor and src/include/executor.
use chicken_db.Base.{
  ℕ, ◌+◌, ◌≡◌, refl, ◌↔◌, Bool, true, false, some, List, [], ◌∷◌, arith, length, drop, take, concat,
}
use chicken_db.Executor.VarColumn.Reads.{get_string-append_all}
use chicken_db.Executor.VarColumn
use chicken_db.Base.Eq.{contains, list_eq, nat_eq}
use chicken_db.Executor.Distinct.First.{IsUnique, keys, distinct_rows}
use chicken_db.Executor.Distinct
use chicken_db.Executor.RowKey.Injective.{row_key_injective}
use chicken_db.Executor.RowKey.{Storage, fixed, varlen, Cell}
use chicken_db.Executor.Limit.Drain.{drain-window}
use chicken_db.Executor.Limit.{drain, init}
use chicken_db.Executor.Like.{like, run, step}
use chicken_db.Executor.Like.Matches.{Matches}
use chicken_db.Executor.Like.Meaning.{like_decides, percent_lost}

-- "abcbc", "%bc", "ABc" and "_b%".
abbrev name : List ℕ
name = 97 ∷ 98 ∷ 99 ∷ 98 ∷ 99 ∷ []

abbrev suffix_pattern : List ℕ
suffix_pattern = 37 ∷ 98 ∷ 99 ∷ []

abbrev mixed_case : List ℕ
mixed_case = 65 ∷ 66 ∷ 99 ∷ []

abbrev second_letter : List ℕ
second_letter = 95 ∷ 98 ∷ 37 ∷ []

like_suffix : like name suffix_pattern false ≡ some true
unfolding like run step
like_suffix = refl

like_case : like mixed_case second_letter false ≡ some false
unfolding like run step
like_case = refl

like_no_case : like mixed_case second_letter true ≡ some true
unfolding like run step
like_no_case = refl

like_decides_example :
    (b : Bool) × ((like name suffix_pattern false ≡ some b)
      × ((b ≡ true) ↔ Matches false name suffix_pattern))
like_decides_example =
    like_decides name suffix_pattern false (refl, (refl, (refl, (refl, (refl, tt)))))

percent_lost_example :
    (like (37 ∷ 97 ∷ []) (37 ∷ []) false ≡ some false) × Matches false (37 ∷ 97 ∷ []) (37 ∷ [])
percent_lost_example = percent_lost 97 [] false

-- Rows 1 to 5 in three chunks.
abbrev chunks : List (List ℕ)
chunks = (1 ∷ 2 ∷ []) ∷ [] ∷ (3 ∷ 4 ∷ 5 ∷ []) ∷ []

drain-window_example :
    drain 1 3 (length chunks + 1) chunks init ≡ some (take 3 (drop 1 (concat chunks)))
drain-window_example = drain-window 1 3 chunks

abbrev storage : List Storage
storage = fixed 4 ∷ varlen ∷ []

-- The number 7 and the string "ab".
abbrev seven_ab : List Cell
seven_ab =
    record { valid = true; bytes = 7 ∷ 0 ∷ 0 ∷ 0 ∷ [] }
    ∷ record { valid = true; bytes = 97 ∷ 98 ∷ [] }
    ∷ []

row_key_injective_example : seven_ab ≡ seven_ab
row_key_injective_example =
    row_key_injective storage seven_ab seven_ab (refl, (omega arith, tt)) (refl, (omega arith, tt))
      refl

-- Each row stands for its own key.
abbrev row_chunks : List (List (List ℕ))
row_chunks = ((1 ∷ []) ∷ (2 ∷ []) ∷ []) ∷ ((1 ∷ []) ∷ (3 ∷ []) ∷ []) ∷ []

distinct_rows_example :
    (out : List (List ℕ)) × ((Distinct.drain (λ r. r) (length row_chunks + 1) row_chunks []
        ≡ some out)
      × (IsUnique (keys (λ r. r) out)
          × (contains (3 ∷ []) (keys (λ r. r) out)
              ≡ contains (3 ∷ []) (keys (λ r. r) (concat row_chunks)))))
distinct_rows_example = distinct_rows (λ r. r) row_chunks (3 ∷ [])

get_string-append_all_example :
    VarColumn.get_string
      (VarColumn.append_all ((97 ∷ 98 ∷ []) ∷ [] ∷ (99 ∷ []) ∷ []) (VarColumn.init 4))
      2
    ≡ some (99 ∷ [])
get_string-append_all_example =
    get_string-append_all 4 ((97 ∷ 98 ∷ []) ∷ [] ∷ (99 ∷ []) ∷ []) 2 (99 ∷ []) (omega arith)
      (omega arith) refl
