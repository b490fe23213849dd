-- ===== src/Executor/Join/Tests.antt =====
-- Concrete runs of the theorems on src/planner/physical/physical_join_operator.cpp, with integers for
-- doubles.
use chicken_db.Base.{ℕ, ◌≡◌, refl, List, [], ◌∷◌, arith, length}
use chicken_db.Executor.Sort.Insertion.{insertion_sorter}
use chicken_db.Executor.Join.MergeAgree.{joins_agree}
use chicken_db.Executor.Join.MergeJoin.{merge_join}
use chicken_db.Executor.Join.{Value, DRow, hash_join, index_nl_join, nested_loop_join, JoinDoubles}
use chicken_db.Executor.Join.Same.{SameRows}
use chicken_db.Base.Int.{ℤ, pos, negsuc, int_eq}
use chicken_db.Executor.Sort.{number, int_value, Value, RowChunk}
use chicken_db.Executor.Sort.Integers.{ints}
use chicken_db.Executor.Join.Keys.{HasKeyBytes}

-- Eight entries that tell the integers apart.
abbrev int_bytes : ℤ → List ℕ
int_bytes (pos n) = n ∷ 0 ∷ 0 ∷ 0 ∷ 0 ∷ 0 ∷ 0 ∷ 0 ∷ []
int_bytes (negsuc n) = n ∷ 1 ∷ 0 ∷ 0 ∷ 0 ∷ 0 ∷ 0 ∷ 0 ∷ []

abbrev numbers : JoinDoubles
numbers = record { doubles = ints; same_double = int_eq; double_bytes = int_bytes }

int_bytes-length : (d : ℤ) → length (int_bytes d) ≡ 8
int_bytes-length (pos n) = refl
int_bytes-length (negsuc n) = refl

int_bytes-injective : (c d : ℤ) → int_bytes c ≡ int_bytes d → c ≡ d
int_bytes-injective (pos n) (pos m) h = ground (arith, h)
int_bytes-injective (pos n) (negsuc m) h = ground (arith, h)
int_bytes-injective (negsuc n) (pos m) h = ground (arith, h)
int_bytes-injective (negsuc n) (negsuc m) h = ground (arith, h)

numbers-HasKeyBytes : HasKeyBytes numbers
numbers-HasKeyBytes = record {
  bytes_length = int_bytes-length;
  bytes_injective = int_bytes-injective;
}

abbrev pair : ℕ → ℕ → List (Value ℤ)
pair a b = int_value (pos a) ∷ int_value (pos b) ∷ []

abbrev people : List (RowChunk (Value ℤ))
people =
    record { col_ids = 0 ∷ 1 ∷ []; types = number ∷ number ∷ []; rows = pair 1 10 ∷ pair 2 20 ∷ [] }
    ∷ record { col_ids = 0 ∷ 1 ∷ []; types = number ∷ number ∷ []; rows = pair 3 10 ∷ [] }
    ∷ []

abbrev cities : List (RowChunk (Value ℤ))
cities =
    record {
      col_ids = 5 ∷ 6 ∷ [];
      types = number ∷ number ∷ [];
      rows = pair 10 7 ∷ pair 30 8 ∷ pair 10 9 ∷ [];
    }
    ∷ []

joins_agree_example :
    SameRows
      (hash_join numbers people (1 ∷ []) cities (5 ∷ []))
      (nested_loop_join numbers people (1 ∷ []) cities (5 ∷ []))
    × (SameRows
          (index_nl_join numbers people (1 ∷ []) cities (5 ∷ []))
          (nested_loop_join numbers people (1 ∷ []) cities (5 ∷ []))
        × SameRows
            (merge_join numbers (insertion_sorter (DRow numbers)) people (1 ∷ []) cities (5 ∷ []))
            (nested_loop_join numbers people (1 ∷ []) cities (5 ∷ [])))
joins_agree_example =
    joins_agree numbers (insertion_sorter (DRow numbers)) people (1 ∷ []) cities (5 ∷ [])
      numbers-HasKeyBytes refl (omega arith)
