-- ===== src/Executor/VarcharCodec/Tests.antt =====
-- A concrete run of the theorem on src/include/executor/varchar_codec.h.
use chicken_db.Base.{ℕ, ◌≡◌, refl, some, List, [], ◌∷◌, arith, get_elem?}
use chicken_db.Executor.VarColumn.{VarColumn, init, append_all, get_string}
use chicken_db.Executor.VarcharCodec.{serialize_varlen_column, deserialize_varlen_column}
use chicken_db.Executor.VarcharCodec.RoundTrip.{serialized_strings}

abbrev three : VarColumn
three = append_all ((65 ∷ []) ∷ (66 ∷ 67 ∷ []) ∷ [] ∷ []) (init 4)

serialized_strings_example :
    (raw : List ℕ) × ((out' : VarColumn) × ((serialize_varlen_column three 1 2 ≡ some raw)
        × ((deserialize_varlen_column raw (init 3) ≡ some out')
            × ((out'.append_cursor ≡ 2)
                × ((i : ℕ) (s : List ℕ)
                    → get_elem? ((66 ∷ 67 ∷ []) ∷ [] ∷ []) i ≡ some s
                    → get_string out' i ≡ some s)))))
serialized_strings_example =
    serialized_strings three 1 2 ((66 ∷ 67 ∷ []) ∷ [] ∷ []) (init 3) (omega arith) refl
      (omega arith) (omega arith)
