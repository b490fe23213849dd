-- ===== src/Index/Tests.antt =====
-- Concrete runs of the theorems on src/index.
use chicken_db.Base.{ℕ, ◌≡◌, ◌↔◌, true, false, List, [], ◌∷◌, arith}
use chicken_db.Index.BPlusTree.Shape.{IsShaped, run_tree-IsShaped}
use chicken_db.Index.BPlusTree.Refines.{run_tree, tree_refines_map}
use chicken_db.Index.Bitmap
use chicken_db.Index.BPlusTree
use chicken_db.Base.Int.{pos}
use chicken_db.Base.Eq.{nat_eq, list_eq, contains}
use chicken_db.Base.Order.{nat_order, list_order, lt}
use chicken_db.Txn.Types.{Rid, rid_eq, rid_beq}
use chicken_db.Index.Key.{IndexKey, num, str, val_eq, val_order}
use chicken_db.Index.Interface.{IndexOp, insert_op, erase_op, run_index}
use chicken_db.Index.Buckets.{find}
use chicken_db.Index.Hash.{hash_index}
use chicken_db.Index.Bitmap.{bitmap_index, range, gt}
use chicken_db.Index.Bitmap.Range.{range_finds}
use chicken_db.Index.Bag.{count, buckets_refine_bag}

abbrev key_of : ℕ → List ℕ → IndexKey ℕ
key_of n s = num n ∷ str s ∷ []

abbrev row : ℕ → Rid
row i = record { page_no = pos 1; row_idx = i }

abbrev calls : List (IndexOp (IndexKey ℕ))
calls =
    insert_op (key_of 5 []) (row 0)
    ∷ insert_op (key_of 3 (97 ∷ [])) (row 1)
    ∷ insert_op (key_of 5 []) (row 2)
    ∷ insert_op (key_of 5 []) (row 2)
    ∷ erase_op (key_of 5 []) (row 2)
    ∷ erase_op (key_of 4 []) (row 1)
    ∷ []

buckets_refine_bag_example :
    (count (row 2) (find ((run_index (hash_index (IndexKey ℕ)) calls []).0) (key_of 5 [])) ≡ 1)
    × ((run_index (hash_index (IndexKey ℕ)) calls []).1 ≡ true ∷ false ∷ [])
    × (count (row 2) (find ((run_index (bitmap_index (IndexKey ℕ)) calls []).0) (key_of 5 [])) ≡ 1)
    × ((run_index (bitmap_index (IndexKey ℕ)) calls []).1 ≡ true ∷ false ∷ [])
unfolding rid_beq
buckets_refine_bag_example = buckets_refine_bag calls (key_of 5 []) (row 2)

range_finds_example :
    let m = (run_index (bitmap_index (IndexKey ℕ)) calls []).0 in
    (contains (row 2) (range m (key_of 4 []) (key_of 6 [])) ≡ true) ↔ (
      (k : IndexKey ℕ) × ((lt k (key_of 4 []) ≡ false)
        × ((gt k (key_of 6 []) ≡ false) × (contains (row 2) (find m k) ≡ true))))
range_finds_example = range_finds calls (key_of 4 []) (key_of 6 []) (row 2)

-- Enough keys to split leaves and inner nodes of order 2, and two erasures.
abbrev tree_calls : List (IndexOp ℕ)
tree_calls =
    insert_op 4 (row 0)
    ∷ insert_op 2 (row 1)
    ∷ insert_op 7 (row 2)
    ∷ insert_op 1 (row 3)
    ∷ insert_op 9 (row 4)
    ∷ insert_op 4 (row 5)
    ∷ insert_op 5 (row 6)
    ∷ insert_op 6 (row 7)
    ∷ erase_op 7 (row 2)
    ∷ erase_op 4 (row 9)
    ∷ []

tree_refines_map_example :
    (BPlusTree.find ((run_tree 2 (omega arith) tree_calls).0) 4
      ≡ find ((run_index (bitmap_index ℕ) tree_calls []).0) 4)
    × ((BPlusTree.range ((run_tree 2 (omega arith) tree_calls).0) 2 6
          ≡ Bitmap.range ((run_index (bitmap_index ℕ) tree_calls []).0) 2 6)
        × ((BPlusTree.scan_all ((run_tree 2 (omega arith) tree_calls).0)
              ≡ Bitmap.scan_all ((run_index (bitmap_index ℕ) tree_calls []).0))
            × ((run_tree 2 (omega arith) tree_calls).1
                ≡ (run_index (bitmap_index ℕ) tree_calls []).1)))
tree_refines_map_example = tree_refines_map 2 (omega arith) tree_calls 4 2 6

run_tree-IsShaped_example : (h : ℕ) × IsShaped 2 ((run_tree 2 (omega arith) tree_calls).0) h
run_tree-IsShaped_example = run_tree-IsShaped 2 (omega arith) tree_calls
