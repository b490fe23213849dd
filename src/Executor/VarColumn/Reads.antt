-- ===== src/Executor/VarColumn/Reads.antt =====
-- That a column of strings (src/include/executor/chunk.h) gives back what was appended.
use chicken_db.Base.{
  ℕ, zero, suc, ◌+◌, ◌-◌, ◌%◌, ◌≤◌, ◌<◌, ◌≡◌, refl, ap, ◌∙◌, subst, some, List, [], ◌∷◌, ◌++◌,
  arith, length, get_elem?, length-append, length-set, drop, take, get_elem?-set_self,
  get_elem?-set_other,
}
use chicken_db.Executor.VarColumn.{
  init, zeros, VarColumn, view, get_string, append_string, append_all,
}

slice-append :
    (k b : ℕ) (p s : List ℕ) → b + k ≤ length p → take k (drop b (p ++ s)) ≡ take k (drop b p)
slice-append zero b p s h = refl
slice-append (suc k) b [] s h = absurd (omega (arith, h))
slice-append (suc k) zero (x ∷ p) s h = ap (λ zs. x ∷ zs) (slice-append k 0 p s (omega (arith, h)))
slice-append (suc k) (suc b) (x ∷ p) s h = slice-append (suc k) b p s (omega (arith, h))

take_all : (k : ℕ) (s : List ℕ) → k ≡ length s → take k s ≡ s
take_all zero [] h = refl
take_all zero (x ∷ s) h = absurd (omega (arith, h))
take_all (suc k) [] h = absurd (omega (arith, h))
take_all (suc k) (x ∷ s) h = ap (λ zs. x ∷ zs) (take_all k s (omega (arith, h)))

slice_rest : (k : ℕ) (p s : List ℕ) → k ≡ length s → take k (drop (length p) (p ++ s)) ≡ s
slice_rest k [] s h = take_all k s h
slice_rest k (x ∷ p) s h = slice_rest k p s h

-- Row `row` lies in the pool between its offsets.
pub record Reads (v : VarColumn) (row : ℕ) (s : List ℕ) : Type 0 where
  pub begin : ℕ
  pub end : ℕ
  pub begin_at : get_elem? v.offsets row ≡ some begin
  pub end_at : get_elem? v.offsets (row + 1) ≡ some end
  pub order : begin ≤ end
  pub inside : end ≤ length v.data_pool
  pub small : end < 2147483648
  pub text : take (end - begin) (drop begin v.data_pool) ≡ s

view-some :
    (b e : ℕ) (p : List ℕ)
    → b ≤ e
    → e ≤ length p
    → e < 2147483648
    → view b e p ≡ some (take (e - b) (drop b p))
view-some b e p h k l = ground (arith, view, h, k, l)

pub get_string-Reads :
    (v : VarColumn) (row : ℕ) (s : List ℕ) → Reads v row s → get_string v row ≡ some s
get_string-Reads v row s r =
    rw (get_string, r.begin_at, r.end_at)
      (view-some r.begin r.end v.data_pool r.order r.inside r.small ∙ ap some r.text)

-- The offset of the next row is the end of the pool.
abbrev IsReady : VarColumn → Type 0
IsReady v = get_elem? v.offsets v.append_cursor ≡ some (length v.data_pool)

in_range : (xs : List ℕ) (i : ℕ) → i < length xs → (x : ℕ) × (get_elem? xs i ≡ some x)
in_range [] i h = absurd (omega (arith, h))
in_range (x ∷ xs) zero h = (x, refl)
in_range (x ∷ xs) (suc i) h = in_range xs i (omega (arith, h))

append_string-IsReady :
    (s : List ℕ) (v : VarColumn)
    → v.append_cursor + 1 < length v.offsets
    → length v.data_pool + length s < 2147483648
    → IsReady (append_string s v).0
append_string-IsReady s v h k =
    let old = in_range v.offsets (v.append_cursor + 1) h in
    let grown = length-append v.data_pool s in
    get_elem?-set_self v.offsets (v.append_cursor + 1) (length (v.data_pool ++ s) % 4294967296)
      old.0 old.1
    ∙ ap some (omega (arith, k, grown))

append_string-Reads_new :
    (s : List ℕ) (v : VarColumn)
    → IsReady v
    → v.append_cursor + 1 < length v.offsets
    → length v.data_pool + length s < 2147483648
    → Reads (append_string s v).0 v.append_cursor s
append_string-Reads_new s v ready h k =
    let grown = length-append v.data_pool s in
    record {
      begin = length v.data_pool;
      end = length (v.data_pool ++ s);
      begin_at =
          get_elem?-set_other v.offsets (v.append_cursor + 1) v.append_cursor
            (length (v.data_pool ++ s) % 4294967296) (λ e. omega (arith, e))
          ∙ ready;
      end_at = append_string-IsReady s v h k;
      order = omega (arith, grown);
      inside = omega arith;
      small = omega (arith, grown, k);
      text =
          slice_rest (length (v.data_pool ++ s) - length v.data_pool) v.data_pool s
            (omega (arith, grown));
    }

append_string-Reads_old :
    (s : List ℕ) (v : VarColumn) (row : ℕ) (t : List ℕ)
    → row < v.append_cursor
    → Reads v row t
    → Reads (append_string s v).0 row t
append_string-Reads_old s v row t h r =
    let grown = length-append v.data_pool s in
    let written = length (v.data_pool ++ s) % 4294967296 in
    record {
      begin = r.begin;
      end = r.end;
      begin_at =
          get_elem?-set_other v.offsets (v.append_cursor + 1) row written (λ e. omega (arith, e, h))
          ∙ r.begin_at;
      end_at =
          get_elem?-set_other v.offsets (v.append_cursor + 1) (row + 1) written
            (λ e. omega (arith, e, h))
          ∙ r.end_at;
      order = r.order;
      inside = omega (arith, r.inside, grown);
      small = r.small;
      text =
          slice-append (r.end - r.begin) r.begin v.data_pool s (omega (arith, r.inside, r.order))
          ∙ r.text;
    }

append_all-Reads_old :
    (ss : List (List ℕ)) (v : VarColumn) (row : ℕ) (t : List ℕ)
    → row < v.append_cursor
    → Reads v row t
    → Reads (append_all ss v) row t
append_all-Reads_old [] v row t h r = r
append_all-Reads_old (s ∷ ss) v row t h r =
    append_all-Reads_old ss (append_string s v).0 row t (omega (arith, h))
      (append_string-Reads_old s v row t h r)

-- The bytes of all strings.
abbrev pub total : List (List ℕ) → ℕ
total [] = 0
total (s ∷ ss) = length s + total ss

append_all-Reads :
    (ss : List (List ℕ)) (v : VarColumn) (i row : ℕ) (t : List ℕ)
    → IsReady v
    → v.append_cursor + length ss < length v.offsets
    → length v.data_pool + total ss < 2147483648
    → get_elem? ss i ≡ some t
    → row ≡ v.append_cursor + i
    → Reads (append_all ss v) row t
append_all-Reads [] v i row t ready h k e q = ground (arith, e)
append_all-Reads (s ∷ ss) v zero row t ready h k e q =
    let first = append_string-Reads_new s v ready (omega (arith, h)) (omega (arith, k)) in
    append_all-Reads_old ss (append_string s v).0 row t (omega (arith, q)) (
      subst (λ x. Reads (append_string s v).0 row x) (ground (arith, e))
        (subst (λ r. Reads (append_string s v).0 r s) (omega (arith, q)) first))
append_all-Reads (s ∷ ss) v (suc i) row t ready h k e q =
    let grown = length-append v.data_pool s in
    let kept =
      length-set v.offsets (v.append_cursor + 1) (length (v.data_pool ++ s) % 4294967296) in
    append_all-Reads ss (append_string s v).0 i row t
      (append_string-IsReady s v (omega (arith, h)) (omega (arith, k))) (omega (arith, h, kept))
      (omega (arith, k, grown)) e (omega (arith, q))

pub length-zeros : (n : ℕ) → length (zeros n) ≡ n
length-zeros zero = refl
length-zeros (suc n) = ap suc (length-zeros n)

-- A column of enough rows, filled with strings of less than 2 ^ 31 bytes together, gives back each
-- string at its row.
pub get_string-append_all :
    (capacity : ℕ) (ss : List (List ℕ)) (row : ℕ) (t : List ℕ)
    → length ss ≤ capacity
    → total ss < 2147483648
    → get_elem? ss row ≡ some t
    → get_string (append_all ss (init capacity)) row ≡ some t
get_string-append_all capacity ss row t h k e =
    get_string-Reads (append_all ss (init capacity)) row t (
      append_all-Reads ss (init capacity) row row t refl (omega (arith, h, length-zeros capacity))
        (omega (arith, k)) e (omega arith))
