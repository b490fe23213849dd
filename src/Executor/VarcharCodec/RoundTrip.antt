-- ===== src/Executor/VarcharCodec/RoundTrip.antt =====
-- That src/include/executor/varchar_codec.h reads back what it wrote.
use chicken_db.Base.{
  ℕ, suc, ◌+◌, ◌-◌, ◌*◌, ◌≤◌, ◌<◌, ◌≡◌, refl, sym, ap, ◌∙◌, subst, true, some, List, ◌++◌, arith,
  leb, ◌>>=◌, length, get_elem?, get_or, length-append, take, concat, take_all,
}
use chicken_db.Executor.VarcharCodec.{
  read_rows, serialize_varlen_column, checked_column, deserialize_varlen_column, set_var_column,
  copy_into, write_fields, local_offsets, ints, to_size, read_ints,
}
use chicken_db.Executor.VarColumn.Reads.{get_string-Reads}
use chicken_db.Buffer.Page.{u32, u64}
use chicken_db.Executor.VarColumn.{get_string, VarColumn, zeros}
use chicken_db.Buffer.Page.Header.{write_fields-concat}
use chicken_db.Buffer.Bytes.{
  Holds-store, length-store, store-append, store, le, from_le, from_le-le, load, Holds,
  Holds-append_left, Holds-append_right,
}
use chicken_db.Executor.VarcharCodec.Offsets.{
  get_elem?-copy_into, last_offset, length-ints, length-local_offsets, length-zeros,
  local_offsets-Row, local_offsets-small, read_ints-Holds, read_rows-length, to_size-small,
}

-- The three parts of a serialized column, one after another.
buffer : List (List ℕ) → ℕ → List ℕ
buffer ss n = write_fields (4 + (n + 1) * 4) ss (
    store 4 (ints (local_offsets 0 ss))
      (store 0 (le 4 n) (zeros (4 + (n + 1) * 4 + to_size (get_or (local_offsets 0 ss) n 0)))))

buffer-size :
    (ss : List (List ℕ)) (n : ℕ)
    → length ss ≡ n
    → length (concat ss) < 2147483648
    → 4 + (n + 1) * 4 + to_size (get_or (local_offsets 0 ss) n 0)
      ≡ 4 + (n + 1) * 4 + length (concat ss)
buffer-size ss n l h =
    let last : get_or (local_offsets 0 ss) n 0 ≡ length (concat ss) =
      subst (λ m. get_or (local_offsets 0 ss) m 0 ≡ length (concat ss)) l
        (last_offset 0 ss (omega (arith, h)) ∙ omega arith) in
    ap (λ m. 4 + (n + 1) * 4 + m) (ap to_size last ∙ to_size-small (length (concat ss)) h)

buffer-Holds :
    (ss : List (List ℕ)) (n : ℕ)
    → length ss ≡ n
    → length (concat ss) < 2147483648
    → Holds 0 ((le 4 n ++ ints (local_offsets 0 ss)) ++ concat ss) (buffer ss n)
unfolding buffer
buffer-Holds ss n l h =
    let offs = ints (local_offsets 0 ss) in
    let room = 4 + (n + 1) * 4 + to_size (get_or (local_offsets 0 ss) n 0) in
    let size = length-zeros room ∙ buffer-size ss n l h in
    let ints_size : length offs ≡ (n + 1) * 4 =
      omega (arith, length-ints (local_offsets 0 ss), length-local_offsets 0 ss, l) in
    let head_size = length-append (le 4 n) offs in
    let all_size = length-append (le 4 n ++ offs) (concat ss) in
    let written : buffer ss n ≡ store 0 ((le 4 n ++ offs) ++ concat ss) (zeros room) =
      write_fields-concat (4 + (n + 1) * 4) ss (store 4 offs (store 0 (le 4 n) (zeros room)))
      ∙ ap (store (4 + (n + 1) * 4) (concat ss)) (store-append 0 (le 4 n) offs (zeros room))
      ∙ ap (λ o. store o (concat ss) (store 0 (le 4 n ++ offs) (zeros room))) {x = 4 + (n + 1) * 4}
          {y = 0 + length (le 4 n ++ offs)} (omega (arith, head_size, ints_size))
      ∙ store-append 0 (le 4 n ++ offs) (concat ss) (zeros room) in
    subst (Holds 0 ((le 4 n ++ offs) ++ concat ss)) (sym written) (
      Holds-store 0 ((le 4 n ++ offs) ++ concat ss) (zeros room)
        (omega (arith, all_size, head_size, ints_size, size)))

buffer-length :
    (ss : List (List ℕ)) (n : ℕ)
    → length ss ≡ n
    → length (concat ss) < 2147483648
    → length (buffer ss n) ≡ 4 + (n + 1) * 4 + length (concat ss)
unfolding buffer
buffer-length ss n l h =
    let offs = ints (local_offsets 0 ss) in
    let room = 4 + (n + 1) * 4 + to_size (get_or (local_offsets 0 ss) n 0) in
    ap length
      (write_fields-concat (4 + (n + 1) * 4) ss (store 4 offs (store 0 (le 4 n) (zeros room))))
    ∙ length-store (4 + (n + 1) * 4) (concat ss) (store 4 offs (store 0 (le 4 n) (zeros room)))
    ∙ length-store 4 offs (store 0 (le 4 n) (zeros room))
    ∙ length-store 0 (le 4 n) (zeros room)
    ∙ length-zeros room
    ∙ buffer-size ss n l h

le→leb : {a b : ℕ} → a ≤ b → leb a b ≡ true
le→leb h = ground (arith, h)

checked_column-some :
    (n : ℕ) (offsets : List ℕ) (data_len : ℕ) (raw : List ℕ) (out : VarColumn)
    → 4 ≤ length raw
    → 4 + (n + 1) * 4 ≤ length raw
    → u64 (4 + (n + 1) * 4 + data_len) ≤ length raw
    → checked_column n offsets data_len raw out
      ≡ some (set_var_column offsets n (load (4 + (n + 1) * 4) data_len raw) out)
checked_column-some n offsets data_len raw out h k l =
    rw (checked_column, le→leb h, le→leb k, le→leb l) refl

module _ (ss : List (List ℕ)) (n : ℕ) (count : length ss ≡ n)
    (small : length (concat ss) < 2147483648) (few : n < 4294967295) (raw : List ℕ)
    (holds : Holds 0 ((le 4 n ++ ints (local_offsets 0 ss)) ++ concat ss) raw) where
  offsets_size : length (ints (local_offsets 0 ss)) ≡ (n + 1) * 4
  offsets_size = omega (arith, length-ints (local_offsets 0 ss), length-local_offsets 0 ss, count)

  head_stands : Holds 0 (le 4 n ++ ints (local_offsets 0 ss)) raw
  head_stands = Holds-append_left 0 (le 4 n ++ ints (local_offsets 0 ss)) (concat ss) raw holds

  count_read : from_le (load 0 4 raw) ≡ n
  count_read =
      ap from_le (Holds-append_left 0 (le 4 n) (ints (local_offsets 0 ss)) raw head_stands)
      ∙ from_le-le 4 n (omega (arith, few))

  offsets_read : read_ints (n + 1) 4 raw ≡ local_offsets 0 ss
  offsets_read =
      ap (λ m. read_ints m 4 raw) (sym (length-local_offsets 0 ss ∙ omega (arith, count)))
      ∙ read_ints-Holds 4 (local_offsets 0 ss) raw (local_offsets-small 0 ss (omega arith))
          (Holds-append_right 0 (le 4 n) (ints (local_offsets 0 ss)) raw head_stands)

  text_read : load (4 + (n + 1) * 4) (length (concat ss)) raw ≡ concat ss
  text_read =
      ap (λ o. load o (length (concat ss)) raw) {x = 4 + (n + 1) * 4}
        {y = 0 + length (le 4 n ++ ints (local_offsets 0 ss))}
        (omega (arith, length-append (le 4 n) (ints (local_offsets 0 ss)), offsets_size))
      ∙ Holds-append_right 0 (le 4 n ++ ints (local_offsets 0 ss)) (concat ss) raw holds

  data_len_at : to_size (get_or (local_offsets 0 ss) n 0) ≡ length (concat ss)
  data_len_at = omega (arith, buffer-size ss n count small)

  deserialize-some :
      (out : VarColumn)
      → length raw ≡ 4 + (n + 1) * 4 + length (concat ss)
      → deserialize_varlen_column raw out
        ≡ some (set_var_column (local_offsets 0 ss) n (concat ss) out)
  deserialize-some out size =
      ap
        (λ m.
          checked_column m (read_ints (m + 1) 4 raw)
            (to_size (get_or (read_ints (m + 1) 4 raw) m 0)) raw out)
        count_read
      ∙ ap (λ o. checked_column n o (to_size (get_or o n 0)) raw out) offsets_read
      ∙ ap (λ d. checked_column n (local_offsets 0 ss) d raw out) data_len_at
      ∙ checked_column-some n (local_offsets 0 ss) (length (concat ss)) raw out
          (omega (arith, size)) (omega (arith, size)) (omega (arith, size, few, small))
      ∙ ap (λ pool. some (set_var_column (local_offsets 0 ss) n pool out)) text_read

  column_row :
      (out : VarColumn) (i : ℕ) (s : List ℕ)
      → n < length out.offsets
      → get_elem? ss i ≡ some s
      → get_string (set_var_column (local_offsets 0 ss) n (concat ss) out) i ≡ some s
  column_row out i s room e =
      let whole = take_all (length (concat ss)) (concat ss) refl in
      let row = local_offsets-Row 0 ss (concat ss) i s (omega (arith, small)) whole e in
      let offs = take (n + 1) (local_offsets 0 ss) in
      let offs_all : offs ≡ local_offsets 0 ss =
        take_all (n + 1) (local_offsets 0 ss) (length-local_offsets 0 ss ∙ omega (arith, count)) in
      let fits : length offs ≤ length out.offsets =
        omega (arith, room, count, length-local_offsets 0 ss, ap length offs_all) in
      let at = λ (j x : ℕ) (f : get_elem? (local_offsets 0 ss) j ≡ some x).
        get_elem?-copy_into offs out.offsets j x fits (ap (λ xs. get_elem? xs j) offs_all ∙ f) in
      get_string-Reads (set_var_column (local_offsets 0 ss) n (concat ss) out) i s (record {
        begin = row.begin;
        end = row.begin + length s;
        begin_at = at i row.begin row.begin_at;
        end_at =
            ap (get_elem? (copy_into offs out.offsets)) {x = i + 1} {y = suc i} (omega arith)
            ∙ at (suc i) (row.begin + length s) row.end_at;
        order = omega arith;
        inside = omega (arith, row.inside);
        small = omega (arith, row.inside, small);
        text =
            ap (λ k. load row.begin k (concat ss)) {x = row.begin + length s - row.begin}
              {y = length s} (omega arith)
            ∙ row.text;
      })

-- Rows of a column whose strings have less than 2 ^ 31 bytes together are serialized, and what
-- comes out is read into any column with room for the offsets of these rows, which then gives back
-- each of the strings and ends after the last.
pub serialized_strings :
    (v : VarColumn) (row_start cnt : ℕ) (ss : List (List ℕ)) (out : VarColumn)
    → cnt < 4294967295
    → read_rows v row_start cnt ≡ some ss
    → length (concat ss) < 2147483648
    → cnt < length out.offsets
    → (raw : List ℕ) × ((out' : VarColumn) × ((serialize_varlen_column v row_start cnt ≡ some raw)
          × ((deserialize_varlen_column raw out ≡ some out')
              × ((out'.append_cursor ≡ cnt)
                  × ((i : ℕ) (s : List ℕ)
                      → get_elem? ss i ≡ some s
                      → get_string out' i ≡ some s)))))
unfolding buffer
serialized_strings v row_start cnt ss out few rows small room =
    let count = read_rows-length v row_start cnt ss rows in
    let holds = buffer-Holds ss cnt count small in
    let whole : u32 cnt ≡ cnt = omega (arith, few) in
    let made = λ (n : ℕ) (strings : List (List ℕ)). some (buffer strings n) in
    (
      buffer ss cnt,
      (
        set_var_column (local_offsets 0 ss) cnt (concat ss) out,
        (
          ap (λ n. read_rows v row_start n >>= made n) whole ∙ ap (λ o. o >>= made cnt) rows,
          (
            deserialize-some ss cnt count small few (buffer ss cnt) holds out
                (buffer-length ss cnt count small),
            (refl, λ i s e. column_row ss cnt count small few (buffer ss cnt) holds out i s room e),
          ),
        ),
      ),
    )
