-- ===== src/Txn/Versions.antt =====
-- src/transaction/version_store.cpp. Each call runs under the store's mutex, so alone.
pub mod Lookup
use chicken_db.Base.{Bool, true, false, not, ◌&&◌, Option, none, some, if◌then◌else◌}
use chicken_db.Base.Eq.{◌==◌}
use chicken_db.Base.Int.{int_eq, ℤ, leb_ℤ}
use chicken_db.Base.Dict.{Dict, lookup, insert}
use chicken_db.Txn.Types.{
  rid_eq, Rid, Transaction, VersionMeta, default_meta, invalid_ts, invalid_txn_id,
}

abbrev pub VersionStore : Type 0
VersionStore = Dict Rid VersionMeta

unfoldable pub on_insert : Rid → ℤ → VersionStore → VersionStore
on_insert rid txn s = insert rid (record default_meta { begin_txn = txn; begin_ts = invalid_ts }) s

-- `it = find(rid); if (it != end()) change *it;`
abbrev pub modify : Rid → (VersionMeta → VersionMeta) → VersionStore → VersionStore
modify rid f s = elim (lookup rid s) [ none ↦ s | some m ↦ insert rid (f m) s ]

abbrev pub mark_end : ℤ → ℤ → VersionMeta → VersionMeta
mark_end txn ts m = record m { end_txn = txn; end_ts = ts }

unfoldable pub on_delete : Rid → ℤ → VersionStore → VersionStore
on_delete rid txn s = modify rid (mark_end txn invalid_ts) s

abbrev pub set_begin_ts : ℤ → VersionMeta → VersionMeta
set_begin_ts ts m = record m { begin_ts = ts }

abbrev pub set_end_ts : ℤ → VersionMeta → VersionMeta
set_end_ts ts m = record m { end_ts = ts }

unfoldable pub commit_insert : Rid → ℤ → VersionStore → VersionStore
commit_insert rid ts s = modify rid (set_begin_ts ts) s

unfoldable pub commit_delete : Rid → ℤ → VersionStore → VersionStore
commit_delete rid ts s = modify rid (set_end_ts ts) s

-- The row stays on its page, so a creation that was never committed stays on record.
unfoldable pub abort_insert : Rid → VersionStore → VersionStore
abort_insert rid s = insert rid default_meta s

unfoldable pub abort_delete : Rid → VersionStore → VersionStore
abort_delete rid s = modify rid (mark_end invalid_txn_id invalid_ts) s

abbrev pub begin_visible : VersionMeta → Transaction → Bool
begin_visible m t =
    if m.begin_txn == t.txn_id
    then true
    else if m.begin_ts == invalid_ts
    then false
    else leb_ℤ m.begin_ts t.read_ts

abbrev pub end_hides : VersionMeta → Transaction → Bool
end_hides m t =
    if m.end_txn == invalid_txn_id
    then false
    else if m.end_txn == t.txn_id
    then true
    else not (m.end_ts == invalid_ts) && leb_ℤ m.end_ts t.read_ts

abbrev pub meta_visible : VersionMeta → Transaction → Bool
meta_visible m t = if begin_visible m t then not (end_hides m t) else false

-- A row with no entry was written before the transaction system, and shows.
unfoldable pub is_visible : VersionStore → Rid → Transaction → Bool
is_visible s rid t = elim (lookup rid s) [ none ↦ true | some m ↦ meta_visible m t ]

unfoldable pub set_meta : Rid → VersionMeta → VersionStore → VersionStore
set_meta rid m s = insert rid m s

-- `VersionMeta meta; GetMeta(rid, meta);`: the default stays where there is no entry.
unfoldable pub get_meta : Rid → VersionStore → Option VersionMeta
get_meta rid s = lookup rid s
