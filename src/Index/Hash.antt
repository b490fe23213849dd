-- ===== src/Index/Hash.antt =====
-- src/index/hash_index.cpp: buckets in an unordered map.
use chicken_db.Base.Eq.{HasEq}
use chicken_db.Base.Dict.{insert, lookup-insert}
use chicken_db.Index.Interface.{Index}
use chicken_db.Index.Buckets.{bucket_index}

abbrev pub hash_index : (K : Type 0) ⦃eq : HasEq K⦄ → Index K
hash_index K = bucket_index insert lookup-insert
