-- ===== src/Service/Meta.antt =====
-- document/read.go: the queries that load no content.
use llmd.Prelude.{ℕ, Bool, List, Bytes, Result, ok, ◌>>=◌}
use llmd.Path.{normalise}
use llmd.Store.{Document, Db}
use llmd.Store.Read
use llmd.Store.Read.{DocumentMeta}
use llmd.Store.Stats
use llmd.Store.Stats.{Stats}
use llmd.Service.Read.{normalize_prefix}

unfoldable pub by_key : Db → Bytes → Result Document
by_key db key = Read.by_key db key

unfoldable pub list_paths : Db → Bytes → Result (List Bytes)
list_paths db pre = do pre ← normalize_prefix pre; ok (Read.list_paths db pre)

unfoldable pub list_deleted_paths : Db → Bytes → Result (List Bytes)
list_deleted_paths db pre = do pre ← normalize_prefix pre; ok (Stats.list_deleted_paths db pre)

unfoldable pub list_meta : Db → Bytes → Bool → Result (List DocumentMeta)
list_meta db pre include_deleted = do
  pre ← normalize_prefix pre
  ok (Stats.list_meta db pre include_deleted)

unfoldable pub count_deleted : Db → Bytes → Result ℕ
count_deleted db pre = do pre ← normalize_prefix pre; ok (Stats.count_deleted db pre)

unfoldable pub deleted_before : Db → ℕ → Bytes → Result (List Bytes)
deleted_before db cutoff pre = do
  pre ← normalize_prefix pre
  ok (Stats.deleted_before db cutoff pre)

unfoldable pub version_count : Db → Bytes → Result ℕ
version_count db path = do path ← normalise path; ok (Stats.version_count db path)

unfoldable pub list_authors : Db → List Bytes
list_authors db = Stats.list_authors db

unfoldable pub stats : Db → Stats
stats db = Stats.stats db
