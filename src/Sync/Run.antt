-- ===== src/Sync/Run.antt =====
-- internal/sync/sync.go: Run, which writes what it detected to the documents. The files that it
-- reads are those of the service's mirror, which its own writes may change. `keys` and `now` give a
-- write its random key and its time, by how many writes there were before it.
use llmd.Prelude.{
  ℕ, suc, Bool, false, List, [], ◌∷◌, Option, none, some, Bytes, codes, is_empty, str_eq, length,
  if◌then◌else◌,
}
use llmd.Store.{Document}
use llmd.Service.{Service, Action, return, ask, ◌>>=◌, ◌>>◌}
use llmd.Service.Read.{list}
use llmd.Service.Write.{write}
use llmd.Sync.{Entries, Changes, detect, read_file, is_unchanged}
use llmd.Sync.Files.{mirror}

-- sync.Options and sync.Result
pub record Options : Type 0 where
  pub dry_run : Bool
  pub author : Bytes
  pub message : Bytes

pub record Synced : Type 0 where
  pub updated : ℕ
  pub added : ℕ

abbrev pub default_message : Bytes → Bytes
default_message message = if is_empty message then codes "Synced from filesystem" else message

-- The map that runSync makes of the documents.
unfoldable pub stored_texts : List Document → Bytes → Option Bytes
unfolding str_eq
stored_texts [] path = none
stored_texts (d ∷ docs) path =
    let rest = stored_texts docs path in
    elim rest [ some text ↦ some text | none ↦ if str_eq d.path path then some d.content else none ]

module _ (s : Service) (keys : ℕ → Bytes) (now : ℕ → ℕ) (opts : Options) where
  -- The loops over changed and added files; the result is how many were written.
  unfoldable pub store_files : ℕ → List Bytes → Action Entries ℕ
  store_files n [] = return 0
  store_files n (p ∷ paths) = do
    content ← (λ st. (read_file st.files p, st))
    let rest = store_files (suc n) paths
    if opts.dry_run then rest else (do
      write s mirror p content opts.author (default_message opts.message) (keys n) (now n)
      written ← rest
      return (suc written))

  unfoldable pub apply : Changes → Action Entries Synced
  unfolding store_files
  apply c = if is_unchanged c then return (record { updated = 0; added = 0 }) else (do
    updated ← store_files 0 c.changed
    added ← store_files (length c.changed) c.added
    return (record { updated = updated; added = added }))

  unfoldable pub run : (Bytes → Option Bytes) → Action Entries Synced
  unfolding apply
  run db = do c ← (λ st. (detect st.files db, st)); apply c

  -- runSync of the command line: the map is of the documents as they are listed.
  unfoldable pub run_sync : Action Entries Synced
  unfolding run stored_texts
  run_sync = do docs ← ask (λ db. list db [] false false); run (stored_texts docs)
