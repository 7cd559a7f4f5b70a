-- ===== src/Commands/History.antt =====
-- internal/history: the versions of a document that is named by its path or key.
use llmd.Prelude.{ℕ, Bool, List, [], ◌∷◌, Bytes, Result, ok, err, err_missing, ◌>>=◌}
use llmd.Store.{Document, Db}
use llmd.Service.Read.{resolve, history}

-- history.Options, less what changes the output
pub record Options : Type 0 where
  pub limit : ℕ
  pub include_deleted : Bool

abbrev some_versions : List Document → Result (List Document)
some_versions [] = err err_missing
some_versions (d ∷ docs) = ok (d ∷ docs)

unfoldable pub run : Db → Bytes → Options → Result (List Document)
run db path opts = do
  found ← resolve db path opts.include_deleted
  docs ← history db found.0.path opts.limit opts.include_deleted
  some_versions docs
