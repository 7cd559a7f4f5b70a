-- ===== src/Tests/Listings.antt =====
-- Listings at concrete inputs.
use llmd.Prelude.{true, false, [], ◌∷◌, map, str_le, codes, ok, ◌>>=◌, ◌≡◌, refl}
use llmd.Validate
use llmd.Path.{normalise}
use llmd.Store.Write.{delete_version}
use llmd.Store.Read
use llmd.Store.Stats
use llmd.Service.Read.{list, normalize_prefix}
use llmd.Service.Meta.{list_meta}
use llmd.Ls.{Options, sort_time, run, count}
use llmd.Ls.Agree.{described, run-described}
use llmd.Tests.Database.{sample}

-- the newest first
abbrev newest : Options
newest = record {
  pre = codes "docs/";
  recursive = true;
  include_all = false;
  deleted_only = false;
  long = false;
  tag = [];
  sort = sort_time;
  reverse = false;
}

run-described_example :
    run sample (record newest { long = true })
    ≡ (run sample (record newest { long = false }) >>= λ l. ok (described l))
run-described_example = run-described sample newest refl

newest_test :
    (run sample newest >>= λ l. ok (map (λ d. d.path) l.documents))
    ≡ ok (codes "docs/b" ∷ codes "docs/a" ∷ [])
unfolding run list normalize_prefix normalise Read.list str_le
newest_test = refl

-- With an active version above a deleted one, the short listing of what is deleted has the
-- document, and the long listing leaves it out.
deleted_only_test :
    let db = (delete_version (codes "docs/a") 1 1024 12 sample).1 in
    let opts = record newest { deleted_only = true } in
    ((run db opts >>= λ l. ok (count l)) ≡ ok 1)
    × ((run db (record opts { long = true }) >>= λ l. ok (count l)) ≡ ok 0)
unfolding run count list list_meta normalize_prefix normalise Read.list Stats.list_meta str_le
    delete_version Validate.path
deleted_only_test = (refl, refl)
