-- ===== src/Commands/Vacuum.antt =====
-- internal/vacuum: removing what was deleted, or showing what would be removed. The clock and the age
-- are in nanoseconds.
use llmd.Prelude.{ℕ, Bool, true, false, List, [], Option, Bytes, length, map, if◌then◌else◌}
use llmd.Sql.{select}
use llmd.Store.{Document}
use llmd.Store.Vacuum.{cutoff, expired}
use llmd.Service.{Service, Mirror, Action, return, ask, ◌>>=◌}
use llmd.Service.Read.{list}
use llmd.Service.Write

-- vacuum.Options and vacuum.Result
pub record Options : Type 0 where
  pub older_than : Option ℕ
  pub pre : Bytes
  pub dry_run : Bool

pub record Vacuumed : Type 0 where
  pub deleted : ℕ
  pub paths : List Bytes

-- preview, after the query
unfoldable pub would_delete : Options → ℕ → List Document → Vacuumed
unfolding select
would_delete opts now docs =
    let old = select (λ d. expired (cutoff now opts.older_than) d.deleted_at) docs in
    record { deleted = length old; paths = map (λ d. d.path) old }

unfoldable pub run : {Files : Type 0} → Service → Mirror Files → Options → ℕ → Action Files Vacuumed
unfolding would_delete
run s fs opts now =
    if opts.dry_run
    then (do docs ← ask (λ db. list db opts.pre false true); return (would_delete opts now docs))
    else (do
      count ← Write.vacuum s fs opts.older_than opts.pre now
      return (record { deleted = count; paths = [] }))
