-- ===== src/Tests/Agents.antt =====
-- The tools of an agent, and sequences of calls of the store, at concrete inputs.
use llmd.Prelude.{
  true, false, List, [], ◌∷◌, Option, none, some, Bytes, codes, str_eq, if◌then◌else◌, ok, err,
  err_io, err_invalid_value, ◌≡◌, refl,
}
use llmd.Store.Abstract.{Call, write, delete, delete_version, restore, run, perform, promise}
use llmd.Store.Abstract.View.{view}
use llmd.Store.Abstract.Refines.{run-refines}
use llmd.Service.{Service}
use llmd.Sync.{file, end}
use llmd.Agent.{Request, absent}
use llmd.Agent.Tools.{Libraries}
use llmd.Agent.Server.{Kept, System}
use llmd.Text.Numbers.{atoi}
use llmd.Config.{empty, set, key_of, validate}
use llmd.Agent.Settings.{config_set}
use llmd.Tests.Database.{sample}

abbrev calls : List Call
calls =
    write (codes "docs/a") (codes "three") (codes "bob") [] (codes "k9") 20
    ∷ delete (codes "docs/a") 21
    ∷ delete_version (codes "docs/b") 0 22
    ∷ restore (codes "docs/a")
    ∷ []

run-refines_example :
    ((run (perform 1024 1000) calls sample).0 ≡ (run (promise 1024 1000) calls (view sample)).0)
    × (view (run (perform 1024 1000) calls sample).1
        ≡ (run (promise 1024 1000) calls (view sample)).1)
run-refines_example = run-refines 1024 1000 calls sample

-- a call with a path and a text, and no author
abbrev string_of : Bytes → Option Bytes
unfolding str_eq
string_of name =
    if str_eq name (codes "path")
    then some (codes "docs/a")
    else if str_eq name (codes "content")
    then some (codes "x")
    else none

abbrev anonymous : Request
anonymous = record { argument = λ name. absent; require_string = string_of }

abbrev service : Service
service = record { sync_files = true; max_path = 1024; max_content = 1000; has_context = true }

abbrev libraries : Libraries
libraries = record {
  to_lower = λ s. s;
  diff_main = λ old new. [];
  compile = λ pattern fold. ok (λ line. str_eq pattern line);
  max_line_length = 0;
}

abbrev start : Kept
start = record {
  service = record { db = sample; files = end; events = [] };
  outside = end;
  config = empty;
}

abbrev system : System
system = record {
  has_files = true;
  stat = λ path. file (codes "x");
  is_dir = λ path. false;
  load = ok;
  save = λ c. ok tt;
  reload = ok tt;
}

-- a setting that is refused, and one that is saved and not taken over
abbrev setting : Bytes → Request
unfolding str_eq
setting value = record {
  argument = λ name. absent;
  require_string =
      λ name. if str_eq name (codes "key") then some (codes "limits.max_path") else some value;
}

config_set_test :
    (config_set (λ s. s) (ok empty) (λ c. ok tt) (ok tt) (setting (codes "x"))
      ≡ err err_invalid_value)
    × (config_set (λ s. s) (err err_io) (λ c. ok tt) (ok tt) (setting (codes "7")) ≡ err err_io)
    × (config_set (λ s. s) (ok empty) (λ c. err err_io) (ok tt) (setting (codes "7")) ≡ err err_io)
unfolding config_set setting str_eq set key_of atoi validate
config_set_test = (refl, refl, refl)
