-- ===== src/Agent/Server/Audited.antt =====
-- Which calls of an agent can change what the server keeps.
use llmd.Prelude.{Bool, true, false, if◌then◌else◌, ◌≡◌}
use llmd.Service.{Service}
use llmd.Agent.Audit.{only_reads}
use llmd.Agent.Server.{
  Call, on_documents, llmd_sync, llmd_import, llmd_export, llmd_config_get, llmd_config_set, Kept,
}

-- the tools that change neither the service nor the configuration, whoever calls them
abbrev pub only_asks : Call → Bool
only_asks (on_documents tool) = only_reads tool
only_asks llmd_sync = false
only_asks llmd_import = false
only_asks llmd_export = true
only_asks llmd_config_get = true
only_asks llmd_config_set = false

abbrev pub is_export : Call → Bool
is_export llmd_export = true
is_export _ = false

-- The service and the configuration stay, and so do the files outside, unless they are to change.
abbrev pub Stays : Bool → Kept → Kept → Type 0
Stays exporting st after =
    (after.service ≡ st.service)
    × (after.config ≡ st.config)
    × ((if exporting then st.outside else after.outside) ≡ st.outside)
