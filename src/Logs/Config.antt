-- ===== src/Logs/Config.antt =====
-- `readConfig` of server/src/config/pulsarLogsTransport.ts.
use expense_management_syste.Base.{
  ◌&&◌, Option, none, some, List, [], ◌∷◌, Text, codes, text_eq, any, map, if◌then◌else◌,
}
use expense_management_syste.Requests.{trim}
use expense_management_syste.Auth.{is_nonempty}

pub record PulsarLogsConfig : Type 0 where
  pub url : Text
  pub key : Text
  pub source : Text
  pub env : Text
  pub level : Text

-- The variables of the process that `readConfig` reads.
pub record Variables : Type 0 where
  pub pulsar_logs_url : Option Text
  pub logs_ingest_key : Option Text
  pub pulsar_logs_source : Option Text
  pub pulsar_logs_level : Option Text
  pub node_env : Option Text

-- `NPM_LEVELS`
abbrev pub npm_levels : List Text
npm_levels = map codes ("error" ∷ "warn" ∷ "info" ∷ "http" ∷ "verbose" ∷ "debug" ∷ "silly" ∷ [])

-- `resolveTransportLevel`
unfoldable pub resolve_transport_level : Option Text → Text
resolve_transport_level none = codes "warn"
resolve_transport_level (some requested) =
    if is_nonempty requested && any (text_eq requested) npm_levels then requested else codes "warn"

-- `value?.trim()`, where an empty text counts as none
unfoldable pub trimmed : Option Text → Option Text
unfolding trim
trimmed none = none
trimmed (some s) = if is_nonempty (trim s) then some (trim s) else none

abbrev if_missing : Option Text → Text → Text
if_missing none d = d
if_missing (some s) d = s

-- `readConfig`
unfoldable pub read_config : Variables → Option PulsarLogsConfig
unfolding trimmed resolve_transport_level
read_config env = elim (trimmed env.pulsar_logs_url) [
  | none ↦ none
  | some url ↦ elim (trimmed env.logs_ingest_key) [
    | none ↦ none
    | some key ↦ some (record {
      url = url;
      key = key;
      source = if_missing (trimmed env.pulsar_logs_source) (codes "expense-management-api");
      env = if_missing env.node_env (codes "development");
      level = resolve_transport_level env.pulsar_logs_level;
    })
  ]
]
