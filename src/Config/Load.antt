-- ===== src/Config/Load.antt =====
-- internal/config/config.go: `Load` and `validate`. The file system and the YAML library, which fills
-- in the configuration that it is given, are parameters.
pub mod Valid
mod Tests
use wsapi_app.Common.{
  Bool, not, ◌&&◌, String, ◌==◌, Option, none, some, List, [], ◌∷◌, ◌++◌, contains, if◌then◌else◌,
  Result, ok, err,
}
use wsapi_app.Config.{Config, RedisConfig, defaults}
use wsapi_app.Config.Env.{apply_env}

-- `os.ReadFile`
pub data FileResult : Type 0 where
  contents : String → FileResult
  not_exist failed : FileResult

-- The errors of `Load`. An invalid setting has its field, its value and the values allowed.
pub data ConfigError : Type 0 where
  reading parsing : ConfigError
  invalid : String → String → List String → ConfigError

-- `checks`: a field, its value, and what is allowed.
abbrev pub Check : Type 0
Check = String × String × List String

abbrev pub log_levels : List String
log_levels = "debug" ∷ "info" ∷ "warn" ∷ "error" ∷ []

abbrev pub redis_checks : Option RedisConfig → List Check
redis_checks none = []
redis_checks (some r) =
    if not (r.mode == "") then ("redis.mode", r.mode, "standalone" ∷ "sentinel" ∷ []) ∷ [] else []

unfoldable pub checks : Config → List Check
checks cfg =
    (("instanceMode", cfg.instance_mode, "single" ∷ "multi" ∷ [])
      ∷ ("eventsPublishVia", cfg.events_publish_via, "none" ∷ "webhook" ∷ "redis" ∷ [])
      ∷ ("database.driver", cfg.database.driver, "sqlite" ∷ "postgres" ∷ [])
      ∷ ("logging.level", cfg.logging.level, log_levels)
      ∷ ("logging.format", cfg.logging.format, "text" ∷ "json" ∷ [])
      ∷ ("whatsmeow.logLevel", cfg.whatsmeow.log_level, log_levels)
      ∷ (
        "whatsmeow.pairClientType",
        cfg.whatsmeow.pair_client_type,
        "chrome" ∷ "edge" ∷ "firefox" ∷ "opera" ∷ "safari" ∷ [],
      )
      ∷ ("whatsmeow.pairClientOs", cfg.whatsmeow.pair_client_os, "Windows" ∷ "Linux" ∷ "macOS" ∷ [])
      ∷ [])
    ++ redis_checks cfg.redis

-- The loop over the checks: the first that fails.
unfoldable pub run_checks : List Check → Option ConfigError
run_checks [] = none
run_checks ((field, value, allowed) ∷ rest) =
    let later = run_checks rest in
    if contains value allowed then later else some (invalid field value allowed)

-- `validate`
unfoldable pub validate : Config → Option ConfigError
validate cfg = run_checks (checks cfg)

module _ (getenv : String → String) (read_file : String → FileResult)
    (unmarshal : String → Config → Option Config) where
  -- The configuration before the environment is read.
  unfoldable pub load_file : String → Result ConfigError Config
  load_file path = if path == "" then ok defaults else elim (read_file path) [
    | not_exist ↦ ok defaults
    | failed ↦ err reading
    | contents text ↦ elim (unmarshal text defaults) [ none ↦ err parsing | some cfg ↦ ok cfg ]
  ]

  -- `Load`
  unfoldable pub load : String → Result ConfigError Config
  load path = elim (load_file path) [
    | err e ↦ err e
    | ok file ↦
        let cfg = apply_env getenv file in elim (validate cfg) [ some e ↦ err e | none ↦ ok cfg ]
  ]
