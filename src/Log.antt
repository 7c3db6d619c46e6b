-- ===== src/Log.antt =====
-- internal/log/logger.go.
use maxwell_go_spine.Prelude.{String, Bool, true, false, Option, none, some, ◌==◌, if◌then◌else◌}
use maxwell_go_spine.Go.Error.{Result, ok, and_then}

-- The settings of a `zap.Config` that the program changes; `level` is none where the default of
-- `NewProductionConfig` or `NewDevelopmentConfig` stays.
pub record ZapConfig (Level : Type 0) : Type 0 where
  pub production : Bool
  pub level : Option Level
  pub time_key : String
  pub iso8601 : Bool

-- `AtomicLevel.UnmarshalText` and `zap.Config.Build`.
pub record Zap (Level Logger : Type 0) : Type 0 where
  pub parse_level : String → Result Level
  pub build : ZapConfig Level → Result Logger

module _ {Level Logger : Type 0} (zap : Zap Level Logger) where
  unfoldable pub config_for : String → ZapConfig Level
  config_for env = record {
    production = env == "prod";
    level = none;
    time_key = "";
    iso8601 = false;
  }

  unfoldable pub with_level : String → ZapConfig Level → Result (ZapConfig Level)
  with_level lvl cfg =
      if lvl == ""
      then ok cfg
      else and_then (zap.parse_level lvl) λ level. ok (record cfg { level = some level })

  unfoldable pub new : String → String → Result Logger
  unfolding config_for with_level
  new env lvl =
      and_then (with_level lvl (config_for env))
        λ cfg. zap.build (record cfg { time_key = "ts"; iso8601 = true })
