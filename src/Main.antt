-- ===== src/Main.antt =====
-- main.go: the choice of the configuration file and of the log level, and the order of the start.
-- Signals, the log handler and the two HTTP servers are left out: a server that is started is listed.
use orchard_gh_bridge.Base.{
  ℕ, if◌then◌else◌, Text, text_eq, codes, is_empty, List, [], ◌∷◌, ok, err, Io,
}
use orchard_gh_bridge.Base.Int.{ℤ}
use orchard_gh_bridge.Config.{Config, OrchardConfig}

-- The flag, else CONFIG_PATH, else the default.
pub config_path : Text → Text → Text
config_path flag env =
    if is_empty flag then if is_empty env then codes "/config/config.yaml" else env else flag

pub data Level : Type 0 where
  debug info warn error : Level

-- setupLogger
pub log_level : Text → Level
log_level level =
    if text_eq level (codes "debug")
    then debug
    else if text_eq level (codes "warn")
    then warn
    else if text_eq level (codes "error")
    then error
    else info

pub data Server : Type 0 where
  health metrics : ℤ → Server

-- How the process ends, and what it has started.
pub record Exit : Type 0 where
  pub code : ℕ
  pub level : List Level
  pub started : List Server

module _ {W C M : Type 0} (load : Text → Io W Config) (new_client : OrchardConfig → Io W C)
    (new_manager : Config → C → Io W M) (run : M → Io W (Unit {0})) where
  abbrev servers_of : Config → List Server
  servers_of cfg =
      health cfg.health.port ∷ (if cfg.metrics.enabled then metrics cfg.metrics.port ∷ [] else [])

  -- main, from the servers on
  run_manager : Config → C → W → ℕ × W
  run_manager cfg client w =
      let (made, w') = new_manager cfg client w in
      elim made [
        | err e ↦ (1, w')
        | ok mgr ↦ let (r, w'') = run mgr w' in (elim r [ err e ↦ 1 | ok _ ↦ 0 ], w'')
      ]

  -- main
  pub start : Text → Text → W → Exit × W
  start flag env w =
      let (loaded, w1) = load (config_path flag env) w in
      elim loaded [
        | err e ↦ (record { code = 1; level = []; started = [] }, w1)
        | ok cfg ↦
            let level = log_level cfg.log_level ∷ [] in
            let (connected, w2) = new_client cfg.orchard w1 in
            elim connected [
              | err e ↦ (record { code = 1; level = level; started = [] }, w2)
              | ok client ↦
                  let (code, w3) = run_manager cfg client w2 in
                  (record { code = code; level = level; started = servers_of cfg }, w3)
            ]
      ]
