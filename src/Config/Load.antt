-- ===== src/Config/Load.antt =====
-- config/config.go: Load, with its defaults and the overrides from the environment. Reading the
-- file and parsing YAML are parameters.
pub mod Defaults
use orchard_gh_bridge.Base.{
  ℕ, ◌+◌, ◌*◌, ◌-◌, ◌==◌, ltb, leb, Bool, true, false, ◌&&◌, ◌||◌, if◌then◌else◌, Text, codes,
  is_empty, List, [], ◌∷◌, map, Option, none, some, Error, plain, Result, ok, err, Io, ◌>>=◌,
  wrap_err,
}
use orchard_gh_bridge.Base.Int.{ℤ, pos, negsuc, two_63, eqb_ℤ}
use orchard_gh_bridge.Base.Time.{Duration}
use orchard_gh_bridge.Config.{Config, ScaleSetConfig}
use orchard_gh_bridge.Config.Validate.{Problem, validate}

abbrev pub text_or : Text → Text → Text
text_or d s = if is_empty s then d else s

abbrev pub port_or : ℤ → ℤ → ℤ
port_or d n = if eqb_ℤ n (pos 0) then d else n

abbrev pub number_or : ℕ → ℕ → ℕ
number_or d n = if n == 0 then d else n

-- The loop body of applyDefaults.
unfoldable pub default_scale_set : ScaleSetConfig → ScaleSetConfig
default_scale_set ss = record ss {
  runner_group = text_or (codes "default") ss.runner_group;
  vm = record ss.vm { cpu = number_or 4 ss.vm.cpu; memory = number_or 8192 ss.vm.memory };
}

-- applyDefaults
unfoldable pub apply_defaults : Config → Config
apply_defaults c = record c {
  log_level = text_or (codes "info") c.log_level;
  orchard = record c.orchard { username = text_or (codes "bootstrap-admin") c.orchard.username };
  health = record { port = port_or (pos 8080) c.health.port };
  metrics = record c.metrics { port = port_or (pos 9090) c.metrics.port };
  scale_sets = map default_scale_set c.scale_sets;
}

-- The digits of strconv.ParseInt(s, 10, 64), after the number so far; there is at least one.
unfoldable pub parse_digits : ℕ → Text → Option ℕ
parse_digits n [] = some n
parse_digits n (c ∷ s) =
    let rest = parse_digits (n * 10 + (c - b'0')) s in
    if leb b'0' c && leb c b'9' then rest else none

unfoldable pub parse_magnitude : Text → Option ℕ
parse_magnitude [] = none
parse_magnitude (c ∷ s) = parse_digits 0 (c ∷ s)

-- The number of a magnitude with its sign, if an int64 holds it.
unfoldable pub signed : Bool → Option ℕ → Option ℤ
signed true none = none
signed false none = none
signed true (some n) =
    if ltb two_63 n then none else some (if n == 0 then pos 0 else negsuc (n - 1))
signed false (some n) = if ltb n two_63 then some (pos n) else none

-- strconv.ParseInt(s, 10, 64), with an error as `none`.
unfoldable pub parse_int : Text → Option ℤ
parse_int [] = none
parse_int (c ∷ s) =
    if c == b'-'
    then signed true (parse_magnitude s)
    else if c == b'+'
    then signed false (parse_magnitude s)
    else signed false (parse_magnitude (c ∷ s))

-- An override of a number, which is left alone if it does not parse.
abbrev pub int_or : ℤ → Text → ℤ
int_or d v = elim (parse_int v) [ none ↦ d | some n ↦ n ]

-- applyEnvOverrides, with os.Getenv as an argument.
unfoldable pub apply_env_overrides : (Text → Text) → Config → Config
apply_env_overrides getenv c =
    let override = λ (key old : Text). text_or old (getenv key) in
    let number = λ (key : Text) (old : ℤ). int_or old (getenv key) in
    record c {
      github = record c.github {
        token = override (codes "ORCHARD_GH_BRIDGE_GITHUB_TOKEN") c.github.token;
        private_key = override (codes "ORCHARD_GH_BRIDGE_GITHUB_PRIVATE_KEY") c.github.private_key;
        app_id = number (codes "ORCHARD_GH_BRIDGE_GITHUB_APP_ID") c.github.app_id;
        installation_id =
            number (codes "ORCHARD_GH_BRIDGE_GITHUB_INSTALLATION_ID") c.github.installation_id;
      };
      orchard = record c.orchard {
        password = override (codes "ORCHARD_GH_BRIDGE_ORCHARD_PASSWORD") c.orchard.password;
      };
    }

-- The end of Load: the error of Validate, whose text is left out, or the configuration.
unfoldable pub accept : Config → List Problem → Result Config
accept c [] = ok c
accept c (p ∷ ps) = err (plain (codes "validating config"))

module _ {W : Type 0} (read_file : Text → Io W Text) (unmarshal : Text → Result Config)
    (getenv : Text → Text) (parse_duration : Text → Result Duration) where
  -- Load
  unfoldable pub load : Text → Io W Config
  load path = do
    data' ← wrap_err (codes "reading config file") (read_file path)
    parsed ← wrap_err (codes "parsing config file") (λ w. (unmarshal data', w))
    λ w.
        let c = apply_env_overrides getenv (apply_defaults parsed) in
        (accept c (validate parse_duration c), w)
