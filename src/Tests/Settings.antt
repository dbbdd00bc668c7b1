-- ===== src/Tests/Settings.antt =====
-- Configurations at concrete inputs.
use orchard_gh_bridge.Base.{
  ℕ, ◌≡◌, ◌↔◌, refl, some, true, false, if◌then◌else◌, Text, codes, text_eq, [], ◌∷◌, plain, Result,
  ok, err, Io,
}
use orchard_gh_bridge.Base.Int.{pos, negsuc}
use orchard_gh_bridge.Base.Time.{Duration}
use orchard_gh_bridge.Config.{Config, GithubConfig}
use orchard_gh_bridge.Config.Validate.{
  validate, scale_set_problems, has_auth, positive_problems, prune_problems, is_prune_too_soon,
}
use orchard_gh_bridge.Config.Validate.Rules.{IsAccepted}
use orchard_gh_bridge.Config.Validate.Pruning.{validate_iff}
use orchard_gh_bridge.Config.Durations.{worker_prune_after_duration, effective_worker_stale_after}
use orchard_gh_bridge.Config.Load.{
  default_scale_set, apply_defaults, parse_digits, parse_magnitude, signed, parse_int,
  apply_env_overrides, accept, load,
}
use orchard_gh_bridge.Config.Load.Defaults.{HasDefaults, load-IsAccepted}
use orchard_gh_bridge.Bridge.Live.{worker_live}
use orchard_gh_bridge.Bridge.Cleanup.{is_older, set_worker_prune_after}
use orchard_gh_bridge.Manager.Access.{Login}
use orchard_gh_bridge.Manager.Wiring.{manager_stale_after, wire_cleanup}
use orchard_gh_bridge.Manager.Wiring.Limits.{wire_cleanup-limits}
use orchard_gh_bridge.Tests.Data.{ci, bridge, services, worker_a}

-- A parser of two durations.
abbrev parse_duration : Text → Result Duration
parse_duration s =
    if text_eq s (codes "1h")
    then ok (pos 3600000000000)
    else if text_eq s (codes "2h")
    then ok (pos 7200000000000)
    else err (plain (codes "duration"))

-- A file as it is parsed: no defaults yet, and the token only in the environment.
abbrev file : Config
file = record {
  log_level = [];
  max_vms = pos 0;
  max_vm_age = codes "2h";
  worker_stale_after = codes "1h";
  worker_prune_after = codes "2h";
  max_pending_age = [];
  orchard = record { address = codes "http://o"; username = []; password = []; insecure = false };
  github = record {
    app_id = pos 0;
    installation_id = pos 0;
    private_key_path = [];
    private_key = [];
    token = [];
  };
  scale_sets =
      record {
        name = ci;
        github_config_url = codes "u";
        labels = [];
        runner_group = [];
        max_runners = pos 0;
        vm = record bridge.vm_config { cpu = 0 };
      }
      ∷ [];
  health = record { port = pos 0 };
  metrics = record { enabled = false; port = pos 0 };
}

abbrev getenv : Text → Text
getenv key = if text_eq key (codes "ORCHARD_GH_BRIDGE_GITHUB_TOKEN") then codes "secret" else []

abbrev loaded : Config
loaded = record file {
  log_level = codes "info";
  orchard = record file.orchard { username = codes "bootstrap-admin" };
  github = record file.github { token = codes "secret" };
  scale_sets =
      record {
        name = ci;
        github_config_url = codes "u";
        labels = [];
        runner_group = codes "default";
        max_runners = pos 0;
        vm = bridge.vm_config;
      }
      ∷ [];
  health = record { port = pos 8080 };
  metrics = record { enabled = false; port = pos 9090 };
}

abbrev read_file : Text → Io ℕ Text
read_file path w = (ok path, w)

abbrev unmarshal : Text → Result Config
unmarshal s = ok file

parse_int_test : parse_int (codes "-120") ≡ some (negsuc 119)
unfolding parse_int signed parse_magnitude parse_digits
parse_int_test = refl

validate_iff_example : (validate parse_duration file ≡ []) ↔ IsAccepted parse_duration file
validate_iff_example = validate_iff parse_duration file

load-IsAccepted_example : IsAccepted parse_duration loaded × HasDefaults loaded
unfolding load apply_defaults default_scale_set apply_env_overrides parse_int accept validate
    positive_problems text_eq prune_problems is_prune_too_soon worker_prune_after_duration
    effective_worker_stale_after has_auth scale_set_problems
load-IsAccepted_example =
    load-IsAccepted read_file unmarshal getenv parse_duration (codes "config.yaml") 0 loaded refl

-- An app's login, with its key in a file.
abbrev app_login : GithubConfig
app_login = record file.github {
  app_id = pos 5;
  installation_id = pos 6;
  private_key_path = codes "/key.pem";
}

abbrev connect : Text → Login → Io ℕ Login
connect url login w = (ok login, w)

-- With pruning after two hours, and a stale limit of one.
wire_cleanup-limits_example :
    worker_live
      (record worker_a { last_seen = 1 })
      (manager_stale_after parse_duration loaded)
      9000000000000
    ≡ false
unfolding validate positive_problems text_eq prune_problems is_prune_too_soon
    worker_prune_after_duration effective_worker_stale_after has_auth scale_set_problems
    wire_cleanup set_worker_prune_after is_older
wire_cleanup-limits_example =
    wire_cleanup-limits parse_duration loaded refl services true (record worker_a { last_seen = 1 })
      9000000000000 refl refl
