-- ===== src/Bridge/Services.antt =====
-- What the package bridge calls outside itself: Orchard's controller through the interface Client,
-- the clock, the UUID generator and GitHub's scale set client.
use orchard_gh_bridge.Base.{Text, Option, Io}
use orchard_gh_bridge.Base.Int.{ℤ}
use orchard_gh_bridge.Base.Time.{Time}
use orchard_gh_bridge.Orchard.{Client}

pub record Services (W : Type 0) : Type 0 where
  pub orchard : Client W
  pub now : W → Time × W
  pub new_uuid : W → Text × W
  -- GenerateJitRunnerConfig(name, scaleSetID), by the encoded config that it returns
  pub generate_jit : Text → ℤ → Io W Text
  pub remove_runner : ℤ → Io W Unit
  -- GetRunnerByName, by the runner's ID; a nil runner is `none`
  pub get_runner_by_name : Text → Io W (Option ℤ)
