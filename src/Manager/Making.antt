-- ===== src/Manager/Making.antt =====
-- manager/manager.go: New, and the callback that Run registers on the pool.
use orchard_gh_bridge.Base.{Text, Result}
use orchard_gh_bridge.Base.Time.{Duration}
use orchard_gh_bridge.Config.{Config}
use orchard_gh_bridge.Config.Durations.{worker_stale_after_duration}
use orchard_gh_bridge.Bridge.Capacity.{Capacity, new_capacity, on_workers_changed}
use orchard_gh_bridge.Bridge.Services.{Services}
use orchard_gh_bridge.Bridge.StateView.{StateView, new_state_view, default_state_view_ttl}
use orchard_gh_bridge.Bridge.Fleet.{View}
use orchard_gh_bridge.Manager.{initial_max}
use orchard_gh_bridge.Manager.Wiring.{Managed, recompute, manager_stale_after}

-- What New makes for the bridges to share, and staleAfter. The metrics and the monitor begin empty.
pub record Made (S : Type 0) : Type 0 where
  pub capacity : Capacity S
  pub state : StateView
  pub stale_after : Duration

module _ {W S : Type 0} (parse_duration : Text → Result Duration) (svc : Services W) where
  -- New
  pub new_manager : Config → W → Made S × W
  new_manager cfg w =
      let (max, w') =
        initial_max svc cfg.max_vms (worker_stale_after_duration parse_duration cfg) w in
      let stale_after = manager_stale_after parse_duration cfg in
      (
        record {
          capacity = new_capacity max;
          state = new_state_view default_state_view_ttl stale_after;
          stale_after = stale_after;
        },
        w',
      )

-- The start of Run: the shares are recomputed whenever the pool of workers changes.
pub watch_workers : {W : Type 0} → Services W → Made (View (Managed W)) → Made (View (Managed W))
watch_workers svc made = record made {
  capacity = on_workers_changed (λ workers. recompute svc) made.capacity;
}
