-- ===== src/Tests/Viewing.antt =====
-- The shared view at concrete inputs.
use orchard_gh_bridge.Base.{◌≡◌, ◌↔◌, refl, In, none, some, arith}
use orchard_gh_bridge.Base.Int.{pos}
use orchard_gh_bridge.Bridge.Live.{worker_live, live_workers}
use orchard_gh_bridge.Bridge.StateView.{
  StateView, refresh, Snapshot, new_snapshot, invalidate, finish_refresh, get,
  managed_vms_matching_labels,
}
use orchard_gh_bridge.Bridge.StateView.Fresh.{
  IsLed, IsAnswer, get-IsAnswer, invalidate-finish_refresh,
}
use orchard_gh_bridge.Bridge.StateView.Matching.{IsCounted, managed_vms_matching_labels_iff}
use orchard_gh_bridge.Tests.Data.{vms, vm_ci, workers, ci_labels, services, state}

abbrev found : Snapshot
found = new_snapshot vms workers 9 (pos 120000000000)

-- A view that has a snapshot of the time 9.
abbrev cached : StateView
cached = record state { snap = some found }

get-IsAnswer_example : IsAnswer services cached 7 (get services cached 7)
get-IsAnswer_example = get-IsAnswer services cached 7

-- The refresh reads at the time 9, past the two lists.
invalidate-finish_refresh_example :
    IsLed services (invalidate cached) 12 (get services (invalidate cached) 12)
    × (get services
          (finish_refresh (some found) (invalidate cached) (refresh services cached 7).0).1
          12
        ≡ ((some found, none), record cached { snap = some found; last_err = none }, 13))
unfolding new_snapshot refresh
invalidate-finish_refresh_example = invalidate-finish_refresh services cached 12 7 found refl refl

managed_vms_matching_labels_iff_example :
    In vm_ci (managed_vms_matching_labels found ci_labels)
    ↔ (In vm_ci found.vms × IsCounted found ci_labels vm_ci)
unfolding new_snapshot live_workers worker_live
managed_vms_matching_labels_iff_example =
    managed_vms_matching_labels_iff vms workers 9 (pos 120000000000) ci_labels vm_ci
      (((λ e. ground (arith, e)), tt), (tt, tt))
