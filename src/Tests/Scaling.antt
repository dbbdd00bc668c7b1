-- ===== src/Tests/Scaling.antt =====
-- Scale-ups, jobs and the shared pool at concrete inputs.
use orchard_gh_bridge.Base.{ℕ, refl, true, text_eq, lookup, arith, ◌+◌, ◌≡◌, ok}
use orchard_gh_bridge.Base.Int.{pos}
use orchard_gh_bridge.Bridge.Capacity.{try_acquire}
use orchard_gh_bridge.Bridge.Capacity.Sharing.{
  Shared, here, next, takes, gives, take_slots, give_slots, IsCounted, Reach-IsCounted,
}
use orchard_gh_bridge.Bridge.Fleet.{View}
use orchard_gh_bridge.Bridge.ScaleUp.{scale_up}
use orchard_gh_bridge.Bridge.ScaleUp.Slots.{Accounts, AccountsForAll}
use orchard_gh_bridge.Bridge.Scaler.{handle_desired_runner_count, handle_job_completed}
use orchard_gh_bridge.Bridge.Services.{Services}
use orchard_gh_bridge.Bridge.Journal.{Births, IsQuiet}
use orchard_gh_bridge.Bridge.Scaler.Births.{handle_desired_runner_count-creates, scale_up-creates}
use orchard_gh_bridge.Bridge.Scaler.Jobs.{Completed, handle_job_completed_lem}
use orchard_gh_bridge.Tests.Data.{
  still_services, keeps, vm_ci, services, pool, pool-IsValid, fleet, bridge,
}

-- The world is the number of VMs that were created.
abbrev counting : Services ℕ
counting = still_services (λ vm w. (ok vm, w + 1)) (λ name. keeps tt) (λ name. keeps tt)

counting-Births : Births counting (λ w. w)
counting-Births = record {
  reads = record { now = λ w. refl; list_vms = λ w. refl; list_workers = λ w. refl };
  creates = λ vm w. refl;
  uuids = λ w. refl;
  jits = λ name id w. refl;
}

bridge-IsQuiet : IsQuiet (λ (w : ℕ). w) bridge.on_vm_change
bridge-IsQuiet fn e v = absurd (ground (arith, e))

handle_desired_runner_count-creates_example :
    let out = handle_desired_runner_count counting (pos 3) bridge fleet in
    (a : Accounts 2 1 pool-IsValid out) × (out.2.view.world ≡ 7 + a.created)
handle_desired_runner_count-creates_example =
    handle_desired_runner_count-creates counting (λ w. w) counting-Births 3 bridge fleet
      pool-IsValid (omega arith) (omega arith) bridge-IsQuiet

scale_up-creates_example :
    let out = scale_up counting (pos 5) 1 bridge fleet in
    (a : AccountsForAll 3 1 pool-IsValid out) × (out.2.view.world ≡ 7 + a.0.created)
scale_up-creates_example =
    scale_up-creates counting (λ w. w) counting-Births 5 1 bridge fleet pool-IsValid bridge-IsQuiet

handle_job_completed_lem_example :
    Completed vm_ci.name vm_ci.name true bridge fleet pool-IsValid
      (handle_job_completed services vm_ci.name (pos 9) bridge fleet)
unfolding lookup text_eq
handle_job_completed_lem_example =
    handle_job_completed_lem services vm_ci.name vm_ci.name (pos 9) bridge fleet pool-IsValid refl

-- Two bridges that take and give slots.
abbrev shared : Shared (View ℕ)
shared = record { pool = pool; held = 1 }

Reach-IsCounted_example : IsCounted 4 (give_slots 1 (take_slots 9 (take_slots 2 shared)))
unfolding try_acquire
Reach-IsCounted_example =
    Reach-IsCounted 4
      (next (next (next here (takes shared 2)) (takes _ 9)) (gives _ 1 (omega arith)))
      (record { current_eq = refl; max_eq = refl; limit_int = omega arith; within = omega arith })
