-- ===== src/Bridge/Scaler.antt =====
-- bridge/bridge.go: the handlers of the scaler of one scale set. A handler is a step on the bridge
-- and on what it shares with the others, under the locks that the code takes; log lines are left
-- out.
pub mod Desired
pub mod Jobs
pub mod Hydrate
pub mod Owned
pub mod Growth
pub mod Births
use orchard_gh_bridge.Base.{
  ℕ, zero, suc, ◌+◌, ◌-◌, ◌%◌, ◌==◌, ltb, Bool, true, false, not, if◌then◌else◌, Text, codes,
  is_some, List, [], ◌∷◌, length, keep, count_if, get_elem?, Dict, TextSet, lookup, insert, erase,
  has, Option, none, some, Error, plain, wrapped, panicked, Done, Result, ok, err,
}
use orchard_gh_bridge.Base.Int.{
  ℤ, pos, negsuc, pos_part, two_64, add_int, sub_int, to_int, ltb_ℤ, leb_ℤ, eqb_ℤ,
}
use orchard_gh_bridge.Config.{VmConfig, AutoSizeConfig}
use orchard_gh_bridge.Orchard.{Vm, Worker, is_terminal}
use orchard_gh_bridge.Bridge.Name.{vm_name}
use orchard_gh_bridge.Bridge.Script.{startup_script}
use orchard_gh_bridge.Bridge.Capacity.{Capacity, min_int, try_acquire, release}
use orchard_gh_bridge.Bridge.Labels.{capacity_for_labels}
use orchard_gh_bridge.Bridge.AutoSize.{
  pin_label_key, pin_identity, free_auto_size_workers, auto_sized_vm, auto_size_reserves,
}
use orchard_gh_bridge.Bridge.Services.{Services}
use orchard_gh_bridge.Bridge.StateView.{
  Snapshot, StateView, invalidate, get, managed_vms_for_scale_set, managed_vms_matching_labels,
}
use orchard_gh_bridge.Bridge.Fleet.{
  View, Fleet, Bridge, with_capacity, invalidate_view, get_snapshot, notify_change, vm_spec,
  count_active_vms, copy_labels, merge_pin_label, create_one_vm,
}
use orchard_gh_bridge.Bridge.ScaleUp.{handle_static_scale_up}
use orchard_gh_bridge.Bridge.AutoScaleUp.{handle_auto_size_scale_up}

-- The loop of HydrateFromOrchard: the VMs that are not stopped or failed are adopted.
unfoldable pub adopt : List Vm → Dict Text → ℕ → Dict Text × ℕ
adopt [] active adopted = (active, adopted)
adopt (vm ∷ vms) active adopted =
    if is_terminal vm
    then adopt vms active adopted
    else adopt vms (insert vm.name vm.name active) (adopted + 1)

module _ {W : Type 0} (svc : Services W) where
  -- HandleDesiredRunnerCount: the active count that is reported, and the error.
  pub handle_desired_runner_count : ℤ → Bridge W → Fleet W → (ℕ × Option Error) × Bridge W × Fleet W
  handle_desired_runner_count count b f =
      let current_active = length b.active_vms in
      let needed = sub_int count (pos current_active) in
      if leb_ℤ needed (pos 0)
      then ((current_active, none), b, f)
      else if b.vm_config.auto_size.enabled
      then handle_auto_size_scale_up svc needed current_active b f
      else handle_static_scale_up svc needed current_active b f

  -- HandleJobStarted only logs.
  unfoldable pub handle_job_started : Text → Bridge W → Fleet W → Done × Bridge W × Fleet W
  handle_job_started runner b f = (ok tt, b, f)

  -- What HandleJobCompleted does once its VM is deleted. The runner's removal is best effort.
  pub finish_job : ℤ → Bridge W → Fleet W → Fleet W
  finish_job runner_id b f =
      let (_, w) = svc.remove_runner runner_id f.view.world in
      record f {
        capacity = release (pos 1) f.capacity;
        view = notify_change b (invalidate_view (record f.view { world = w }));
      }

  -- HandleJobCompleted for a runner of that name and ID. A failed delete is queued, not returned.
  pub handle_job_completed : Text → ℤ → Bridge W → Fleet W → Done × Bridge W × Fleet W
  handle_job_completed runner_name runner_id b f = elim (lookup runner_name b.active_vms) [
    | none ↦ (ok tt, b, f)
    | some vm ↦
        let b' = record b { active_vms = erase runner_name b.active_vms } in
        let (deleted, w) = svc.orchard.delete_vm vm f.view.world in
        let f' = record f { view = record f.view { world = w } } in
        elim deleted [
          | err e ↦ (
            ok tt,
            b',
            record f' {
              pending_deletes = elim b.on_delete_failed [
                | none ↦ f.pending_deletes
                | some queue ↦ queue vm f.pending_deletes
              ];
            },
          )
          | ok _ ↦ (ok tt, b', finish_job runner_id b' f')
        ]
  ]

  -- HydrateFromOrchard: how many VMs were adopted, and Get's error.
  unfoldable pub hydrate_from_orchard : Bridge W → Fleet W → (ℕ × Option Error) × Bridge W × Fleet W
  hydrate_from_orchard b f = elim f.view.state [
    | none ↦ ((0, none), b, f)
    | some s ↦
        let (got, s', w) = get svc s f.view.world in
        let f' = record f { view = record { state = some s'; world = w } } in
        elim got.0 [
          | none ↦ ((0, got.1), b, f')
          | some snap ↦
              let (active, adopted) =
                adopt (managed_vms_for_scale_set b.scale_set_name snap) b.active_vms 0 in
              ((adopted, got.1), record b { active_vms = active }, f')
        ]
  ]

-- PurgeActiveVM
unfoldable pub purge_active_vm : {W : Type 0} → Text → Bridge W → Bridge W
purge_active_vm name b = record b { active_vms = erase name b.active_vms }
