-- ===== src/Bridge/ScaleUp.antt =====
-- bridge/bridge.go: HandleDesiredRunnerCount with the fixed size of vm.cpu and vm.memory.
pub mod Slots
pub mod Owned
pub mod Growth
pub mod Births
use orchard_gh_bridge.Base.{
  ℕ, zero, suc, ◌+◌, ◌-◌, ◌%◌, ◌==◌, ltb, Bool, true, false, not, if◌then◌else◌, Text, codes,
  is_some, List, [], ◌∷◌, length, keep, count_if, get_elem?, Dict, TextSet, lookup, insert, erase,
  has, Option, none, some, Error, plain, wrapped, panicked, Done, Result, ok, err,
}
use orchard_gh_bridge.Base.Int.{
  ℤ, pos, negsuc, pos_part, two_64, add_int, sub_int, to_int, ltb_ℤ, leb_ℤ, eqb_ℤ,
}
use orchard_gh_bridge.Config.{VmConfig, AutoSizeConfig}
use orchard_gh_bridge.Orchard.{Vm, Worker, is_terminal}
use orchard_gh_bridge.Bridge.Name.{vm_name}
use orchard_gh_bridge.Bridge.Script.{startup_script}
use orchard_gh_bridge.Bridge.Capacity.{Capacity, min_int, try_acquire, release}
use orchard_gh_bridge.Bridge.Labels.{capacity_for_labels}
use orchard_gh_bridge.Bridge.AutoSize.{
  pin_label_key, pin_identity, free_auto_size_workers, auto_sized_vm, auto_size_reserves,
}
use orchard_gh_bridge.Bridge.Services.{Services}
use orchard_gh_bridge.Bridge.StateView.{
  Snapshot, StateView, invalidate, get, managed_vms_for_scale_set, managed_vms_matching_labels,
}
use orchard_gh_bridge.Bridge.Fleet.{
  View, Fleet, Bridge, with_capacity, invalidate_view, get_snapshot, notify_change, vm_spec,
  count_active_vms, copy_labels, merge_pin_label, create_one_vm,
}

-- What the loop over the acquired slots did: the VMs created, the error that stopped it, if any,
-- and the states that it left.
abbrev pub Created : Type 0 → Type 0
Created W = (ℕ × Option Error) × Bridge W × W

-- The end of HandleDesiredRunnerCount. On an error the slots that were not used go back, and the
-- cache is not invalidated.
pub finish_scale_up :
    {W : Type 0} → ℤ → ℕ → Fleet W → Created W → (ℕ × Option Error) × Bridge W × Fleet W
finish_scale_up acquired current_active f ((created, none), b, w) =
    let view = record f.view { world = w } in
    (
      (current_active + created, none),
      b,
      record f { view = notify_change b (invalidate_view view) },
    )
finish_scale_up acquired current_active f ((created, some e), b, w) = (
  (current_active + created, some e),
  b,
  record f {
    capacity = release (sub_int acquired (pos created)) f.capacity;
    view = notify_change b (record f.view { world = w });
  },
)

-- The free slots on the workers that match the scale set's labels.
pub free_slots : Snapshot → Dict Text → ℤ
free_slots snap labels =
    sub_int (capacity_for_labels snap.workers labels)
      (pos (count_active_vms (managed_vms_matching_labels snap labels)))

module _ {W : Type 0} (svc : Services W) where
  -- The loop of HandleDesiredRunnerCount over the rounds left: how many VMs it created, and the
  -- error that stopped it.
  pub create_vms : ℕ → ℕ → Bridge W → W → Created W
  create_vms zero created b w = ((created, none), b, w)
  create_vms (suc rounds) created b w =
      let cfg = b.vm_config in
      let (r, b', w') = create_one_vm svc cfg.cpu cfg.memory cfg.labels b w in
      elim r [ ok _ ↦ create_vms rounds (created + 1) b' w' | err e ↦ ((created, some e), b', w') ]

  -- HandleDesiredRunnerCount past the test for a positive need, from TryAcquire on.
  pub scale_up : ℤ → ℕ → Bridge W → Fleet W → (ℕ × Option Error) × Bridge W × Fleet W
  scale_up needed current_active b f =
      let (acquired, capacity) = try_acquire needed f.capacity in
      if eqb_ℤ acquired (pos 0)
      then ((current_active, none), b, with_capacity capacity f)
      else finish_scale_up acquired current_active (with_capacity capacity f)
          (create_vms (pos_part acquired) 0 b f.view.world)

  -- HandleDesiredRunnerCount past the test for a positive need, with vm.cpu and vm.memory.
  unfoldable pub handle_static_scale_up :
      ℤ → ℕ → Bridge W → Fleet W → (ℕ × Option Error) × Bridge W × Fleet W
  handle_static_scale_up needed current_active b f = elim f.view.state [
    | none ↦ scale_up needed current_active b f
    | some s ↦
        let (snap, view) = get_snapshot svc s f.view in
        let f' = record f { view = view } in
        elim snap [
          | none ↦ ((current_active, none), b, f')
          | some snap ↦
              let free = free_slots snap b.vm_config.labels in
              if leb_ℤ free (pos 0)
              then ((current_active, none), b, f')
              else scale_up (min_int needed free) current_active b f'
        ]
  ]
