-- ===== src/Bridge/AutoScaleUp.antt =====
-- bridge/bridge.go: handleAutoSizeScaleUp, one VM for each free worker.
pub mod Slots
pub mod Placement
pub mod Owned
pub mod Growth
pub mod Births
use orchard_gh_bridge.Base.{
  ℕ, zero, suc, ◌+◌, ◌-◌, ◌%◌, ◌==◌, ltb, Bool, true, false, not, if◌then◌else◌, Text, codes,
  is_some, List, [], ◌∷◌, length, keep, count_if, get_elem?, Dict, TextSet, lookup, insert, erase,
  has, Option, none, some, Error, plain, wrapped, panicked, Done, Result, ok, err,
}
use orchard_gh_bridge.Base.Int.{
  ℤ, pos, negsuc, pos_part, two_64, add_int, sub_int, to_int, ltb_ℤ, leb_ℤ, eqb_ℤ,
}
use orchard_gh_bridge.Config.{VmConfig, AutoSizeConfig}
use orchard_gh_bridge.Orchard.{Vm, Worker, is_terminal}
use orchard_gh_bridge.Bridge.Name.{vm_name}
use orchard_gh_bridge.Bridge.Script.{startup_script}
use orchard_gh_bridge.Bridge.Capacity.{Capacity, min_int, try_acquire, release}
use orchard_gh_bridge.Bridge.Labels.{capacity_for_labels}
use orchard_gh_bridge.Bridge.AutoSize.{
  pin_label_key, pin_identity, free_auto_size_workers, auto_sized_vm, auto_size_reserves,
}
use orchard_gh_bridge.Bridge.Services.{Services}
use orchard_gh_bridge.Bridge.StateView.{
  Snapshot, StateView, invalidate, get, managed_vms_for_scale_set, managed_vms_matching_labels,
}
use orchard_gh_bridge.Bridge.Fleet.{
  View, Fleet, Bridge, with_capacity, invalidate_view, get_snapshot, notify_change, vm_spec,
  count_active_vms, copy_labels, merge_pin_label, create_one_vm,
}

-- candidates[(start+i)%len(candidates)], where an index below zero panics.
pub pick : List Worker → ℕ → ℕ → Option Worker
pick candidates start i = elim (add_int (to_int start) (pos i)) [
  | pos k ↦ get_elem? candidates (k % length candidates)
  | negsuc k ↦ if (k + 1) % length candidates == 0 then get_elem? candidates 0 else none
]

-- What the loop has done: the VMs created, the workers skipped, the slots, and what stopped it.
pub record Batch (W : Type 0) : Type 0 where
  pub created : ℕ
  pub skipped : ℕ
  pub capacity : Capacity (View W)
  pub stopped : Option Error

-- The batch after a round: a worker skipped, a VM created, or an error that ends the loop.
pub after_round : {W : Type 0} → Option Done → Batch W → Batch W
after_round none batch = record batch {
  skipped = batch.skipped + 1;
  capacity = release (pos 1) batch.capacity;
}
after_round (some (ok _)) batch = record batch { created = batch.created + 1 }
after_round (some (err e)) batch = record batch { stopped = some e }

-- Before the loop.
abbrev pub new_batch : {W : Type 0} → Capacity (View W) → Batch W
new_batch capacity = record { created = 0; skipped = 0; capacity = capacity; stopped = none }

-- The end of handleAutoSizeScaleUp. After a panic the process ends, so what it leaves here stands
-- for nothing.
pub finish_auto_scale_up :
    {W : Type 0}
    → ℤ
    → ℕ
    → Fleet W
    → Batch W × Bridge W × W
    → (ℕ × Option Error) × Bridge W × Fleet W
finish_auto_scale_up acquired current_active f (batch, b, w) =
    let view = record f.view { world = w } in
    elim batch.stopped [
      | none ↦ (
        (current_active + batch.created, none),
        b,
        record f { capacity = batch.capacity; view = notify_change b (invalidate_view view) },
      )
      | some e ↦
          let unused = sub_int (sub_int acquired (pos batch.skipped)) (pos batch.created) in
          (
            (current_active + batch.created, some e),
            b,
            record f { capacity = release unused batch.capacity; view = notify_change b view },
          )
    ]

module _ {W : Type 0} (svc : Services W) where
  -- One round of the loop of handleAutoSizeScaleUp on the worker w: `none` if the worker is skipped.
  pub create_on : Worker → ℕ × ℕ → Bridge W → W → Option (Done) × Bridge W × W
  create_on w (reserve_cpu, reserve_mem) b world = elim (auto_sized_vm w reserve_cpu reserve_mem) [
    | err e ↦ (none, b, world)
    | ok (cpu, mem) ↦
        let labels = merge_pin_label b.vm_config.labels (pin_identity w) in
        let (r, b', world') = create_one_vm svc cpu mem labels b world in (some r, b', world')
  ]

  -- One round of the loop of handleAutoSizeScaleUp.
  pub auto_round : List Worker → ℕ → ℕ × ℕ → ℕ → Batch W → Bridge W → W → Batch W × Bridge W × W
  auto_round candidates start reserves i batch b w = elim (pick candidates start i) [
    | none ↦ (record batch { stopped = some (panicked (codes "index out of range")) }, b, w)
    | some worker ↦ let (r, b', w') = create_on worker reserves b w in (after_round r batch, b', w')
  ]

  -- The loop of handleAutoSizeScaleUp over the rounds left; `i` is the round.
  pub auto_vms : List Worker → ℕ → ℕ × ℕ → ℕ → ℕ → Batch W → Bridge W → W → Batch W × Bridge W × W
  auto_vms candidates start reserves zero i batch b w = (batch, b, w)
  auto_vms candidates start reserves (suc rounds) i batch b w =
      let (batch', b', w') = auto_round candidates start reserves i batch b w in
      elim batch'.stopped [
        | none ↦ auto_vms candidates start reserves rounds (i + 1) batch' b' w'
        | some e ↦ (batch', b', w')
      ]

  -- handleAutoSizeScaleUp from TryAcquire on, with the free workers at hand. The cursor is an
  -- atomic uint64, and moves on by the slots acquired.
  pub auto_scale_up :
      List Worker → ℕ × ℕ → ℤ → ℕ → Bridge W → Fleet W → (ℕ × Option Error) × Bridge W × Fleet W
  auto_scale_up candidates reserves needed current_active b f =
      let (acquired, capacity) = try_acquire needed f.capacity in
      if eqb_ℤ acquired (pos 0)
      then ((current_active, none), b, with_capacity capacity f)
      else let start = b.placement_cursor in
        finish_auto_scale_up acquired current_active f (
          auto_vms candidates start reserves (pos_part acquired) 0 (new_batch capacity)
            (record b { placement_cursor = (start + pos_part acquired) % two_64 }) f.view.world)

  -- handleAutoSizeScaleUp
  unfoldable pub handle_auto_size_scale_up :
      ℤ → ℕ → Bridge W → Fleet W → (ℕ × Option Error) × Bridge W × Fleet W
  handle_auto_size_scale_up needed current_active b f = elim f.view.state [
    | none ↦ ((current_active, none), b, f)
    | some s ↦
        let (snap, view) = get_snapshot svc s f.view in
        let f' = record f { view = view } in
        elim snap [
          | none ↦ ((current_active, none), b, f')
          | some snap ↦
              let cfg = b.vm_config in
              let reserves =
                auto_size_reserves cfg.auto_size.reserve_cpu cfg.auto_size.reserve_memory_mib in
              let candidates =
                free_auto_size_workers snap.workers snap.vms cfg.labels reserves.0 reserves.1 in
              if length candidates == 0
              then ((current_active, none), b, f')
              else auto_scale_up candidates reserves (min_int needed (pos (length candidates)))
                  current_active b f'
        ]
  ]
