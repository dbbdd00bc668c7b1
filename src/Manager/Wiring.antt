-- ===== src/Manager/Wiring.antt =====
-- manager/manager.go: New's stale limit, the part of Run that makes the clean-up, and the callbacks
-- that tie the clean-up, the bridges and the listeners together.
pub mod Purge
pub mod Limits
pub mod Deaths
pub mod Swept
use orchard_gh_bridge.Base.{
  ℕ, Bool, true, false, not, if◌then◌else◌, Text, List, [], ◌∷◌, ◌++◌, map, Dict, erase, Option,
  none, some, Result, ok, err, Io,
}
use orchard_gh_bridge.Base.Int.{ℤ, pos, ltb_ℤ, leb_ℤ}
use orchard_gh_bridge.Base.Time.{Time, Duration}
use orchard_gh_bridge.Config.{Config, ScaleSetConfig}
use orchard_gh_bridge.Config.Durations.{
  max_vm_age_duration, worker_stale_after_duration, max_pending_age_duration,
  worker_prune_after_duration,
}
use orchard_gh_bridge.Orchard.{Vm, Worker, Client}
use orchard_gh_bridge.Bridge.AutoSize.{auto_size_reserves}
use orchard_gh_bridge.Bridge.Services.{Services}
use orchard_gh_bridge.Bridge.StateView.{StateView, default_worker_stale_after}
use orchard_gh_bridge.Bridge.Fleet.{View}
use orchard_gh_bridge.Bridge.Cleanup.{
  Cleanup, new_cleanup, set_max_age, set_max_pending_age, set_worker_prune_after,
}
use orchard_gh_bridge.Bridge.Eligibility.{AutoSizeExclusion, Effect, observe_scale_set}
use orchard_gh_bridge.Manager.{Handle, recompute_scale_set_shares}

-- scaleSetHandle with the active VMs of its bridge, which the manager purges.
pub record Member : Type 0 where
  pub handle : Handle
  pub active_vms : Dict Text

-- What the manager's callbacks act on beside the state view: its handles, the eligibility monitor
-- with the effects that it has had for each scale set, and the world outside.
pub record Managed (W : Type 0) : Type 0 where
  pub members : List Member
  pub last : Dict (Dict AutoSizeExclusion)
  pub reported : List (Text × List Effect)
  pub world : W

-- The bridges' handles, and the same with the numbers that their listeners were given.
abbrev pub handles_of : List Member → List Handle
handles_of ms = map (λ m. m.handle) ms

pub with_handles : List Handle → List Member → List Member
with_handles (h ∷ hs) (m ∷ ms) = record m { handle = h } ∷ with_handles hs ms
with_handles _ ms = ms

-- A call of the outside, which leaves the manager's own state alone.
abbrev pub lift_io : {W A : Type 0} → (W → A × W) → Managed W → A × Managed W
lift_io f m = let (a, w) = f m.world in (a, record m { world = w })

abbrev pub lift_client : {W : Type 0} → Client W → Client (Managed W)
lift_client c = record {
  create_vm = λ vm. lift_io (c.create_vm vm);
  get_vm = λ name. lift_io (c.get_vm name);
  list_vms = lift_io c.list_vms;
  delete_vm = λ name. lift_io (c.delete_vm name);
  list_workers = lift_io c.list_workers;
  delete_worker = λ name. lift_io (c.delete_worker name);
  ping = lift_io c.ping;
}

abbrev pub lift_services : {W : Type 0} → Services W → Services (Managed W)
lift_services svc = record {
  orchard = lift_client svc.orchard;
  now = lift_io svc.now;
  new_uuid = lift_io svc.new_uuid;
  generate_jit = λ name id. lift_io (svc.generate_jit name id);
  remove_runner = λ id. lift_io (svc.remove_runner id);
  get_runner_by_name = λ name. lift_io (svc.get_runner_by_name name);
}

-- bridge.PurgeActiveVM on every handle, the loop of the callback SetOnVMCleaned
pub purge_all : Text → List Member → List Member
purge_all name [] = []
purge_all name (m ∷ ms) = record m { active_vms = erase name m.active_vms } ∷ purge_all name ms

module _ {W : Type 0} (svc : Services W) where
  -- recomputeScaleSetShares on the manager's own state
  pub recompute : View (Managed W) → View (Managed W)
  recompute v = elim v.state [
    | none ↦ v
    | some s ↦
        let (handles, s', w) =
          recompute_scale_set_shares svc s (handles_of v.world.members) v.world.world in
        record {
          state = some s';
          world = record v.world { members = with_handles handles v.world.members; world = w };
        }
  ]

  -- The callback that Run gives to SetOnVMCleaned.
  pub on_vm_cleaned : Text → View (Managed W) → View (Managed W)
  on_vm_cleaned name v =
      recompute (record v { world = record v.world { members = purge_all name v.world.members } })

-- observeAutoSizeEligibility: the loop over the scale sets, with the monitor's state.
pub observe_sets : {W : Type 0} → List Worker → List ScaleSetConfig → Managed W → Managed W
observe_sets workers [] m = m
observe_sets workers (ss ∷ sets) m =
    let (cpu, mem) =
      auto_size_reserves ss.vm.auto_size.reserve_cpu ss.vm.auto_size.reserve_memory_mib in
    let (effects, last) = observe_scale_set ss.name workers ss.vm.labels cpu mem m.last in
    observe_sets workers sets (
      if ss.vm.auto_size.enabled
      then record m { last = last; reported = m.reported ++ (ss.name, effects) ∷ [] }
      else m)

pub observe_auto_size_eligibility :
    {W : Type 0} → List ScaleSetConfig → List Worker → View (Managed W) → View (Managed W)
observe_auto_size_eligibility sets workers v = record v {
  world = observe_sets workers sets v.world;
}

module _ (parse_duration : Text → Result Duration) where
  -- staleAfter of New
  pub manager_stale_after : Config → Duration
  manager_stale_after cfg =
      let configured = worker_stale_after_duration parse_duration cfg in
      if leb_ℤ configured (pos 0) then default_worker_stale_after else configured

  -- Run, from NewCleanup to SetOnVMCleaned; `has_remover` is whether the client for the removal of
  -- runners could be made.
  unfoldable pub wire_cleanup : {W : Type 0} → Services W → Bool → Config → Cleanup (Managed W)
  wire_cleanup svc has_remover cfg =
      let max_age = max_vm_age_duration parse_duration cfg in
      let max_pending = max_pending_age_duration parse_duration cfg in
      let made = new_cleanup has_remover in
      let aged = if ltb_ℤ (pos 0) max_age then set_max_age max_age made else made in
      let pended =
        if ltb_ℤ (pos 0) max_pending then set_max_pending_age max_pending aged else aged in
      record (set_worker_prune_after (worker_prune_after_duration parse_duration cfg) pended) {
        on_sweep = some (observe_auto_size_eligibility cfg.scale_sets);
        on_vm_cleaned = some (on_vm_cleaned svc);
      }
