-- ===== src/Bridge/Prune.antt =====
-- bridge/cleanup.go: pruneOfflineWorkers.
pub mod Rules
pub mod Offline
pub mod Kept
use orchard_gh_bridge.Base.{
  ℕ, suc, ◌+◌, ltb, Bool, true, false, ◌&&◌, ◌||◌, not, if◌then◌else◌, Text, codes, text_eq,
  is_empty, is_some, List, [], ◌∷◌, length, keep, Dict, TextSet, lookup, insert, erase, has, get_or,
  Option, none, some, Error, Result, ok, err, Done, Io, ◌>>=◌, pure, wrap_err,
}
use orchard_gh_bridge.Base.Int.{ℤ, pos, ltb_ℤ, leb_ℤ}
use orchard_gh_bridge.Base.Time.{Time, Duration, is_zero, sub_time}
use orchard_gh_bridge.Orchard.{Vm, Worker, status_creating, status_stopped, status_failed}
use orchard_gh_bridge.Bridge.Name.{is_managed_vm}
use orchard_gh_bridge.Bridge.Capacity.{Capacity, reconcile, set_max}
use orchard_gh_bridge.Bridge.Labels.{sum_slots}
use orchard_gh_bridge.Bridge.Services.{Services}
use orchard_gh_bridge.Bridge.StateView.{Snapshot, StateView, invalidate, get}
use orchard_gh_bridge.Bridge.Fleet.{View, Fleet, invalidate_view}
use orchard_gh_bridge.Bridge.Cleanup.{Cleanup, is_older}

-- hasVMs of pruneOfflineWorkers: how many VMs each worker has.
pub count_worker_vms : Dict ℕ → List Vm → Dict ℕ
count_worker_vms out [] = out
count_worker_vms out (vm ∷ vms) =
    count_worker_vms
      (if is_empty vm.worker then out else insert vm.worker (get_or 0 vm.worker out + 1) out) vms

-- The names of a list of workers, as a set.
pub name_set : TextSet → List Worker → TextSet
name_set out [] = out
name_set out (w ∷ ws) = name_set (insert w.name tt out) ws

-- The first two tests of the loop of pruneOfflineWorkers.
pub is_offline : Duration → TextSet → Time → Worker → Bool
is_offline prune_after live now w = not (has w.name live) && is_older w.last_seen prune_after now

-- Why an offline worker is not pruned; `none` is the empty string.
pub skip_reason : Dict ℕ → Worker → Option Text
skip_reason worker_vms w =
    if w.scheduling_paused
    then some (codes "scheduling paused by an operator")
    else if ltb 0 (get_or 0 w.name worker_vms)
    then some (codes "worker still has VMs assigned")
    else none

-- What the loop of pruneOfflineWorkers keeps: the workers whose record it deleted (their number is
-- `pruned`), stillSkipped and pruneSkipLogged.
pub record Pruning : Type 0 where
  pub pruned : List Worker
  pub still_skipped : TextSet
  pub skip_logged : Dict Text

module _ {W : Type 0} (svc : Services W) where
  -- One offline worker of the loop.
  pub prune_worker : Dict ℕ → Worker → Pruning → W → Pruning × W
  prune_worker worker_vms w p world = elim (skip_reason worker_vms w) [
    | some reason ↦ (
      record p {
        still_skipped = insert w.name tt p.still_skipped;
        skip_logged = insert w.name reason p.skip_logged;
      },
      world,
    )
    | none ↦
        let (deleted, world') = svc.orchard.delete_worker w.name world in
        (elim deleted [ err e ↦ p | ok _ ↦ record p { pruned = w ∷ p.pruned } ], world')
  ]

  -- The loop of pruneOfflineWorkers.
  pub prune_workers : Duration → Dict ℕ → TextSet → Time → List Worker → Pruning → W → Pruning × W
  prune_workers prune_after worker_vms live now [] p world = (p, world)
  prune_workers prune_after worker_vms live now (w ∷ ws) p world =
      let (p', world') =
        if is_offline prune_after live now w
        then prune_worker worker_vms w p world
        else (p, world) in
      prune_workers prune_after worker_vms live now ws p' world'

  -- pruneOfflineWorkers: the workers whose records were deleted.
  pub prune_offline_workers :
      List Vm → List Worker → TextSet → Time → Cleanup W → W → List Worker × Cleanup W × W
  prune_offline_workers vms all live now c world =
      if leb_ℤ c.prune_after (pos 0)
      then ([], c, world)
      else let p0 : Pruning = record {
        pruned = [];
        still_skipped = [];
        skip_logged = c.prune_skip_logged;
      } in
        let (p, world') =
          prune_workers c.prune_after (count_worker_vms [] vms) live now all p0 world in
        (
          p.pruned,
          record c {
            prune_skip_logged = keep (λ entry. has entry.0 p.still_skipped) p.skip_logged;
            pruned_total = c.pruned_total + length p.pruned;
          },
          world',
        )
