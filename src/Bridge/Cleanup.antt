-- ===== src/Bridge/Cleanup.antt =====
-- bridge/cleanup.go: the clean-up loop. A sweep is one step on the clean-up's own state and on
-- what the bridges share.
pub mod Rules
pub mod Deaths
use orchard_gh_bridge.Base.{
  ℕ, suc, ◌+◌, ltb, Bool, true, false, ◌&&◌, ◌||◌, not, if◌then◌else◌, Text, codes, text_eq,
  is_empty, is_some, List, [], ◌∷◌, length, keep, Dict, TextSet, lookup, insert, erase, has, get_or,
  Option, none, some, Error, Result, ok, err, Done, Io, ◌>>=◌, pure, wrap_err,
}
use orchard_gh_bridge.Base.Int.{ℤ, pos, ltb_ℤ, leb_ℤ}
use orchard_gh_bridge.Base.Time.{Time, Duration, is_zero, sub_time}
use orchard_gh_bridge.Orchard.{Vm, Worker, status_creating, status_stopped, status_failed}
use orchard_gh_bridge.Bridge.Name.{is_managed_vm}
use orchard_gh_bridge.Bridge.Capacity.{Capacity, reconcile, set_max}
use orchard_gh_bridge.Bridge.Labels.{sum_slots}
use orchard_gh_bridge.Bridge.Services.{Services}
use orchard_gh_bridge.Bridge.StateView.{Snapshot, StateView, invalidate, get}
use orchard_gh_bridge.Bridge.Fleet.{View, Fleet, invalidate_view}

-- 2 * time.Hour and, from config/config.go, 10 * time.Minute.
abbrev pub default_max_vm_age : Duration
default_max_vm_age = pos 7200000000000

abbrev pub default_max_pending_age : Duration
default_max_pending_age = pos 600000000000

-- The settings of Cleanup. RunnerRemover is nil or ScaleSetRunnerRemover; `on_vm_cleaned` and
-- `on_sweep` may be nil and are the manager's, which act on the view and on the bridges (in W).
pub record Cleanup (W : Type 0) : Type 0 where
  pub has_remover : Bool
  pub on_vm_cleaned : Option (Text → View W → View W)
  pub on_sweep : Option (List Worker → View W → View W)
  pub max_age : Duration
  pub max_pending_age : Duration
  pub prune_after : Duration
  -- pruneSkipLogged: why the prune of a worker was skipped
  pub prune_skip_logged : Dict Text
  pub pruned_total : ℕ

-- NewCleanup, with the runner remover or nil.
pub new_cleanup : {W : Type 0} → Bool → Cleanup W
new_cleanup has_remover = record {
  has_remover = has_remover;
  on_vm_cleaned = none;
  on_sweep = none;
  max_age = default_max_vm_age;
  max_pending_age = default_max_pending_age;
  prune_after = pos 0;
  prune_skip_logged = [];
  pruned_total = 0;
}

-- SetMaxAge, SetMaxPendingAge and SetWorkerPruneAfter
pub set_max_age : {W : Type 0} → Duration → Cleanup W → Cleanup W
set_max_age d c = if ltb_ℤ (pos 0) d then record c { max_age = d } else c

pub set_max_pending_age : {W : Type 0} → Duration → Cleanup W → Cleanup W
set_max_pending_age d c = if ltb_ℤ (pos 0) d then record c { max_pending_age = d } else c

unfoldable pub set_worker_prune_after : {W : Type 0} → Duration → Cleanup W → Cleanup W
set_worker_prune_after d c = record c { prune_after = if ltb_ℤ d (pos 0) then pos 0 else d }

-- MarkForDeletion
unfoldable pub mark_for_deletion : Text → TextSet → TextSet
mark_for_deletion name pending = if is_empty name then pending else insert name tt pending

-- retainPendingDeletes
pub retain_pending_deletes : TextSet → TextSet → TextSet
retain_pending_deletes seen pending = keep (λ entry. has entry.0 seen) pending

-- now.Sub(t) > age for a time that is set, the test of shouldDeleteByStatus.
unfoldable pub is_older : Time → Duration → Time → Bool
is_older t age now = not (is_zero t) && ltb_ℤ age (sub_time now t)

-- shouldDeleteByStatus, without the reason that is only logged.
pub should_delete_by_status : {W : Type 0} → Cleanup W → Vm → Time → Bool
should_delete_by_status c vm now =
    if text_eq vm.status status_stopped
    then true
    else if text_eq vm.status status_failed
    then true
    else if text_eq vm.status status_creating
    then is_older vm.created_at c.max_pending_age now
    else is_older vm.created_at c.max_age now

-- The test of processVM: a VM whose delete failed before is deleted whatever its status.
unfoldable pub should_delete : {W : Type 0} → Cleanup W → TextSet → Vm → Time → Bool
should_delete c pending vm now = has vm.name pending || should_delete_by_status c vm now

module _ {W : Type 0} (svc : Services W) where
  -- ScaleSetRunnerRemover.RemoveRunnerByName, of bridge/runner_remover.go.
  unfoldable pub remove_runner_by_name : Text → Io W (Unit {0})
  remove_runner_by_name name = do
    runner ← wrap_err (codes "looking up runner") (svc.get_runner_by_name name)
    elim runner [ none ↦ pure tt | some id ↦ svc.remove_runner id ]

  -- removeRunner, whose error is only logged.
  unfoldable pub remove_runner : Cleanup W → Text → W → W
  remove_runner c name w = if c.has_remover then (remove_runner_by_name name w).1 else w

  -- The end of processVM: the delete, and what follows when it succeeds.
  unfoldable pub delete_managed_vm : Cleanup W → Text → Fleet W → Bool × Fleet W
  delete_managed_vm c name f =
      let (deleted, w) = svc.orchard.delete_vm name f.view.world in
      elim deleted [
        | err e ↦ (false, record f { view = record f.view { world = w } })
        | ok _ ↦
            let view = record f.view { world = remove_runner c name w } in
            (
              true,
              record f {
                pending_deletes = erase name f.pending_deletes;
                view = elim c.on_vm_cleaned [ none ↦ view | some fn ↦ fn name view ];
              },
            )
      ]

  -- processVM: whether the VM was deleted. The recovery from a panic is not modelled: no call here
  -- panics.
  unfoldable pub process_vm : Cleanup W → Vm → Time → Fleet W → Bool × Fleet W
  process_vm c vm now f =
      if should_delete c f.pending_deletes vm now then delete_managed_vm c vm.name f else (false, f)
