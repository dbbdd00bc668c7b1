-- ===== src/Bridge/Prune/Rules.antt =====
-- bridge/cleanup.go: which workers' records a sweep may delete.
use orchard_gh_bridge.Base.{
  ℕ, ◌+◌, ◌≡◌, Bool, true, false, ◌&&◌, not, Text, text_eq, text_eq_iff, Dict, TextSet, lookup,
  insert, lookup-insert, has, get_or, is_empty, List, [], ◌∷◌, count_if, none, arith,
}
use orchard_gh_bridge.Base.Int.{ltb_ℤ}
use orchard_gh_bridge.Base.Time.{Time, Duration, is_zero, sub_time}
use orchard_gh_bridge.Orchard.{Vm, Worker}
use orchard_gh_bridge.Bridge.Cleanup.{is_older}
use orchard_gh_bridge.Bridge.Prune.{count_worker_vms, is_offline, skip_reason}

-- The VM stands on that worker.
abbrev pub stands_on : Text → Vm → Bool
stands_on worker vm = not (is_empty vm.worker) && text_eq vm.worker worker

count_worker_vms-count :
    (out : Dict ℕ) (vms : List Vm) (worker : Text)
    → get_or 0 worker (count_worker_vms out vms)
      ≡ get_or 0 worker out + count_if (stands_on worker) vms
unfolding count_worker_vms
count_worker_vms-count out [] worker = omega arith
count_worker_vms-count out (vm ∷ vms) worker = ground (
  arith,
  count_worker_vms-count out vms worker,
  count_worker_vms-count (insert vm.worker (get_or 0 vm.worker out + 1) out) vms worker,
  lookup-insert vm.worker worker (get_or 0 vm.worker out + 1) out,
  text_eq_iff vm.worker worker,
)

-- A worker whose record may go: it is not among the live ones, was last seen longer ago than the
-- limit, no operator paused it, and no VM stands on it.
pub record IsPrunable (prune_after : Duration) (vms : List Vm) (live : TextSet) (now : Time)
    (w : Worker) : Type 0 where
  pub gone : has w.name live ≡ false
  pub seen : is_zero w.last_seen ≡ false
  pub silent : ltb_ℤ prune_after (sub_time now w.last_seen) ≡ true
  pub unpaused : w.scheduling_paused ≡ false
  pub empty : count_if (stands_on w.name) vms ≡ 0

module _ (prune_after : Duration) (vms : List Vm) (live : TextSet) (now : Time) where
  pub pruned-IsPrunable :
      (w : Worker)
      → is_offline prune_after live now w ≡ true
      → skip_reason (count_worker_vms [] vms) w ≡ none
      → IsPrunable prune_after vms live now w
  unfolding is_offline is_older skip_reason lookup
  pruned-IsPrunable w off skip =
      let c = count_worker_vms-count [] vms w.name in
      record {
        gone = ground arith;
        seen = ground arith;
        silent = ground arith;
        unpaused = ground arith;
        empty = ground (arith, c);
      }

  pub IsPrunable-pruned :
      (w : Worker)
      → IsPrunable prune_after vms live now w
      → (is_offline prune_after live now w ≡ true)
        × (skip_reason (count_worker_vms [] vms) w ≡ none)
  unfolding is_offline is_older skip_reason lookup
  IsPrunable-pruned w p =
      let c = count_worker_vms-count [] vms w.name in
      (ground (arith, p.gone, p.seen, p.silent), ground (arith, c, p.unpaused, p.empty))
