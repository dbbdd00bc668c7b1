-- ===== src/Manager.antt =====
-- manager/manager.go: the shares of the scale sets in the pool of workers, their registration and
-- the start-up probes. The wiring of goroutines is left out.
pub mod Shares
pub mod Setup
pub mod Startup
pub mod Access
pub mod Run
pub mod Wiring
pub mod Making
use orchard_gh_bridge.Base.{
  ℕ, zero, suc, ◌+◌, ◌==◌, Bool, true, false, ◌&&◌, not, if◌then◌else◌, Text, text_eq, codes,
  is_empty, List, [], ◌∷◌, any, count_if, Dict, Option, none, some, Error, Result, ok, err, Io,
  ◌>>=◌, pure, wrap_err, wrapped, map,
}
use orchard_gh_bridge.Base.Int.{ℤ, pos, sub_int, ltb_ℤ, leb_ℤ, eqb_ℤ}
use orchard_gh_bridge.Base.Time.{Duration}
use orchard_gh_bridge.Config.{ScaleSetConfig}
use orchard_gh_bridge.Orchard.{Vm, Worker, is_terminal}
use orchard_gh_bridge.Bridge.Labels.{worker_matches_labels, sum_slots, capacity_for_labels}
use orchard_gh_bridge.Bridge.AutoSize.{auto_size_reserves, worker_count_for_labels}
use orchard_gh_bridge.Bridge.Live.{live_workers}
use orchard_gh_bridge.Bridge.Services.{Services}
use orchard_gh_bridge.Bridge.StateView.{
  Snapshot, StateView, default_worker_stale_after, get, managed_vms_for_scale_set,
}

-- scaleSetHandle, by what the manager reads of its bridge, and the number that its listener was
-- last given by SetMaxRunners.
pub record Handle : Type 0 where
  pub scale_set_name : Text
  pub vm_labels : Dict Text
  pub auto_size : Bool
  pub reserve_cpu : ℕ
  pub reserve_memory_mib : ℕ
  pub static_max_runners : ℤ
  pub max_runners : ℤ

-- workerCapacityFn
unfoldable pub worker_capacity : Bool → ℕ → ℕ → List Worker → Dict Text → ℤ
worker_capacity auto_size reserve_cpu reserve_mem workers labels =
    if auto_size
    then (let (cpu, mem) = auto_size_reserves reserve_cpu reserve_mem in
        pos (worker_count_for_labels workers labels cpu mem))
    else capacity_for_labels workers labels

-- The first loop of vmConsumesLabeledWorker: the first worker of that name.
unfoldable pub find_worker : Text → List Worker → Option Worker
find_worker name [] = none
find_worker name (w ∷ ws) = if text_eq w.name name then some w else find_worker name ws

-- The second loop of vmConsumesLabeledWorker.
unfoldable pub selects_worker : Vm → List Worker → Dict Text → Bool
selects_worker vm workers labels =
    any (λ w. worker_matches_labels w vm.labels && worker_matches_labels w labels) workers

-- vmConsumesLabeledWorker
unfoldable pub vm_consumes_labeled_worker : Vm → List Worker → Dict Text → Bool
vm_consumes_labeled_worker vm workers labels =
    if is_empty vm.worker
    then selects_worker vm workers labels
    else elim (find_worker vm.worker workers) [
      | some w ↦ worker_matches_labels w labels
      | none ↦ selects_worker vm workers labels
    ]

-- The VMs of one other scale set that recomputeScaleSetShares counts.
unfoldable pub active_of : Snapshot → Dict Text → Handle → ℕ
active_of snap labels other =
    count_if (λ vm. not (is_terminal vm) && vm_consumes_labeled_worker vm snap.workers labels)
      (managed_vms_for_scale_set other.scale_set_name snap)

-- othersActive for the handle at the place i; `j` is the place of the first one of the list.
pub others_active : Snapshot → Dict Text → ℕ → ℕ → List Handle → ℕ
others_active snap labels i j [] = 0
others_active snap labels i j (other ∷ others) =
    (if i == j then 0 else active_of snap labels other) + others_active snap labels i (j + 1) others

-- share of recomputeScaleSetShares for the handle h at the place i of all handles.
pub share_of : Snapshot → List Handle → ℕ → Handle → ℤ
share_of snap handles i h =
    let cap =
      worker_capacity h.auto_size h.reserve_cpu h.reserve_memory_mib snap.workers h.vm_labels in
    let share = sub_int cap (pos (others_active snap h.vm_labels i 0 handles)) in
    if ltb_ℤ share (pos 0) then pos 0 else share

-- The loop of recomputeScaleSetShares over the handles left, the first of which is at the place i.
pub push_shares : Snapshot → List Handle → ℕ → List Handle → List Handle
push_shares snap handles i [] = []
push_shares snap handles i (h ∷ hs) =
    (if ltb_ℤ (pos 0) h.static_max_runners
      then h
      else record h { max_runners = share_of snap handles i h })
    ∷ push_shares snap handles (i + 1) hs

-- What discoverCapacity sums.
pub discovered : List Worker → ℤ
discovered workers = sum_slots (λ w. true) (pos 0) workers

module _ {W : Type 0} (svc : Services W) where
  -- recomputeScaleSetShares
  pub recompute_scale_set_shares : StateView → List Handle → W → List Handle × StateView × W
  recompute_scale_set_shares s handles w =
      let (got, s', w') = get svc s w in
      elim got.0 [
        | none ↦ (handles, s', w')
        | some snap ↦ (push_shares snap handles 0 handles, s', w')
      ]

  -- listLiveWorkers
  pub list_live_workers : Duration → Io W (List Worker)
  list_live_workers stale_after = do
    workers ← svc.orchard.list_workers
    λ w. let (now, w') = svc.now w in (ok (live_workers workers stale_after now), w')

  -- discoverCapacity
  pub discover_capacity : Duration → Io W ℤ
  discover_capacity stale_after = do
    workers ← svc.orchard.list_workers
    λ w.
        let (now, w') = svc.now w in
        let limit = if leb_ℤ stale_after (pos 0) then default_worker_stale_after else stale_after in
        (ok (discovered (live_workers workers limit now)), w')

  -- New: the initial maximum of the pool.
  pub initial_max : ℤ → Duration → W → ℤ × W
  initial_max max_vms stale_after w =
      if eqb_ℤ max_vms (pos 0)
      then (let (r, w') = discover_capacity stale_after w in
          (elim r [ ok n ↦ n | err e ↦ pos 0 ], w'))
      else (max_vms, w)
