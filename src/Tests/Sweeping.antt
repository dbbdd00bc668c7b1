-- ===== src/Tests/Sweeping.antt =====
-- Sweeps at concrete inputs.
use orchard_gh_bridge.Base.{
  ℕ, ◌+◌, ◌≡◌, refl, true, false, ◌&&◌, not, codes, [], ◌∷◌, length, has, any, lookup, All, In,
  none, some, ◌++◌, map, Text, List, Option, arith, inl,
}
use orchard_gh_bridge.Base.Int.{pos}
use orchard_gh_bridge.Orchard.{Worker}
use orchard_gh_bridge.Bridge.StateView.{new_snapshot, get, finish_refresh}
use orchard_gh_bridge.Bridge.Services.{Services}
use orchard_gh_bridge.Bridge.Journal.{Deaths}
use orchard_gh_bridge.Bridge.Sweep.Deaths.{AreQuiet}
use orchard_gh_bridge.Bridge.Fleet.{View, Fleet}
use orchard_gh_bridge.Bridge.Cleanup.{Cleanup}
use orchard_gh_bridge.Manager.Wiring.{Managed, lift_services, on_vm_cleaned}
use orchard_gh_bridge.Bridge.Prune.{prune_offline_workers}
use orchard_gh_bridge.Bridge.Prune.Rules.{IsPrunable}
use orchard_gh_bridge.Bridge.Prune.Offline.{IsDeletable, prune_offline_workers_lem}
use orchard_gh_bridge.Manager.Wiring.Swept.{IsPurged, sweep_vms-IsPurged}
use orchard_gh_bridge.Bridge.Sweep.{Tally, sweep_vms, SweepState, list_vms_and_workers, sweep}
use orchard_gh_bridge.Bridge.Sweep.Counts.{Swept, sweep-Swept}
use orchard_gh_bridge.Bridge.Sweep.Loop.{run_cleanup, run-dequeues}
use orchard_gh_bridge.Bridge.Sweep.Pending.{is_listed, sweep_pending_deletes}
use orchard_gh_bridge.Tests.Data.{
  still_services, keeps, logs, ci, ci_labels, state, vm_ci, vms, worker_of, workers, services,
  failing, fleet, cleanup,
}

-- What a sweep reads from the test controller.
abbrev read : SweepState
read = record {
  vms = vms;
  live = (new_snapshot vms workers 9 (pos 120000000000)).workers;
  all = workers;
  fetched_at = 9;
  fresh = true;
}

-- The world is the log of the VMs that were deleted.
abbrev deleting : Services (List Text)
deleting = still_services (λ vm. keeps vm) logs (λ name. keeps tt)

deleting-Deaths : Deaths deleting (λ log. log)
deleting-Deaths = record {
  reads = record { now = λ w. refl; list_vms = λ w. refl; list_workers = λ w. refl };
  deletes = λ name w. refl;
  prunes = λ name w. refl;
  removes = λ id w. refl;
  looks_up = λ name w. refl;
}

abbrev cleanup_of : {W : Type 0} → Option (Text → View W → View W) → Cleanup W
cleanup_of on_vm_cleaned = record {
  has_remover = true;
  on_vm_cleaned = on_vm_cleaned;
  on_sweep = none;
  max_age = pos 7200000000000;
  max_pending_age = pos 600000000000;
  prune_after = pos 1000;
  prune_skip_logged = [];
  pruned_total = 0;
}

abbrev fleet_of : {W : Type 0} → W → Fleet W
fleet_of world = record {
  capacity = record { current = pos 1; max = pos 4; callbacks = [] };
  view = record { state = some state; world = world };
  pending_deletes = (vm_ci.name, tt) ∷ [];
}

silent-AreQuiet : AreQuiet (λ (log : List Text). log) (cleanup_of none) (fleet_of [])
silent-AreQuiet = record {
  cleaned = λ fn e. absurd (ground (arith, e));
  swept = λ fn e. absurd (ground (arith, e));
  changed = λ fn i. absurd i;
}

-- A sweep of an empty log.
abbrev read_now : SweepState
read_now = record read {
  live = (new_snapshot vms workers 10 (pos 120000000000)).workers;
  fetched_at = 10;
}

sweep-Swept_example :
    Swept
      (λ log. log)
      (some read_now)
      10
      (cleanup_of none)
      (fleet_of [])
      (sweep deleting (cleanup_of none) (fleet_of []))
unfolding list_vms_and_workers get finish_refresh new_snapshot
sweep-Swept_example =
    sweep-Swept deleting (λ log. log) deleting-Deaths (cleanup_of none) (fleet_of [])
      silent-AreQuiet

sweep_pending_deletes_example :
    has vm_ci.name (sweep failing cleanup fleet).1.pending_deletes
    ≡ (has vm_ci.name fleet.pending_deletes && any (is_listed vm_ci.name) vms && not false)
unfolding list_vms_and_workers get finish_refresh new_snapshot lookup
sweep_pending_deletes_example =
    sweep_pending_deletes failing vm_ci.name false cleanup fleet read (λ w. refl) (refl, tt) refl

-- A worker that was last seen at 1, at the time 5000.
abbrev gone : Worker
gone = worker_of (codes "gone") 1

-- The world is the log of the records that were deleted.
abbrev pruning : Services (List Text)
pruning = still_services (λ vm. keeps vm) (λ name. keeps tt) logs

prune_offline_workers_lem_example :
    let (pruned, c, log) =
      prune_offline_workers pruning vms (gone ∷ []) [] 5000 (cleanup_of none) (codes "x" ∷ []) in
    (log ≡ map (λ w. w.name) pruned ++ codes "x" ∷ [])
    × All (λ w. In w (gone ∷ []) × IsPrunable (pos 1000) vms [] 5000 w) pruned
    × ((w : Worker)
        → In w (gone ∷ [])
        → IsPrunable (pos 1000) vms [] 5000 w
        → IsDeletable (pos 1000) vms [] 5000 pruning w
        → In w pruned)
    × (c.pruned_total ≡ 0 + length pruned)
prune_offline_workers_lem_example =
    prune_offline_workers_lem pruning (λ log. log) (λ name log. refl) vms (gone ∷ []) [] 5000
      (cleanup_of none) (codes "x" ∷ []) refl

-- The manager with one bridge, which has the VM of "ci" active.
abbrev managed : Managed (List Text)
managed = record {
  members =
      record {
        handle = record {
          scale_set_name = ci;
          vm_labels = ci_labels;
          auto_size = false;
          reserve_cpu = 0;
          reserve_memory_mib = 0;
          static_max_runners = pos 0;
          max_runners = pos 2;
        };
        active_vms = (vm_ci.name, vm_ci.name) ∷ [];
      }
      ∷ [];
  last = [];
  reported = [];
  world = [];
}

abbrev no_tally : Tally
no_tally = record { seen = []; managed = 0; deleted = 0; orphaned = 0 }

abbrev wired : Cleanup (Managed (List Text))
wired = cleanup_of (some (on_vm_cleaned deleting))

sweep_vms-IsPurged_example :
    IsPurged
      (λ log. log)
      wired
      10
      vms
      no_tally
      (fleet_of managed)
      (sweep_vms (lift_services deleting) wired [] 10 vms no_tally (fleet_of managed))
sweep_vms-IsPurged_example =
    sweep_vms-IsPurged deleting (λ log. log) deleting-Deaths wired refl [] 10 vms no_tally
      (fleet_of managed)

-- Before the first tick the world moves on, before the second one nothing happens.
abbrev moved : Fleet ℕ → Fleet ℕ
moved f = record f { view = record f.view { world = 9 } }

run-dequeues_example :
    has vm_ci.name (run_cleanup services (moved ∷ (λ f. f) ∷ []) cleanup fleet).1.pending_deletes
    ≡ false
unfolding list_vms_and_workers get finish_refresh new_snapshot lookup
run-dequeues_example =
    run-dequeues services vm_ci.name (λ w. refl) (moved ∷ (λ f. f) ∷ []) cleanup fleet
      (
        record { map_of = λ f h. h; same = λ f. refl },
        (record { map_of = λ f h. h; same = λ f. refl }, tt),
      )
      (refl, tt) (inl refl)
