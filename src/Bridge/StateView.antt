-- ===== src/Bridge/StateView.antt =====
-- bridge/stateview.go: the cache of Orchard's state that the scale sets and the clean-up share.
-- `get` is a call with no other refresh in flight; Calls has calls that interleave.
pub mod Fresh
pub mod Calls
pub mod Matching
use orchard_gh_bridge.Base.{
  ℕ, Bool, true, false, ◌&&◌, not, if◌then◌else◌, Text, is_empty, has_prefix, drop_prefix,
  contains_char, List, [], ◌∷◌, keep, Dict, lookup, insert, Option, none, some, codes, Error, plain,
  Result, ok, err, Io, ◌>>=◌,
}
use orchard_gh_bridge.Base.Int.{pos, ltb_ℤ, leb_ℤ}
use orchard_gh_bridge.Base.Time.{Time, Duration, sub_time}
use orchard_gh_bridge.Orchard.{Vm, Worker, is_terminal}
use orchard_gh_bridge.Bridge.Name.{is_managed_vm, owns}
use orchard_gh_bridge.Bridge.Labels.{labels_superset, worker_matches_labels}
use orchard_gh_bridge.Bridge.Live.{live_workers}
use orchard_gh_bridge.Bridge.Services.{Services}

-- 5 * time.Second and, from config/config.go, 2 * time.Minute.
abbrev pub default_state_view_ttl : Duration
default_state_view_ttl = pos 5000000000

abbrev pub default_worker_stale_after : Duration
default_worker_stale_after = pos 120000000000

pub record Snapshot : Type 0 where
  pub vms : List Vm
  pub workers : List Worker
  pub all_workers : List Worker
  pub fetched_at : Time
  pub workers_by_name : Dict Worker

pub record StateView : Type 0 where
  pub ttl : Duration
  pub stale_after : Duration
  pub snap : Option Snapshot
  pub last_err : Option Error

-- NewStateView
pub new_state_view : Duration → Duration → StateView
new_state_view ttl stale_after = record {
  ttl = if leb_ℤ ttl (pos 0) then default_state_view_ttl else ttl;
  stale_after = if leb_ℤ stale_after (pos 0) then default_worker_stale_after else stale_after;
  snap = none;
  last_err = none;
}

-- The index of newSnapshot: the last worker of a name stands.
pub index_workers : Dict Worker → List Worker → Dict Worker
index_workers idx [] = idx
index_workers idx (w ∷ ws) = index_workers (insert w.name w idx) ws

-- newSnapshot
unfoldable pub new_snapshot : List Vm → List Worker → Time → Duration → Snapshot
new_snapshot vms workers at stale_after =
    let live = live_workers workers stale_after at in
    record {
      vms = vms;
      workers = live;
      all_workers = workers;
      fetched_at = at;
      workers_by_name = index_workers [] live;
    }

-- Invalidate
pub invalidate : StateView → StateView
invalidate s = record s { snap = none }

-- What Get returns: a snapshot or nil, and an error or nil.
abbrev pub Got : Type 0
Got = Option Snapshot × Option Error

-- What Get returns to the caller that led a refresh, and the view that it leaves, from the view as
-- the end of the refresh finds it. `last` is the snapshot of its start, lastSnap.
unfoldable pub finish_refresh : Option Snapshot → StateView → Result Snapshot → Got × StateView
finish_refresh last s (ok snap) =
    ((some snap, none), record s { snap = some snap; last_err = none })
finish_refresh last s (err e) = ((last, some e), record s { last_err = some e })

module _ {W : Type 0} (svc : Services W) where
  unfoldable pub refresh : StateView → Io W Snapshot
  refresh s = do
    vms ← svc.orchard.list_vms
    workers ← svc.orchard.list_workers
    λ w. let (at, w') = svc.now w in (ok (new_snapshot vms workers at s.stale_after), w')

  unfoldable pub lead_refresh : StateView → W → Got × StateView × W
  unfolding refresh
  lead_refresh s w =
      let (r, w') = refresh s w in let (got, s') = finish_refresh s.snap s r in (got, s', w')

  -- Get
  unfoldable pub get : StateView → W → Got × StateView × W
  unfolding lead_refresh
  get s w = elim s.snap [
    | none ↦ lead_refresh s w
    | some snap ↦
        let (now, w') = svc.now w in
        if ltb_ℤ (sub_time now snap.fetched_at) s.ttl
        then ((some snap, none), s, w')
        else lead_refresh s w'
  ]

-- The VMs of a scale set: its prefix, and no hyphen in what follows.
unfoldable pub belongs_to : Text → Vm → Bool
belongs_to scale_set vm = owns scale_set vm.name

-- ManagedVMsForScaleSet
unfoldable pub managed_vms_for_scale_set : Text → Snapshot → List Vm
managed_vms_for_scale_set scale_set snap = keep (belongs_to scale_set) snap.vms

-- The test of the loop of ManagedVMsMatchingLabels.
pub vm_matches_labels : Snapshot → Dict Text → Vm → Bool
vm_matches_labels snap labels vm =
    is_managed_vm vm.name
    && (if is_empty vm.worker
        then labels_superset vm.labels labels
        else elim (lookup vm.worker snap.workers_by_name) [
          | none ↦ false
          | some w ↦ worker_matches_labels w labels
        ])

-- ManagedVMsMatchingLabels
pub managed_vms_matching_labels : Snapshot → Dict Text → List Vm
managed_vms_matching_labels snap labels = keep (vm_matches_labels snap labels) snap.vms

-- What Get returns to a caller that joined a refresh in flight, from the view as the refresh, and
-- whatever came after it, left it.
unfoldable pub join_refresh : StateView → Got
join_refresh s = elim s.snap [
  | none ↦ (
    none,
    some (elim s.last_err [ none ↦ plain (codes "orchard state refresh failed") | some e ↦ e ]),
  )
  | some snap ↦ (some snap, s.last_err)
]
