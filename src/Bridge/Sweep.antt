-- ===== src/Bridge/Sweep.antt =====
-- bridge/cleanup.go: sweep.
pub mod Counts
pub mod Queue
pub mod Pending
pub mod Loop
pub mod Deaths
use orchard_gh_bridge.Base.{
  ℕ, suc, ◌+◌, ltb, Bool, true, false, ◌&&◌, ◌||◌, not, if◌then◌else◌, Text, codes, text_eq,
  is_empty, is_some, List, [], ◌∷◌, length, keep, Dict, TextSet, lookup, insert, erase, has, get_or,
  Option, none, some, Error, Result, ok, err, Done, Io, ◌>>=◌, pure, wrap_err,
}
use orchard_gh_bridge.Base.Int.{ℤ, pos, ltb_ℤ, leb_ℤ}
use orchard_gh_bridge.Base.Time.{Time, Duration, is_zero, sub_time}
use orchard_gh_bridge.Orchard.{Vm, Worker, status_creating, status_stopped, status_failed}
use orchard_gh_bridge.Bridge.Name.{is_managed_vm}
use orchard_gh_bridge.Bridge.Capacity.{Capacity, reconcile, set_max}
use orchard_gh_bridge.Bridge.Labels.{sum_slots}
use orchard_gh_bridge.Bridge.Services.{Services}
use orchard_gh_bridge.Bridge.StateView.{Snapshot, StateView, invalidate, get}
use orchard_gh_bridge.Bridge.Fleet.{View, Fleet, invalidate_view}
use orchard_gh_bridge.Bridge.Cleanup.{Cleanup, process_vm, retain_pending_deletes}
use orchard_gh_bridge.Bridge.Prune.{name_set, prune_offline_workers}

-- What the loop of sweep counts: seen, managedCount, deleted and orphaned.
pub record Tally : Type 0 where
  pub seen : TextSet
  pub managed : ℕ
  pub deleted : ℕ
  pub orphaned : ℕ

-- sweepState
pub record SweepState : Type 0 where
  pub vms : List Vm
  pub live : List Worker
  pub all : List Worker
  pub fetched_at : Time
  pub fresh : Bool

-- pushMaxCapacity
pub push_max_capacity : {W : Type 0} → List Worker → Fleet W → Fleet W
push_max_capacity workers f =
    let total = sum_slots (λ w. not w.scheduling_paused) (pos 0) workers in
    let (capacity, view) = set_max total workers f.capacity f.view in
    record f { capacity = capacity; view = view }

module _ {W : Type 0} (svc : Services W) where
  -- One managed VM of the loop of sweep; `live` is the set liveWorkers.
  unfoldable pub sweep_vm : Cleanup W → TextSet → Time → Vm → Tally → Fleet W → Tally × Fleet W
  sweep_vm c live now vm t f =
      let t' = record t { seen = insert vm.name tt t.seen } in
      let (deleted, f') = process_vm svc c vm now f in
      if deleted
      then (record t' { deleted = t'.deleted + 1 }, f')
      else if not (is_empty vm.worker) && not (has vm.worker live)
      then (record t' { orphaned = t'.orphaned + 1 }, f')
      else (record t' { managed = t'.managed + 1 }, f')

  -- The loop of sweep over the VMs.
  unfoldable pub sweep_vms :
      Cleanup W → TextSet → Time → List Vm → Tally → Fleet W → Tally × Fleet W
  sweep_vms c live now [] t f = (t, f)
  sweep_vms c live now (vm ∷ vms) t f =
      let (t', f') = if is_managed_vm vm.name then sweep_vm c live now vm t f else (t, f) in
      sweep_vms c live now vms t' f'

  -- listVMsAndWorkers with no StateView.
  abbrev pub list_both : Io W SweepState
  list_both = do
    vms ← svc.orchard.list_vms
    workers ← svc.orchard.list_workers
    λ w.
        let (now, w') = svc.now w in
        (
          ok (record { vms = vms; live = workers; all = workers; fetched_at = now; fresh = true }),
          w',
        )

  -- listVMsAndWorkers, with its error, which is only logged, as `none`. Without a StateView every
  -- worker counts as live.
  unfoldable pub list_vms_and_workers : View W → Option SweepState × View W
  list_vms_and_workers v = elim v.state [
    | some s ↦
        let (got, s', w) = get svc s v.world in
        let v' : View W = record { state = some s'; world = w } in
        elim got.0 [
          | none ↦ (none, v')
          | some snap ↦ (
            some (record {
              vms = snap.vms;
              live = snap.workers;
              all = snap.all_workers;
              fetched_at = snap.fetched_at;
              fresh = not (is_some got.1);
            }),
            v',
          )
        ]
    | none ↦
        let (r, w) = list_both v.world in
        (elim r [ ok st ↦ some st | err e ↦ none ], record v { world = w })
  ]

  -- The end of sweep: pruning from a fresh read, and the manager's callback.
  pub finish_sweep : SweepState → TextSet → Cleanup W → Fleet W → Cleanup W × Fleet W
  finish_sweep st live c f =
      let (pruned, c', w) =
        if st.fresh
        then prune_offline_workers svc st.vms st.all live st.fetched_at c f.view.world
        else ([], c, f.view.world) in
      let view = record f.view { world = w } in
      let view' = if ltb 0 (length pruned) then invalidate_view view else view in
      (c', record f { view = elim c.on_sweep [ none ↦ view' | some fn ↦ fn st.live view' ] })

  -- sweep past the read of the state, with the loop's result.
  pub settle : SweepState → Cleanup W → Tally × Fleet W → Cleanup W × Fleet W
  settle st c (t, f) =
      let retained = record f {
        pending_deletes = retain_pending_deletes t.seen f.pending_deletes;
      } in
      let view = if ltb 0 t.deleted then invalidate_view retained.view else retained.view in
      let reconciled = record retained {
        view = view;
        capacity = reconcile (pos t.managed) retained.capacity;
      } in
      finish_sweep st (name_set [] st.live) c (push_max_capacity st.live reconciled)

  -- sweep
  pub sweep : Cleanup W → Fleet W → Cleanup W × Fleet W
  sweep c f =
      let (read, view) = list_vms_and_workers f.view in
      let f' = record f { view = view } in
      elim read [
        | none ↦ (c, f')
        | some st ↦
            let (now, w) = svc.now f'.view.world in
            let t0 : Tally = record { seen = []; managed = 0; deleted = 0; orphaned = 0 } in
            settle st c (
              sweep_vms c (name_set [] st.live) now st.vms t0
                (record f' { view = record f'.view { world = w } }))
      ]
