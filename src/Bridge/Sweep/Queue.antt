-- ===== src/Bridge/Sweep/Queue.antt =====
-- bridge/cleanup.go: the queue of failed deletes over a sweep, as a map.
use orchard_gh_bridge.Base.{
  ◌≡◌, refl, inl, inr, TextSet, erase-IsMap, IsMap, none, List, [], ◌∷◌, Bool-cases, Option-cases,
  arith,
}
use orchard_gh_bridge.Base.Time.{Time}
use orchard_gh_bridge.Orchard.{Vm}
use orchard_gh_bridge.Bridge.Name.{is_managed_vm}
use orchard_gh_bridge.Bridge.Services.{Services}
use orchard_gh_bridge.Bridge.Fleet.{Fleet}
use orchard_gh_bridge.Bridge.Cleanup.{
  Cleanup, delete_managed_vm, process_vm, retain_pending_deletes,
}
use orchard_gh_bridge.Bridge.Cleanup.Rules.{retain_pending_deletes-IsMap}
use orchard_gh_bridge.Bridge.Prune.{name_set}
use orchard_gh_bridge.Bridge.Sweep.{
  Tally, SweepState, push_max_capacity, sweep_vm, sweep_vms, list_vms_and_workers, finish_sweep,
  settle, sweep,
}

module _ {W : Type 0} (svc : Services W) where
  pub process_vm-IsMap :
      (c : Cleanup W) (vm : Vm) (now : Time) (f : Fleet W)
      → IsMap f.pending_deletes
      → IsMap (process_vm svc c vm now f).1.pending_deletes
  unfolding process_vm delete_managed_vm
  process_vm-IsMap c vm now f h = ground (arith, erase-IsMap vm.name f.pending_deletes h)

  sweep_vm_pending :
      (c : Cleanup W) (live : TextSet) (now : Time) (vm : Vm) (t : Tally) (f : Fleet W)
      → (sweep_vm svc c live now vm t f).1.pending_deletes
        ≡ (process_vm svc c vm now f).1.pending_deletes
  unfolding sweep_vm
  sweep_vm_pending c live now vm t f = ground arith

  sweep_vms-IsMap :
      (c : Cleanup W) (live : TextSet) (now : Time) (vms : List Vm) (t : Tally) (f : Fleet W)
      → IsMap f.pending_deletes
      → IsMap (sweep_vms svc c live now vms t f).1.pending_deletes
  unfolding sweep_vms
  sweep_vms-IsMap c live now [] t f h = h
  sweep_vms-IsMap c live now (vm ∷ vms) t f h = elim (Bool-cases (is_managed_vm vm.name)) [
    | inl m ↦
        let (t', f') = sweep_vm svc c live now vm t f in
        rw (m, sweep_vms)
          (sweep_vms-IsMap c live now vms t' f'
            (rw (sweep_vm_pending c live now vm t f) (process_vm-IsMap c vm now f h)))
    | inr m ↦ rw (m, sweep_vms) (sweep_vms-IsMap c live now vms t f h)
  ]

  pub settle_pending :
      (st : SweepState) (c : Cleanup W) (t : Tally) (f : Fleet W)
      → (settle svc st c (t, f)).1.pending_deletes ≡ retain_pending_deletes t.seen f.pending_deletes
  unfolding settle finish_sweep push_max_capacity
  settle_pending st c t f = refl

  pub sweep-IsMap :
      (c : Cleanup W) (f : Fleet W)
      → IsMap f.pending_deletes
      → IsMap (sweep svc c f).1.pending_deletes
  unfolding sweep
  sweep-IsMap c f h =
      let view = (list_vms_and_workers svc f.view).1 in
      elim (Option-cases (list_vms_and_workers svc f.view).0) [
        | inl e ↦ rw (e, sweep) h
        | inr (st, e) ↦
            let (now, w) = svc.now view.world in
            let t0 : Tally = record { seen = []; managed = 0; deleted = 0; orphaned = 0 } in
            let f' : Fleet W = record f { view = record view { world = w } } in
            let loop = sweep_vms svc c (name_set [] st.live) now st.vms t0 f' in
            rw (e, sweep)
              (rw (settle_pending st c loop.0 loop.1) (
                retain_pending_deletes-IsMap loop.0.seen loop.1.pending_deletes
                  (sweep_vms-IsMap c (name_set [] st.live) now st.vms t0 f' h)))
      ]

  -- A sweep that cannot read the state leaves the queue.
  pub sweep-unread :
      (c : Cleanup W) (f : Fleet W)
      → (list_vms_and_workers svc f.view).0 ≡ none
      → (sweep svc c f).1.pending_deletes ≡ f.pending_deletes
  unfolding sweep
  sweep-unread c f e = rw (e, sweep) refl
