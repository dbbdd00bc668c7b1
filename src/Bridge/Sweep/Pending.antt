-- ===== src/Bridge/Sweep/Pending.antt =====
-- bridge/cleanup.go: how a sweep keeps the queue of failed deletes.
use orchard_gh_bridge.Base.{
  ◌≡◌, ◌∙◌, inl, inr, Bool, true, ◌||◌, ◌&&◌, not, Text, text_eq, text_eq_iff, TextSet, has, lookup,
  lookup-insert, IsMap, some, is_ok, List, [], ◌∷◌, any, Bool-cases, arith,
}
use orchard_gh_bridge.Base.Time.{Time}
use orchard_gh_bridge.Orchard.{Vm}
use orchard_gh_bridge.Bridge.Name.{is_managed_vm}
use orchard_gh_bridge.Bridge.Services.{Services}
use orchard_gh_bridge.Bridge.Fleet.{Fleet}
use orchard_gh_bridge.Bridge.Cleanup.{should_delete, Cleanup, delete_managed_vm, process_vm}
use orchard_gh_bridge.Bridge.Cleanup.Rules.{process_vm-pending, retain_pending_deletes-has}
use orchard_gh_bridge.Bridge.Prune.{name_set}
use orchard_gh_bridge.Bridge.Sweep.Queue.{process_vm-IsMap, settle_pending}
use orchard_gh_bridge.Bridge.Sweep.{
  Tally, SweepState, sweep_vm, sweep_vms, list_vms_and_workers, sweep,
}

-- The VM is the bridge's and has that name.
abbrev pub is_listed : Text → Vm → Bool
is_listed name vm = is_managed_vm vm.name && text_eq vm.name name

module _ {W : Type 0} (svc : Services W) (name : Text) (deletes : Bool) where
  -- Orchard answers every delete of that VM alike.
  abbrev pub IsSteady : Type 0
  IsSteady = (w : W) → is_ok (svc.orchard.delete_vm name w).0 ≡ deletes

  -- A queued VM is due, and Orchard has the word.
  process_vm-queued :
      (c : Cleanup W) (vm : Vm) (now : Time) (f : Fleet W)
      → IsSteady
      → vm.name ≡ name
      → has name f.pending_deletes ≡ true
      → (process_vm svc c vm now f).0 ≡ deletes
  unfolding process_vm delete_managed_vm should_delete
  process_vm-queued c vm now f steady e queued = ground (arith, steady f.view.world, e, queued)

  process_vm-keeps :
      (c : Cleanup W) (vm : Vm) (now : Time) (f : Fleet W)
      → IsSteady
      → has name (process_vm svc c vm now f).1.pending_deletes
        ≡ (has name f.pending_deletes && not (deletes && text_eq vm.name name))
  process_vm-keeps c vm now f steady = ground (
    arith,
    process_vm-pending svc c vm now f name,
    process_vm-queued c vm now f steady,
    text_eq_iff vm.name name,
  )

  -- What the loop leaves in the queue, and what it saw.
  abbrev Kept : List Vm → Tally → Fleet W → Tally → Fleet W → Type 0
  Kept vms t f t' f' =
      IsMap f'.pending_deletes
      × (has name f'.pending_deletes
          ≡ (has name f.pending_deletes && not (deletes && any (is_listed name) vms)))
      × (has name t'.seen ≡ (has name t.seen || any (is_listed name) vms))

  sweep_vm-Kept :
      (c : Cleanup W) (live : TextSet) (now : Time) (vm : Vm) (t : Tally) (f : Fleet W)
      → IsSteady
      → IsMap f.pending_deletes
      → is_managed_vm vm.name ≡ true
      → let (t', f') = sweep_vm svc c live now vm t f in Kept (vm ∷ []) t f t' f'
  unfolding sweep_vm
  sweep_vm-Kept c live now vm t f steady h m = ground (
    arith,
    process_vm-IsMap svc c vm now f h,
    process_vm-keeps c vm now f steady,
    lookup-insert vm.name name tt t.seen,
  )

  sweep_vms-Kept :
      (c : Cleanup W) (live : TextSet) (now : Time) (vms : List Vm) (t : Tally) (f : Fleet W)
      → IsSteady
      → IsMap f.pending_deletes
      → let (t', f') = sweep_vms svc c live now vms t f in Kept vms t f t' f'
  unfolding sweep_vms
  sweep_vms-Kept c live now [] t f steady h = (h, ground arith, ground arith)
  sweep_vms-Kept c live now (vm ∷ vms) t f steady h = elim (Bool-cases (is_managed_vm vm.name)) [
    | inl m ↦
        let (t', f') = sweep_vm svc c live now vm t f in
        let head = sweep_vm-Kept c live now vm t f steady h m in
        rw (m, sweep_vms) (ground (arith, head, sweep_vms-Kept c live now vms t' f' steady head.0))
    | inr m ↦ rw (m, sweep_vms) (ground (arith, sweep_vms-Kept c live now vms t f steady h))
  ]

  -- Where Orchard answers every delete of a VM alike, a sweep that reads the state leaves the VM
  -- in the queue of failed deletes exactly if it was queued, is still listed, and Orchard refuses.
  pub sweep_pending_deletes :
      (c : Cleanup W) (f : Fleet W) (st : SweepState)
      → IsSteady
      → IsMap f.pending_deletes
      → (list_vms_and_workers svc f.view).0 ≡ some st
      → has name (sweep svc c f).1.pending_deletes
        ≡ (has name f.pending_deletes && any (is_listed name) st.vms && not deletes)
  unfolding sweep lookup
  sweep_pending_deletes c f st steady h e =
      let view = (list_vms_and_workers svc f.view).1 in
      let (now, w) = svc.now view.world in
      let t0 : Tally = record { seen = []; managed = 0; deleted = 0; orphaned = 0 } in
      let f' : Fleet W = record f { view = record view { world = w } } in
      let loop = sweep_vms svc c (name_set [] st.live) now st.vms t0 f' in
      let kept = sweep_vms-Kept c (name_set [] st.live) now st.vms t0 f' steady h in
      rw (e, sweep)
        (rw (settle_pending svc st c loop.0 loop.1) (
          retain_pending_deletes-has loop.0.seen loop.1.pending_deletes name kept.0
          ∙ ground (arith, kept)))
