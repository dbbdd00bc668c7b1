-- ===== src/Bridge/Cleanup/Rules.antt =====
-- bridge/cleanup.go: which VMs a sweep deletes, and what a delete leaves.
use orchard_gh_bridge.Base.{
  ◌≡◌, ◌≢◌, ◌↔◌, ◌⊎◌, refl, true, false, ◌&&◌, not, Text, text_eq, text_eq_iff, TextSet, lookup,
  has, lookup-erase, [], ◌∷◌, IsMap, arith,
}
use orchard_gh_bridge.Base.Int.{ltb_ℤ}
use orchard_gh_bridge.Base.Time.{Time, Duration, is_zero, sub_time}
use orchard_gh_bridge.Orchard.{Vm, status_creating, is_terminal}
use orchard_gh_bridge.Bridge.Services.{Services}
use orchard_gh_bridge.Bridge.Fleet.{Fleet}
use orchard_gh_bridge.Bridge.Cleanup.{
  Cleanup, retain_pending_deletes, is_older, should_delete_by_status, should_delete,
  delete_managed_vm, process_vm,
}

-- A VM has an age of more than the limit.
abbrev pub IsOlder : Vm → Duration → Time → Type 0
IsOlder vm age now =
    (is_zero vm.created_at ≡ false) × (ltb_ℤ age (sub_time now vm.created_at) ≡ true)

module _ {W : Type 0} where
  -- shouldDeleteByStatus holds exactly for stopped and failed VMs, VMs that wait past the pending
  -- age and others past the maximal age.
  pub should_delete_by_status_iff :
      (c : Cleanup W) (vm : Vm) (now : Time)
      → (should_delete_by_status c vm now ≡ true) ↔ (
          (is_terminal vm ≡ true)
          ⊎ ((is_terminal vm ≡ false)
              × (vm.status ≡ status_creating)
              × IsOlder vm c.max_pending_age now)
          ⊎ ((is_terminal vm ≡ false) × (vm.status ≢ status_creating) × IsOlder vm c.max_age now))
  unfolding should_delete_by_status is_older is_terminal
  should_delete_by_status_iff c vm now = ground (arith, text_eq_iff vm.status status_creating)

module _ {W : Type 0} (svc : Services W) where
  -- What a delete that may fail leaves of the pool and of the queue of failed deletes.
  pub process_vm-capacity :
      (c : Cleanup W) (vm : Vm) (now : Time) (f : Fleet W)
      → (process_vm svc c vm now f).1.capacity ≡ f.capacity
  unfolding process_vm delete_managed_vm
  process_vm-capacity c vm now f = ground arith

  pub process_vm-due :
      (c : Cleanup W) (vm : Vm) (now : Time) (f : Fleet W)
      → (process_vm svc c vm now f).0 ≡ true
      → should_delete c f.pending_deletes vm now ≡ true
  unfolding process_vm
  process_vm-due c vm now f h = ground arith

  -- Processing a VM takes its own name out of the queue of failed deletes exactly if it was
  -- deleted, and leaves the other names.
  pub process_vm-pending :
      (c : Cleanup W) (vm : Vm) (now : Time) (f : Fleet W) (name : Text)
      → let (deleted, f') = process_vm svc c vm now f in
        has name f'.pending_deletes
        ≡ (has name f.pending_deletes && not (deleted && text_eq vm.name name))
  unfolding process_vm delete_managed_vm
  process_vm-pending c vm now f name = ground (arith, lookup-erase vm.name name f.pending_deletes)

pub retain_pending_deletes-has :
    (seen pending : TextSet) (name : Text)
    → IsMap pending
    → has name (retain_pending_deletes seen pending) ≡ (has name pending && has name seen)
unfolding retain_pending_deletes lookup
retain_pending_deletes-has seen [] name h = refl
retain_pending_deletes-has seen ((k, u) ∷ pending) name h =
    ground (arith, retain_pending_deletes-has seen pending name h.1, text_eq_iff k name)

pub retain_pending_deletes-IsMap :
    (seen pending : TextSet) → IsMap pending → IsMap (retain_pending_deletes seen pending)
unfolding retain_pending_deletes lookup
retain_pending_deletes-IsMap seen [] h = tt
retain_pending_deletes-IsMap seen ((k, u) ∷ pending) (new, h) = ground (
  arith,
  retain_pending_deletes-IsMap seen pending h,
  retain_pending_deletes-has seen pending k h,
  new,
)
