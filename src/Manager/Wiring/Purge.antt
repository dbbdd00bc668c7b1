-- ===== src/Manager/Wiring/Purge.antt =====
-- manager/manager.go: that no bridge keeps a VM which the clean-up deleted.
use orchard_gh_bridge.Base.{
  ◌≡◌, refl, ◌∙◌, ap, inl, inr, if◌then◌else◌, Text, List, [], ◌∷◌, map, Dict, erase, some,
  Option-cases, Bool-cases, Result-cases, arith,
}
use orchard_gh_bridge.Base.Time.{Time}
use orchard_gh_bridge.Orchard.{Vm}
use orchard_gh_bridge.Bridge.Services.{Services}
use orchard_gh_bridge.Bridge.Fleet.{View, Fleet}
use orchard_gh_bridge.Bridge.Cleanup.{
  Cleanup, should_delete, remove_runner, remove_runner_by_name, delete_managed_vm, process_vm,
}
use orchard_gh_bridge.Manager.{Handle, recompute_scale_set_shares}
use orchard_gh_bridge.Manager.Wiring.{
  Member, Managed, handles_of, with_handles, lift_services, purge_all, recompute, on_vm_cleaned,
}

-- The active VMs of the bridges.
abbrev pub actives : {W : Type 0} → View (Managed W) → List (Dict Text)
actives v = map (λ m. m.active_vms) v.world.members

with_handles-actives :
    (hs : List Handle) (ms : List Member)
    → map (λ m. m.active_vms) (with_handles hs ms) ≡ map (λ m. m.active_vms) ms
unfolding with_handles
with_handles-actives [] ms = refl
with_handles-actives (h ∷ hs) [] = refl
with_handles-actives (h ∷ hs) (m ∷ ms) = ap (λ ds. m.active_vms ∷ ds) (with_handles-actives hs ms)

purge_all-actives :
    (name : Text) (ms : List Member)
    → map (λ m. m.active_vms) (purge_all name ms) ≡ map (erase name) (map (λ m. m.active_vms) ms)
unfolding purge_all
purge_all-actives name [] = refl
purge_all-actives name (m ∷ ms) =
    ap (λ ds. erase name m.active_vms ∷ ds) (purge_all-actives name ms)

module _ {W : Type 0} (svc : Services W) where
  pub recompute-actives : (v : View (Managed W)) → actives (recompute svc v) ≡ actives v
  unfolding recompute
  recompute-actives v = elim (Option-cases v.state) [
    | inl e ↦ rw (e, recompute) refl
    | inr (s, e) ↦
        let handles =
          (recompute_scale_set_shares svc s (handles_of v.world.members) v.world.world).0 in
        rw (e, recompute) (with_handles-actives handles v.world.members)
  ]

  on_vm_cleaned-actives :
      (name : Text) (v : View (Managed W))
      → actives (on_vm_cleaned svc name v) ≡ map (erase name) (actives v)
  unfolding on_vm_cleaned
  on_vm_cleaned-actives name v =
      recompute-actives
        (record v { world = record v.world { members = purge_all name v.world.members } })
      ∙ purge_all-actives name v.world.members

  module _ (c : Cleanup (Managed W)) (wired : c.on_vm_cleaned ≡ some (on_vm_cleaned svc)) where
    remove_runner-members :
        (name : Text) (m : Managed W)
        → (remove_runner (lift_services svc) c name m).members ≡ m.members
    unfolding remove_runner remove_runner_by_name
    remove_runner-members name m = ground arith

    -- When the clean-up of the manager processes a VM, every bridge forgets that VM, and no other,
    -- if it was deleted, and none otherwise.
    pub process_vm-actives :
        (vm : Vm) (now : Time) (f : Fleet (Managed W))
        → let (deleted, f') = process_vm (lift_services svc) c vm now f in
          actives f'.view
          ≡ (if deleted then map (erase vm.name) (actives f.view) else actives f.view)
    unfolding process_vm delete_managed_vm
    process_vm-actives vm now f = elim (Bool-cases (should_delete c f.pending_deletes vm now)) [
      | inr kept ↦ rw (kept, process_vm) refl
      | inl due ↦
          let (r, w) = (lift_services svc).orchard.delete_vm vm.name f.view.world in
          elim (Result-cases r) [
            | inr (e, q) ↦ rw (due, q, process_vm, delete_managed_vm) refl
            | inl (u, q) ↦
                let view : View (Managed W) = record f.view {
                  world = remove_runner (lift_services svc) c vm.name w;
                } in
                rw (due, q, wired, process_vm, delete_managed_vm)
                  (on_vm_cleaned-actives vm.name view
                    ∙ ap (λ (ms : List Member). map (erase vm.name) (map (λ m. m.active_vms) ms))
                        (remove_runner-members vm.name w))
          ]
    ]
