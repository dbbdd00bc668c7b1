-- ===== src/Manager/Startup.antt =====
-- manager/manager.go: how runScaleSet starts a bridge, from its making to the start of the listener.
-- The manager's callback on a change of VMs is a parameter.
use orchard_gh_bridge.Base.{
  ℕ, ◌+◌, ◌<◌, ◌≡◌, refl, ltb, false, if◌then◌else◌, Text, text_eq_iff, List, [], ◌∷◌, length, All,
  All-In, In-All, DistinctBy, Dict, lookup, insert, has, lookup-insert, some, arith,
}
use orchard_gh_bridge.Base.Int.{ℤ, pos, two_63, add_int_pos}
use orchard_gh_bridge.Config.{VmConfig}
use orchard_gh_bridge.Orchard.{Vm}
use orchard_gh_bridge.Bridge.Capacity.{Capacity, adopt_existing}
use orchard_gh_bridge.Bridge.Services.{Services}
use orchard_gh_bridge.Bridge.StateView.{Snapshot, StateView, get, managed_vms_for_scale_set}
use orchard_gh_bridge.Bridge.Fleet.{
  View, Fleet, Bridge, new_bridge, set_on_vm_change, set_on_delete_failed, count_active_vms,
}
use orchard_gh_bridge.Bridge.Scaler.{adopt, hydrate_from_orchard}
use orchard_gh_bridge.Bridge.Scaler.Hydrate.{adopt_count}
use orchard_gh_bridge.Bridge.Cleanup.{mark_for_deletion}

module _ {W : Type 0} (svc : Services W) (on_change : View W → View W) where
  -- The new bridge with its callbacks.
  pub wired_bridge : Text → ℤ → VmConfig → Bridge W
  wired_bridge name id cfg =
      set_on_delete_failed mark_for_deletion (set_on_vm_change on_change (new_bridge name id cfg))

  -- The bridge, hydrated, and the pool with a slot for each VM that it adopted. The error of the
  -- hydration is only logged.
  pub start_bridge : Text → ℤ → VmConfig → Fleet W → Bridge W × Fleet W
  start_bridge name id cfg f =
      let (got, b, f') = hydrate_from_orchard svc (wired_bridge name id cfg) f in
      let adopted = got.0 in
      let capacity =
        if ltb 0 adopted then adopt_existing (pos adopted) f'.capacity else f'.capacity in
      (b, record f' { capacity = capacity; view = on_change f'.view })

length-insert :
    (k v : Text) (m : Dict Text) → has k m ≡ false → length (insert k v m) ≡ length m + 1
unfolding insert lookup
length-insert k v [] h = refl
length-insert k v ((j, u) ∷ m) h = ground (arith, length-insert k v m)

reserve-capacity :
    {S : Type 0} (c : Capacity S) (used n : ℕ)
    → c.current ≡ pos used
    → used + n < two_63
    → (if ltb 0 n then adopt_existing (pos n) c else c) ≡ record c { current = pos (used + n) }
unfolding adopt_existing
reserve-capacity c used n e small = ground (arith, e, add_int_pos used n small)

-- Adopting VMs with different names that are not active yet makes one entry for each.
adopt-length :
    (vms : List Vm) (active : Dict Text) (adopted : ℕ)
    → DistinctBy (λ vm. vm.name) vms
    → All (λ vm. has vm.name active ≡ false) vms
    → length (adopt vms active adopted).0 + adopted ≡ length active + (adopt vms active adopted).1
unfolding adopt
adopt-length [] active adopted d h = omega arith
adopt-length (vm ∷ vms) active adopted (apart, d) (new, h) =
    let active' = insert vm.name vm.name active in
    let still : All (λ v. has v.name active' ≡ false) vms = All-In _ vms (λ v i. ground (
      arith,
      lookup-insert vm.name v.name vm.name active,
      In-All _ v vms i h,
      In-All _ v vms i apart,
      text_eq_iff vm.name v.name,
    )) in
    ground (
      arith,
      length-insert vm.name vm.name active new,
      adopt-length vms active adopted d h,
      adopt-length vms active' (adopted + 1) d still,
    )

module _ {W : Type 0} (svc : Services W) (on_change : View W → View W) where
  -- A bridge that starts with a snapshot in which no two VMs have the same name has one active
  -- entry for each running VM of its scale set, the slots in use have grown by exactly their
  -- number, as long as the sum is an int, and its failed deletes go to the clean-up.
  pub start_bridge_lem :
      (name : Text) (id : ℤ) (cfg : VmConfig) (f : Fleet W) (s : StateView) (snap : Snapshot)
      (used : ℕ)
      → f.view.state ≡ some s
      → (get svc s f.view.world).0.0 ≡ some snap
      → DistinctBy (λ vm. vm.name) (managed_vms_for_scale_set name snap)
      → f.capacity.current ≡ pos used
      → used + count_active_vms (managed_vms_for_scale_set name snap) < two_63
      → let (b, f') = start_bridge svc on_change name id cfg f in
        let running = count_active_vms (managed_vms_for_scale_set name snap) in
        (length b.active_vms ≡ running)
        × (f'.capacity ≡ record f.capacity { current = pos (used + running) })
        × (b.on_delete_failed ≡ some mark_for_deletion)
  unfolding start_bridge wired_bridge hydrate_from_orchard new_bridge set_on_vm_change
      set_on_delete_failed adopt_existing lookup
  start_bridge_lem name id cfg f s snap used e q d c small =
      let vms = managed_vms_for_scale_set name snap in
      let (active, adopted) = adopt vms [] 0 in
      let counted : adopted ≡ count_active_vms vms = omega (arith, adopt_count vms [] 0) in
      let entries = adopt-length vms [] 0 d (All-In _ vms (λ v i. refl)) in
      rw (e, q, start_bridge, hydrate_from_orchard)
        (
          omega (arith, entries, counted),
          rw counted (reserve-capacity f.capacity used (count_active_vms vms) c small),
          refl,
        )
