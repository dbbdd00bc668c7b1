-- ===== src/Bridge/Scaler/Owned.antt =====
-- bridge/bridge.go: whose VMs a bridge has active after a handler.
use orchard_gh_bridge.Base.{
  ℕ, ◌+◌, ◌≡◌, refl, inl, inr, Bool, true, false, if◌then◌else◌, Text, List, [], ◌∷◌, length, In,
  In-keep, Dict, lookup, insert, erase, Option, Option-cases, Bool-cases, Error, Result-cases,
}
use orchard_gh_bridge.Base.Int.{leb_ℤ, sub_int, ℤ, pos}
use orchard_gh_bridge.Orchard.{Vm, is_terminal}
use orchard_gh_bridge.Bridge.Name.{owns}
use orchard_gh_bridge.Bridge.Name.Format.{IsUuid}
use orchard_gh_bridge.Bridge.Services.{Services}
use orchard_gh_bridge.Bridge.StateView.{get, managed_vms_for_scale_set, belongs_to}
use orchard_gh_bridge.Bridge.Fleet.{Fleet, Bridge}
use orchard_gh_bridge.Bridge.Scaler.{
  adopt, handle_desired_runner_count, handle_job_started, handle_job_completed,
  hydrate_from_orchard, purge_active_vm,
}
use orchard_gh_bridge.Bridge.Owned.{AreOwned, IsOwner, insert-AreOwned, erase-AreOwned}
use orchard_gh_bridge.Bridge.ScaleUp.Owned.{handle_static_scale_up-IsOwner}
use orchard_gh_bridge.Bridge.AutoScaleUp.Owned.{handle_auto_size_scale_up-IsOwner}

adopt-AreOwned :
    (scale_set : Text) (vms : List Vm) (active : Dict Text) (n : ℕ)
    → ((vm : Vm) → In vm vms → owns scale_set vm.name ≡ true)
    → AreOwned scale_set active
    → AreOwned scale_set (adopt vms active n).0
unfolding adopt
adopt-AreOwned scale_set [] active n h all = all
adopt-AreOwned scale_set (vm ∷ vms) active n h all =
    let skipped = adopt-AreOwned scale_set vms active n (λ v i. h v (inr i)) all in
    let added =
      adopt-AreOwned scale_set vms (insert vm.name vm.name active) (n + 1) (λ v i. h v (inr i))
        (insert-AreOwned scale_set vm.name active (h vm (inl refl)) all) in
    elim (Bool-cases (is_terminal vm)) [
      | inl e ↦ rw (e, adopt) skipped
      | inr e ↦ rw (e, adopt) added
    ]

module _ {W : Type 0} where
  rename-IsOwner :
      (b : Bridge W) (active : Dict Text) (h : IsOwner b)
      → AreOwned h.scale_set active
      → IsOwner (record b { active_vms = active })
  rename-IsOwner b active h all = record {
    scale_set = h.scale_set;
    named = h.named;
    short = h.short;
    owned = all;
  }

  either-IsOwner :
      (l r : (ℕ × Option Error) × Bridge W × Fleet W) (auto : Bool)
      → IsOwner l.1
      → IsOwner r.1
      → IsOwner (if auto then l else r).1
  either-IsOwner l r true h k = h
  either-IsOwner l r false h k = k

  pub purge_active_vm-IsOwner :
      (name : Text) (b : Bridge W) → IsOwner b → IsOwner (purge_active_vm name b)
  unfolding purge_active_vm
  purge_active_vm-IsOwner name b h =
      rename-IsOwner b (erase name b.active_vms) h
        (erase-AreOwned h.scale_set name b.active_vms h.owned)

module _ {W : Type 0} (svc : Services W) (uuids : (w : W) → IsUuid (svc.new_uuid w).0) where
  pub handle_desired_runner_count-IsOwner :
      (count : ℤ) (b : Bridge W) (f : Fleet W)
      → IsOwner b
      → IsOwner (handle_desired_runner_count svc count b f).1
  unfolding handle_desired_runner_count
  handle_desired_runner_count-IsOwner count b f h =
      let n = length b.active_vms in
      let needed = sub_int count (pos n) in
      elim (Bool-cases (leb_ℤ needed (pos 0))) [
        | inl e ↦ rw (e, handle_desired_runner_count) h
        | inr e ↦
            rw (e, handle_desired_runner_count)
              (either-IsOwner _ _ b.vm_config.auto_size.enabled
                (handle_auto_size_scale_up-IsOwner svc uuids needed n b f h)
                (handle_static_scale_up-IsOwner svc uuids needed n b f h))
      ]

module _ {W : Type 0} (svc : Services W) where
  pub handle_job_started-IsOwner :
      (name : Text) (b : Bridge W) (f : Fleet W)
      → IsOwner b
      → IsOwner (handle_job_started svc name b f).1
  unfolding handle_job_started
  handle_job_started-IsOwner name b f h = h

  pub handle_job_completed-IsOwner :
      (name : Text) (id : ℤ) (b : Bridge W) (f : Fleet W)
      → IsOwner b
      → IsOwner (handle_job_completed svc name id b f).1
  unfolding handle_job_completed purge_active_vm
  handle_job_completed-IsOwner name id b f h =
      let h' = purge_active_vm-IsOwner name b h in
      elim (Option-cases (lookup name b.active_vms)) [
        | inl e ↦ rw (e, handle_job_completed) h
        | inr (vm, e) ↦ elim (Result-cases (svc.orchard.delete_vm vm f.view.world).0) [
          | inl (u, q) ↦ rw (e, q, handle_job_completed) h'
          | inr (x, q) ↦ rw (e, q, handle_job_completed) h'
        ]
      ]

  pub hydrate_from_orchard-IsOwner :
      (b : Bridge W) (f : Fleet W) → IsOwner b → IsOwner (hydrate_from_orchard svc b f).1
  unfolding hydrate_from_orchard managed_vms_for_scale_set belongs_to
  hydrate_from_orchard-IsOwner b f h = elim (Option-cases f.view.state) [
    | inl e ↦ rw (e, hydrate_from_orchard) h
    | inr (s, e) ↦ elim (Option-cases (get svc s f.view.world).0.0) [
      | inl q ↦ rw (e, q, hydrate_from_orchard) h
      | inr (snap, q) ↦
          let vms = managed_vms_for_scale_set b.scale_set_name snap in
          rw (e, q, hydrate_from_orchard)
            (rename-IsOwner b (adopt vms b.active_vms 0).0 h (
              adopt-AreOwned h.scale_set vms b.active_vms 0
                (λ vm i. rw⁻¹ h.named (In-keep (belongs_to b.scale_set_name) vm snap.vms i).0)
                h.owned))
    ]
  ]
