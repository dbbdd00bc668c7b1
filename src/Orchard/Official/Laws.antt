-- ===== src/Orchard/Official/Laws.antt =====
-- orchard/client.go: what the conversions and officialClient promise.
use orchard_gh_bridge.Base.{
  ◌≡◌, ◌≢◌, true, Text, text_eq_iff, text_eq_refl, [], ok, err, arith, is_ok,
}
use orchard_gh_bridge.Orchard.{Vm, status_creating, status_running, status_failed}
use orchard_gh_bridge.Orchard.Official.{
  V1Names, V1Client, is_not_found, to_v1_vm, map_v1_status, from_v1_vm, create_vm, delete_vm,
}

-- The API's names for the three states are non-empty and differ from one another.
pub record IsNames (v1 : V1Names) : Type 0 where
  pub pending_set : v1.pending ≢ []
  pub running_set : v1.running ≢ []
  pub failed_set : v1.failed ≢ []
  pub pending-running : v1.pending ≢ v1.running
  pub pending-failed : v1.pending ≢ v1.failed
  pub running-failed : v1.running ≢ v1.failed

module _ (v1 : V1Names) (names : IsNames v1) where
  -- Where the names of the states in the API differ and are not empty, a VM read back from the
  -- resource built for it is the VM as asked for, with the controller-set fields blank.
  pub from_v1_vm-to_v1_vm :
      (vm : Vm)
      → from_v1_vm v1 (to_v1_vm v1 vm)
        ≡ record vm { status = []; status_message = []; worker = []; created_at = 0 }
  unfolding from_v1_vm to_v1_vm map_v1_status
  from_v1_vm-to_v1_vm vm = ground (
    arith,
    names.pending_set,
    names.running_set,
    names.failed_set,
    text_eq_iff [] v1.pending,
    text_eq_iff [] v1.running,
    text_eq_iff [] v1.failed,
  )

-- The VM that the controller reports, when its own state is one of the three that the bridge names.
pub map_v1_status_known :
    (v1 : V1Names) (names : IsNames v1)
    → (map_v1_status v1 v1.pending ≡ status_creating)
      × (map_v1_status v1 v1.running ≡ status_running)
      × (map_v1_status v1 v1.failed ≡ status_failed)
unfolding map_v1_status
map_v1_status_known v1 names = (
  ground (arith, text_eq_refl v1.pending),
  ground (arith, text_eq_refl v1.running, names.pending-running, text_eq_iff v1.running v1.pending),
  ground (
    arith,
    text_eq_refl v1.failed,
    names.pending-failed,
    names.running-failed,
    text_eq_iff v1.failed v1.pending,
    text_eq_iff v1.failed v1.running,
  ),
)

module _ {W : Type 0} (v1 : V1Names) (inner : V1Client W) where
  -- CreateVM succeeds exactly when the controller accepts the request.
  pub create_vm_ok_iff_created :
      (vm : Vm) (w : W)
      → is_ok (create_vm v1 inner vm w).0 ≡ is_ok (inner.create_vm (to_v1_vm v1 vm) w).0
  unfolding create_vm
  create_vm_ok_iff_created vm w = ground arith

  -- DeleteVM succeeds exactly when the controller deletes the VM or answers 404.
  pub delete_vm_outcome :
      (name : Text) (w : W)
      → let (r, w') = inner.delete_vm name w in
        (is_ok (delete_vm v1 inner name w).0 ≡ elim r [ ok _ ↦ true | err e ↦ is_not_found e ])
        × ((delete_vm v1 inner name w).1 ≡ w')
  unfolding delete_vm
  delete_vm_outcome name w = (ground arith, ground arith)
