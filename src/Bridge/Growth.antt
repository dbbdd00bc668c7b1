-- ===== src/Bridge/Growth.antt =====
-- bridge/bridge.go: by how much createOneVM adds to the active VMs.
use orchard_gh_bridge.Base.{
  ℕ, ◌+◌, ◌≤◌, Text, Dict, length, length-insert-le, none, some, Option, Done, ok, err,
  Result-cases, inl, inr, arith,
}
use orchard_gh_bridge.Bridge.Name.{vm_name}
use orchard_gh_bridge.Bridge.Script.{startup_script}
use orchard_gh_bridge.Bridge.Services.{Services}
use orchard_gh_bridge.Bridge.Fleet.{Bridge, vm_spec, create_one_vm}

-- How many VMs an attempt made.
abbrev pub made : Option Done → ℕ
made none = 0
made (some (ok u)) = 1
made (some (err e)) = 0

abbrev pub actives : {W : Type 0} → Bridge W → ℕ
actives b = length b.active_vms

module _ {W : Type 0} (svc : Services W) where
  pub create_one_vm-grows :
      (cpu memory : ℕ) (labels : Dict Text) (b : Bridge W) (w : W)
      → let (r, b', w') = create_one_vm svc cpu memory labels b w in
        actives b' ≤ actives b + made (some r)
  unfolding create_one_vm
  create_one_vm-grows cpu memory labels b w =
      let (uuid, w1) = svc.new_uuid w in
      let name = vm_name b.scale_set_name uuid in
      let (jit, w2) = svc.generate_jit name b.scale_set_id w1 in
      elim (Result-cases jit) [
        | inr (e, q) ↦ rw (q, create_one_vm) (omega arith)
        | inl (config, q) ↦
            let script = startup_script config b.vm_config.docker_port in
            elim (Result-cases
              (svc.orchard.create_vm (vm_spec b name script cpu memory labels) w2).0) [
                | inr (e, r) ↦ rw (q, r, create_one_vm) (omega arith)
                | inl (done, r) ↦ rw (q, r, create_one_vm) (length-insert-le name name b.active_vms)
              ]
      ]
