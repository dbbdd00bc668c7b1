-- ===== src/Bridge/Owned.antt =====
-- bridge/bridge.go: whose VMs a bridge has active.
use orchard_gh_bridge.Base.{
  ℕ, ◌+◌, ◌≤◌, ◌≡◌, inl, inr, true, Text, text_eq_iff, length, Dict, lookup, insert, erase,
  lookup-insert, lookup-erase, some, Result-cases, arith,
}
use orchard_gh_bridge.Bridge.Script.{startup_script}
use orchard_gh_bridge.Bridge.Name.{owns, vm_name, vm_name_prefix}
use orchard_gh_bridge.Bridge.Name.Format.{IsUuid}
use orchard_gh_bridge.Bridge.Name.Owner.{vm_name-owned}
use orchard_gh_bridge.Bridge.Services.{Services}
use orchard_gh_bridge.Bridge.Fleet.{Bridge, vm_spec, create_one_vm}

-- Each active VM stands under its own name, and belongs to the scale set.
abbrev pub AreOwned : Text → Dict Text → Type 0
AreOwned scale_set active =
    (name vm : Text) → lookup name active ≡ some vm → (vm ≡ name) × (owns scale_set name ≡ true)

-- A bridge whose active VMs are those of its scale set, with a name that leaves room for a suffix.
pub record IsOwner {W : Type 0} (b : Bridge W) : Type 0 where
  pub scale_set : Text
  pub named : b.scale_set_name ≡ scale_set
  pub short : length (vm_name_prefix scale_set) + 8 ≤ 63
  pub owned : AreOwned scale_set b.active_vms

pub insert-AreOwned :
    (scale_set name : Text) (active : Dict Text)
    → owns scale_set name ≡ true
    → AreOwned scale_set active
    → AreOwned scale_set (insert name name active)
insert-AreOwned scale_set name active h all k vm e =
    ground (arith, e, h, lookup-insert name k name active, text_eq_iff name k, all k vm)

pub erase-AreOwned :
    (scale_set name : Text) (active : Dict Text)
    → AreOwned scale_set active
    → AreOwned scale_set (erase name active)
erase-AreOwned scale_set name active all k vm e =
    ground (arith, e, lookup-erase name k active, all k vm)

module _ {W : Type 0} (svc : Services W) (uuids : (w : W) → IsUuid (svc.new_uuid w).0) where
  pub create_one_vm-IsOwner :
      (cpu memory : ℕ) (labels : Dict Text) (b : Bridge W) (w : W)
      → IsOwner b
      → IsOwner (create_one_vm svc cpu memory labels b w).1
  unfolding create_one_vm
  create_one_vm-IsOwner cpu memory labels b w h =
      let (uuid, w1) = svc.new_uuid w in
      let name = vm_name b.scale_set_name uuid in
      let (jit, w2) = svc.generate_jit name b.scale_set_id w1 in
      elim (Result-cases jit) [
        | inr (e, q) ↦ rw (q, create_one_vm) h
        | inl (config, q) ↦
            let script = startup_script config b.vm_config.docker_port in
            elim (Result-cases
              (svc.orchard.create_vm (vm_spec b name script cpu memory labels) w2).0) [
                | inr (e, r) ↦ rw (q, r, create_one_vm) h
                | inl (done, r) ↦
                    rw (q, r, create_one_vm)
                      (record {
                        scale_set = h.scale_set;
                        named = h.named;
                        short = h.short;
                        owned =
                            insert-AreOwned h.scale_set name b.active_vms
                              (rw h.named (vm_name-owned h.scale_set uuid (uuids w) h.short))
                              h.owned;
                      })
              ]
      ]
