-- ===== src/Bridge/ScaleUp/Owned.antt =====
-- bridge/bridge.go: whose VMs a bridge has active after a scale-up.
use orchard_gh_bridge.Base.{
  ℕ, zero, suc, ◌+◌, ◌≡◌, refl, inl, inr, none, some, Option-cases, Bool-cases, Result-cases,
}
use orchard_gh_bridge.Base.Int.{ℤ, pos, pos_part, eqb_ℤ, leb_ℤ}
use orchard_gh_bridge.Bridge.Name.Format.{IsUuid}
use orchard_gh_bridge.Bridge.Services.{Services}
use orchard_gh_bridge.Bridge.Fleet.{Fleet, Bridge, with_capacity, get_snapshot, create_one_vm}
use orchard_gh_bridge.Bridge.Capacity.{try_acquire, min_int}
use orchard_gh_bridge.Bridge.ScaleUp.{
  Created, free_slots, finish_scale_up, create_vms, scale_up, handle_static_scale_up,
}
use orchard_gh_bridge.Bridge.Owned.{IsOwner, create_one_vm-IsOwner}

module _ {W : Type 0} (svc : Services W) (uuids : (w : W) → IsUuid (svc.new_uuid w).0) where
  create_vms-IsOwner :
      (rounds created : ℕ) (b : Bridge W) (w : W)
      → IsOwner b
      → IsOwner (create_vms svc rounds created b w).1
  unfolding create_vms
  create_vms-IsOwner zero created b w h = h
  create_vms-IsOwner (suc rounds) created b w h =
      let cfg = b.vm_config in
      let h' = create_one_vm-IsOwner svc uuids cfg.cpu cfg.memory cfg.labels b w h in
      let one = create_one_vm svc cfg.cpu cfg.memory cfg.labels b w in
      elim (Result-cases one.0) [
        | inr (e, q) ↦ rw (q, create_vms) h'
        | inl (done, q) ↦
            rw (q, create_vms) (create_vms-IsOwner rounds (created + 1) one.1 one.2 h')
      ]

  finish_scale_up-bridge :
      (acquired : ℤ) (n : ℕ) (f : Fleet W) (c : Created W)
      → (finish_scale_up acquired n f c).1 ≡ c.1
  unfolding finish_scale_up
  finish_scale_up-bridge acquired n f ((created, none), b, w) = refl
  finish_scale_up-bridge acquired n f ((created, some e), b, w) = refl

  scale_up-IsOwner :
      (needed : ℤ) (n : ℕ) (b : Bridge W) (f : Fleet W)
      → IsOwner b
      → IsOwner (scale_up svc needed n b f).1
  unfolding scale_up
  scale_up-IsOwner needed n b f h =
      let (acquired, capacity) = try_acquire needed f.capacity in
      let f' = with_capacity capacity f in
      elim (Bool-cases (eqb_ℤ acquired (pos 0))) [
        | inl e ↦ rw (e, scale_up) h
        | inr e ↦
            rw
              (
                e,
                scale_up,
                finish_scale_up-bridge acquired n f'
                    (create_vms svc (pos_part acquired) 0 b f.view.world),
              )
              (create_vms-IsOwner (pos_part acquired) 0 b f.view.world h)
      ]

  pub handle_static_scale_up-IsOwner :
      (needed : ℤ) (n : ℕ) (b : Bridge W) (f : Fleet W)
      → IsOwner b
      → IsOwner (handle_static_scale_up svc needed n b f).1
  unfolding handle_static_scale_up
  handle_static_scale_up-IsOwner needed n b f h = elim (Option-cases f.view.state) [
    | inl e ↦ rw (e, handle_static_scale_up) (scale_up-IsOwner needed n b f h)
    | inr (s, e) ↦
        let (snap, view) = get_snapshot svc s f.view in
        rw (e, handle_static_scale_up)
          (elim (Option-cases snap) [
            | inl q ↦ rw q h
            | inr (t, q) ↦
                let free = free_slots t b.vm_config.labels in
                rw q (elim (Bool-cases (leb_ℤ free (pos 0))) [
                  | inl r ↦ rw r h
                  | inr r ↦
                      rw r (scale_up-IsOwner (min_int needed free) n b (record f { view = view }) h)
                ])
          ])
  ]
