-- ===== src/Bridge/ScaleUp/Births.antt =====
-- bridge/bridge.go: that a scale-up reports the VMs that Orchard created for it, no more and no less.
use orchard_gh_bridge.Base.{
  ℕ, zero, suc, ◌+◌, inl, inr, none, some, Option-cases, Bool-cases, Error, Option, arith, ◌≡◌,
  refl, ◌∙◌, Result-cases,
}
use orchard_gh_bridge.Base.Int.{ℤ, pos, pos_part, eqb_ℤ, leb_ℤ}
use orchard_gh_bridge.Bridge.Services.{Services}
use orchard_gh_bridge.Bridge.Fleet.{
  Fleet, Bridge, with_capacity, get_snapshot, create_one_vm, View, invalidate_view,
}
use orchard_gh_bridge.Bridge.Capacity.{try_acquire, min_int}
use orchard_gh_bridge.Bridge.ScaleUp.{
  Created, free_slots, finish_scale_up, create_vms, scale_up, handle_static_scale_up,
}
use orchard_gh_bridge.Bridge.Journal.{
  Births, IsQuiet, get-seen, notify_change-seen, create_one_vm-born,
}

-- What is reported, on top of `n`, is what Orchard created meanwhile.
abbrev pub Reports :
    {W : Type 0} → (W → ℕ) → ℕ → W → (ℕ × Option Error) × Bridge W × Fleet W → Type 0
Reports born n w out = born out.2.view.world + n ≡ born w + out.0.0

module _ {W : Type 0} (svc : Services W) (born : W → ℕ) (births : Births svc born) where
  create_vms-born :
      (rounds created : ℕ) (b : Bridge W) (w : W)
      → IsQuiet born b.on_vm_change
      → let c = create_vms svc rounds created b w in
        IsQuiet born c.1.on_vm_change × (born c.2 + created ≡ born w + c.0.0)
  unfolding create_vms
  create_vms-born zero created b w quiet = (quiet, refl)
  create_vms-born (suc rounds) created b w quiet =
      let cfg = b.vm_config in
      let one = create_one_vm svc cfg.cpu cfg.memory cfg.labels b w in
      let (quiet', first) =
        create_one_vm-born svc born births cfg.cpu cfg.memory cfg.labels b w quiet in
      let rest = create_vms-born rounds (created + 1) one.1 one.2 quiet' in
      elim (Result-cases one.0) [
        | inr (e, q) ↦ rw (q, create_vms) (quiet', ground (arith, first, q))
        | inl (u, q) ↦ rw (q, create_vms) (rest.0, ground (arith, first, q, rest.1))
      ]

  finish_scale_up-Reports :
      (acquired : ℤ) (n : ℕ) (f : Fleet W) (c : Created W) (w : W)
      → IsQuiet born c.1.on_vm_change
      → born c.2 ≡ born w + c.0.0
      → Reports born n w (finish_scale_up acquired n f c)
  unfolding finish_scale_up
  finish_scale_up-Reports acquired n f ((created, none), b, v) w quiet e =
      let view : View W = record f.view { world = v } in
      omega (arith, e, notify_change-seen born b (invalidate_view view) quiet)
  finish_scale_up-Reports acquired n f ((created, some x), b, v) w quiet e =
      omega (arith, e, notify_change-seen born b (record f.view { world = v }) quiet)

  pub scale_up-Reports :
      (needed : ℤ) (n : ℕ) (b : Bridge W) (f : Fleet W)
      → IsQuiet born b.on_vm_change
      → Reports born n f.view.world (scale_up svc needed n b f)
  unfolding scale_up
  scale_up-Reports needed n b f quiet =
      let (acquired, capacity) = try_acquire needed f.capacity in
      let c = create_vms svc (pos_part acquired) 0 b f.view.world in
      let (quiet', e) = create_vms-born (pos_part acquired) 0 b f.view.world quiet in
      elim (Bool-cases (eqb_ℤ acquired (pos 0))) [
        | inl e ↦ rw (e, scale_up) refl
        | inr q ↦
            rw (q, scale_up)
              (finish_scale_up-Reports acquired n (with_capacity capacity f) c f.view.world quiet'
                (omega (arith, e)))
      ]

  pub handle_static_scale_up-Reports :
      (needed : ℤ) (n : ℕ) (b : Bridge W) (f : Fleet W)
      → IsQuiet born b.on_vm_change
      → Reports born n f.view.world (handle_static_scale_up svc needed n b f)
  unfolding handle_static_scale_up
  handle_static_scale_up-Reports needed n b f quiet = elim (Option-cases f.view.state) [
    | inl e ↦ rw (e, handle_static_scale_up) (scale_up-Reports needed n b f quiet)
    | inr (s, e) ↦
        let (snap, view) = get_snapshot svc s f.view in
        let same = get-seen svc born births.reads s f.view.world in
        rw (e, handle_static_scale_up)
          (elim (Option-cases snap) [
            | inl q ↦ rw q (omega (arith, same))
            | inr (t, q) ↦
                let free = free_slots t b.vm_config.labels in
                rw q (elim (Bool-cases (leb_ℤ free (pos 0))) [
                  | inl r ↦ rw r (omega (arith, same))
                  | inr r ↦ rw r (
                      scale_up-Reports (min_int needed free) n b (record f { view = view }) quiet
                      ∙ omega (arith, same))
                ])
          ])
  ]
