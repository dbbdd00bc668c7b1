-- ===== src/Bridge/ScaleUp/Growth.antt =====
-- bridge/bridge.go: that a scale-up reports every VM that it adds.
use orchard_gh_bridge.Base.{
  ℕ, zero, suc, ◌+◌, inl, inr, none, some, Option-cases, Bool-cases, ◌≤◌, Error, Option, arith,
}
use orchard_gh_bridge.Base.Int.{ℤ, pos, pos_part, eqb_ℤ, leb_ℤ}
use orchard_gh_bridge.Bridge.Services.{Services}
use orchard_gh_bridge.Bridge.Fleet.{Fleet, Bridge, with_capacity, get_snapshot, create_one_vm}
use orchard_gh_bridge.Bridge.Capacity.{try_acquire, min_int}
use orchard_gh_bridge.Bridge.ScaleUp.{
  Created, free_slots, finish_scale_up, create_vms, scale_up, handle_static_scale_up,
}
use orchard_gh_bridge.Bridge.Growth.{actives, create_one_vm-grows}

-- What is reported covers what is active now, where `n` was reported for what was active before.
abbrev pub Covers : {W : Type 0} → Bridge W → ℕ → (ℕ × Option Error) × Bridge W × Fleet W → Type 0
Covers b n out = actives out.1 + n ≤ actives b + out.0.0

module _ {W : Type 0} (svc : Services W) where
  create_vms-grows :
      (rounds created : ℕ) (b : Bridge W) (w : W)
      → let c = create_vms svc rounds created b w in actives c.1 + created ≤ actives b + c.0.0
  unfolding create_vms
  create_vms-grows zero created b w = omega arith
  create_vms-grows (suc rounds) created b w =
      let cfg = b.vm_config in
      let one = create_one_vm svc cfg.cpu cfg.memory cfg.labels b w in
      ground (
        arith,
        create_one_vm-grows svc cfg.cpu cfg.memory cfg.labels b w,
        create_vms-grows rounds (created + 1) one.1 one.2,
      )

  finish_scale_up-Covers :
      (acquired : ℤ) (n : ℕ) (b : Bridge W) (f : Fleet W) (c : Created W)
      → actives c.1 ≤ actives b + c.0.0
      → Covers b n (finish_scale_up acquired n f c)
  unfolding finish_scale_up
  finish_scale_up-Covers acquired n b f ((created, none), b', w) h = omega (arith, h)
  finish_scale_up-Covers acquired n b f ((created, some e), b', w) h = omega (arith, h)

  scale_up-Covers :
      (needed : ℤ) (n : ℕ) (b : Bridge W) (f : Fleet W) → Covers b n (scale_up svc needed n b f)
  unfolding scale_up
  scale_up-Covers needed n b f =
      let (acquired, capacity) = try_acquire needed f.capacity in
      let c = create_vms svc (pos_part acquired) 0 b f.view.world in
      elim (Bool-cases (eqb_ℤ acquired (pos 0))) [
        | inl e ↦ rw (e, scale_up) (omega arith)
        | inr e ↦
            rw (e, scale_up)
              (finish_scale_up-Covers acquired n b (with_capacity capacity f) c
                (omega (arith, create_vms-grows (pos_part acquired) 0 b f.view.world)))
      ]

  pub handle_static_scale_up-Covers :
      (needed : ℤ) (n : ℕ) (b : Bridge W) (f : Fleet W)
      → Covers b n (handle_static_scale_up svc needed n b f)
  unfolding handle_static_scale_up
  handle_static_scale_up-Covers needed n b f = elim (Option-cases f.view.state) [
    | inl e ↦ rw (e, handle_static_scale_up) (scale_up-Covers needed n b f)
    | inr (s, e) ↦
        let (snap, view) = get_snapshot svc s f.view in
        rw (e, handle_static_scale_up)
          (elim (Option-cases snap) [
            | inl q ↦ rw q (omega arith)
            | inr (t, q) ↦
                let free = free_slots t b.vm_config.labels in
                rw q (elim (Bool-cases (leb_ℤ free (pos 0))) [
                  | inl r ↦ rw r (omega arith)
                  | inr r ↦
                      rw r (scale_up-Covers (min_int needed free) n b (record f { view = view }))
                ])
          ])
  ]
