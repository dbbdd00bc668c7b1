-- ===== src/Bridge/AutoScaleUp/Births.antt =====
-- bridge/bridge.go: that handleAutoSizeScaleUp reports the VMs that Orchard created for it.
use orchard_gh_bridge.Base.{
  ◌==◌, ◌%◌, ℕ, zero, suc, ◌+◌, ◌≡◌, inl, inr, List, length, Option-cases, Bool-cases, Result-cases,
  arith, refl, ◌∙◌,
}
use orchard_gh_bridge.Base.Int.{two_64, ℤ, pos, pos_part, eqb_ℤ}
use orchard_gh_bridge.Orchard.{Worker}
use orchard_gh_bridge.Bridge.Services.{Services}
use orchard_gh_bridge.Bridge.Fleet.{
  Fleet, Bridge, get_snapshot, merge_pin_label, View, invalidate_view,
}
use orchard_gh_bridge.Bridge.Capacity.{try_acquire, min_int}
use orchard_gh_bridge.Bridge.AutoSize.{
  pin_identity, free_auto_size_workers, auto_sized_vm, auto_size_reserves,
}
use orchard_gh_bridge.Bridge.AutoScaleUp.{
  Batch, new_batch, pick, finish_auto_scale_up, create_on, auto_round, auto_vms, auto_scale_up,
  handle_auto_size_scale_up,
}
use orchard_gh_bridge.Bridge.Growth.{made}
use orchard_gh_bridge.Bridge.AutoScaleUp.Growth.{after_round-created}
use orchard_gh_bridge.Bridge.ScaleUp.Births.{Reports}
use orchard_gh_bridge.Bridge.Journal.{
  Births, IsQuiet, get-seen, notify_change-seen, create_one_vm-born,
}

module _ {W : Type 0} (svc : Services W) (born : W → ℕ) (births : Births svc born) where
  create_on-born :
      (worker : Worker) (reserves : ℕ × ℕ) (b : Bridge W) (w : W)
      → IsQuiet born b.on_vm_change
      → let (r, b', w') = create_on svc worker reserves b w in
        IsQuiet born b'.on_vm_change × (born w' ≡ born w + made r)
  unfolding create_on
  create_on-born worker (cpu, mem) b w quiet =
      let labels = merge_pin_label b.vm_config.labels (pin_identity worker) in
      elim (Result-cases (auto_sized_vm worker cpu mem)) [
        | inr (e, q) ↦ rw (q, create_on) (quiet, omega arith)
        | inl ((c, m), q) ↦
            rw (q, create_on) (create_one_vm-born svc born births c m labels b w quiet)
      ]

  auto_round-born :
      (candidates : List Worker) (start : ℕ) (reserves : ℕ × ℕ) (i : ℕ) (batch : Batch W)
      (b : Bridge W) (w : W)
      → IsQuiet born b.on_vm_change
      → let round = auto_round svc candidates start reserves i batch b w in
        IsQuiet born round.1.on_vm_change
        × (born round.2 + batch.created ≡ born w + round.0.created)
  unfolding auto_round
  auto_round-born candidates start reserves i batch b w quiet =
      elim (Option-cases (pick candidates start i)) [
        | inl q ↦ rw (q, auto_round) (quiet, omega arith)
        | inr (worker, q) ↦
            let r = (create_on svc worker reserves b w).0 in
            let (quiet', e) = create_on-born worker reserves b w quiet in
            rw (q, auto_round) (quiet', omega (arith, after_round-created r batch, e))
      ]

  auto_vms-born :
      (candidates : List Worker) (start : ℕ) (reserves : ℕ × ℕ) (rounds i : ℕ) (batch : Batch W)
      (b : Bridge W) (w : W)
      → IsQuiet born b.on_vm_change
      → let out = auto_vms svc candidates start reserves rounds i batch b w in
        IsQuiet born out.1.on_vm_change × (born out.2 + batch.created ≡ born w + out.0.created)
  unfolding auto_vms
  auto_vms-born candidates start reserves zero i batch b w quiet = (quiet, refl)
  auto_vms-born candidates start reserves (suc rounds) i batch b w quiet =
      let round = auto_round svc candidates start reserves i batch b w in
      let (quiet', one) = auto_round-born candidates start reserves i batch b w quiet in
      elim (Option-cases round.0.stopped) [
        | inl q ↦
            let rest =
              auto_vms-born candidates start reserves rounds (i + 1) round.0 round.1 round.2
                quiet' in
            rw (q, auto_vms) (rest.0, omega (arith, one, rest.1))
        | inr (stop, q) ↦ rw (q, auto_vms) (quiet', one)
      ]

  finish_auto_scale_up-Reports :
      (acquired : ℤ) (n : ℕ) (f : Fleet W) (batch : Batch W) (b : Bridge W) (v w : W)
      → IsQuiet born b.on_vm_change
      → born v ≡ born w + batch.created
      → Reports born n w (finish_auto_scale_up acquired n f (batch, b, v))
  unfolding finish_auto_scale_up
  finish_auto_scale_up-Reports acquired n f batch b v w quiet e =
      let view : View W = record f.view { world = v } in
      elim (Option-cases batch.stopped) [
        | inl q ↦
            rw (q, finish_auto_scale_up)
              (omega (arith, e, notify_change-seen born b (invalidate_view view) quiet))
        | inr (x, q) ↦
            rw (q, finish_auto_scale_up) (omega (arith, e, notify_change-seen born b view quiet))
      ]

  auto_scale_up-Reports :
      (candidates : List Worker) (reserves : ℕ × ℕ) (needed : ℤ) (n : ℕ) (b : Bridge W)
      (f : Fleet W)
      → IsQuiet born b.on_vm_change
      → Reports born n f.view.world (auto_scale_up svc candidates reserves needed n b f)
  unfolding auto_scale_up
  auto_scale_up-Reports candidates reserves needed n b f quiet =
      let (acquired, capacity) = try_acquire needed f.capacity in
      let start = b.placement_cursor in
      let moved : Bridge W = record b { placement_cursor = (start + pos_part acquired) % two_64 } in
      let rounds = pos_part acquired in
      let batch = new_batch capacity in
      let out = auto_vms svc candidates start reserves rounds 0 batch moved f.view.world in
      let (quiet', e) =
        auto_vms-born candidates start reserves rounds 0 batch moved f.view.world quiet in
      elim (Bool-cases (eqb_ℤ acquired (pos 0))) [
        | inl q ↦ rw (q, auto_scale_up) refl
        | inr q ↦
            rw (q, auto_scale_up)
              (finish_auto_scale_up-Reports acquired n f out.0 out.1 out.2 f.view.world quiet'
                (omega (arith, e)))
      ]

  pub handle_auto_size_scale_up-Reports :
      (needed : ℤ) (n : ℕ) (b : Bridge W) (f : Fleet W)
      → IsQuiet born b.on_vm_change
      → Reports born n f.view.world (handle_auto_size_scale_up svc needed n b f)
  unfolding handle_auto_size_scale_up
  handle_auto_size_scale_up-Reports needed n b f quiet = elim (Option-cases f.view.state) [
    | inl e ↦ rw (e, handle_auto_size_scale_up) refl
    | inr (s, e) ↦
        let (snap, view) = get_snapshot svc s f.view in
        let same = get-seen svc born births.reads s f.view.world in
        let cfg = b.vm_config in
        let reserves =
          auto_size_reserves cfg.auto_size.reserve_cpu cfg.auto_size.reserve_memory_mib in
        rw (e, handle_auto_size_scale_up)
          (elim (Option-cases snap) [
            | inl q ↦ rw q (omega (arith, same))
            | inr (t, q) ↦
                let candidates =
                  free_auto_size_workers t.workers t.vms cfg.labels reserves.0 reserves.1 in
                rw q (elim (Bool-cases (length candidates == 0)) [
                  | inl r ↦ rw r (omega (arith, same))
                  | inr r ↦ rw r (
                      auto_scale_up-Reports candidates reserves
                        (min_int needed (pos (length candidates))) n b (record f { view = view })
                        quiet
                      ∙ omega (arith, same))
                ])
          ])
  ]
