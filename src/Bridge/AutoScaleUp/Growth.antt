-- ===== src/Bridge/AutoScaleUp/Growth.antt =====
-- bridge/bridge.go: that handleAutoSizeScaleUp reports every VM that it adds.
use orchard_gh_bridge.Base.{
  ◌==◌, ◌%◌, ℕ, zero, suc, ◌+◌, ◌≡◌, inl, inr, List, length, Option-cases, Bool-cases, Result-cases,
  ◌≤◌, Option, Done, ok, err, arith, none, some,
}
use orchard_gh_bridge.Base.Int.{two_64, ℤ, pos, pos_part, eqb_ℤ}
use orchard_gh_bridge.Orchard.{Worker}
use orchard_gh_bridge.Bridge.Services.{Services}
use orchard_gh_bridge.Bridge.Fleet.{Fleet, Bridge, get_snapshot, merge_pin_label}
use orchard_gh_bridge.Bridge.Capacity.{try_acquire, min_int}
use orchard_gh_bridge.Bridge.AutoSize.{
  pin_identity, free_auto_size_workers, auto_sized_vm, auto_size_reserves,
}
use orchard_gh_bridge.Bridge.AutoScaleUp.{
  Batch, new_batch, pick, finish_auto_scale_up, create_on, auto_round, auto_vms, auto_scale_up,
  handle_auto_size_scale_up, after_round,
}
use orchard_gh_bridge.Bridge.Growth.{made, actives, create_one_vm-grows}
use orchard_gh_bridge.Bridge.ScaleUp.Growth.{Covers}

module _ {W : Type 0} where
  pub after_round-created :
      (r : Option Done) (batch : Batch W) → (after_round r batch).created ≡ batch.created + made r
  unfolding after_round
  after_round-created none batch = omega arith
  after_round-created (some (ok u)) batch = omega arith
  after_round-created (some (err e)) batch = omega arith

module _ {W : Type 0} (svc : Services W) where
  create_on-grows :
      (worker : Worker) (reserves : ℕ × ℕ) (b : Bridge W) (w : W)
      → let (r, b', w') = create_on svc worker reserves b w in actives b' ≤ actives b + made r
  unfolding create_on
  create_on-grows worker (cpu, mem) b w =
      let labels = merge_pin_label b.vm_config.labels (pin_identity worker) in
      elim (Result-cases (auto_sized_vm worker cpu mem)) [
        | inr (e, q) ↦ rw (q, create_on) (omega arith)
        | inl ((c, m), q) ↦ rw (q, create_on) (create_one_vm-grows svc c m labels b w)
      ]

  auto_round-grows :
      (candidates : List Worker) (start : ℕ) (reserves : ℕ × ℕ) (i : ℕ) (batch : Batch W)
      (b : Bridge W) (w : W)
      → let round = auto_round svc candidates start reserves i batch b w in
        actives round.1 + batch.created ≤ actives b + round.0.created
  unfolding auto_round
  auto_round-grows candidates start reserves i batch b w =
      elim (Option-cases (pick candidates start i)) [
        | inl q ↦ rw (q, auto_round) (omega arith)
        | inr (worker, q) ↦
            let r = (create_on svc worker reserves b w).0 in
            rw (q, auto_round)
              (omega (arith, after_round-created r batch, create_on-grows worker reserves b w))
      ]

  auto_vms-grows :
      (candidates : List Worker) (start : ℕ) (reserves : ℕ × ℕ) (rounds i : ℕ) (batch : Batch W)
      (b : Bridge W) (w : W)
      → let out = auto_vms svc candidates start reserves rounds i batch b w in
        actives out.1 + batch.created ≤ actives b + out.0.created
  unfolding auto_vms
  auto_vms-grows candidates start reserves zero i batch b w = omega arith
  auto_vms-grows candidates start reserves (suc rounds) i batch b w =
      let round = auto_round svc candidates start reserves i batch b w in
      let one = auto_round-grows candidates start reserves i batch b w in
      elim (Option-cases round.0.stopped) [
        | inl q ↦
            rw (q, auto_vms)
              (omega (
                arith,
                one,
                auto_vms-grows candidates start reserves rounds (i + 1) round.0 round.1 round.2,
              ))
        | inr (stop, q) ↦ rw (q, auto_vms) one
      ]

  finish_auto_scale_up-Covers :
      (acquired : ℤ) (n : ℕ) (b : Bridge W) (f : Fleet W) (batch : Batch W) (b' : Bridge W) (w : W)
      → actives b' ≤ actives b + batch.created
      → Covers b n (finish_auto_scale_up acquired n f (batch, b', w))
  unfolding finish_auto_scale_up
  finish_auto_scale_up-Covers acquired n b f batch b' w h = elim (Option-cases batch.stopped) [
    | inl q ↦ rw (q, finish_auto_scale_up) (omega (arith, h))
    | inr (e, q) ↦ rw (q, finish_auto_scale_up) (omega (arith, h))
  ]

  auto_scale_up-Covers :
      (candidates : List Worker) (reserves : ℕ × ℕ) (needed : ℤ) (n : ℕ) (b : Bridge W)
      (f : Fleet W)
      → Covers b n (auto_scale_up svc candidates reserves needed n b f)
  unfolding auto_scale_up
  auto_scale_up-Covers candidates reserves needed n b f =
      let (acquired, capacity) = try_acquire needed f.capacity in
      let start = b.placement_cursor in
      let moved : Bridge W = record b { placement_cursor = (start + pos_part acquired) % two_64 } in
      let rounds = pos_part acquired in
      let batch = new_batch capacity in
      let out = auto_vms svc candidates start reserves rounds 0 batch moved f.view.world in
      elim (Bool-cases (eqb_ℤ acquired (pos 0))) [
        | inl e ↦ rw (e, auto_scale_up) (omega arith)
        | inr e ↦
            rw (e, auto_scale_up)
              (finish_auto_scale_up-Covers acquired n b f out.0 out.1 out.2 (
                omega (
                  arith,
                  auto_vms-grows candidates start reserves rounds 0 batch moved f.view.world,
                )))
      ]

  pub handle_auto_size_scale_up-Covers :
      (needed : ℤ) (n : ℕ) (b : Bridge W) (f : Fleet W)
      → Covers b n (handle_auto_size_scale_up svc needed n b f)
  unfolding handle_auto_size_scale_up
  handle_auto_size_scale_up-Covers needed n b f = elim (Option-cases f.view.state) [
    | inl e ↦ rw (e, handle_auto_size_scale_up) (omega arith)
    | inr (s, e) ↦
        let (snap, view) = get_snapshot svc s f.view in
        let cfg = b.vm_config in
        let reserves =
          auto_size_reserves cfg.auto_size.reserve_cpu cfg.auto_size.reserve_memory_mib in
        rw (e, handle_auto_size_scale_up)
          (elim (Option-cases snap) [
            | inl q ↦ rw q (omega arith)
            | inr (t, q) ↦
                let candidates =
                  free_auto_size_workers t.workers t.vms cfg.labels reserves.0 reserves.1 in
                rw q (elim (Bool-cases (length candidates == 0)) [
                  | inl r ↦ rw r (omega arith)
                  | inr r ↦ rw r (
                      auto_scale_up-Covers candidates reserves
                        (min_int needed (pos (length candidates))) n b (record f { view = view }))
                ])
          ])
  ]
