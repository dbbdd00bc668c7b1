-- ===== src/Bridge/AutoScaleUp/Owned.antt =====
-- bridge/bridge.go: whose VMs a bridge has active after handleAutoSizeScaleUp.
use orchard_gh_bridge.Base.{
  ◌==◌, ◌%◌, ℕ, zero, suc, ◌+◌, ◌≡◌, refl, inl, inr, List, length, Option-cases, Bool-cases,
  Result-cases,
}
use orchard_gh_bridge.Base.Int.{two_64, ℤ, pos, pos_part, eqb_ℤ}
use orchard_gh_bridge.Orchard.{Worker}
use orchard_gh_bridge.Bridge.Name.Format.{IsUuid}
use orchard_gh_bridge.Bridge.Services.{Services}
use orchard_gh_bridge.Bridge.Fleet.{Fleet, Bridge, get_snapshot, merge_pin_label}
use orchard_gh_bridge.Bridge.Capacity.{try_acquire, min_int}
use orchard_gh_bridge.Bridge.Owned.{IsOwner, create_one_vm-IsOwner}
use orchard_gh_bridge.Bridge.AutoSize.{
  pin_identity, free_auto_size_workers, auto_sized_vm, auto_size_reserves,
}
use orchard_gh_bridge.Bridge.AutoScaleUp.{
  Batch, new_batch, pick, finish_auto_scale_up, create_on, auto_round, auto_vms, auto_scale_up,
  handle_auto_size_scale_up,
}

module _ {W : Type 0} (svc : Services W) (uuids : (w : W) → IsUuid (svc.new_uuid w).0) where
  create_on-IsOwner :
      (worker : Worker) (reserves : ℕ × ℕ) (b : Bridge W) (w : W)
      → IsOwner b
      → IsOwner (create_on svc worker reserves b w).1
  unfolding create_on
  create_on-IsOwner worker (cpu, mem) b w h =
      let labels = merge_pin_label b.vm_config.labels (pin_identity worker) in
      elim (Result-cases (auto_sized_vm worker cpu mem)) [
        | inr (e, q) ↦ rw (q, create_on) h
        | inl ((c, m), q) ↦ rw (q, create_on) (create_one_vm-IsOwner svc uuids c m labels b w h)
      ]

  auto_round-IsOwner :
      (candidates : List Worker) (start : ℕ) (reserves : ℕ × ℕ) (i : ℕ) (batch : Batch W)
      (b : Bridge W) (w : W)
      → IsOwner b
      → IsOwner (auto_round svc candidates start reserves i batch b w).1
  unfolding auto_round
  auto_round-IsOwner candidates start reserves i batch b w h =
      elim (Option-cases (pick candidates start i)) [
        | inl q ↦ rw (q, auto_round) h
        | inr (worker, q) ↦ rw (q, auto_round) (create_on-IsOwner worker reserves b w h)
      ]

  auto_vms-IsOwner :
      (candidates : List Worker) (start : ℕ) (reserves : ℕ × ℕ) (rounds i : ℕ) (batch : Batch W)
      (b : Bridge W) (w : W)
      → IsOwner b
      → IsOwner (auto_vms svc candidates start reserves rounds i batch b w).1
  unfolding auto_vms
  auto_vms-IsOwner candidates start reserves zero i batch b w h = h
  auto_vms-IsOwner candidates start reserves (suc rounds) i batch b w h =
      let round = auto_round svc candidates start reserves i batch b w in
      let h' = auto_round-IsOwner candidates start reserves i batch b w h in
      elim (Option-cases round.0.stopped) [
        | inl q ↦
            rw (q, auto_vms)
              (auto_vms-IsOwner candidates start reserves rounds (i + 1) round.0 round.1 round.2 h')
        | inr (stop, q) ↦ rw (q, auto_vms) h'
      ]

  finish_auto_scale_up-bridge :
      (acquired : ℤ) (n : ℕ) (f : Fleet W) (batch : Batch W) (b : Bridge W) (w : W)
      → (finish_auto_scale_up acquired n f (batch, b, w)).1 ≡ b
  unfolding finish_auto_scale_up
  finish_auto_scale_up-bridge acquired n f batch b w = elim (Option-cases batch.stopped) [
    | inl q ↦ rw (q, finish_auto_scale_up) refl
    | inr (e, q) ↦ rw (q, finish_auto_scale_up) refl
  ]

  auto_scale_up-IsOwner :
      (candidates : List Worker) (reserves : ℕ × ℕ) (needed : ℤ) (n : ℕ) (b : Bridge W)
      (f : Fleet W)
      → IsOwner b
      → IsOwner (auto_scale_up svc candidates reserves needed n b f).1
  unfolding auto_scale_up
  auto_scale_up-IsOwner candidates reserves needed n b f h =
      let (acquired, capacity) = try_acquire needed f.capacity in
      let start = b.placement_cursor in
      let moved : Bridge W = record b { placement_cursor = (start + pos_part acquired) % two_64 } in
      let moved-owner : IsOwner moved = record {
        scale_set = h.scale_set;
        named = h.named;
        short = h.short;
        owned = h.owned;
      } in
      let rounds = pos_part acquired in
      let out =
        auto_vms svc candidates start reserves rounds 0 (new_batch capacity) moved f.view.world in
      elim (Bool-cases (eqb_ℤ acquired (pos 0))) [
        | inl e ↦ rw (e, auto_scale_up) h
        | inr e ↦
            rw (e, auto_scale_up, finish_auto_scale_up-bridge acquired n f out.0 out.1 out.2)
              (auto_vms-IsOwner candidates start reserves rounds 0 (new_batch capacity) moved
                f.view.world moved-owner)
      ]

  pub handle_auto_size_scale_up-IsOwner :
      (needed : ℤ) (n : ℕ) (b : Bridge W) (f : Fleet W)
      → IsOwner b
      → IsOwner (handle_auto_size_scale_up svc needed n b f).1
  unfolding handle_auto_size_scale_up
  handle_auto_size_scale_up-IsOwner needed n b f h = elim (Option-cases f.view.state) [
    | inl e ↦ rw (e, handle_auto_size_scale_up) h
    | inr (s, e) ↦
        let (snap, view) = get_snapshot svc s f.view in
        let cfg = b.vm_config in
        let reserves =
          auto_size_reserves cfg.auto_size.reserve_cpu cfg.auto_size.reserve_memory_mib in
        rw (e, handle_auto_size_scale_up)
          (elim (Option-cases snap) [
            | inl q ↦ rw q h
            | inr (t, q) ↦
                let candidates =
                  free_auto_size_workers t.workers t.vms cfg.labels reserves.0 reserves.1 in
                rw q (elim (Bool-cases (length candidates == 0)) [
                  | inl r ↦ rw r h
                  | inr r ↦ rw r (
                      auto_scale_up-IsOwner candidates reserves
                        (min_int needed (pos (length candidates))) n b (record f { view = view }) h)
                ])
          ])
  ]
