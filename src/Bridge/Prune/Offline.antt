-- ===== src/Bridge/Prune/Offline.antt =====
-- bridge/cleanup.go: which workers' records a sweep deletes.
use orchard_gh_bridge.Base.{
  ℕ, ◌+◌, ◌≡◌, refl, inl, inr, true, false, Text, Dict, TextSet, List, [], ◌∷◌, length, All, In,
  Option-cases, Result-cases, Bool-cases, is_ok, arith, ◌++◌, map, ap, ◌∙◌,
}
use orchard_gh_bridge.Base.Int.{pos, leb_ℤ}
use orchard_gh_bridge.Base.Time.{Time, Duration}
use orchard_gh_bridge.Orchard.{Vm, Worker}
use orchard_gh_bridge.Bridge.Services.{Services}
use orchard_gh_bridge.Bridge.Journal.{Prunes}
use orchard_gh_bridge.Bridge.Cleanup.{Cleanup}
use orchard_gh_bridge.Bridge.Prune.{
  count_worker_vms, is_offline, skip_reason, Pruning, prune_worker, prune_workers,
  prune_offline_workers,
}
use orchard_gh_bridge.Bridge.Prune.Rules.{IsPrunable, pruned-IsPrunable, IsPrunable-pruned}

module _ (prune_after : Duration) (vms : List Vm) (live : TextSet) (now : Time) where
  module _ {W : Type 0} (svc : Services W) where
    abbrev Sound : List Worker → Pruning → Type 0
    Sound all p = All (λ w. In w all × IsPrunable prune_after vms live now w) p.pruned

    prune_workers-Sound :
        (all ws : List Worker) (p : Pruning) (world : W)
        → ((w : Worker) → In w ws → In w all)
        → Sound all p
        → Sound all (prune_workers svc prune_after (count_worker_vms [] vms) live now ws p world).0
    unfolding prune_workers prune_worker
    prune_workers-Sound all [] p world sub h = h
    prune_workers-Sound all (w ∷ ws) p world sub h =
        let worker_vms = count_worker_vms [] vms in
        let go : (p' : Pruning) (world' : W)
            → Sound all p'
            → Sound all (prune_workers svc prune_after worker_vms live now ws p' world').0 =
          λ p'. λ world'. prune_workers-Sound all ws p' world' (λ x. λ i. sub x (inr i)) in
        elim (Bool-cases (is_offline prune_after live now w)) [
          | inr off ↦ rw (off, prune_workers) (go p world h)
          | inl off ↦ elim (Option-cases (skip_reason worker_vms w)) [
            | inr (reason, s) ↦ rw (off, s, prune_workers, prune_worker) (go _ world h)
            | inl s ↦ elim (Result-cases (svc.orchard.delete_worker w.name world).0) [
              | inl (u, q) ↦
                  rw (off, s, q, prune_workers, prune_worker)
                    (go _ _
                      ((sub w (inl refl), pruned-IsPrunable prune_after vms live now w off s), h))
              | inr (x, q) ↦ rw (off, s, q, prune_workers, prune_worker) (go p _ h)
            ]
          ]
        ]

    -- Orchard grants every delete of that worker.
    abbrev pub IsDeletable : Worker → Type 0
    IsDeletable w = (world : W) → is_ok (svc.orchard.delete_worker w.name world).0 ≡ true

    prune_workers-grows :
        (w : Worker) (ws : List Worker) (p : Pruning) (world : W)
        → In w p.pruned
        → In w
            (prune_workers svc prune_after (count_worker_vms [] vms) live now ws p world).0.pruned
    unfolding prune_workers prune_worker
    prune_workers-grows w [] p world h = h
    prune_workers-grows w (v ∷ ws) p world h =
        let worker_vms = count_worker_vms [] vms in
        elim (Bool-cases (is_offline prune_after live now v)) [
          | inr off ↦ rw (off, prune_workers) (prune_workers-grows w ws p world h)
          | inl off ↦ elim (Option-cases (skip_reason worker_vms v)) [
            | inr (reason, s) ↦
                rw (off, s, prune_workers, prune_worker) (prune_workers-grows w ws _ world h)
            | inl s ↦ elim (Result-cases (svc.orchard.delete_worker v.name world).0) [
              | inl (u, q) ↦
                  rw (off, s, q, prune_workers, prune_worker) (prune_workers-grows w ws _ _ (inr h))
              | inr (x, q) ↦
                  rw (off, s, q, prune_workers, prune_worker) (prune_workers-grows w ws p _ h)
            ]
          ]
        ]

    prune_workers-first :
        (w : Worker) (ws : List Worker) (p : Pruning) (world : W)
        → IsDeletable w
        → IsPrunable prune_after vms live now w
        → In w
            (prune_workers svc prune_after
              (count_worker_vms [] vms)
              live
              now
              (w ∷ ws)
              p
              world).0.pruned
    unfolding prune_workers prune_worker
    prune_workers-first w ws p world del h =
        let (off, s) = IsPrunable-pruned prune_after vms live now w h in
        elim (Result-cases (svc.orchard.delete_worker w.name world).0) [
          | inl (u, d) ↦
              rw (off, s, d, prune_workers, prune_worker) (prune_workers-grows w ws _ _ (inl refl))
          | inr (x, d) ↦ ground (arith, del world, d)
        ]

    prune_workers-In :
        (w : Worker) (ws : List Worker) (p : Pruning) (world : W)
        → IsDeletable w
        → IsPrunable prune_after vms live now w
        → In w ws
        → In w
            (prune_workers svc prune_after (count_worker_vms [] vms) live now ws p world).0.pruned
    unfolding prune_workers prune_worker
    prune_workers-In w [] p world del h i = elim i [ ]
    prune_workers-In w (v ∷ ws) p world del h (inl e) =
        rw (← e) (prune_workers-first w ws p world del h)
    prune_workers-In w (v ∷ ws) p world del h (inr i) = prune_workers-In w ws _ _ del h i

module _ {W : Type 0} (svc : Services W) (gone : W → List Text) (prunes : Prunes svc gone) where
  -- The log of Orchard grows by the workers that the loop counts.
  prune_workers-gone :
      (prune_after : Duration) (worker_vms : Dict ℕ) (live : TextSet) (now : Time)
      (base : List Text) (ws : List Worker) (p : Pruning) (world : W)
      → gone world ≡ map (λ w. w.name) p.pruned ++ base
      → let (p', world') = prune_workers svc prune_after worker_vms live now ws p world in
        gone world' ≡ map (λ w. w.name) p'.pruned ++ base
  unfolding prune_workers prune_worker
  prune_workers-gone prune_after worker_vms live now base [] p world h = h
  prune_workers-gone prune_after worker_vms live now base (w ∷ ws) p world h =
      let go = prune_workers-gone prune_after worker_vms live now base ws in
      let law = prunes w.name world in
      elim (Bool-cases (is_offline prune_after live now w)) [
        | inr off ↦ rw (off, prune_workers) (go p world h)
        | inl off ↦ elim (Option-cases (skip_reason worker_vms w)) [
          | inr (reason, s) ↦ rw (off, s, prune_workers, prune_worker) (go _ world h)
          | inl s ↦ elim (Result-cases (svc.orchard.delete_worker w.name world).0) [
            | inl (u, q) ↦
                rw (off, s, q, prune_workers, prune_worker)
                  (go _ _ (law ∙ rw q (ap (λ names. w.name ∷ names) h)))
            | inr (x, q) ↦ rw (off, s, q, prune_workers, prune_worker) (go p _ (law ∙ rw q h))
          ]
        ]
      ]

  -- With a positive limit, the records that Orchard deletes during pruneOfflineWorkers are those
  -- of the workers that it counts, each once and in their order: only listed workers that are
  -- offline past the limit, not paused and without VMs, and each of those that Orchard lets it
  -- delete; their number is added to the total.
  pub prune_offline_workers_lem :
      (vms : List Vm) (all : List Worker) (live : TextSet) (now : Time) (c : Cleanup W) (world : W)
      → leb_ℤ c.prune_after (pos 0) ≡ false
      → let (pruned, c', world') = prune_offline_workers svc vms all live now c world in
        (gone world' ≡ map (λ w. w.name) pruned ++ gone world)
        × All (λ w. In w all × IsPrunable c.prune_after vms live now w) pruned
        × ((w : Worker)
            → In w all
            → IsPrunable c.prune_after vms live now w
            → IsDeletable c.prune_after vms live now svc w
            → In w pruned)
        × (c'.pruned_total ≡ c.pruned_total + length pruned)
  unfolding prune_offline_workers
  prune_offline_workers_lem vms all live now c world on =
      let p0 : Pruning = record {
        pruned = [];
        still_skipped = [];
        skip_logged = c.prune_skip_logged;
      } in
      rw (on, prune_offline_workers)
        (
          prune_workers-gone c.prune_after (count_worker_vms [] vms) live now (gone world) all p0
              world refl,
          prune_workers-Sound c.prune_after vms live now svc all all p0 world (λ w. λ i. i) tt,
          (λ w. λ i.
              λ h. λ del. prune_workers-In c.prune_after vms live now svc w all p0 world del h i),
          refl,
        )
