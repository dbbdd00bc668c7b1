-- ===== src/Bridge/Prune/Kept.antt =====
-- bridge/cleanup.go: what pruneOfflineWorkers leaves alone.
use orchard_gh_bridge.Base.{
  ℕ, ◌≡◌, refl, ◌∙◌, inl, inr, Text, Dict, TextSet, List, [], ◌∷◌, Option-cases, Bool-cases,
}
use orchard_gh_bridge.Base.Int.{pos, leb_ℤ}
use orchard_gh_bridge.Base.Time.{Time, Duration}
use orchard_gh_bridge.Orchard.{Vm, Worker}
use orchard_gh_bridge.Bridge.Services.{Services}
use orchard_gh_bridge.Bridge.Cleanup.{Cleanup}
use orchard_gh_bridge.Bridge.Prune.{
  count_worker_vms, is_offline, skip_reason, Pruning, prune_worker, prune_workers,
  prune_offline_workers,
}

module _ {W : Type 0} {A : Type 0} (svc : Services W) (seen : W → A)
    (prunes : (name : Text) (w : W) → seen (svc.orchard.delete_worker name w).1 ≡ seen w) where
  prune_workers-seen :
      (prune_after : Duration) (worker_vms : Dict ℕ) (live : TextSet) (now : Time)
      (ws : List Worker) (p : Pruning) (world : W)
      → seen (prune_workers svc prune_after worker_vms live now ws p world).1 ≡ seen world
  unfolding prune_workers prune_worker
  prune_workers-seen prune_after worker_vms live now [] p world = refl
  prune_workers-seen prune_after worker_vms live now (w ∷ ws) p world =
      let go = prune_workers-seen prune_after worker_vms live now ws in
      elim (Bool-cases (is_offline prune_after live now w)) [
        | inr off ↦ rw (off, prune_workers) (go p world)
        | inl off ↦ elim (Option-cases (skip_reason worker_vms w)) [
          | inr (reason, s) ↦ rw (off, s, prune_workers, prune_worker) (go _ world)
          | inl s ↦ rw (off, s, prune_workers, prune_worker) (go _ _ ∙ prunes w.name world)
        ]
      ]

  pub prune_offline_workers-seen :
      (vms : List Vm) (all : List Worker) (live : TextSet) (now : Time) (c : Cleanup W) (world : W)
      → seen (prune_offline_workers svc vms all live now c world).2 ≡ seen world
  unfolding prune_offline_workers
  prune_offline_workers-seen vms all live now c world =
      let p0 : Pruning = record {
        pruned = [];
        still_skipped = [];
        skip_logged = c.prune_skip_logged;
      } in
      elim (Bool-cases (leb_ℤ c.prune_after (pos 0))) [
        | inl off ↦ rw (off, prune_offline_workers) refl
        | inr on ↦
            rw (on, prune_offline_workers)
              (prune_workers-seen c.prune_after (count_worker_vms [] vms) live now all p0 world)
      ]
