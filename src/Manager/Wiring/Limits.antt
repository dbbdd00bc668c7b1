-- ===== src/Manager/Wiring/Limits.antt =====
-- manager/manager.go, config/config.go: that the limits of the clean-up and of the state view fit
-- together for a configuration that Validate accepts.
use orchard_gh_bridge.Base.{
  ◌≡◌, refl, inl, inr, true, false, is_empty, [], Bool, Bool-cases, Result, Text, arith,
}
use orchard_gh_bridge.Base.Int.{pos, ltb_ℤ, leb_ℤ}
use orchard_gh_bridge.Base.Time.{Time, Duration, is_zero, sub_time}
use orchard_gh_bridge.Config.{Config}
use orchard_gh_bridge.Config.Durations.{
  effective_worker_stale_after, worker_stale_after_duration, worker_prune_after_duration,
}
use orchard_gh_bridge.Config.Validate.{validate}
use orchard_gh_bridge.Config.Validate.Pruning.{stale_positive, validate_iff}
use orchard_gh_bridge.Orchard.{Worker}
use orchard_gh_bridge.Bridge.Live.{worker_live}
use orchard_gh_bridge.Bridge.Services.{Services}
use orchard_gh_bridge.Bridge.Cleanup.{is_older, set_worker_prune_after}
use orchard_gh_bridge.Manager.Wiring.{manager_stale_after, wire_cleanup}

beyond : (s p d : Duration) → ltb_ℤ s p ≡ true → ltb_ℤ p d ≡ true → leb_ℤ d s ≡ false
beyond s p d h k = ground arith

positive_stale : (s : Duration) → ltb_ℤ (pos 0) s ≡ true → leb_ℤ s (pos 0) ≡ false
positive_stale s h = ground arith

module _ (parse_duration : Text → Result Duration) (cfg : Config)
    (accepted : validate parse_duration cfg ≡ []) where
  positive : ltb_ℤ (pos 0) (effective_worker_stale_after parse_duration cfg) ≡ true
  positive = stale_positive parse_duration cfg ((validate_iff parse_duration cfg).0 accepted).stale

  manager_stale_after-eq :
      manager_stale_after parse_duration cfg ≡ effective_worker_stale_after parse_duration cfg
  unfolding manager_stale_after worker_stale_after_duration effective_worker_stale_after
  manager_stale_after-eq = elim (Bool-cases (is_empty cfg.worker_stale_after)) [
    | inl unset ↦ rw unset refl
    | inr set ↦ ground (arith, set, positive)
  ]

  prune_after-eq :
      {W : Type 0} (svc : Services W) (has_remover : Bool)
      → ltb_ℤ (pos 0) (wire_cleanup parse_duration svc has_remover cfg).prune_after ≡ true
      → (wire_cleanup parse_duration svc has_remover cfg).prune_after
        ≡ worker_prune_after_duration parse_duration cfg
  unfolding wire_cleanup set_worker_prune_after
  prune_after-eq svc has_remover on = ground arith

  -- For a configuration that Validate accepts, a worker that is old enough for the clean-up of the
  -- manager to prune its record, where it prunes at all, does not count as live for the manager.
  pub wire_cleanup-limits :
      {W : Type 0} (svc : Services W) (has_remover : Bool) (w : Worker) (now : Time)
      → let prune_after = (wire_cleanup parse_duration svc has_remover cfg).prune_after in
        ltb_ℤ (pos 0) prune_after ≡ true
        → is_older w.last_seen prune_after now ≡ true
        → worker_live w (manager_stale_after parse_duration cfg) now ≡ false
  unfolding is_older worker_live
  wire_cleanup-limits svc has_remover w now on old =
      let prune = (wire_cleanup parse_duration svc has_remover cfg).prune_after in
      let limit = effective_worker_stale_after parse_duration cfg in
      let age = sub_time now w.last_seen in
      let same = prune_after-eq svc has_remover on in
      let set : is_zero w.last_seen ≡ false = ground (arith, old) in
      let is_old : ltb_ℤ prune age ≡ true = ground (arith, old) in
      let apart : ltb_ℤ limit prune ≡ true =
        elim ((validate_iff parse_duration cfg).0 accepted).beyond [
          | inl off ↦ absurd (ground (arith, off, same, on))
          | inr far ↦ rw same far
        ] in
      rw
        (
          manager_stale_after-eq,
          positive_stale limit positive,
          set,
          beyond limit prune age apart is_old,
        )
        refl
