-- ===== src/Config/Durations.antt =====
-- config/config.go: the durations of a configuration. `parse_duration` is time.ParseDuration, whose
-- value on an error is 0.
use orchard_gh_bridge.Base.{Bool, ◌&&◌, if◌then◌else◌, Text, is_empty, Result, ok, err}
use orchard_gh_bridge.Base.Int.{pos, ltb_ℤ, leb_ℤ}
use orchard_gh_bridge.Base.Time.{Duration}
use orchard_gh_bridge.Config.{Config}

-- 2 * time.Minute, time.Hour and 10 * time.Minute
abbrev pub default_worker_stale_after : Duration
default_worker_stale_after = pos 120000000000

abbrev pub default_worker_prune_after : Duration
default_worker_prune_after = pos 3600000000000

abbrev pub default_max_pending_age : Duration
default_max_pending_age = pos 600000000000

module _ (parse_duration : Text → Result Duration) where
  -- d, _ := time.ParseDuration(s)
  abbrev pub parsed_or_zero : Text → Duration
  parsed_or_zero s = elim (parse_duration s) [ ok d ↦ d | err e ↦ pos 0 ]

  -- MaxVMAgeDuration, WorkerStaleAfterDuration and MaxPendingAgeDuration
  pub max_vm_age_duration : Config → Duration
  max_vm_age_duration c = if is_empty c.max_vm_age then pos 0 else parsed_or_zero c.max_vm_age

  unfoldable pub worker_stale_after_duration : Config → Duration
  worker_stale_after_duration c =
      if is_empty c.worker_stale_after then pos 0 else parsed_or_zero c.worker_stale_after

  pub max_pending_age_duration : Config → Duration
  max_pending_age_duration c =
      if is_empty c.max_pending_age then pos 0 else parsed_or_zero c.max_pending_age

  -- effectiveWorkerStaleAfter
  unfoldable pub effective_worker_stale_after : Config → Duration
  effective_worker_stale_after c =
      if is_empty c.worker_stale_after
      then default_worker_stale_after
      else parsed_or_zero c.worker_stale_after

  -- WorkerPruneDefaultSuppressed
  unfoldable pub worker_prune_default_suppressed : Config → Bool
  worker_prune_default_suppressed c =
      is_empty c.worker_prune_after
      && leb_ℤ default_worker_prune_after (effective_worker_stale_after c)

  -- WorkerPruneAfterDuration
  unfoldable pub worker_prune_after_duration : Config → Duration
  worker_prune_after_duration c =
      if is_empty c.worker_prune_after
      then if worker_prune_default_suppressed c then pos 0 else default_worker_prune_after
      else elim (parse_duration c.worker_prune_after) [
        | err e ↦ pos 0
        | ok d ↦ if ltb_ℤ d (pos 0) then pos 0 else d
      ]
