-- ===== src/Config/Validate.antt =====
-- config/config.go: Validate. Its error joins the texts of the problems that it finds; here they
-- are the constructors of a type, in the same order.
pub mod Rules
pub mod Pruning
use orchard_gh_bridge.Base.{
  ℕ, ◌+◌, ◌==◌, Bool, true, false, ◌&&◌, ◌||◌, not, if◌then◌else◌, Text, is_empty, List, [], ◌∷◌,
  ◌++◌, length, Result, ok, err,
}
use orchard_gh_bridge.Base.Int.{pos, ltb_ℤ, leb_ℤ, eqb_ℤ}
use orchard_gh_bridge.Base.Time.{Duration}
use orchard_gh_bridge.Config.{Config, ScaleSetConfig, GithubConfig}
use orchard_gh_bridge.Config.Durations.{worker_prune_after_duration, effective_worker_stale_after}

pub data Field : Type 0 where
  max_vm_age worker_stale_after max_pending_age worker_prune_after : Field

pub data Problem : Type 0 where
  missing_address : Problem
  bad_duration : Field → Problem
  not_positive : Field → Problem
  negative_prune : Problem
  prune_not_beyond_stale : Problem
  missing_auth : Problem
  no_scale_set : Problem
  missing_name missing_url missing_image : ℕ → Problem

abbrev pub when : Bool → Problem → List Problem
when b p = if b then p ∷ [] else []

-- hasApp || hasPAT
unfoldable pub has_auth : GithubConfig → Bool
has_auth gh =
    (not (eqb_ℤ gh.app_id (pos 0))
      && (not (eqb_ℤ gh.installation_id (pos 0))
          && (not (is_empty gh.private_key) || not (is_empty gh.private_key_path))))
    || not (is_empty gh.token)

-- The loop over the scale sets, from the place i on.
unfoldable pub scale_set_problems : ℕ → List ScaleSetConfig → List Problem
scale_set_problems i [] = []
scale_set_problems i (ss ∷ sets) =
    when (is_empty ss.name) (missing_name i)
    ++ (when (is_empty ss.github_config_url) (missing_url i)
        ++ (when (is_empty ss.vm.image) (missing_image i) ++ scale_set_problems (i + 1) sets))

module _ (parse_duration : Text → Result Duration) where
  -- The test of maxVMAge, workerStaleAfter and maxPendingAge.
  unfoldable pub positive_problems : Field → Text → List Problem
  positive_problems field s = if is_empty s then [] else elim (parse_duration s) [
    | err e ↦ bad_duration field ∷ []
    | ok d ↦ when (leb_ℤ d (pos 0)) (not_positive field)
  ]

  -- The first test of workerPruneAfter.
  unfoldable pub prune_problems : Text → List Problem
  prune_problems s = if is_empty s then [] else elim (parse_duration s) [
    | err e ↦ bad_duration worker_prune_after ∷ []
    | ok d ↦ when (ltb_ℤ d (pos 0)) negative_prune
  ]

  -- prune > 0 && stale > 0 && prune <= stale, for a workerPruneAfter that is set.
  unfoldable pub is_prune_too_soon : Config → Bool
  is_prune_too_soon c =
      let prune = worker_prune_after_duration parse_duration c in
      let stale = effective_worker_stale_after parse_duration c in
      not (is_empty c.worker_prune_after)
      && (ltb_ℤ (pos 0) prune && (ltb_ℤ (pos 0) stale && leb_ℤ prune stale))

  -- Validate: the problems, none for a nil error.
  unfoldable pub validate : Config → List Problem
  validate c =
      when (is_empty c.orchard.address) missing_address
      ++ (positive_problems max_vm_age c.max_vm_age
          ++ (positive_problems worker_stale_after c.worker_stale_after
              ++ (positive_problems max_pending_age c.max_pending_age
                  ++ (prune_problems c.worker_prune_after
                      ++ (when (is_prune_too_soon c) prune_not_beyond_stale
                          ++ (when (not (has_auth c.github)) missing_auth
                              ++ (when (length c.scale_sets == 0) no_scale_set
                                  ++ scale_set_problems 0 c.scale_sets)))))))
