-- ===== src/Config/Load/Defaults.antt =====
-- config/config.go: what a configuration that Load returns holds.
use orchard_gh_bridge.Base.{
  ◌≡◌, ◌≢◌, ◌<◌, refl, inl, inr, Text, List, [], ◌∷◌, map, All, Result, ok, Io, Result-cases, arith,
}
use orchard_gh_bridge.Base.Int.{pos}
use orchard_gh_bridge.Base.Time.{Duration}
use orchard_gh_bridge.Config.{Config, ScaleSetConfig}
use orchard_gh_bridge.Config.Validate.{Problem, validate}
use orchard_gh_bridge.Config.Validate.Rules.{IsAccepted}
use orchard_gh_bridge.Config.Validate.Pruning.{validate_iff}
use orchard_gh_bridge.Config.Load.{
  text_or, default_scale_set, apply_defaults, apply_env_overrides, accept, load,
}

-- The settings that have a default are set.
pub record HasDefaults (c : Config) : Type 0 where
  pub log_level : c.log_level ≢ []
  pub username : c.orchard.username ≢ []
  pub health : c.health.port ≢ pos 0
  pub metrics : c.metrics.port ≢ pos 0
  pub sets : All (λ ss. (ss.runner_group ≢ []) × (0 < ss.vm.cpu) × (0 < ss.vm.memory)) c.scale_sets

text_or-set : (d s : Text) → d ≢ [] → text_or d s ≢ []
text_or-set d [] h = h
text_or-set d (c ∷ s) h = λ e. ground (arith, e)

sets-HasDefaults :
    (sets : List ScaleSetConfig)
    → All
        (λ ss. (ss.runner_group ≢ []) × (0 < ss.vm.cpu) × (0 < ss.vm.memory))
        (map default_scale_set sets)
unfolding default_scale_set
sets-HasDefaults [] = tt
sets-HasDefaults (ss ∷ sets) = (
  (text_or-set _ ss.runner_group (λ e. ground (arith, e)), ground arith, ground arith),
  sets-HasDefaults sets,
)

apply-HasDefaults :
    (getenv : Text → Text) (c : Config)
    → HasDefaults (apply_env_overrides getenv (apply_defaults c))
unfolding apply_env_overrides apply_defaults
apply-HasDefaults getenv c = record {
  log_level = text_or-set _ c.log_level (λ e. ground (arith, e));
  username = text_or-set _ c.orchard.username (λ e. ground (arith, e));
  health = λ e. ground (arith, e);
  metrics = λ e. ground (arith, e);
  sets = sets-HasDefaults c.scale_sets;
}

accept-ok : (c c' : Config) (ps : List Problem) → accept c ps ≡ ok c' → (ps ≡ []) × (c ≡ c')
unfolding accept
accept-ok c c' [] e = (refl, ground (arith, e))
accept-ok c c' (p ∷ ps) e = absurd (ground (arith, e))

module _ {W : Type 0} (read_file : Text → Io W Text) (unmarshal : Text → Result Config)
    (getenv : Text → Text) (parse_duration : Text → Result Duration) where
  -- A configuration that Load returns is one that Validate accepts, with every default set.
  pub load-IsAccepted :
      (path : Text) (w : W) (c : Config)
      → (load read_file unmarshal getenv parse_duration path w).0 ≡ ok c
      → IsAccepted parse_duration c × HasDefaults c
  unfolding load
  load-IsAccepted path w c e = elim (Result-cases (read_file path w).0) [
    | inr (x, q) ↦ ground (arith, e, q)
    | inl (content, q) ↦ elim (Result-cases (unmarshal content)) [
      | inr (x, r) ↦ ground (arith, e, q, r)
      | inl (parsed, r) ↦
          let loaded = apply_env_overrides getenv (apply_defaults parsed) in
          let (valid, same) =
            accept-ok loaded c (validate parse_duration loaded) (ground (arith, e, q, r)) in
          rw (← same)
            ((validate_iff parse_duration loaded).0 valid, apply-HasDefaults getenv parsed)
    ]
  ]
