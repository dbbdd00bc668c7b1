-- ===== src/Config/Validate/Rules.antt =====
-- config/config.go: which configurations Validate accepts.
use orchard_gh_bridge.Base.{
  ℕ, ◌+◌, ◌≡◌, ◌≢◌, ◌↔◌, ◌⊎◌, refl, inl, inr, ◌==◌, Bool, true, false, not, Text, is_empty, List,
  [], ◌∷◌, ◌++◌, length, All, Result, ok, Result-cases, arith,
}
use orchard_gh_bridge.Base.Int.{ℤ, pos, negsuc, ltb_ℤ, leb_ℤ}
use orchard_gh_bridge.Base.Time.{Duration}
use orchard_gh_bridge.Config.{Config, ScaleSetConfig}
use orchard_gh_bridge.Config.Durations.{worker_prune_after_duration, effective_worker_stale_after}
use orchard_gh_bridge.Config.Validate.{
  Field, Problem, when, has_auth, scale_set_problems, positive_problems, prune_problems,
}

-- A scale set has what it needs.
abbrev pub IsComplete : ScaleSetConfig → Type 0
IsComplete ss = (ss.name ≢ []) × (ss.github_config_url ≢ []) × (ss.vm.image ≢ [])

pub ++-nil : {A : Type 0} (xs ys : List A) → (xs ++ ys ≡ []) ↔ ((xs ≡ []) × (ys ≡ []))
++-nil [] ys = (λ e. (refl, e), λ (e, f). f)
++-nil (x ∷ xs) ys = (λ e. absurd (ground (arith, e)), λ (e, f). absurd (ground (arith, e)))

pub when-nil : (b : Bool) (p : Problem) → (when b p ≡ []) ↔ (b ≡ false)
when-nil true p = ground arith
when-nil false p = ground arith

pub when-not-nil : (b : Bool) (p : Problem) → (when (not b) p ≡ []) ↔ (b ≡ true)
when-not-nil true p = ground arith
when-not-nil false p = ground arith

pub length-nil :
    {A : Type 0} (xs : List A) (p : Problem) → (when (length xs == 0) p ≡ []) ↔ (xs ≢ [])
length-nil [] p = ((λ e. absurd (ground (arith, e))), λ h. absurd (h refl))
length-nil (x ∷ xs) p = ((λ e q. ground (arith, q)), λ h. ground arith)

pub is_empty_iff : (s : Text) → (is_empty s ≡ false) ↔ (s ≢ [])
is_empty_iff [] = (λ e. ground arith, λ h. absurd (h refl))
is_empty_iff (c ∷ s) = (λ e q. ground (arith, q), λ h. refl)

pub scale_set_problems-nil :
    (i : ℕ) (sets : List ScaleSetConfig) → (scale_set_problems i sets ≡ []) ↔ All IsComplete sets
unfolding scale_set_problems
scale_set_problems-nil i [] = (λ e. tt, λ h. refl)
scale_set_problems-nil i (ss ∷ sets) =
    let rest = scale_set_problems-nil (i + 1) sets in
    let name = is_empty_iff ss.name in
    let url = is_empty_iff ss.github_config_url in
    let image = is_empty_iff ss.vm.image in ground (arith, rest, name, url, image)

pub ltb_ℤ-leb_ℤ : (x y : ℤ) → leb_ℤ y x ≡ not (ltb_ℤ x y)
ltb_ℤ-leb_ℤ (pos a) (pos b) = ground arith
ltb_ℤ-leb_ℤ (pos a) (negsuc b) = ground arith
ltb_ℤ-leb_ℤ (negsuc a) (pos b) = ground arith
ltb_ℤ-leb_ℤ (negsuc a) (negsuc b) = ground arith

module _ (parse_duration : Text → Result Duration) where
  -- The field is not set, or a duration that passes a test.
  abbrev pub IsUnsetOr : (Duration → Bool) → Text → Type 0
  IsUnsetOr test s = (s ≡ []) ⊎ ((d : Duration) × (parse_duration s ≡ ok d) × (test d ≡ true))

  -- What Validate asks of a configuration.
  pub record IsAccepted (c : Config) : Type 0 where
    pub address : c.orchard.address ≢ []
    pub age : IsUnsetOr (λ d. ltb_ℤ (pos 0) d) c.max_vm_age
    pub stale : IsUnsetOr (λ d. ltb_ℤ (pos 0) d) c.worker_stale_after
    pub pending : IsUnsetOr (λ d. ltb_ℤ (pos 0) d) c.max_pending_age
    pub prune : IsUnsetOr (λ d. leb_ℤ (pos 0) d) c.worker_prune_after
    pub beyond :
        (worker_prune_after_duration parse_duration c ≡ pos 0)
        ⊎ (ltb_ℤ
              (effective_worker_stale_after parse_duration c)
              (worker_prune_after_duration parse_duration c)
            ≡ true)
    pub auth : has_auth c.github ≡ true
    pub some_set : c.scale_sets ≢ []
    pub sets : All IsComplete c.scale_sets

  pub positive_problems-nil :
      (field : Field) (s : Text)
      → (positive_problems parse_duration field s ≡ []) ↔ IsUnsetOr (λ d. ltb_ℤ (pos 0) d) s
  unfolding positive_problems
  positive_problems-nil field [] = (λ e. inl refl, λ h. refl)
  positive_problems-nil field (k ∷ s) = elim (Result-cases (parse_duration (k ∷ s))) [
    | inl (d, q) ↦ (
      (λ e. inr (d, q, ground (arith, ltb_ℤ-leb_ℤ (pos 0) d))),
      λ h. elim h [
        | inl e ↦ absurd (ground (arith, e))
        | inr (d', q', p) ↦ ground (arith, ltb_ℤ-leb_ℤ (pos 0) d)
      ],
    )
    | inr (x, q) ↦ (
      (λ e. absurd (ground arith)),
      λ h. elim h [
        | inl e ↦ absurd (ground (arith, e))
        | inr (d', q', p) ↦ absurd (ground (arith, q, q'))
      ],
    )
  ]

  pub prune_problems-nil :
      (s : Text) → (prune_problems parse_duration s ≡ []) ↔ IsUnsetOr (λ d. leb_ℤ (pos 0) d) s
  unfolding prune_problems
  prune_problems-nil [] = (λ e. inl refl, λ h. refl)
  prune_problems-nil (k ∷ s) = elim (Result-cases (parse_duration (k ∷ s))) [
    | inl (d, q) ↦ (
      (λ e. inr (d, q, ground (arith, ltb_ℤ-leb_ℤ d (pos 0)))),
      λ h. elim h [
        | inl e ↦ absurd (ground (arith, e))
        | inr (d', q', p) ↦ ground (arith, ltb_ℤ-leb_ℤ d (pos 0))
      ],
    )
    | inr (x, q) ↦ (
      (λ e. absurd (ground arith)),
      λ h. elim h [
        | inl e ↦ absurd (ground (arith, e))
        | inr (d', q', p) ↦ absurd (ground (arith, q, q'))
      ],
    )
  ]
