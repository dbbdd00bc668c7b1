-- ===== src/Config/Validate/Pruning.antt =====
-- config/config.go: workerPruneAfter against workerStaleAfter, and Validate as a whole.
use orchard_gh_bridge.Base.{
  ◌≡◌, ◌↔◌, ◌⊎◌, refl, ◌∙◌, inl, inr, true, false, Text, is_empty, [], Result, ok, Bool-cases,
  arith,
}
use orchard_gh_bridge.Base.Int.{pos, negsuc, ltb_ℤ, leb_ℤ}
use orchard_gh_bridge.Base.Time.{Duration}
use orchard_gh_bridge.Config.{Config}
use orchard_gh_bridge.Config.Durations.{
  default_worker_prune_after, worker_prune_after_duration, effective_worker_stale_after,
  worker_prune_default_suppressed,
}
use orchard_gh_bridge.Config.Validate.{Field, Problem, has_auth, is_prune_too_soon, validate}
use orchard_gh_bridge.Config.Validate.Rules.{
  ++-nil, when-nil, when-not-nil, length-nil, is_empty_iff, ltb_ℤ-leb_ℤ, IsUnsetOr, IsAccepted,
  positive_problems-nil, prune_problems-nil, scale_set_problems-nil,
}

zero_of : (d : Duration) → leb_ℤ (pos 0) d ≡ true → ltb_ℤ (pos 0) d ≡ false → d ≡ pos 0
zero_of (pos n) h k = ground arith
zero_of (negsuc n) h k = absurd (ground arith)

module _ (parse_duration : Text → Result Duration) (c : Config) where
  abbrev pub IsBeyond : Type 0
  IsBeyond =
      (worker_prune_after_duration parse_duration c ≡ pos 0)
      ⊎ (ltb_ℤ (effective_worker_stale_after parse_duration c)
            (worker_prune_after_duration parse_duration c)
          ≡ true)

  pub stale_positive :
      IsUnsetOr parse_duration (λ d. ltb_ℤ (pos 0) d) c.worker_stale_after
      → ltb_ℤ (pos 0) (effective_worker_stale_after parse_duration c) ≡ true
  unfolding effective_worker_stale_after
  stale_positive h = elim (Bool-cases (is_empty c.worker_stale_after)) [
    | inl e ↦ rw e (ground arith)
    | inr e ↦ elim h [
      | inl unset ↦ absurd (ground (arith, (is_empty_iff c.worker_stale_after).0 e, unset))
      | inr (d, q, p) ↦ ground (arith, e, q, p)
    ]
  ]

  prune_value :
      (d : Duration)
      → is_empty c.worker_prune_after ≡ false
      → parse_duration c.worker_prune_after ≡ ok d
      → leb_ℤ (pos 0) d ≡ true
      → worker_prune_after_duration parse_duration c ≡ d
  unfolding worker_prune_after_duration
  prune_value d e q p = rw (e, q) (ground (arith, ltb_ℤ-leb_ℤ d (pos 0)))

  unset-IsBeyond : is_empty c.worker_prune_after ≡ true → IsBeyond
  unfolding worker_prune_after_duration worker_prune_default_suppressed
  unset-IsBeyond e =
      elim (Bool-cases
        (leb_ℤ default_worker_prune_after (effective_worker_stale_after parse_duration c))) [
          | inl s ↦ inl (rw (e, s) refl)
          | inr s ↦ inr (
              ground (
                arith,
                e,
                s,
                ltb_ℤ-leb_ℤ (effective_worker_stale_after parse_duration c)
                    default_worker_prune_after,
              ))
        ]

  -- The test of Validate, on durations that are otherwise accepted.
  too_soon_iff :
      IsUnsetOr parse_duration (λ d. ltb_ℤ (pos 0) d) c.worker_stale_after
      → IsUnsetOr parse_duration (λ d. leb_ℤ (pos 0) d) c.worker_prune_after
      → (is_prune_too_soon parse_duration c ≡ false) ↔ IsBeyond
  unfolding is_prune_too_soon
  too_soon_iff stale prune = elim (Bool-cases (is_empty c.worker_prune_after)) [
    | inl e ↦ ((λ h. unset-IsBeyond e), λ h. ground (arith, e))
    | inr e ↦ elim prune [
      | inl unset ↦ absurd (ground (arith, (is_empty_iff c.worker_prune_after).0 e, unset))
      | inr (d, q, p) ↦
          let value = prune_value d e q p in
          let limit = effective_worker_stale_after parse_duration c in
          let live = stale_positive stale in
          let flip = ltb_ℤ-leb_ℤ limit d in
          (
            (λ h. elim (Bool-cases (ltb_ℤ (pos 0) d)) [
              | inl positive ↦ inr (ground (arith, value, h, e, live, flip, positive))
              | inr n ↦ inl (value ∙ zero_of d p n)
            ]),
            λ h. elim h [
              | inl off ↦ ground (arith, off)
              | inr far ↦ ground (arith, value, far, flip)
            ],
          )
    ]
  ]

  -- Validate accepts exactly the configurations with an address, authentication, complete scale
  -- sets and accepted durations, in which pruning is off or begins later than the age at which a
  -- worker stops to count.
  pub validate_iff : (validate parse_duration c ≡ []) ↔ IsAccepted parse_duration c
  unfolding validate
  validate_iff = (
    (λ e.
        let (e1, r1) = (++-nil _ _).0 e in
        let (e2, r2) = (++-nil _ _).0 r1 in
        let (e3, r3) = (++-nil _ _).0 r2 in
        let (e4, r4) = (++-nil _ _).0 r3 in
        let (e5, r5) = (++-nil _ _).0 r4 in
        let (e6, r6) = (++-nil _ _).0 r5 in
        let (e7, r7) = (++-nil _ _).0 r6 in
        let (e8, e9) = (++-nil _ _).0 r7 in
        let stale = (positive_problems-nil parse_duration _ c.worker_stale_after).0 e3 in
        let prune = (prune_problems-nil parse_duration c.worker_prune_after).0 e5 in
        record {
          address = (is_empty_iff c.orchard.address).0 ((when-nil _ _).0 e1);
          age = (positive_problems-nil parse_duration _ c.max_vm_age).0 e2;
          stale = stale;
          pending = (positive_problems-nil parse_duration _ c.max_pending_age).0 e4;
          prune = prune;
          beyond = (too_soon_iff stale prune).0 ((when-nil _ _).0 e6);
          auth = (when-not-nil (has_auth c.github) _).0 e7;
          some_set = (length-nil c.scale_sets _).0 e8;
          sets = (scale_set_problems-nil 0 c.scale_sets).0 e9;
        }),
    λ h.
        let e1 =
          (when-nil (is_empty c.orchard.address) Problem.missing_address).1
            ((is_empty_iff c.orchard.address).1 h.address) in
        let e9 = (scale_set_problems-nil 0 c.scale_sets).1 h.sets in
        let e2 = (positive_problems-nil parse_duration Field.max_vm_age c.max_vm_age).1 h.age in
        let e3 =
          (positive_problems-nil parse_duration Field.worker_stale_after c.worker_stale_after).1
            h.stale in
        let e4 =
          (positive_problems-nil parse_duration Field.max_pending_age c.max_pending_age).1
            h.pending in
        let e5 = (prune_problems-nil parse_duration c.worker_prune_after).1 h.prune in
        let e6 = (too_soon_iff h.stale h.prune).1 h.beyond in
        let e8 = (length-nil c.scale_sets Problem.no_scale_set).1 h.some_set in
        rw (e1, e2, e3, e4, e5, e6, h.auth, e8, e9) refl,
  )
