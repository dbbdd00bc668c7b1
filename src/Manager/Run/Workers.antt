-- ===== src/Manager/Run/Workers.antt =====
-- manager/manager.go: what runScaleSet tells GitHub about the workers, and that it waits for one.
use orchard_gh_bridge.Base.{
  ℕ, zero, suc, ◌*◌, ◌≡◌, ◌≢◌, ◌⊎◌, refl, inl, inr, Bool, true, false, ◌||◌, Text, codes, wrap_err,
  List, ok, err, Done, Io, Result-cases, Bool-cases, arith,
}
use orchard_gh_bridge.Base.Int.{ℤ, pos, ltb_ℤ, eqb_ℤ}
use orchard_gh_bridge.Base.Time.{Duration, second}
use orchard_gh_bridge.Config.{ScaleSetConfig}
use orchard_gh_bridge.Orchard.{Worker}
use orchard_gh_bridge.Bridge.Services.{Services}
use orchard_gh_bridge.Manager.{list_live_workers}
use orchard_gh_bridge.Manager.Setup.{Github, register_scale_set}
use orchard_gh_bridge.Manager.Run.{
  Waited, no_fuel, stopped, found, is_found, Outcome, listening, capacity_of, wait_for_workers,
  initial_max_runners, open_listener, start_listener, run_scale_set,
}

module _ {W : Type 0} (svc : Services W) (stale_after : Duration) where
  -- Some read of the live workers that shows this capacity of the scale set.
  pub record IsSeen (cfg : ScaleSetConfig) (n : ℤ) : Type 0 where
    pub at : W
    pub workers : List Worker
    pub listed : (list_live_workers svc stale_after at).0 ≡ ok workers
    pub shown : n ≡ capacity_of cfg workers

  -- What runScaleSet may tell GitHub to begin with.
  abbrev pub AreRunners : ScaleSetConfig → ℤ → Type 0
  AreRunners cfg n =
      (n ≢ pos 0)
      × (((ltb_ℤ (pos 0) cfg.max_runners ≡ true) × (n ≡ cfg.max_runners))
          ⊎ ((ltb_ℤ (pos 0) cfg.max_runners ≡ false) × IsSeen cfg n))

  abbrev WereFound : ScaleSetConfig → Waited → Type 0
  WereFound cfg no_fuel = Unit
  WereFound cfg stopped = Unit
  WereFound cfg (found n) = AreRunners cfg n

  abbrev pub AreTold : ScaleSetConfig → Outcome → Type 0
  AreTold cfg (listening id n) = AreRunners cfg n
  AreTold cfg _ = Unit

  module _ (gh : Github W) where
    wait-WereFound :
        (fuel : ℕ) (cfg : ScaleSetConfig) (w : W)
        → ltb_ℤ (pos 0) cfg.max_runners ≡ false
        → WereFound cfg (wait_for_workers svc stale_after gh fuel cfg w).0
    unfolding wait_for_workers
    wait-WereFound zero cfg w auto = tt
    wait-WereFound (suc fuel) cfg w auto =
        let (done, w1) = gh.sleep (pos (10 * second)) w in
        let (r, w2) = list_live_workers svc stale_after w1 in
        let later = wait-WereFound fuel cfg w2 auto in
        elim (Bool-cases done) [
          | inl d ↦ rw (d, wait_for_workers) tt
          | inr d ↦ elim (Result-cases r) [
            | inr (e, q) ↦ rw (d, q, wait_for_workers) later
            | inl (workers, q) ↦ elim (Bool-cases (ltb_ℤ (pos 0) (capacity_of cfg workers))) [
              | inr few ↦ rw (d, q, few, wait_for_workers) later
              | inl some_room ↦
                  rw (d, q, some_room, wait_for_workers)
                    (
                      λ z. ground (arith, z, some_room),
                      inr (auto, record { at = w1; workers = workers; listed = q; shown = refl }),
                    )
            ]
          ]
        ]

    initial-WereFound :
        (fuel : ℕ) (cfg : ScaleSetConfig) (w : W)
        → WereFound cfg (initial_max_runners svc stale_after gh fuel cfg w).0
    unfolding initial_max_runners
    initial-WereFound fuel cfg w = elim (Bool-cases (ltb_ℤ (pos 0) cfg.max_runners)) [
      | inl fixed ↦ rw fixed ((λ z. ground (arith, z, fixed)), inl (fixed, refl))
      | inr auto ↦
          let (r, w') = list_live_workers svc stale_after w in
          let later = wait-WereFound fuel cfg w' auto in
          elim (Result-cases r) [
            | inr (e, q) ↦ rw (auto, q, initial_max_runners) later
            | inl (workers, q) ↦ elim (Bool-cases (eqb_ℤ (capacity_of cfg workers) (pos 0))) [
              | inl nothing ↦ rw (auto, q, nothing, initial_max_runners) later
              | inr room ↦
                  rw (auto, q, room, initial_max_runners)
                    (
                      λ z. ground (arith, z, room),
                      inr (auto, record { at = w; workers = workers; listed = q; shown = refl }),
                    )
            ]
          ]
    ]

    open_listener-AreTold :
        (new_listener : ℤ → ℤ → W → Done × W) (fuel : ℕ) (cfg : ScaleSetConfig) (id : ℤ) (w : W)
        → AreTold cfg (open_listener svc stale_after gh new_listener fuel cfg id w).0
    unfolding open_listener
    open_listener-AreTold new_listener fuel cfg id w = ground (arith, initial-WereFound fuel cfg w)

    -- Whether one of the next reads of the live workers, each after a wait, shows some capacity.
    pub sees_within : ℕ → ScaleSetConfig → W → Bool
    sees_within zero cfg w = false
    sees_within (suc fuel) cfg w =
        let (r, w') = list_live_workers svc stale_after (gh.sleep (pos (10 * second)) w).1 in
        elim r [ err e ↦ false | ok workers ↦ ltb_ℤ (pos 0) (capacity_of cfg workers) ]
        || sees_within fuel cfg w'

    -- While the context is not cancelled, the loop that waits for a first worker ends as soon as a
    -- read of the live workers shows some capacity, and not before: for any number of rounds, it
    -- has found it by then exactly if one of that many reads does.
    pub wait_for_workers_lem :
        (fuel : ℕ) (cfg : ScaleSetConfig) (w : W)
        → ((d : Duration) (v : W) → (gh.sleep d v).0 ≡ false)
        → is_found (wait_for_workers svc stale_after gh fuel cfg w).0 ≡ sees_within fuel cfg w
    unfolding wait_for_workers sees_within
    wait_for_workers_lem zero cfg w running = refl
    wait_for_workers_lem (suc fuel) cfg w running =
        let (done, w1) = gh.sleep (pos (10 * second)) w in
        let (r, w2) = list_live_workers svc stale_after w1 in
        ground (arith, running (pos (10 * second)) w, wait_for_workers_lem fuel cfg w2 running)

    start_listener-AreTold :
        (new_listener : ℤ → ℤ → W → Done × W) (fuel : ℕ) (cfg : ScaleSetConfig) (w : W)
        → AreTold cfg (start_listener svc stale_after gh new_listener fuel cfg w).0
    unfolding start_listener
    start_listener-AreTold new_listener fuel cfg w =
        let (r, w') = wrap_err (codes "registering scale set") (register_scale_set gh cfg) w in
        elim (Result-cases r) [
          | inr (e, q) ↦ rw (q, start_listener) tt
          | inl (id, q) ↦ rw (q, start_listener) (open_listener-AreTold new_listener fuel cfg id w')
        ]

  -- Whenever runScaleSet comes to a listener, the maxRunners that it begins with is not zero: it
  -- is the configured number, or, without one, the capacity of the scale set on live workers.
  pub run_scale_set-AreTold :
      (new_gh_client : Text → Io W (Github W)) (new_listener : ℤ → ℤ → W → Done × W) (fuel : ℕ)
      (cfg : ScaleSetConfig) (w : W)
      → AreTold cfg (run_scale_set svc stale_after new_gh_client new_listener fuel cfg w).0
  unfolding run_scale_set
  run_scale_set-AreTold new_gh_client new_listener fuel cfg w =
      let (r, w') =
        wrap_err (codes "creating GitHub client") (new_gh_client cfg.github_config_url) w in
      elim (Result-cases r) [
        | inr (e, q) ↦ rw (q, run_scale_set) tt
        | inl (gh, q) ↦ rw (q, run_scale_set) (start_listener-AreTold gh new_listener fuel cfg w')
      ]
