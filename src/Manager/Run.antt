-- ===== src/Manager/Run.antt =====
-- manager/manager.go: runScaleSet up to its listener. GitHub's client, its constructor and that of
-- the listener are parameters, and a `Github` waits as well.
pub mod Workers
use orchard_gh_bridge.Base.{
  ℕ, zero, suc, ◌*◌, ◌≡◌, ◌≢◌, ◌⊎◌, refl, inl, inr, Bool, true, false, ◌||◌, ◌&&◌, if◌then◌else◌,
  Text, codes, List, Option, none, some, Error, Result, wrapped, ok, err, Done, Io, ◌>>=◌, pure,
  wrap_err, Result-cases, Bool-cases, arith,
}
use orchard_gh_bridge.Base.Int.{ℤ, pos, ltb_ℤ, eqb_ℤ}
use orchard_gh_bridge.Base.Time.{Duration, second}
use orchard_gh_bridge.Config.{ScaleSetConfig}
use orchard_gh_bridge.Orchard.{Worker}
use orchard_gh_bridge.Bridge.Services.{Services}
use orchard_gh_bridge.Manager.{worker_capacity, list_live_workers}
use orchard_gh_bridge.Manager.Setup.{
  Github, Session, out_of_rounds, interrupted, refused, opened, register_scale_set, create_session,
}

-- How the wait for a first worker ends; `no_fuel` is a model that looked no further.
pub data Waited : Type 0 where
  no_fuel : Waited
  stopped : Waited
  found : ℤ → Waited

-- What runScaleSet comes to: an error, the end of the context, or a listener for the scale set with
-- its initial maxRunners.
pub data Outcome : Type 0 where
  pending : Outcome
  cancelled : Outcome
  failed : Error → Outcome
  listening : (id : ℤ) → (max_runners : ℤ) → Outcome

abbrev pub is_found : Waited → Bool
is_found (found n) = true
is_found _ = false

-- capacityFn, on the labels of the scale set
pub capacity_of : ScaleSetConfig → List Worker → ℤ
capacity_of cfg workers =
    worker_capacity cfg.vm.auto_size.enabled cfg.vm.auto_size.reserve_cpu
      cfg.vm.auto_size.reserve_memory_mib workers cfg.vm.labels

module _ {W : Type 0} (svc : Services W) (stale_after : Duration) (gh : Github W) where
  -- The loop that waits for a first worker, ten seconds for each round.
  pub wait_for_workers : ℕ → ScaleSetConfig → W → Waited × W
  wait_for_workers zero cfg w = (no_fuel, w)
  wait_for_workers (suc fuel) cfg w =
      let (done, w1) = gh.sleep (pos (10 * second)) w in
      let (r, w2) = list_live_workers svc stale_after w1 in
      let again = wait_for_workers fuel cfg w2 in
      if done then (stopped, w1) else elim r [
        | err e ↦ again
        | ok workers ↦
            let n = capacity_of cfg workers in if ltb_ℤ (pos 0) n then (found n, w2) else again
      ]

  -- maxRunners of runScaleSet: the configured number, or what the workers can take.
  pub initial_max_runners : ℕ → ScaleSetConfig → W → Waited × W
  initial_max_runners fuel cfg w =
      if ltb_ℤ (pos 0) cfg.max_runners
      then (found cfg.max_runners, w)
      else (let (r, w') = list_live_workers svc stale_after w in
          let first : ℤ = elim r [ err e ↦ pos 0 | ok workers ↦ capacity_of cfg workers ] in
          if eqb_ℤ first (pos 0) then wait_for_workers fuel cfg w' else (found first, w'))

  -- runScaleSet from the registered scale set on: maxRunners, the session, the listener.
  pub open_listener : (ℤ → ℤ → W → Done × W) → ℕ → ScaleSetConfig → ℤ → W → Outcome × W
  open_listener new_listener fuel cfg id w =
      let (waited, w1) = initial_max_runners fuel cfg w in
      elim waited [
        | no_fuel ↦ (pending, w1)
        | stopped ↦ (cancelled, w1)
        | found n ↦
            let (session, w2) = create_session gh id w1 in
            elim session [
              | out_of_rounds ↦ (pending, w2)
              | interrupted ↦ (cancelled, w2)
              | refused e ↦ (failed e, w2)
              | opened ↦
                  let (made, w3) = new_listener id n w2 in
                  elim made [
                    | err e ↦ (failed (wrapped (codes "creating listener") e), w3)
                    | ok _ ↦ (listening id n, w3)
                  ]
            ]
      ]

  -- runScaleSet from the client on, with the registration.
  pub start_listener : (ℤ → ℤ → W → Done × W) → ℕ → ScaleSetConfig → W → Outcome × W
  start_listener new_listener fuel cfg w =
      let (r, w') = wrap_err (codes "registering scale set") (register_scale_set gh cfg) w in
      elim r [ err e ↦ (failed e, w') | ok id ↦ open_listener new_listener fuel cfg id w' ]

-- runScaleSet, from the making of the client to the listener's
pub run_scale_set :
    {W : Type 0}
    → Services W
    → Duration
    → (Text → Io W (Github W))
    → (ℤ → ℤ → W → Done × W)
    → ℕ
    → ScaleSetConfig
    → W
    → Outcome × W
run_scale_set svc stale_after new_gh_client new_listener fuel cfg w =
    let (r, w') =
      wrap_err (codes "creating GitHub client") (new_gh_client cfg.github_config_url) w in
    elim r [
      | err e ↦ (failed e, w')
      | ok gh ↦ start_listener svc stale_after gh new_listener fuel cfg w'
    ]
