-- ===== src/Bridge/System.antt =====
-- bridge/bridge.go, bridge/cleanup.go, bridge/capacity.go: the bridges of the scale sets and the
-- clean-up on the state that they share, as steps in any order. A handler or a sweep is one step;
-- what it reads may have been changed by any step before it.
pub mod Owners
pub mod Pool
use orchard_gh_bridge.Base.{ℕ, ◌+◌, ◌-◌, ◌≤◌, ◌<◌, Text, List, [], ◌∷◌, length, map}
use orchard_gh_bridge.Base.Int.{ℤ, pos, pos_part, two_63}
use orchard_gh_bridge.Bridge.Capacity.{adopt_existing}
use orchard_gh_bridge.Bridge.Services.{Services}
use orchard_gh_bridge.Bridge.Fleet.{Fleet, Bridge}
use orchard_gh_bridge.Bridge.Cleanup.{Cleanup}
use orchard_gh_bridge.Bridge.Scaler.{
  handle_desired_runner_count, handle_job_started, handle_job_completed, hydrate_from_orchard,
  purge_active_vm,
}
use orchard_gh_bridge.Bridge.Sweep.{sweep}

-- `owed` is the number of VMs that bridges have adopted and not yet reserved slots for: runScaleSet
-- calls AdoptExisting after HydrateFromOrchard, and other steps may come between.
pub record System (W : Type 0) : Type 0 where
  pub bridges : List (Bridge W)
  pub cleanup : Cleanup W
  pub fleet : Fleet W
  pub owed : ℕ

module _ {W : Type 0} (svc : Services W) where
  -- A call of the listener, or of the start of the scale set, on its bridge; last, the VMs that it
  -- adopted. The count of the listener is an int that is not negative, and so is the length of a map.
  pub data Handles : Bridge W → Fleet W → Bridge W → Fleet W → ℕ → Type 0 where
    desires :
        (k : ℕ) (b : Bridge W) (f : Fleet W)
        → k < two_63
        → length b.active_vms < two_63
        → Handles b f
            (handle_desired_runner_count svc (pos k) b f).1
            (handle_desired_runner_count svc (pos k) b f).2
            0
    starts :
        (name : Text) (b : Bridge W) (f : Fleet W)
        → Handles b f (handle_job_started svc name b f).1 (handle_job_started svc name b f).2 0
    completes :
        (name : Text) (id : ℤ) (b : Bridge W) (f : Fleet W)
        → Handles b f
            (handle_job_completed svc name id b f).1
            (handle_job_completed svc name id b f).2
            0
    hydrates :
        (b : Bridge W) (f : Fleet W)
        → Handles b f
            (hydrate_from_orchard svc b f).1
            (hydrate_from_orchard svc b f).2
            (hydrate_from_orchard svc b f).0.0

  -- One of the bridges handles a call.
  pub data Acts : List (Bridge W) → Fleet W → List (Bridge W) → Fleet W → ℕ → Type 0 where
    first :
        {b b' : Bridge W} {f f' : Fleet W} {n : ℕ} (bs : List (Bridge W))
        → Handles b f b' f' n
        → Acts (b ∷ bs) f (b' ∷ bs) f' n
    later :
        {bs bs' : List (Bridge W)} {f f' : Fleet W} {n : ℕ} (b : Bridge W)
        → Acts bs f bs' f' n
        → Acts (b ∷ bs) f (b ∷ bs') f' n

  -- Beside the calls, AdoptExisting gives adopted VMs their slots, as long as the sum is an int,
  -- the callback of the clean-up purges a VM from all bridges, and the world outside moves on.
  pub data Turn : System W → System W → Type 0 where
    acts :
        {bs bs' : List (Bridge W)} {f f' : Fleet W} {n : ℕ} (c : Cleanup W) (owed : ℕ)
        → Acts bs f bs' f' n
        → Turn
            (record { bridges = bs; cleanup = c; fleet = f; owed = owed })
            (record { bridges = bs'; cleanup = c; fleet = f'; owed = owed + n })
    reserves :
        (s : System W) (n : ℕ)
        → n ≤ s.owed
        → pos_part s.fleet.capacity.current + n < two_63
        → Turn s (record s {
          fleet = record s.fleet { capacity = adopt_existing (pos n) s.fleet.capacity };
          owed = s.owed - n;
        })
    purges :
        (s : System W) (name : Text)
        → Turn s (record s { bridges = map (purge_active_vm name) s.bridges })
    moves :
        (s : System W) (w : W)
        → Turn s (record s { fleet = record s.fleet { view = record s.fleet.view { world = w } } })

  -- Any of these, or a sweep.
  pub data Step : System W → System W → Type 0 where
    turns : {s t : System W} → Turn s t → Step s t
    sweeps :
        (s : System W)
        → Step s (record s {
          cleanup = (sweep svc s.cleanup s.fleet).0;
          fleet = (sweep svc s.cleanup s.fleet).1;
        })

  pub data Reach (s : System W) : System W → Type 0 where
    here : Reach s s
    next : {t u : System W} → Reach s t → Step t u → Reach s u

  -- Without a sweep.
  pub data Turns (s : System W) : System W → Type 0 where
    still : Turns s s
    more : {t u : System W} → Turns s t → Turn t u → Turns s u
