-- ===== src/Bridge/Sweep/Loop.antt =====
-- bridge/cleanup.go: Run, the loop that sweeps at every tick. What the others do to the shared
-- state from one tick to the next is a function for each tick; after the last one the context is
-- cancelled.
use orchard_gh_bridge.Base.{
  ◌≡◌, ◌∙◌, ◌⊎◌, inl, inr, true, false, ◌&&◌, not, Text, has, is_some, IsMap, Option-cases, List,
  [], ◌∷◌, All, arith,
}
use orchard_gh_bridge.Bridge.Services.{Services}
use orchard_gh_bridge.Bridge.Fleet.{Fleet}
use orchard_gh_bridge.Bridge.Cleanup.{Cleanup}
use orchard_gh_bridge.Bridge.Sweep.{list_vms_and_workers, sweep}
use orchard_gh_bridge.Bridge.Sweep.Queue.{sweep-IsMap, sweep-unread}
use orchard_gh_bridge.Bridge.Sweep.Pending.{IsSteady, sweep_pending_deletes}

module _ {W : Type 0} (svc : Services W) where
  -- Run
  pub run_cleanup : List (Fleet W → Fleet W) → Cleanup W → Fleet W → Cleanup W × Fleet W
  run_cleanup [] c f = (c, f)
  run_cleanup (until ∷ ticks) c f = let (c', f') = sweep svc c (until f) in run_cleanup ticks c' f'

  -- At one of the ticks the sweep reads Orchard's state.
  abbrev pub ReadsOnce : List (Fleet W → Fleet W) → Cleanup W → Fleet W → Type 0
  ReadsOnce [] c f = ⊥
  ReadsOnce (until ∷ ticks) c f =
      let (c', f') = sweep svc c (until f) in
      (is_some (list_vms_and_workers svc (until f).view).0 ≡ true) ⊎ ReadsOnce ticks c' f'

-- The others do not queue that VM.
pub record IsQuiet {W : Type 0} (name : Text) (until : Fleet W → Fleet W) : Type 0 where
  pub map_of : (f : Fleet W) → IsMap f.pending_deletes → IsMap (until f).pending_deletes
  pub same : (f : Fleet W) → has name (until f).pending_deletes ≡ has name f.pending_deletes

module _ {W : Type 0} (svc : Services W) (name : Text) (steady : IsSteady svc name true) where
  -- A sweep does not queue a VM, and drops one that Orchard deletes when it reads the state.
  sweep-dequeues :
      (c : Cleanup W) (f : Fleet W)
      → IsMap f.pending_deletes
      → has name (sweep svc c f).1.pending_deletes
        ≡ (has name f.pending_deletes && not (is_some (list_vms_and_workers svc f.view).0))
  sweep-dequeues c f h = elim (Option-cases (list_vms_and_workers svc f.view).0) [
    | inl e ↦ rw (sweep-unread svc c f e, e) (ground arith)
    | inr (st, e) ↦ rw e (sweep_pending_deletes svc name true c f st steady h e ∙ ground arith)
  ]

  stays-out :
      (ticks : List (Fleet W → Fleet W)) (c : Cleanup W) (f : Fleet W)
      → All (IsQuiet name) ticks
      → IsMap f.pending_deletes
      → has name f.pending_deletes ≡ false
      → has name (run_cleanup svc ticks c f).1.pending_deletes ≡ false
  unfolding run_cleanup
  stays-out [] c f quiet h out = out
  stays-out (until ∷ ticks) c f (quiet, rest) h out =
      let (c', f') = sweep svc c (until f) in
      let h' = quiet.map_of f h in
      stays-out ticks c' f' rest (sweep-IsMap svc c (until f) h')
        (ground (arith, sweep-dequeues c (until f) h', quiet.same f, out))

  -- A VM that Orchard deletes whenever it is asked to, and that the others do not queue again, is
  -- no longer queued when the loop ends, as soon as the sweep of one tick reads the state.
  pub run-dequeues :
      (ticks : List (Fleet W → Fleet W)) (c : Cleanup W) (f : Fleet W)
      → All (IsQuiet name) ticks
      → IsMap f.pending_deletes
      → ReadsOnce svc ticks c f
      → has name (run_cleanup svc ticks c f).1.pending_deletes ≡ false
  unfolding run_cleanup
  run-dequeues [] c f quiet h read = absurd read
  run-dequeues (until ∷ ticks) c f (quiet, rest) h (inl now) =
      let (c', f') = sweep svc c (until f) in
      let h' = quiet.map_of f h in
      stays-out ticks c' f' rest (sweep-IsMap svc c (until f) h')
        (ground (arith, sweep-dequeues c (until f) h', now))
  run-dequeues (until ∷ ticks) c f (quiet, rest) h (inr later) =
      let (c', f') = sweep svc c (until f) in
      run-dequeues ticks c' f' rest (sweep-IsMap svc c (until f) (quiet.map_of f h)) later
