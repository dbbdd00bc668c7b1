-- ===== src/Tests/Calling.antt =====
-- Callers of the shared view that interleave, at a concrete schedule.
use orchard_gh_bridge.Base.{refl, none, some, ok}
use orchard_gh_bridge.Base.Int.{pos}
use orchard_gh_bridge.Bridge.StateView.{Snapshot, new_snapshot, finish_refresh, join_refresh}
use orchard_gh_bridge.Bridge.StateView.Calls.{
  waiting, woken, returned, Calls, cached, go_to, start_lead, end_lead, leads, joins, finishes,
  wakes, reads, Reach, here, next, quiet,
}
use orchard_gh_bridge.Bridge.StateView.Calls.Single.{IsSingle, Reach-IsSingle}
use orchard_gh_bridge.Bridge.StateView.Calls.Answers.{IsAnswer, Reach-IsAnswer}
use orchard_gh_bridge.Tests.Data.{vms, workers, state}

abbrev found : Snapshot
found = new_snapshot vms workers 9 (pos 120000000000)

-- The caller 0 leads a refresh, and the caller 1 waits for it.
abbrev two_calling : Calls
two_calling = go_to (start_lead (quiet state) 0) 1 (waiting 0)

two_calling-Reach : Reach (quiet state) two_calling
unfolding cached
two_calling-Reach = next (next here (leads 0 7 refl refl refl)) (joins 1 8 0 refl refl refl)

-- The refresh ends, and the caller 1 reads what it left.
abbrev ended : Calls
ended = end_lead two_calling 0 0 none (ok found)

abbrev answered : Calls
answered = go_to (go_to ended 1 woken) 1 (returned (join_refresh ended.view))

answered-Reach : Reach (quiet state) answered
unfolding new_snapshot
answered-Reach =
    next
      (next (next two_calling-Reach (finishes 0 0 none (ok found) refl refl)) (wakes 1 0 refl refl))
      (reads 1 refl)

Reach-IsSingle_example : IsSingle two_calling
Reach-IsSingle_example = Reach-IsSingle state two_calling-Reach

Reach-IsAnswer_example : IsAnswer state.stale_after (some found, none)
unfolding join_refresh finish_refresh
Reach-IsAnswer_example = Reach-IsAnswer state 1 (some found, none) refl answered-Reach refl
