-- ===== src/Bridge/Live.antt =====
-- bridge/worker.go: which workers still heartbeat.
use orchard_gh_bridge.Base.{Bool, true, if◌then◌else◌, List, keep}
use orchard_gh_bridge.Base.Int.{pos, leb_ℤ}
use orchard_gh_bridge.Base.Time.{Time, Duration, is_zero, sub_time}
use orchard_gh_bridge.Orchard.{Worker}

-- WorkerLive
unfoldable pub worker_live : Worker → Duration → Time → Bool
worker_live w stale_after now =
    if leb_ℤ stale_after (pos 0)
    then true
    else if is_zero w.last_seen
    then true
    else leb_ℤ (sub_time now w.last_seen) stale_after

-- LiveWorkers
unfoldable pub live_workers : List Worker → Duration → Time → List Worker
live_workers workers stale_after now = keep (λ w. worker_live w stale_after now) workers
