-- ===== src/Bridge/Labels.antt =====
-- The label tests and the slot sums of bridge/cleanup.go, bridge/stateview.go and
-- manager/manager.go.
pub mod Sum
pub mod Superset
use orchard_gh_bridge.Base.{
  ℕ, Bool, true, false, ◌&&◌, not, if◌then◌else◌, Text, codes, text_eq, List, [], ◌∷◌, Dict, lookup,
  get_or, Option, none, some,
}
use orchard_gh_bridge.Base.Int.{ℤ, pos, add_int, to_int}
use orchard_gh_bridge.Orchard.{Worker}

-- labelsSuperset: a missing label reads as "".
unfoldable pub labels_superset : Dict Text → Dict Text → Bool
labels_superset have [] = true
labels_superset have ((k, v) ∷ want) = text_eq (get_or [] k have) v && labels_superset have want

-- workerMatchesLabels of the bridge and workerMatchesAllLabels of the manager, the same loop.
unfoldable pub worker_matches_labels : Worker → Dict Text → Bool
worker_matches_labels w want = labels_superset w.labels want

-- resourceTartVMs
abbrev pub resource_tart_vms : Text
resource_tart_vms = codes "org.cirruslabs.tart-vms"

-- if n, ok := w.Resources[resourceTartVMs]; ok { total += int(n) }
unfoldable pub add_slots : ℤ → Worker → ℤ
add_slots total w = elim (lookup resource_tart_vms w.resources) [
  | none ↦ total
  | some n ↦ add_int total (to_int n)
]

-- The loop of pushMaxCapacity, of CapacityForLabels and of discoverCapacity: the slots of the
-- workers that pass a test.
unfoldable pub sum_slots : (Worker → Bool) → ℤ → List Worker → ℤ
sum_slots counts total [] = total
sum_slots counts total (w ∷ ws) =
    sum_slots counts (if counts w then add_slots total w else total) ws

-- CapacityForLabels
unfoldable pub capacity_for_labels : List Worker → Dict Text → ℤ
capacity_for_labels workers labels =
    sum_slots (λ w. not w.scheduling_paused && worker_matches_labels w labels) (pos 0) workers
