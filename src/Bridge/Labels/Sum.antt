-- ===== src/Bridge/Labels/Sum.antt =====
-- bridge/cleanup.go: the capacity that CapacityForLabels reports.
use orchard_gh_bridge.Base.{
  ℕ, ◌+◌, ◌≤◌, ◌<◌, ◌≡◌, ◌∙◌, Bool, true, ◌&&◌, not, if◌then◌else◌, Text, List, [], ◌∷◌, Dict,
  lookup, get_or, arith, Bool-cases, Option-cases, inl, inr,
}
use orchard_gh_bridge.Base.Int.{pos, two_63, add_int_pos, to_int_small}
use orchard_gh_bridge.Orchard.{Worker}
use orchard_gh_bridge.Bridge.Labels.{
  worker_matches_labels, resource_tart_vms, add_slots, sum_slots, capacity_for_labels,
}

-- The slots that a worker advertises, zero if it advertises none.
abbrev pub slots_of : Worker → ℕ
slots_of w = get_or 0 resource_tart_vms w.resources

-- The exact sum of the slots of the workers that pass a test.
abbrev pub total_slots : (Worker → Bool) → List Worker → ℕ
total_slots counts [] = 0
total_slots counts (w ∷ ws) = (if counts w then slots_of w else 0) + total_slots counts ws

add_slots-exact :
    (total : ℕ) (w : Worker)
    → total + slots_of w < two_63
    → add_slots (pos total) w ≡ pos (total + slots_of w)
unfolding add_slots
add_slots-exact total w h = elim (Option-cases (lookup resource_tart_vms w.resources)) [
  | inl e ↦ ground arith
  | inr (n, e) ↦ ground (arith, to_int_small n, add_int_pos total n)
]

-- As long as the sum is an int, the loops compute it exactly.
pub sum_slots-exact :
    (counts : Worker → Bool) (total : ℕ) (ws : List Worker)
    → total + total_slots counts ws < two_63
    → sum_slots counts (pos total) ws ≡ pos (total + total_slots counts ws)
unfolding sum_slots
sum_slots-exact counts total [] h = ground arith
sum_slots-exact counts total (w ∷ ws) h = elim (Bool-cases (counts w)) [
  | inl e ↦ ground (arith, add_slots-exact total w, sum_slots-exact counts (total + slots_of w) ws)
  | inr e ↦ ground (arith, sum_slots-exact counts total ws)
]

-- A stronger test sums no more slots.
pub total_slots_mono :
    (p q : Worker → Bool) (ws : List Worker)
    → ((w : Worker) → p w ≡ true → q w ≡ true)
    → total_slots p ws ≤ total_slots q ws
total_slots_mono p q [] h = omega arith
total_slots_mono p q (w ∷ ws) h = ground (arith, h w, total_slots_mono p q ws h)

-- The workers whose slots a scale set with these labels can use.
abbrev pub is_usable : Dict Text → Worker → Bool
is_usable labels w = not w.scheduling_paused && worker_matches_labels w labels

-- As long as the slots of all workers that are not paused sum up to an int, CapacityForLabels is
-- the exact sum of the slots of the matching workers that are not paused, and at most the sum over
-- all that are not paused.
pub capacity_for_labels-exact :
    (workers : List Worker) (labels : Dict Text)
    → total_slots (λ w. not w.scheduling_paused) workers < two_63
    → (capacity_for_labels workers labels ≡ pos (total_slots (is_usable labels) workers))
      × (total_slots (is_usable labels) workers
          ≤ total_slots (λ w. not w.scheduling_paused) workers)
unfolding capacity_for_labels
capacity_for_labels-exact workers labels h =
    let below =
      total_slots_mono (is_usable labels) (λ w. not w.scheduling_paused) workers
        (λ w e. ground arith) in
    (sum_slots-exact (is_usable labels) 0 workers (omega arith) ∙ ground arith, below)
