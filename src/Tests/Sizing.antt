-- ===== src/Tests/Sizing.antt =====
-- Placement with per-host sizes, labels and slots at concrete inputs.
use orchard_gh_bridge.Base.{
  ◌≤◌, ◌≡◌, ◌≢◌, ◌↔◌, inl, refl, not, Text, codes, text_eq, [], ◌∷◌, In, lookup, insert, has_prefix,
  some, arith,
}
use orchard_gh_bridge.Base.Int.{pos}
use orchard_gh_bridge.Orchard.{Vm, Worker, is_terminal}
use orchard_gh_bridge.Bridge.Name.{is_managed_vm}
use orchard_gh_bridge.Bridge.Labels.{labels_superset, worker_matches_labels, capacity_for_labels}
use orchard_gh_bridge.Bridge.Labels.Sum.{total_slots, is_usable, capacity_for_labels-exact}
use orchard_gh_bridge.Bridge.AutoSize.{
  pin_identity, pin_label_key, pin_counts, is_candidate, exclusion_reason, resource_reason,
  auto_size_candidates, free_auto_size_workers, managed_pin_identities, held_pin, hold_pin,
  hold_pins, pin_by_name,
}
use orchard_gh_bridge.Bridge.AutoSize.Candidates.{IsEligible, candidates_iff_IsEligible}
use orchard_gh_bridge.Bridge.AutoScaleUp.{pick}
use orchard_gh_bridge.Bridge.AutoScaleUp.Placement.{pick-distinct}
use orchard_gh_bridge.Bridge.AutoSize.Free.{free-unassigned, free-unpinned}
use orchard_gh_bridge.Tests.Data.{ci_labels, worker_a, worker_b, workers, vm_ci, vms, blank_vm}

abbrev a : Text
a = codes "a"

candidates_iff_IsEligible_example :
    In worker_a (auto_size_candidates workers ci_labels 4 4096)
    ↔ (In worker_a workers × IsEligible workers ci_labels 4 4096 worker_a)
candidates_iff_IsEligible_example = candidates_iff_IsEligible workers ci_labels 4 4096 worker_a

free-unassigned_example : codes "a" ≢ codes "b"
unfolding free_auto_size_workers lookup auto_size_candidates is_candidate worker_matches_labels
    labels_superset text_eq exclusion_reason pin_identity pin_counts insert resource_reason
    managed_pin_identities hold_pins hold_pin is_managed_vm has_prefix held_pin pin_by_name
    is_terminal
free-unassigned_example =
    free-unassigned workers vms ci_labels 4 4096 worker_b vm_ci
      (((λ e. ground (arith, e)), tt), (tt, tt)) (inl refl) (inl refl) refl refl
      (λ e. ground (arith, e))

-- A VM that waits for the worker "a".
abbrev vm_pending : Vm
vm_pending = record blank_vm { name = vm_ci.name; labels = (pin_label_key, a) ∷ [] }

free-unpinned_example : codes "a" ≢ codes "b"
unfolding free_auto_size_workers lookup auto_size_candidates is_candidate worker_matches_labels
    labels_superset text_eq exclusion_reason pin_identity pin_counts insert resource_reason
    managed_pin_identities hold_pins hold_pin is_managed_vm has_prefix held_pin pin_by_name
    is_terminal
free-unpinned_example =
    free-unpinned workers (vm_pending ∷ []) ci_labels 4 4096 worker_b vm_pending (inl refl)
      (inl refl) refl refl (λ e. ground (arith, e), (λ e. ground (arith, e), tt))

capacity_for_labels-exact_example :
    (capacity_for_labels workers ci_labels ≡ pos (total_slots (is_usable ci_labels) workers))
    × (total_slots (is_usable ci_labels) workers
        ≤ total_slots (λ w. not w.scheduling_paused) workers)
unfolding lookup text_eq
capacity_for_labels-exact_example = capacity_for_labels-exact workers ci_labels (omega arith)

pick-distinct_example :
    let free = free_auto_size_workers workers [] ci_labels 4 4096 in
    (u : Worker) × (v : Worker) × (pick free 5 0 ≡ some u)
    × (pick free 5 1 ≡ some v)
    × In u free
    × In v free
    × (pin_identity u ≢ pin_identity v)
unfolding free_auto_size_workers lookup auto_size_candidates is_candidate worker_matches_labels
    labels_superset text_eq exclusion_reason pin_identity pin_counts insert resource_reason
    managed_pin_identities hold_pins hold_pin is_managed_vm has_prefix held_pin pin_by_name
    is_terminal
pick-distinct_example =
    pick-distinct workers [] ci_labels 4 4096 5 0 1 (omega arith) (omega arith) (omega arith)
