-- ===== src/Bridge/AutoSize.antt =====
-- bridge/autosize.go: one VM per worker, sized from what the worker advertises.
pub mod Pins
pub mod Candidates
pub mod Free
use orchard_gh_bridge.Base.{
  ℕ, ◌+◌, ◌-◌, ◌==◌, ltb, leb, Bool, true, false, ◌&&◌, ◌||◌, not, if◌then◌else◌, Text, codes,
  text_eq, is_empty, List, [], ◌∷◌, ◌++◌, length, keep, Dict, lookup, insert, get_or, Option, none,
  some, Error, plain, Result, ok, err, is_some,
}
use orchard_gh_bridge.Orchard.{Vm, Worker, is_terminal}
use orchard_gh_bridge.Bridge.Name.{is_managed_vm}
use orchard_gh_bridge.Bridge.Labels.{worker_matches_labels}

abbrev pub resource_logical_cores : Text
resource_logical_cores = codes "org.cirruslabs.logical-cores"

abbrev pub resource_memory_mib : Text
resource_memory_mib = codes "org.cirruslabs.memory-mib"

abbrev pub pin_label_key : Text
pin_label_key = codes "orchard-gh-bridge/worker-name"

abbrev pub default_reserve_cpu : ℕ
default_reserve_cpu = 4

abbrev pub default_reserve_memory_mib : ℕ
default_reserve_memory_mib = 4096

-- The Exclusion constants; the empty reason of an eligible worker is `none` below.
pub data Reason : Type 0 where
  scheduling_paused missing_pin_label duplicate_pin_label missing_resources below_reserves : Reason

-- PinIdentity
unfoldable pub pin_identity : Worker → Text
pin_identity w = get_or [] pin_label_key w.labels

-- The loop of PinCounts, from the counts so far.
pub pin_counts_from : Dict ℕ → List Worker → Dict ℕ
pin_counts_from out [] = out
pin_counts_from out (w ∷ ws) =
    let pin = pin_identity w in
    pin_counts_from (if is_empty pin then out else insert pin (get_or 0 pin out + 1) out) ws

-- PinCounts
unfoldable pub pin_counts : List Worker → Dict ℕ
unfolding pin_counts_from
pin_counts workers = pin_counts_from [] workers

-- The last two tests of AutoSizeExclusionReason, on the worker's resources.
unfoldable pub resource_reason : Worker → ℕ → ℕ → Option Reason
resource_reason w reserve_cpu reserve_mem = elim (lookup resource_logical_cores w.resources) [
  | none ↦ some missing_resources
  | some cores ↦ elim (lookup resource_memory_mib w.resources) [
    | none ↦ some missing_resources
    | some mem ↦ if leb cores reserve_cpu || leb mem reserve_mem then some below_reserves else none
  ]
]

-- AutoSizeExclusionReason
unfoldable pub exclusion_reason : Worker → Dict ℕ → ℕ → ℕ → Option Reason
exclusion_reason w counts reserve_cpu reserve_mem =
    if w.scheduling_paused
    then some scheduling_paused
    else if is_empty (pin_identity w)
    then some missing_pin_label
    else if ltb 1 (get_or 0 (pin_identity w) counts)
    then some duplicate_pin_label
    else resource_reason w reserve_cpu reserve_mem

-- The test of the loop of autoSizeCandidates.
unfoldable pub is_candidate : Dict ℕ → Dict Text → ℕ → ℕ → Worker → Bool
is_candidate counts labels reserve_cpu reserve_mem w =
    worker_matches_labels w labels
    && not (is_some (exclusion_reason w counts reserve_cpu reserve_mem))

-- autoSizeCandidates
unfoldable pub auto_size_candidates : List Worker → Dict Text → ℕ → ℕ → List Worker
auto_size_candidates workers labels reserve_cpu reserve_mem =
    keep (is_candidate (pin_counts workers) labels reserve_cpu reserve_mem) workers

-- WorkerCountForLabels
unfoldable pub worker_count_for_labels : List Worker → Dict Text → ℕ → ℕ → ℕ
worker_count_for_labels workers labels reserve_cpu reserve_mem =
    length (auto_size_candidates workers labels reserve_cpu reserve_mem)

-- The map pinByName of managedPinIdentities.
unfoldable pub pin_by_name : Dict Text → List Worker → Dict Text
pin_by_name out [] = out
pin_by_name out (w ∷ ws) = pin_by_name (insert w.name (pin_identity w) out) ws

-- The identity that one managed, live VM holds, if any: that of its worker, or of its own label.
unfoldable pub held_pin : Dict Text → Vm → Option Text
held_pin pins vm =
    let own = get_or [] pin_label_key vm.labels in
    let by_label = if is_empty own then none else some own in
    if is_empty vm.worker then by_label else elim (lookup vm.worker pins) [
      | none ↦ by_label
      | some pin ↦ if is_empty pin then none else some pin
    ]

-- One round of the loop of managedPinIdentities; a set is a map to true.
unfoldable pub hold_pin : Dict Text → Vm → Dict Bool → Dict Bool
hold_pin pins vm out =
    if not (is_managed_vm vm.name) || is_terminal vm
    then out
    else elim (held_pin pins vm) [ none ↦ out | some pin ↦ insert pin true out ]

unfoldable pub hold_pins : Dict Text → Dict Bool → List Vm → Dict Bool
hold_pins pins out [] = out
hold_pins pins out (vm ∷ vms) = hold_pins pins (hold_pin pins vm out) vms

-- managedPinIdentities
unfoldable pub managed_pin_identities : List Vm → List Worker → Dict Bool
managed_pin_identities vms workers = hold_pins (pin_by_name [] workers) [] vms

-- freeAutoSizeWorkers
unfoldable pub free_auto_size_workers : List Worker → List Vm → Dict Text → ℕ → ℕ → List Worker
free_auto_size_workers workers vms labels reserve_cpu reserve_mem =
    let in_use = managed_pin_identities vms workers in
    keep (λ w. not (get_or false (pin_identity w) in_use))
      (auto_size_candidates workers labels reserve_cpu reserve_mem)

-- AutoSizedVM: (cpu, memory) of the VM. The guards keep both subtractions from wrapping.
pub auto_sized_vm : Worker → ℕ → ℕ → Result (ℕ × ℕ)
auto_sized_vm w reserve_cpu reserve_mem =
    let cores = get_or 0 resource_logical_cores w.resources in
    let mem = get_or 0 resource_memory_mib w.resources in
    if cores == 0 || mem == 0
    then err (plain (codes "missing logical-cores or memory-mib resource"))
    else if leb cores reserve_cpu
    then err (plain (codes "cores: reserve would leave VM with 0"))
    else if leb mem reserve_mem
    then err (plain (codes "MiB: reserve would leave VM with 0"))
    else ok (cores - reserve_cpu, mem - reserve_mem)

-- AutoSizeReserves
pub auto_size_reserves : ℕ → ℕ → ℕ × ℕ
auto_size_reserves cpu mem = (
  if cpu == 0 then default_reserve_cpu else cpu,
  if mem == 0 then default_reserve_memory_mib else mem,
)
