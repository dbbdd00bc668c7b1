-- ===== src/Bridge/AutoSize/Candidates.antt =====
-- bridge/autosize.go: which workers are candidates, and what AutoSizedVM gives on them.
use orchard_gh_bridge.Base.{
  ℕ, ◌-◌, ◌<◌, ◌≤◌, ◌≡◌, ◌≢◌, refl, sym, ◌↔◌, inl, inr, Bool, true, false, Text, text_eq,
  text_eq_iff, text_eq_refl, List, [], ◌∷◌, keep, In, In-keep, All-In, DistinctBy, count_if, Dict,
  lookup, none, some, ok, Option-cases, Bool-cases, arith, In-count_if, In-keep_of, count_if_tail,
}
use native.Mathlib.Nat.{le_trans}
use orchard_gh_bridge.Orchard.{Worker}
use orchard_gh_bridge.Bridge.Labels.{worker_matches_labels}
use orchard_gh_bridge.Bridge.AutoSize.{
  resource_logical_cores, resource_memory_mib, pin_identity, pin_counts, resource_reason,
  exclusion_reason, is_candidate, auto_size_candidates, auto_sized_vm,
}
use orchard_gh_bridge.Bridge.AutoSize.Pins.{has_pin, pin_counts-count}

-- The worker leaves at least one core and one MiB to a VM.
pub record HasRoom (reserve_cpu reserve_mem : ℕ) (w : Worker) : Type 0 where
  pub cores : ℕ
  pub mem : ℕ
  pub cores_eq : lookup resource_logical_cores w.resources ≡ some cores
  pub mem_eq : lookup resource_memory_mib w.resources ≡ some mem
  pub cores_lt : reserve_cpu < cores
  pub mem_lt : reserve_mem < mem

resource_reason-HasRoom :
    (w : Worker) (reserve_cpu reserve_mem : ℕ)
    → resource_reason w reserve_cpu reserve_mem ≡ none
    → HasRoom reserve_cpu reserve_mem w
unfolding resource_reason
resource_reason-HasRoom w rc rm h =
    elim (Option-cases (lookup resource_logical_cores w.resources)) [
      | inl e ↦ absurd (ground arith)
      | inr (cores, ec) ↦ elim (Option-cases (lookup resource_memory_mib w.resources)) [
        | inl e ↦ absurd (ground arith)
        | inr (mem, em) ↦ record {
          cores = cores;
          mem = mem;
          cores_eq = ec;
          mem_eq = em;
          cores_lt = ground arith;
          mem_lt = ground arith;
        }
      ]
    ]

-- AutoSizedVM never refuses a worker with room: the VM gets what is left above the reserves.
pub auto_sized_vm-HasRoom :
    (w : Worker) (reserve_cpu reserve_mem : ℕ) (r : HasRoom reserve_cpu reserve_mem w)
    → auto_sized_vm w reserve_cpu reserve_mem ≡ ok (r.cores - reserve_cpu, r.mem - reserve_mem)
unfolding auto_sized_vm
auto_sized_vm-HasRoom w rc rm r = ground (arith, r.cores_eq, r.mem_eq, r.cores_lt, r.mem_lt)

-- What makes a live worker a candidate for the VMs of a scale set, among all live workers.
pub record IsEligible (workers : List Worker) (labels : Dict Text) (reserve_cpu reserve_mem : ℕ)
    (w : Worker) : Type 0 where
  pub matching : worker_matches_labels w labels ≡ true
  pub not_paused : w.scheduling_paused ≡ false
  pub pinned : pin_identity w ≢ []
  pub alone : count_if (has_pin (pin_identity w)) workers ≤ 1
  pub room : HasRoom reserve_cpu reserve_mem w

module _ (workers : List Worker) (labels : Dict Text) (reserve_cpu reserve_mem : ℕ) where
  candidate-IsEligible :
      (w : Worker)
      → is_candidate (pin_counts workers) labels reserve_cpu reserve_mem w ≡ true
      → IsEligible workers labels reserve_cpu reserve_mem w
  unfolding is_candidate exclusion_reason
  candidate-IsEligible w h =
      let set : pin_identity w ≢ [] = λ e. ground (arith, e) in
      record {
        matching = ground arith;
        not_paused = ground arith;
        pinned = set;
        alone = ground (arith, pin_counts-count (pin_identity w) workers set);
        room = resource_reason-HasRoom w reserve_cpu reserve_mem (ground arith);
      }

  eligible-candidate :
      (w : Worker)
      → IsEligible workers labels reserve_cpu reserve_mem w
      → is_candidate (pin_counts workers) labels reserve_cpu reserve_mem w ≡ true
  unfolding is_candidate exclusion_reason resource_reason
  eligible-candidate w e = ground (
    arith,
    pin_counts-count (pin_identity w) workers e.pinned,
    e.matching,
    e.not_paused,
    e.pinned,
    e.alone,
    e.room.cores_eq,
    e.room.mem_eq,
    e.room.cores_lt,
    e.room.mem_lt,
  )

  -- The AutoSize candidates are exactly the workers that match the labels, are not paused, carry a
  -- pin label that no other live worker carries, and have room above the reserves.
  pub candidates_iff_IsEligible :
      (w : Worker)
      → In w (auto_size_candidates workers labels reserve_cpu reserve_mem)
        ↔ (In w workers × IsEligible workers labels reserve_cpu reserve_mem w)
  unfolding auto_size_candidates
  candidates_iff_IsEligible w =
      let test = is_candidate (pin_counts workers) labels reserve_cpu reserve_mem in
      (
        λ i. let (e, i') = In-keep test w workers i in (i', candidate-IsEligible w e),
        λ (i, e). In-keep_of test w workers i (eligible-candidate w e),
      )

module _ (f : Worker → Text) (test : Worker → Bool) where
  keep-DistinctBy :
      (ws : List Worker)
      → ((w : Worker) → In w ws → test w ≡ true → count_if (λ v. text_eq (f v) (f w)) ws ≤ 1)
      → DistinctBy f (keep test ws)
  keep-DistinctBy [] h = tt
  keep-DistinctBy (w ∷ ws) h =
      let rest =
        keep-DistinctBy ws
          (λ v i e. le_trans (count_if_tail (λ u. text_eq (f u) (f v)) w ws) (h v (inr i) e)) in
      elim (Bool-cases (test w)) [
        | inr no_w ↦ rw no_w rest
        | inl is_w ↦ rw is_w (
          All-In (λ v. f w ≢ f v) (keep test ws)
              (λ v i q.
                let again =
                  In-count_if (λ u. text_eq (f u) (f w)) v ws (In-keep test v ws i).1
                    ((text_eq_iff (f v) (f w)).1 (sym q)) in
                absurd (ground (arith, h w (inl refl) is_w, text_eq_refl (f w), again))),
          rest,
        )
      ]

-- No two candidates carry the same pin identity.
pub candidates-DistinctBy :
    (workers : List Worker) (labels : Dict Text) (reserve_cpu reserve_mem : ℕ)
    → DistinctBy pin_identity (auto_size_candidates workers labels reserve_cpu reserve_mem)
unfolding auto_size_candidates
candidates-DistinctBy workers labels rc rm =
    keep-DistinctBy pin_identity (is_candidate (pin_counts workers) labels rc rm) workers
      (λ w i e. (candidate-IsEligible workers labels rc rm w e).alone)

-- AutoSizedVM succeeds on every candidate, with at least one core and one MiB.
pub candidates-sized :
    (workers : List Worker) (labels : Dict Text) (reserve_cpu reserve_mem : ℕ) (w : Worker)
    → In w (auto_size_candidates workers labels reserve_cpu reserve_mem)
    → (cpu : ℕ) × (mem : ℕ) × (auto_sized_vm w reserve_cpu reserve_mem ≡ ok (cpu, mem))
      × (0 < cpu)
      × (0 < mem)
candidates-sized workers labels rc rm w i =
    let room = ((candidates_iff_IsEligible workers labels rc rm w).0 i).1.room in
    (
      room.cores - rc,
      room.mem - rm,
      auto_sized_vm-HasRoom w rc rm room,
      omega (arith, room.cores_lt),
      omega (arith, room.mem_lt),
    )
