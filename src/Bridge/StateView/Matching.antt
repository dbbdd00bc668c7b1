-- ===== src/Bridge/StateView/Matching.antt =====
-- bridge/stateview.go: which VMs ManagedVMsMatchingLabels counts.
use orchard_gh_bridge.Base.{
  ◌≡◌, ◌≢◌, ◌↔◌, ◌⊎◌, refl, sym, inl, inr, true, Text, text_eq, text_eq_iff, text_eq_refl, is_empty,
  List, [], ◌∷◌, In, All, In-keep, In-keep_of, DistinctBy, Dict, lookup, insert, lookup-insert,
  some, Option-cases, Bool-cases, arith,
}
use orchard_gh_bridge.Base.Time.{Time, Duration}
use orchard_gh_bridge.Orchard.{Vm, Worker}
use orchard_gh_bridge.Bridge.Name.{is_managed_vm}
use orchard_gh_bridge.Bridge.Labels.{labels_superset, worker_matches_labels}
use orchard_gh_bridge.Bridge.StateView.{
  Snapshot, index_workers, new_snapshot, vm_matches_labels, managed_vms_matching_labels,
}

index_workers-other :
    (name : Text) (idx : Dict Worker) (ws : List Worker)
    → All (λ w. name ≢ w.name) ws
    → lookup name (index_workers idx ws) ≡ lookup name idx
unfolding index_workers
index_workers-other name idx [] h = refl
index_workers-other name idx (w ∷ ws) h = ground (
  arith,
  index_workers-other name (insert w.name w idx) ws h.1,
  lookup-insert w.name name w idx,
  text_eq_iff w.name name,
  h.0,
)

index_workers-In :
    (idx : Dict Worker) (ws : List Worker) (w : Worker)
    → DistinctBy (λ v. v.name) ws
    → In w ws
    → lookup w.name (index_workers idx ws) ≡ some w
unfolding index_workers
index_workers-In idx [] w d i = absurd i
index_workers-In idx (v ∷ ws) w d (inl e) = rw e (
    ground (
      arith,
      index_workers-other v.name (insert v.name v idx) ws d.0,
      lookup-insert v.name v.name v idx,
      text_eq_refl v.name,
    ))
index_workers-In idx (v ∷ ws) w d (inr i) = index_workers-In (insert v.name v idx) ws w d.1 i

-- What the index finds is one of the workers, under its own name.
index_workers-some :
    (idx : Dict Worker) (ws : List Worker) (name : Text) (w : Worker)
    → lookup name (index_workers idx ws) ≡ some w
    → (lookup name idx ≡ some w) ⊎ (In w ws × (w.name ≡ name))
unfolding index_workers
index_workers-some idx [] name w e = inl e
index_workers-some idx (v ∷ ws) name w e =
    elim (index_workers-some (insert v.name v idx) ws name w e) [
      | inr (i, n) ↦ inr (inr i, n)
      | inl found ↦ elim (Bool-cases (text_eq v.name name)) [
        | inr other ↦ inl (ground (arith, found, lookup-insert v.name name v idx, other))
        | inl same ↦
            let here : v ≡ w = ground (arith, found, lookup-insert v.name name v idx, same) in
            inr (inl (sym here), rw (← here) ((text_eq_iff v.name name).0 same))
      ]
    ]

-- A VM counts against the slots of the workers with these labels.
abbrev pub IsCounted : Snapshot → Dict Text → Vm → Type 0
IsCounted snap labels vm =
    (is_managed_vm vm.name ≡ true)
    × (((vm.worker ≡ []) × (labels_superset vm.labels labels ≡ true))
        ⊎ ((vm.worker ≢ [])
            × ((w : Worker) × In w snap.workers
                × (w.name ≡ vm.worker)
                × (worker_matches_labels w labels ≡ true))))

is_empty-nil : (s : Text) → is_empty s ≡ true → s ≡ []
is_empty-nil [] e = refl
is_empty-nil (c ∷ s) e = absurd (ground (arith, e))

module _ (vms : List Vm) (all : List Worker) (at : Time) (stale_after : Duration)
    (labels : Dict Text) where
  abbrev snap : Snapshot
  snap = new_snapshot vms all at stale_after

  matches-IsCounted : (vm : Vm) → vm_matches_labels snap labels vm ≡ true → IsCounted snap labels vm
  unfolding vm_matches_labels new_snapshot lookup
  matches-IsCounted vm h = elim (Bool-cases (is_empty vm.worker)) [
    | inl e ↦ (ground (arith, h), inl (is_empty-nil vm.worker e, ground (arith, h, e)))
    | inr e ↦ elim (Option-cases (lookup vm.worker snap.workers_by_name)) [
      | inl q ↦ absurd (ground (arith, h, e, q))
      | inr (w, q) ↦ (
        ground (arith, h),
        inr (
          (λ n. ground (arith, n, e)),
          elim (index_workers-some [] snap.workers vm.worker w q) [
            | inl none_there ↦ absurd (ground (arith, none_there))
            | inr (i, n) ↦ (w, i, n, ground (arith, h, e, q))
          ],
        ),
      )
    ]
  ]

  IsCounted-matches :
      (vm : Vm)
      → DistinctBy (λ w. w.name) snap.workers
      → IsCounted snap labels vm
      → vm_matches_labels snap labels vm ≡ true
  unfolding vm_matches_labels new_snapshot
  IsCounted-matches vm d (m, inl (e, h)) = ground (arith, m, e, h)
  IsCounted-matches vm d (m, inr (assigned, (w, i, n, h))) =
      let found : lookup vm.worker snap.workers_by_name ≡ some w =
        rw (← n) (index_workers-In [] snap.workers w d i) in
      elim (Bool-cases (is_empty vm.worker)) [
        | inl e ↦ absurd (assigned (is_empty-nil vm.worker e))
        | inr e ↦ ground (arith, m, e, found, h)
      ]

  -- Where no two live workers have the same name, ManagedVMsMatchingLabels gives exactly the
  -- managed VMs that wait for a worker with labels that include the given ones, or stand on a live
  -- worker with such labels.
  pub managed_vms_matching_labels_iff :
      (vm : Vm)
      → DistinctBy (λ w. w.name) snap.workers
      → In vm (managed_vms_matching_labels snap labels)
        ↔ (In vm snap.vms × IsCounted snap labels vm)
  unfolding managed_vms_matching_labels
  managed_vms_matching_labels_iff vm d =
      let test = vm_matches_labels snap labels in
      (
        (λ i. let (e, j) = In-keep test vm snap.vms i in (j, matches-IsCounted vm e)),
        λ (i, c). In-keep_of test vm snap.vms i (IsCounted-matches vm d c),
      )
