-- ===== src/Bridge/AutoSize/Free.antt =====
-- bridge/autosize.go: the free workers host no managed VM, and none is on its way to them.
use orchard_gh_bridge.Base.{
  ◌≡◌, ◌≢◌, refl, inl, inr, Bool, true, false, ◌&&◌, ◌||◌, not, Text, text_eq, text_eq_iff,
  text_eq_refl, List, [], ◌∷◌, In, In-keep, All, any, any-In, DistinctBy, ℕ, Dict, lookup, insert,
  get_or, lookup-insert, Option, none, some, Option-cases, arith,
}
use orchard_gh_bridge.Orchard.{Vm, Worker, is_terminal}
use orchard_gh_bridge.Bridge.Name.{is_managed_vm}
use orchard_gh_bridge.Bridge.AutoSize.{
  pin_label_key, pin_identity, auto_size_candidates, pin_by_name, held_pin, hold_pin, hold_pins,
  managed_pin_identities, free_auto_size_workers,
}
use orchard_gh_bridge.Bridge.AutoSize.Candidates.{IsEligible, candidates_iff_IsEligible}

abbrev is_pin : Text → Option Text → Bool
is_pin pin none = false
is_pin pin (some p) = text_eq p pin

-- The VM holds the identity: it is managed, not stopped or failed, and on its worker or bound for it.
abbrev pub holds : Dict Text → Text → Vm → Bool
holds pins pin vm = is_managed_vm vm.name && (not (is_terminal vm) && is_pin pin (held_pin pins vm))

hold_pin-holds :
    (pins : Dict Text) (pin : Text) (vm : Vm) (out : Dict Bool)
    → get_or false pin (hold_pin pins vm out) ≡ (get_or false pin out || holds pins pin vm)
unfolding hold_pin
hold_pin-holds pins pin vm out = elim (Option-cases (held_pin pins vm)) [
  | inl e ↦ ground (arith, e)
  | inr (p, e) ↦ ground (arith, e, lookup-insert p pin true out)
]

hold_pins-any :
    (pins : Dict Text) (pin : Text) (out : Dict Bool) (vms : List Vm)
    → get_or false pin (hold_pins pins out vms) ≡ (get_or false pin out || any (holds pins pin) vms)
unfolding hold_pins
hold_pins-any pins pin out [] = ground arith
hold_pins-any pins pin out (vm ∷ vms) =
    ground
      (arith, hold_pins-any pins pin (hold_pin pins vm out) vms, hold_pin-holds pins pin vm out)

-- The index by name finds a worker's identity, if no other worker has its name.
pin_by_name_other :
    (name : Text) (out : Dict Text) (ws : List Worker)
    → All (λ w. name ≢ w.name) ws
    → lookup name (pin_by_name out ws) ≡ lookup name out
unfolding pin_by_name
pin_by_name_other name out [] h = refl
pin_by_name_other name out (w ∷ ws) h = ground (
  arith,
  pin_by_name_other name (insert w.name (pin_identity w) out) ws h.1,
  lookup-insert w.name name (pin_identity w) out,
  text_eq_iff w.name name,
  h.0,
)

pub pin_by_name-In :
    (out : Dict Text) (ws : List Worker) (w : Worker)
    → DistinctBy (λ v. v.name) ws
    → In w ws
    → lookup w.name (pin_by_name out ws) ≡ some (pin_identity w)
unfolding pin_by_name
pin_by_name-In out [] w d i = absurd i
pin_by_name-In out (v ∷ ws) w d (inl e) = rw e (
    ground (
      arith,
      pin_by_name_other v.name (insert v.name (pin_identity v) out) ws d.0,
      lookup-insert v.name v.name (pin_identity v) out,
      text_eq_refl v.name,
    ))
pin_by_name-In out (v ∷ ws) w d (inr i) =
    pin_by_name-In (insert v.name (pin_identity v) out) ws w d.1 i

module _ (workers : List Worker) (vms : List Vm) (labels : Dict Text)
    (reserve_cpu reserve_mem : ℕ) where
  abbrev pub free : List Worker
  free = free_auto_size_workers workers vms labels reserve_cpu reserve_mem

  -- A free worker is an eligible one.
  pub free-IsEligible :
      (w : Worker) → In w free → In w workers × IsEligible workers labels reserve_cpu reserve_mem w
  unfolding free_auto_size_workers
  free-IsEligible w i =
      (candidates_iff_IsEligible workers labels reserve_cpu reserve_mem w).0 (In-keep _ w _ i).1

  free-not_held :
      (w : Worker) (vm : Vm)
      → In w free
      → In vm vms
      → is_managed_vm vm.name ≡ true
      → is_terminal vm ≡ false
      → held_pin (pin_by_name [] workers) vm ≢ some (pin_identity w)
  unfolding free_auto_size_workers managed_pin_identities lookup
  free-not_held w vm i iv m t e =
      let pins = pin_by_name [] workers in
      let in_use = managed_pin_identities vms workers in
      let vacant =
        (In-keep (λ v. not (get_or false (pin_identity v) in_use)) w
          (auto_size_candidates workers labels reserve_cpu reserve_mem) i).0 in
      let held =
        any-In (holds pins (pin_identity w)) vm vms iv
          (ground (arith, e, text_eq_refl (pin_identity w))) in
      ground (arith, vacant, held, hold_pins-any pins (pin_identity w) [] vms)

  -- Where no two live workers have the same name, no managed VM that is neither stopped nor failed
  -- is assigned to a worker that freeAutoSizeWorkers gives.
  pub free-unassigned :
      (w : Worker) (vm : Vm)
      → DistinctBy (λ v. v.name) workers
      → In w free
      → In vm vms
      → is_managed_vm vm.name ≡ true
      → is_terminal vm ≡ false
      → vm.worker ≢ []
      → vm.worker ≢ w.name
  unfolding held_pin
  free-unassigned w vm d i iv m t assigned e =
      let (iw, eligible) = free-IsEligible w i in
      let known = pin_by_name-In [] workers w d iw in
      free-not_held w vm i iv m t (ground (arith, e, known, assigned, eligible.pinned))

  -- No managed VM that is neither stopped nor failed, and whose worker is none of the live ones,
  -- carries the pin label of a worker that freeAutoSizeWorkers gives.
  pub free-unpinned :
      (w : Worker) (vm : Vm)
      → In w free
      → In vm vms
      → is_managed_vm vm.name ≡ true
      → is_terminal vm ≡ false
      → All (λ v. vm.worker ≢ v.name) workers
      → get_or [] pin_label_key vm.labels ≢ pin_identity w
  unfolding held_pin lookup
  free-unpinned w vm i iv m t gone e =
      let (iw, eligible) = free-IsEligible w i in
      let unknown = pin_by_name_other vm.worker [] workers gone in
      free-not_held w vm i iv m t (ground (arith, e, unknown, eligible.pinned))
