-- ===== src/Manager/Wiring/Swept.antt =====
-- manager/manager.go, bridge/cleanup.go: that a sweep of the manager's clean-up takes from the
-- bridges the VMs that it deleted, and no others.
use orchard_gh_bridge.Base.{
  has, ◌+◌, ◌≡◌, refl, sym, ap, ◌∙◌, inl, inr, true, Text, TextSet, List, [], ◌∷◌, map, length, All,
  In, Dict, erase, some, Bool-cases, if◌then◌else◌, arith,
}
use orchard_gh_bridge.Base.Time.{Time}
use orchard_gh_bridge.Orchard.{Vm}
use orchard_gh_bridge.Bridge.Name.{is_managed_vm}
use orchard_gh_bridge.Bridge.Services.{Services}
use orchard_gh_bridge.Bridge.Fleet.{Fleet}
use orchard_gh_bridge.Bridge.Journal.{Deaths}
use orchard_gh_bridge.Bridge.Cleanup.Deaths.{process_vm-dead}
use orchard_gh_bridge.Manager.Wiring.Deaths.{managed_dead, lift_services-Deaths, wired-IsQuietFor}
use orchard_gh_bridge.Bridge.Cleanup.{Cleanup, should_delete, process_vm}
use orchard_gh_bridge.Bridge.Cleanup.Rules.{process_vm-pending}
use orchard_gh_bridge.Bridge.Sweep.{Tally, sweep_vm, sweep_vms}
use orchard_gh_bridge.Manager.Wiring.{Managed, lift_services, on_vm_cleaned}
use orchard_gh_bridge.Manager.Wiring.Purge.{actives, process_vm-actives}

abbrev pub erase_all : List Text → Dict Text → Dict Text
erase_all [] m = m
erase_all (name ∷ names) m = erase_all names (erase name m)

map-erase_all :
    (name : Text) (names : List Text) (ms : List (Dict Text))
    → map (erase_all names) (map (erase name) ms) ≡ map (erase_all (name ∷ names)) ms
map-erase_all name names [] = refl
map-erase_all name names (m ∷ ms) =
    ap (λ rest. erase_all names (erase name m) ∷ rest) (map-erase_all name names ms)

map-same : (ms : List (Dict Text)) → map (erase_all []) ms ≡ ms
map-same [] = refl
map-same (m ∷ ms) = ap (λ rest. m ∷ rest) (map-same ms)

module _ {W : Type 0} (c : Cleanup W) (now : Time) where
  -- A VM of that list that the program manages, and that is due to be deleted with that queue, has
  -- the name.
  abbrev pub IsOf : TextSet → List Vm → Text → Type 0
  IsOf pending vms name =
      (vm : Vm) × In vm vms
      × (vm.name ≡ name)
      × (is_managed_vm vm.name ≡ true)
      × (should_delete c pending vm now ≡ true)

  later-IsOf :
      (pending pending' : TextSet) (vm : Vm) (vms : List Vm) (names : List Text)
      → ((name : Text) → has name pending' ≡ true → has name pending ≡ true)
      → All (IsOf pending' vms) names
      → All (IsOf pending (vm ∷ vms)) names
  unfolding should_delete
  later-IsOf pending pending' vm vms [] fewer h = tt
  later-IsOf pending pending' vm vms (name ∷ names) fewer ((v, i, e, m, d), h) = (
    (v, inr i, e, m, ground (arith, d, fewer v.name)),
    later-IsOf pending pending' vm vms names fewer h,
  )

-- The log of deleted VMs, the last one first, after these deletes.
abbrev pub log_onto : List Text → List Text → List Text
log_onto [] log = log
log_onto (name ∷ names) log = log_onto names (name ∷ log)

-- These names, and nothing else, were taken from every bridge: those of the VMs that Orchard
-- deleted, in their order, as many as were counted, each of a managed VM of the list that was due.
pub record IsPurged {W : Type 0} (dead : W → List Text) (c : Cleanup (Managed W)) (now : Time)
    (vms : List Vm) (t : Tally) (f : Fleet (Managed W)) (out : Tally × Fleet (Managed W))
    : Type 0 where
  pub names : List Text
  pub erased : actives out.1.view ≡ map (erase_all names) (actives f.view)
  pub deleted : dead out.1.view.world.world ≡ log_onto names (dead f.view.world.world)
  pub counted : out.0.deleted ≡ t.deleted + length names
  pub listed : All (IsOf c now f.pending_deletes vms) names

module _ {W : Type 0} (svc : Services W) (dead : W → List Text) (deaths : Deaths svc dead)
    (c : Cleanup (Managed W)) (wired : c.on_vm_cleaned ≡ some (on_vm_cleaned svc)) (live : TextSet)
    (now : Time) where
  process_vm-due :
      (vm : Vm) (f : Fleet (Managed W))
      → (process_vm (lift_services svc) c vm now f).0 ≡ true
      → should_delete c f.pending_deletes vm now ≡ true
  unfolding process_vm
  process_vm-due vm f d = ground (arith, d)

  sweep_vm-fleet :
      (vm : Vm) (t : Tally) (f : Fleet (Managed W))
      → (sweep_vm (lift_services svc) c live now vm t f).1
        ≡ (process_vm (lift_services svc) c vm now f).1
  unfolding sweep_vm
  sweep_vm-fleet vm t f = ground arith

  sweep_vm-deleted :
      (vm : Vm) (t : Tally) (f : Fleet (Managed W))
      → (sweep_vm (lift_services svc) c live now vm t f).0.deleted
        ≡ (if (process_vm (lift_services svc) c vm now f).0 then t.deleted + 1 else t.deleted)
  unfolding sweep_vm
  sweep_vm-deleted vm t f = ground arith

  -- One VM in front of the list.
  step-IsPurged :
      (vm : Vm) (vms : List Vm) (t : Tally) (f : Fleet (Managed W))
      (out : Tally × Fleet (Managed W))
      → is_managed_vm vm.name ≡ true
      → let (t', f') = sweep_vm (lift_services svc) c live now vm t f in
        IsPurged dead c now vms t' f' out → IsPurged dead c now (vm ∷ vms) t f out
  step-IsPurged vm vms t f out m h =
      let (t', f') = sweep_vm (lift_services svc) c live now vm t f in
      let same = process_vm-actives svc c wired vm now f in
      let fleet = sweep_vm-fleet vm t f in
      let counts = sweep_vm-deleted vm t f in
      let old = actives f.view in
      let log = dead f.view.world.world in
      let logged =
        ap (λ (g : Fleet (Managed W)). dead g.view.world.world) fleet
        ∙ process_vm-dead (lift_services svc) (managed_dead svc dead deaths)
            (lift_services-Deaths svc dead deaths) c vm now f
            (wired-IsQuietFor svc dead deaths c wired) in
      let fewer : (name : Text)
          → has name f'.pending_deletes ≡ true
          → has name f.pending_deletes ≡ true =
        λ name q. ground (
          arith,
          q,
          ap (λ g. has name g.pending_deletes) fleet,
          process_vm-pending (lift_services svc) c vm now f name,
        ) in
      elim (Bool-cases (process_vm (lift_services svc) c vm now f).0) [
        | inl d ↦
            let purged : actives f'.view ≡ map (erase vm.name) old =
              ap (λ g. actives g.view) fleet ∙ same ∙ rw d refl in
            record {
              names = vm.name ∷ h.names;
              erased =
                  h.erased
                  ∙ ap (map (erase_all h.names)) purged
                  ∙ map-erase_all vm.name h.names old;
              deleted = h.deleted ∙ ap (log_onto h.names) (logged ∙ rw d refl);
              counted = ground (arith, h.counted, counts, d);
              listed = (
                (vm, inl refl, refl, m, process_vm-due vm f d),
                later-IsOf c now f.pending_deletes f'.pending_deletes vm vms h.names fewer h.listed,
              );
            }
        | inr d ↦
            let kept : actives f'.view ≡ old = ap (λ g. actives g.view) fleet ∙ same ∙ rw d refl in
            record {
              names = h.names;
              erased = h.erased ∙ ap (map (erase_all h.names)) kept;
              deleted = h.deleted ∙ ap (log_onto h.names) (logged ∙ rw d refl);
              counted = ground (arith, h.counted, counts, d);
              listed =
                  later-IsOf c now f.pending_deletes f'.pending_deletes vm vms h.names fewer
                    h.listed;
            }
      ]

  -- The loop of a sweep of the clean-up that calls the manager back takes from every bridge
  -- exactly the names of the VMs that Orchard deleted meanwhile, each of a managed VM of the list
  -- that was due, and counts them.
  pub sweep_vms-IsPurged :
      (vms : List Vm) (t : Tally) (f : Fleet (Managed W))
      → IsPurged dead c now vms t f (sweep_vms (lift_services svc) c live now vms t f)
  unfolding sweep_vms
  sweep_vms-IsPurged [] t f = record {
    names = [];
    erased = sym (map-same (actives f.view));
    deleted = refl;
    counted = omega arith;
    listed = tt;
  }
  sweep_vms-IsPurged (vm ∷ vms) t f = elim (Bool-cases (is_managed_vm vm.name)) [
    | inl m ↦
        let (t', f') = sweep_vm (lift_services svc) c live now vm t f in
        rw (m, sweep_vms) (step-IsPurged vm vms t f _ m (sweep_vms-IsPurged vms t' f'))
    | inr m ↦
        let h = sweep_vms-IsPurged vms t f in
        rw (m, sweep_vms)
          (record {
            names = h.names;
            erased = h.erased;
            deleted = h.deleted;
            counted = h.counted;
            listed =
                later-IsOf c now f.pending_deletes f.pending_deletes vm vms h.names (λ name q. q)
                  h.listed;
          })
  ]
