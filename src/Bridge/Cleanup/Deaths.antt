-- ===== src/Bridge/Cleanup/Deaths.antt =====
-- bridge/cleanup.go: that processVM answers true exactly when Orchard deleted the VM.
use orchard_gh_bridge.Base.{
  ◌≡◌, refl, ◌∙◌, inl, inr, if◌then◌else◌, Text, List, ◌∷◌, Option, none, some, Option-cases,
  Bool-cases, Result-cases, Io, wrap_err, pure, codes,
}
use orchard_gh_bridge.Base.Int.{ℤ}
use orchard_gh_bridge.Base.Time.{Time}
use orchard_gh_bridge.Orchard.{Vm}
use orchard_gh_bridge.Bridge.Services.{Services}
use orchard_gh_bridge.Bridge.Fleet.{View, Fleet}
use orchard_gh_bridge.Bridge.Journal.{Deaths, bind-seen, wrap_err-seen}
use orchard_gh_bridge.Bridge.Cleanup.{
  Cleanup, should_delete, remove_runner_by_name, remove_runner, delete_managed_vm, process_vm,
}

-- A callback with one more argument, if it is set, leaves `seen` alone.
abbrev pub IsQuietFor : {W A B : Type 0} → (W → A) → Option (B → View W → View W) → Type 0
IsQuietFor {W} {A} {B} seen callback =
    (fn : B → View W → View W)
    → callback ≡ some fn
    → (x : B) (v : View W) → seen (fn x v).world ≡ seen v.world

module _ {W : Type 0} (svc : Services W) (dead : W → List Text) (deaths : Deaths svc dead)
    (c : Cleanup W) where
  remove_runner_by_name-dead :
      (name : Text) (w : W) → dead (remove_runner_by_name svc name w).1 ≡ dead w
  unfolding remove_runner_by_name
  remove_runner_by_name-dead name w =
      let follow : Option ℤ → Io W (Unit {0}) =
        λ runner. elim runner [ none ↦ pure tt | some id ↦ svc.remove_runner id ] in
      bind-seen dead (wrap_err (codes "looking up runner") (svc.get_runner_by_name name)) follow w
        (λ v.
          wrap_err-seen dead (codes "looking up runner") (svc.get_runner_by_name name) v
            (deaths.looks_up name v))
        (λ runner v. elim (Option-cases runner) [
          | inl r ↦ rw r refl
          | inr (id, r) ↦ rw r (deaths.removes id v)
        ])

  remove_runner-dead : (name : Text) (w : W) → dead (remove_runner svc c name w) ≡ dead w
  unfolding remove_runner
  remove_runner-dead name w = elim (Bool-cases c.has_remover) [
    | inl has ↦ rw (has, remove_runner) (remove_runner_by_name-dead name w)
    | inr without ↦ rw (without, remove_runner) refl
  ]

  pub process_vm-dead :
      (vm : Vm) (now : Time) (f : Fleet W)
      → IsQuietFor dead c.on_vm_cleaned
      → let (deleted, f') = process_vm svc c vm now f in
        dead f'.view.world ≡ (if deleted then vm.name ∷ dead f.view.world else dead f.view.world)
  unfolding process_vm delete_managed_vm
  process_vm-dead vm now f quiet =
      let w = (svc.orchard.delete_vm vm.name f.view.world).1 in
      let law = deaths.deletes vm.name f.view.world in
      let view : View W = record f.view { world = remove_runner svc c vm.name w } in
      elim (Bool-cases (should_delete c f.pending_deletes vm now)) [
        | inr kept ↦ rw (kept, process_vm) refl
        | inl due ↦ elim (Result-cases (svc.orchard.delete_vm vm.name f.view.world).0) [
          | inr (e, q) ↦ rw (due, q, process_vm, delete_managed_vm) (law ∙ rw q refl)
          | inl (u, q) ↦
              let done = remove_runner-dead vm.name w ∙ law ∙ rw q refl in
              elim (Option-cases c.on_vm_cleaned) [
                | inl r ↦ rw (due, q, r, process_vm, delete_managed_vm) done
                | inr (fn, r) ↦
                    rw (due, q, r, process_vm, delete_managed_vm) (quiet fn r vm.name view ∙ done)
              ]
        ]
      ]
