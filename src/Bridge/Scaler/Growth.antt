-- ===== src/Bridge/Scaler/Growth.antt =====
-- bridge/bridge.go: that what the handlers report and count covers the active VMs.
use orchard_gh_bridge.Base.{
  ℕ, ◌+◌, ◌≡◌, refl, inl, inr, Bool, true, false, if◌then◌else◌, Text, List, [], ◌∷◌, length, Dict,
  lookup, insert, erase, Option, Option-cases, Bool-cases, Error, Result-cases, ◌≤◌,
  length-insert-le, length-erase-lt, arith, some,
}
use orchard_gh_bridge.Base.Int.{leb_ℤ, sub_int, ℤ, pos}
use orchard_gh_bridge.Orchard.{Vm}
use orchard_gh_bridge.Bridge.Services.{Services}
use orchard_gh_bridge.Bridge.StateView.{get, managed_vms_for_scale_set}
use orchard_gh_bridge.Bridge.Fleet.{Fleet, Bridge}
use orchard_gh_bridge.Bridge.Scaler.{
  adopt, handle_desired_runner_count, handle_job_completed, hydrate_from_orchard,
}
use orchard_gh_bridge.Bridge.Growth.{actives}
use orchard_gh_bridge.Bridge.ScaleUp.Growth.{Covers, handle_static_scale_up-Covers}
use orchard_gh_bridge.Bridge.AutoScaleUp.Growth.{handle_auto_size_scale_up-Covers}

adopt-grows :
    (vms : List Vm) (active : Dict Text) (n : ℕ)
    → let (active', n') = adopt vms active n in length active' + n ≤ length active + n'
unfolding adopt
adopt-grows [] active n = omega arith
adopt-grows (vm ∷ vms) active n = ground (
  arith,
  adopt-grows vms active n,
  adopt-grows vms (insert vm.name vm.name active) (n + 1),
  length-insert-le vm.name vm.name active,
)

either-Covers :
    {W : Type 0} (b : Bridge W) (n : ℕ) (l r : (ℕ × Option Error) × Bridge W × Fleet W)
    (auto : Bool)
    → Covers b n l
    → Covers b n r
    → Covers b n (if auto then l else r)
either-Covers b n l r true h k = h
either-Covers b n l r false h k = k

module _ {W : Type 0} (svc : Services W) where
  -- HandleDesiredRunnerCount reports at least the VMs that are active afterwards.
  pub handle_desired_runner_count-Covers :
      (count : ℤ) (b : Bridge W) (f : Fleet W)
      → Covers b (actives b) (handle_desired_runner_count svc count b f)
  unfolding handle_desired_runner_count
  handle_desired_runner_count-Covers count b f =
      let n = actives b in
      let needed = sub_int count (pos n) in
      elim (Bool-cases (leb_ℤ needed (pos 0))) [
        | inl e ↦ rw (e, handle_desired_runner_count) (omega arith)
        | inr e ↦
            rw (e, handle_desired_runner_count)
              (either-Covers b n _ _ b.vm_config.auto_size.enabled
                (handle_auto_size_scale_up-Covers svc needed n b f)
                (handle_static_scale_up-Covers svc needed n b f))
      ]

  -- HandleJobCompleted takes its VM off the active ones.
  pub handle_job_completed-drops :
      (name vm : Text) (id : ℤ) (b : Bridge W) (f : Fleet W)
      → lookup name b.active_vms ≡ some vm
      → actives (handle_job_completed svc name id b f).1 + 1 ≤ actives b
  unfolding handle_job_completed
  handle_job_completed-drops name vm id b f e =
      let less : length (erase name b.active_vms) + 1 ≤ actives b =
        length-erase-lt name b.active_vms (ground (arith, e)) in
      elim (Result-cases (svc.orchard.delete_vm vm f.view.world).0) [
        | inl (u, q) ↦ rw (e, q, handle_job_completed) less
        | inr (x, q) ↦ rw (e, q, handle_job_completed) less
      ]

  pub hydrate_from_orchard-grows :
      (b : Bridge W) (f : Fleet W)
      → let (got, b', f') = hydrate_from_orchard svc b f in
        (actives b' ≤ actives b + got.0) × (f'.capacity ≡ f.capacity)
  unfolding hydrate_from_orchard
  hydrate_from_orchard-grows b f = elim (Option-cases f.view.state) [
    | inl e ↦ rw (e, hydrate_from_orchard) (omega arith, refl)
    | inr (s, e) ↦ elim (Option-cases (get svc s f.view.world).0.0) [
      | inl q ↦ rw (e, q, hydrate_from_orchard) (omega arith, refl)
      | inr (snap, q) ↦
          let vms = managed_vms_for_scale_set b.scale_set_name snap in
          rw (e, q, hydrate_from_orchard) (omega (arith, adopt-grows vms b.active_vms 0), refl)
    ]
  ]
