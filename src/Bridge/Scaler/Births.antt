-- ===== src/Bridge/Scaler/Births.antt =====
-- bridge/bridge.go: that the VMs which HandleDesiredRunnerCount and scaleUp count are those that
-- Orchard created for them.
use orchard_gh_bridge.Base.{
  ℕ, ◌+◌, ◌-◌, ◌<◌, ◌≡◌, refl, inl, inr, Bool, true, false, if◌then◌else◌, min, length, Option,
  Error, Bool-cases, arith,
}
use orchard_gh_bridge.Base.Int.{ℤ, pos, two_63, sub_int, leb_ℤ}
use orchard_gh_bridge.Bridge.Capacity.Slots.{IsValid}
use orchard_gh_bridge.Bridge.Services.{Services}
use orchard_gh_bridge.Bridge.Fleet.{Fleet, Bridge}
use orchard_gh_bridge.Bridge.Journal.{Births, IsQuiet}
use orchard_gh_bridge.Bridge.ScaleUp.{scale_up}
use orchard_gh_bridge.Bridge.ScaleUp.Slots.{Accounts, AccountsForAll, scale_up-Accounts}
use orchard_gh_bridge.Bridge.ScaleUp.Births.{
  Reports, scale_up-Reports, handle_static_scale_up-Reports,
}
use orchard_gh_bridge.Bridge.AutoScaleUp.Births.{handle_auto_size_scale_up-Reports}
use orchard_gh_bridge.Bridge.Scaler.{handle_desired_runner_count}
use orchard_gh_bridge.Bridge.Scaler.Desired.{handle_desired_runner_count-Accounts}

either-Reports :
    {W : Type 0} (born : W → ℕ) (n : ℕ) (w : W) (l r : (ℕ × Option Error) × Bridge W × Fleet W)
    (auto : Bool)
    → Reports born n w l
    → Reports born n w r
    → Reports born n w (if auto then l else r)
either-Reports born n w l r true h k = h
either-Reports born n w l r false h k = k

module _ {W : Type 0} (svc : Services W) (born : W → ℕ) (births : Births svc born) where
  handle_desired_runner_count-Reports :
      (count : ℤ) (b : Bridge W) (f : Fleet W)
      → IsQuiet born b.on_vm_change
      → Reports born (length b.active_vms) f.view.world (handle_desired_runner_count svc count b f)
  unfolding handle_desired_runner_count
  handle_desired_runner_count-Reports count b f quiet =
      let n = length b.active_vms in
      let needed = sub_int count (pos n) in
      elim (Bool-cases (leb_ℤ needed (pos 0))) [
        | inl e ↦ rw (e, handle_desired_runner_count) refl
        | inr e ↦
            rw (e, handle_desired_runner_count)
              (either-Reports born n f.view.world _ _ b.vm_config.auto_size.enabled
                (handle_auto_size_scale_up-Reports svc born births needed n b f quiet)
                (handle_static_scale_up-Reports svc born births needed n b f quiet))
      ]

  -- For a valid pool, a count and a number of active VMs that an int holds, and a callback that
  -- creates no VM, HandleDesiredRunnerCount, on every path, has Orchard create at most the missing
  -- runners and at most the free slots of the pool; the slots in use grow by exactly the VMs that
  -- Orchard created meanwhile, which is what it reports on top of the active ones.
  pub handle_desired_runner_count-creates :
      (k : ℕ) (b : Bridge W) (f : Fleet W) (v : IsValid f.capacity)
      → k < two_63
      → length b.active_vms < two_63
      → IsQuiet born b.on_vm_change
      → let out = handle_desired_runner_count svc (pos k) b f in
        (a : Accounts
          (min (k - length b.active_vms) (v.limit - v.used))
          (length b.active_vms)
          v
          out)
        × (born out.2.view.world ≡ born f.view.world + a.created)
  handle_desired_runner_count-creates k b f v hk ha quiet =
      let a = handle_desired_runner_count-Accounts svc k b f v hk ha in
      (a, omega (arith, a.reported, handle_desired_runner_count-Reports (pos k) b f quiet))

  -- With a valid pool and a callback that creates no VM, a scale-up has Orchard create one VM for
  -- each slot that it gets unless it reports an error; on every path the slots in use grow by
  -- exactly the VMs that Orchard created, which is what it reports on top of the active ones.
  pub scale_up-creates :
      (needed current_active : ℕ) (b : Bridge W) (f : Fleet W) (v : IsValid f.capacity)
      → IsQuiet born b.on_vm_change
      → let out = scale_up svc (pos needed) current_active b f in
        (a : AccountsForAll (min needed (v.limit - v.used)) current_active v out) × (born
            out.2.view.world
          ≡ born f.view.world + a.0.created)
  scale_up-creates needed current_active b f v quiet =
      let a = scale_up-Accounts svc needed current_active b f v in
      (
        a,
        omega (
          arith,
          a.0.reported,
          scale_up-Reports svc born births (pos needed) current_active b f quiet,
        ),
      )
