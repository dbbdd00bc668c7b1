-- ===== src/Bridge/Scaler/Desired.antt =====
-- bridge/bridge.go: HandleDesiredRunnerCount on all its paths.
use orchard_gh_bridge.Base.{
  ℕ, ◌-◌, ◌≤◌, ◌<◌, ◌≡◌, refl, inl, inr, Bool, true, false, ◌==◌, if◌then◌else◌, min, length,
  Option, none, Option-cases, Error, arith, Bool-cases,
}
use orchard_gh_bridge.Base.Int.{ℤ, pos, negsuc, two_63, sub_int, leb_ℤ, sub_int_pos}
use orchard_gh_bridge.Bridge.Capacity.{Capacity, min_int}
use orchard_gh_bridge.Bridge.Capacity.Slots.{IsValid}
use orchard_gh_bridge.Bridge.AutoSize.{free_auto_size_workers, auto_size_reserves}
use orchard_gh_bridge.Bridge.Services.{Services}
use orchard_gh_bridge.Bridge.StateView.{Snapshot}
use orchard_gh_bridge.Bridge.Fleet.{View, Fleet, Bridge, get_snapshot}
use orchard_gh_bridge.Bridge.ScaleUp.{scale_up, free_slots, handle_static_scale_up}
use orchard_gh_bridge.Bridge.ScaleUp.Slots.{Accounts, scale_up-Accounts}
use orchard_gh_bridge.Bridge.AutoScaleUp.{auto_scale_up, handle_auto_size_scale_up}
use orchard_gh_bridge.Bridge.AutoScaleUp.Slots.{auto_scale_up-Accounts}
use orchard_gh_bridge.Bridge.Scaler.{handle_desired_runner_count}

module _ {W : Type 0} where
  -- A looser bound.
  Accounts-mono :
      {granted more current_active : ℕ} {c : Capacity (View W)} {v : IsValid c}
      (outcome : (ℕ × Option Error) × Bridge W × Fleet W)
      → granted ≤ more
      → Accounts granted current_active v outcome
      → Accounts more current_active v outcome
  Accounts-mono outcome le a = record {
    created = a.created;
    reported = a.reported;
    within = omega (arith, a.within);
    counted = a.counted;
  }

  either_path :
      {granted current_active : ℕ} {c : Capacity (View W)} {v : IsValid c}
      {left right : (ℕ × Option Error) × Bridge W × Fleet W} (auto : Bool)
      → Accounts granted current_active v left
      → Accounts granted current_active v right
      → Accounts granted current_active v (if auto then left else right)
  either_path true l r = l
  either_path false l r = r

  -- Nothing is created on the paths that return early.
  idle-Accounts :
      (current_active more : ℕ) (b : Bridge W) (f : Fleet W) (v : IsValid f.capacity)
      (view : View W)
      → Accounts more current_active v ((current_active, none), b, record f { view = view })
  idle-Accounts current_active more b f v view = record {
    created = 0;
    reported = omega arith;
    within = omega arith;
    counted = ground (arith, v.current_eq);
  }

positive : (x : ℤ) → leb_ℤ x (pos 0) ≡ false → (p : ℕ) × (x ≡ pos p)
positive (pos p) e = (p, refl)
positive (negsuc p) e = ground arith

min_int-pos : (n p : ℕ) → min_int (pos n) (pos p) ≡ pos (min n p)
min_int-pos n p = ground arith

module _ {W : Type 0} (svc : Services W) (n current_active : ℕ) (b : Bridge W) (f : Fleet W) where
  static-snapshot :
      (v : IsValid f.capacity) (view : View W) (free : ℤ)
      → Accounts (min n (v.limit - v.used)) current_active v (
          if leb_ℤ free (pos 0)
          then ((current_active, none), b, record f { view = view })
          else scale_up svc (min_int (pos n) free) current_active b (record f { view = view }))
  static-snapshot v view free = elim (Bool-cases (leb_ℤ free (pos 0))) [
    | inl e ↦ rw e (idle-Accounts current_active _ b f v view)
    | inr e ↦
        let (p, q) = positive free e in
        rw (e, q, min_int-pos n p)
          (Accounts-mono _ (omega arith)
            (scale_up-Accounts svc (min n p) current_active b (record f { view = view }) v).0)
  ]

  static-Accounts :
      (v : IsValid f.capacity)
      → Accounts
          (min n (v.limit - v.used))
          current_active
          v
          (handle_static_scale_up svc (pos n) current_active b f)
  unfolding handle_static_scale_up
  static-Accounts v = elim (Option-cases f.view.state) [
    | inl e ↦ rw (e, handle_static_scale_up) (scale_up-Accounts svc n current_active b f v).0
    | inr (s, e) ↦
        let (snap, view) = get_snapshot svc s f.view in
        rw (e, handle_static_scale_up)
          (elim (Option-cases snap) [
            | inl q ↦ rw q (idle-Accounts current_active _ b f v view)
            | inr (t, q) ↦ rw q (static-snapshot v view (free_slots t b.vm_config.labels))
          ])
  ]

  auto-snapshot :
      (v : IsValid f.capacity) (view : View W) (snap : Snapshot)
      → (let cfg = b.vm_config in
          let reserves =
            auto_size_reserves cfg.auto_size.reserve_cpu cfg.auto_size.reserve_memory_mib in
          let candidates =
            free_auto_size_workers snap.workers snap.vms cfg.labels reserves.0 reserves.1 in
          Accounts (min n (v.limit - v.used)) current_active v (
            if length candidates == 0
            then ((current_active, none), b, record f { view = view })
            else auto_scale_up svc candidates reserves
                (min_int (pos n) (pos (length candidates)))
                current_active
                b
                (record f { view = view })))
  auto-snapshot v view snap =
      let cfg = b.vm_config in
      let reserves =
        auto_size_reserves cfg.auto_size.reserve_cpu cfg.auto_size.reserve_memory_mib in
      let candidates =
        free_auto_size_workers snap.workers snap.vms cfg.labels reserves.0 reserves.1 in
      elim (Bool-cases (length candidates == 0)) [
        | inl e ↦ rw e (idle-Accounts current_active _ b f v view)
        | inr e ↦
            rw (e, min_int-pos n (length candidates))
              (Accounts-mono _ (omega arith) (
                auto_scale_up-Accounts svc candidates reserves (min n (length candidates))
                  current_active b (record f { view = view }) v))
      ]

  auto-Accounts :
      (v : IsValid f.capacity)
      → Accounts
          (min n (v.limit - v.used))
          current_active
          v
          (handle_auto_size_scale_up svc (pos n) current_active b f)
  unfolding handle_auto_size_scale_up
  auto-Accounts v = elim (Option-cases f.view.state) [
    | inl e ↦ rw (e, handle_auto_size_scale_up) (idle-Accounts current_active _ b f v f.view)
    | inr (s, e) ↦
        let (snap, view) = get_snapshot svc s f.view in
        rw (e, handle_auto_size_scale_up)
          (elim (Option-cases snap) [
            | inl q ↦ rw q (idle-Accounts current_active _ b f v view)
            | inr (t, q) ↦ rw q (auto-snapshot v view t)
          ])
  ]

module _ {W : Type 0} (svc : Services W) where
  -- For a valid pool, and a count and a number of active VMs that an int holds,
  -- HandleDesiredRunnerCount, on every path, creates at most the missing runners and at most the
  -- free slots of the pool; the slots in use grow by exactly the VMs created, which is what it
  -- reports on top of the active ones.
  pub handle_desired_runner_count-Accounts :
      (k : ℕ) (b : Bridge W) (f : Fleet W) (v : IsValid f.capacity)
      → k < two_63
      → length b.active_vms < two_63
      → Accounts
          (min (k - length b.active_vms) (v.limit - v.used))
          (length b.active_vms)
          v
          (handle_desired_runner_count svc (pos k) b f)
  unfolding handle_desired_runner_count
  handle_desired_runner_count-Accounts k b f v hk ha =
      let active = length b.active_vms in
      elim (Bool-cases (leb_ℤ (sub_int (pos k) (pos active)) (pos 0))) [
        | inl e ↦ rw e (idle-Accounts active _ b f v f.view)
        | inr e ↦
            let missing : sub_int (pos k) (pos active) ≡ pos (k - active) =
              ground (arith, sub_int_pos k active hk ha, e) in
            rw (e, missing)
              (either_path b.vm_config.auto_size.enabled
                (auto-Accounts svc (k - active) active b f v)
                (static-Accounts svc (k - active) active b f v))
      ]
