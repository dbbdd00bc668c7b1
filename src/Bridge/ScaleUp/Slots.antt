-- ===== src/Bridge/ScaleUp/Slots.antt =====
-- bridge/bridge.go: the slots that a scale-up reserves and the VMs that it creates.
use orchard_gh_bridge.Base.{
  ℕ, zero, suc, ◌+◌, ◌-◌, ◌≤◌, ◌<◌, ◌≡◌, refl, ◌⊎◌, inl, inr, true, min, Option, none, some,
  is_some, Error, arith, Bool-cases,
}
use orchard_gh_bridge.Base.Int.{pos, two_63, sub_int, eqb_ℤ, sub_int_le}
use orchard_gh_bridge.Bridge.Capacity.{Capacity, release}
use orchard_gh_bridge.Bridge.Capacity.Slots.{
  IsValid, try_acquire_grants, release_lem, granted-IsValid,
}
use orchard_gh_bridge.Bridge.Services.{Services}
use orchard_gh_bridge.Bridge.Fleet.{View, Fleet, Bridge, with_capacity, create_one_vm}
use orchard_gh_bridge.Bridge.ScaleUp.{Created, finish_scale_up, create_vms, scale_up}

-- A loop of so many rounds that began at `before` made every VM asked for, or was stopped earlier.
abbrev pub Ran : {W : Type 0} → ℕ → ℕ → Created W → Type 0
Ran before rounds c =
    (before ≤ c.0.0)
    × (c.0.0 ≤ before + rounds)
    × ((is_some c.0.1 ≡ true) ⊎ (c.0.0 ≡ before + rounds))

module _ {W : Type 0} (svc : Services W) where
  create_vms-Ran :
      (rounds before : ℕ) (b : Bridge W) (w : W)
      → Ran before rounds (create_vms svc rounds before b w)
  unfolding create_vms
  create_vms-Ran zero before b w = (omega arith, omega arith, inr (omega arith))
  create_vms-Ran (suc rounds) before b w =
      let one = create_one_vm svc b.vm_config.cpu b.vm_config.memory b.vm_config.labels b w in
      ground (arith, create_vms-Ran rounds (before + 1) one.1 one.2)

-- What a scale-up has done to the pool: it made some of the VMs that it had slots for, and exactly
-- those are counted as in use from now on.
pub record Accounts {W : Type 0} (granted current_active : ℕ) {c : Capacity (View W)}
    (v : IsValid c) (outcome : (ℕ × Option Error) × Bridge W × Fleet W) : Type 0 where
  pub created : ℕ
  pub reported : outcome.0.0 ≡ current_active + created
  pub within : created ≤ granted
  pub counted : outcome.2.capacity ≡ record c { current = pos (v.used + created) }

-- And it made all of them, unless it reports an error.
abbrev pub AccountsForAll :
    {W : Type 0} (granted current_active : ℕ) {c : Capacity (View W)} (v : IsValid c)
    → (ℕ × Option Error) × Bridge W × Fleet W
    → Type 0
AccountsForAll granted current_active v outcome =
    (a : Accounts granted current_active v outcome) × ((is_some outcome.0.1 ≡ true)
      ⊎ (a.created ≡ granted))

module _ {W : Type 0} (f : Fleet W) (v : IsValid f.capacity) (granted current_active : ℕ) where
  abbrev reserved : Capacity (View W)
  reserved = record f.capacity { current = pos (v.used + granted) }

  granted-le-int : granted ≤ v.limit - v.used → granted < two_63
  granted-le-int le = omega (arith, v.limit_int)

  -- Of the reserved slots, those that were not used go back.
  pub give_back :
      (created : ℕ)
      → granted ≤ v.limit - v.used
      → created ≤ granted
      → release (sub_int (pos granted) (pos created)) reserved
        ≡ record f.capacity { current = pos (v.used + created) }
  give_back created le h =
      let v' = granted-IsValid granted f.capacity v le in
      rw (sub_int_le granted created h (granted-le-int le))
        (ground (arith, release_lem (granted - created) reserved v'))

  finish-Accounts :
      (c : Created W)
      → granted ≤ v.limit - v.used
      → Ran 0 granted c
      → AccountsForAll granted current_active v
          (finish_scale_up (pos granted) current_active (with_capacity reserved f) c)
  unfolding finish_scale_up
  finish-Accounts ((created, none), b, w) le r =
      let whole : created ≡ granted = ground arith in
      (
        record { created = created; reported = refl; within = omega arith; counted = rw whole },
        inr whole,
      )
  finish-Accounts ((created, some e), b, w) le r = (
    record {
      created = created;
      reported = refl;
      within = omega arith;
      counted = give_back created le (omega arith);
    },
    inl refl,
  )

module _ {W : Type 0} (svc : Services W) where
  -- With a valid pool, a scale-up makes one VM for each slot that it gets unless it reports an
  -- error; on every path the slots in use grow by exactly the VMs created, which is what it
  -- reports on top of the active ones.
  pub scale_up-Accounts :
      (n current_active : ℕ) (b : Bridge W) (f : Fleet W) (v : IsValid f.capacity)
      → AccountsForAll
          (min n (v.limit - v.used))
          current_active
          v
          (scale_up svc (pos n) current_active b f)
  unfolding scale_up
  scale_up-Accounts n current_active b f v =
      let granted = min n (v.limit - v.used) in
      rw (try_acquire_grants n f.capacity v) (elim (Bool-cases (eqb_ℤ (pos granted) (pos 0))) [
        | inl e ↦ rw e (
          record {
            created = 0;
            reported = omega arith;
            within = omega arith;
            counted = ground arith;
          },
          inr (ground arith),
        )
        | inr e ↦ rw e (
            finish-Accounts f v granted current_active (create_vms svc granted 0 b f.view.world)
              (omega arith) (create_vms-Ran svc granted 0 b f.view.world))
      ])
