-- ===== src/Bridge/AutoScaleUp/Slots.antt =====
-- bridge/bridge.go: the slots that handleAutoSizeScaleUp reserves and the VMs that it creates.
use orchard_gh_bridge.Base.{
  ℕ, zero, suc, ◌+◌, ◌-◌, ◌≤◌, ◌%◌, ◌≡◌, refl, ◌⊎◌, inl, inr, true, min, List, Option, none, some,
  is_some, Option-cases, Done, ok, err, arith, Bool-cases,
}
use orchard_gh_bridge.Base.Int.{pos, two_64, eqb_ℤ, sub_int_le}
use orchard_gh_bridge.Orchard.{Worker}
use orchard_gh_bridge.Bridge.Capacity.{Capacity, release}
use orchard_gh_bridge.Bridge.Capacity.Slots.{
  IsValid, try_acquire_grants, release_lem, granted-IsValid,
}
use orchard_gh_bridge.Bridge.Services.{Services}
use orchard_gh_bridge.Bridge.Fleet.{View, Fleet, Bridge}
use orchard_gh_bridge.Bridge.ScaleUp.Slots.{Accounts, give_back}
use orchard_gh_bridge.Bridge.AutoScaleUp.{
  Batch, new_batch, pick, create_on, auto_round, after_round, auto_vms, finish_auto_scale_up,
  auto_scale_up,
}

module _ {W : Type 0} (c : Capacity (View W)) (v : IsValid c) (granted : ℕ) where
  -- Of the slots reserved for the batch, those of the skipped workers have gone back.
  pub record IsBooked (batch : Batch W) : Type 0 where
    pub within : batch.skipped + batch.created ≤ granted
    pub booked : batch.capacity ≡ record c { current = pos (v.used + (granted - batch.skipped)) }

  -- And the loop came to its end, or was stopped.
  pub record IsDone (batch : Batch W) : Type 0 where
    pub booking : IsBooked batch
    pub complete : (is_some batch.stopped ≡ true) ⊎ (batch.skipped + batch.created ≡ granted)

  skip-IsBooked :
      (batch : Batch W)
      → granted ≤ v.limit - v.used
      → suc (batch.skipped + batch.created) ≤ granted
      → IsBooked batch
      → IsBooked
          (record batch { skipped = batch.skipped + 1; capacity = release (pos 1) batch.capacity })
  skip-IsBooked batch le more h =
      let left = granted - batch.skipped in
      let v' = granted-IsValid left c v (omega arith) in
      record {
        within = omega arith;
        booked =
            rw h.booked
              (ground (arith, release_lem 1 (record c { current = pos (v.used + left) }) v'));
      }

  -- What a round leaves: the bookings, and one more worker dealt with unless it was stopped.
  abbrev Advanced : Batch W → Batch W → Type 0
  Advanced batch batch' =
      IsBooked batch'
      × ((is_some batch'.stopped ≡ true)
          ⊎ (batch'.skipped + batch'.created ≡ suc (batch.skipped + batch.created)))

  after_round-Advanced :
      (r : Option Done) (batch : Batch W)
      → granted ≤ v.limit - v.used
      → suc (batch.skipped + batch.created) ≤ granted
      → IsBooked batch
      → Advanced batch (after_round r batch)
  unfolding after_round
  after_round-Advanced none batch le more h = (skip-IsBooked batch le more h, inr (omega arith))
  after_round-Advanced (some (ok _)) batch le more h =
      (record { within = omega arith; booked = h.booked }, inr (omega arith))
  after_round-Advanced (some (err e)) batch le more h =
      (record { within = h.within; booked = h.booked }, inl refl)

module _ {W : Type 0} (svc : Services W) (c : Capacity (View W)) (v : IsValid c) (granted : ℕ) where
  auto_round-Advanced :
      (candidates : List Worker) (start : ℕ) (reserves : ℕ × ℕ) (i : ℕ) (batch : Batch W)
      (b : Bridge W) (w : W)
      → granted ≤ v.limit - v.used
      → suc (batch.skipped + batch.created) ≤ granted
      → IsBooked c v granted batch
      → Advanced c v granted batch (auto_round svc candidates start reserves i batch b w).0
  unfolding auto_round
  auto_round-Advanced candidates start reserves i batch b w le more h =
      elim (Option-cases (pick candidates start i)) [
        | inl q ↦ rw (q, auto_round) (record { within = h.within; booked = h.booked }, inl refl)
        | inr (worker, q) ↦
            rw (q, auto_round)
              (after_round-Advanced c v granted (create_on svc worker reserves b w).0 batch le more
                h)
      ]

  auto_vms-IsDone :
      (candidates : List Worker) (start : ℕ) (reserves : ℕ × ℕ) (rounds i : ℕ) (batch : Batch W)
      (b : Bridge W) (w : W)
      → granted ≤ v.limit - v.used
      → batch.skipped + batch.created + rounds ≡ granted
      → IsBooked c v granted batch
      → IsDone c v granted (auto_vms svc candidates start reserves rounds i batch b w).0
  unfolding auto_vms
  auto_vms-IsDone candidates start reserves zero i batch b w le e h = record {
    booking = h;
    complete = inr (omega arith);
  }
  auto_vms-IsDone candidates start reserves (suc rounds) i batch b w le e h =
      let round = auto_round svc candidates start reserves i batch b w in
      let (h', moved) =
        auto_round-Advanced candidates start reserves i batch b w le (omega arith) h in
      elim (Option-cases round.0.stopped) [
        | inl q ↦
            rw (q, auto_vms)
              (auto_vms-IsDone candidates start reserves rounds (i + 1) round.0 round.1 round.2 le
                (ground arith) h')
        | inr (stop, q) ↦ rw (q, auto_vms) (record { booking = h'; complete = inl (rw q) })
      ]

module _ {W : Type 0} (f : Fleet W) (v : IsValid f.capacity) (granted current_active : ℕ) where
  finish-Accounts :
      (batch : Batch W) (b : Bridge W) (w : W)
      → granted ≤ v.limit - v.used
      → IsDone f.capacity v granted batch
      → Accounts granted current_active v
          (finish_auto_scale_up (pos granted) current_active f (batch, b, w))
  unfolding finish_auto_scale_up
  finish-Accounts batch b w le d =
      let left = granted - batch.skipped in
      let fits : batch.created ≤ left = omega (arith, d.booking.within) in
      elim (Option-cases batch.stopped) [
        | inl q ↦
            rw (q, finish_auto_scale_up)
              (record {
                created = batch.created;
                reported = refl;
                within = omega arith;
                counted = ground (arith, d.booking.booked);
              })
        | inr (stop, q) ↦
            rw (q, finish_auto_scale_up)
              (record {
                created = batch.created;
                reported = refl;
                within = omega arith;
                counted =
                    rw
                      (sub_int_le granted batch.skipped (omega (arith, d.booking.within))
                        (omega (arith, v.limit_int)))
                      (rw d.booking.booked
                        (give_back f v left current_active batch.created (omega arith) fits));
              })
      ]

module _ {W : Type 0} (svc : Services W) where
  -- A scale-up with per-host sizes takes as many slots as it needs, up to the free ones. It leaks
  -- no slot: whether workers are skipped, a VM cannot be created or all goes well, the slots in use
  -- grow by exactly the number of VMs created, which is what it reports.
  pub auto_scale_up-Accounts :
      (candidates : List Worker) (reserves : ℕ × ℕ) (n current_active : ℕ) (b : Bridge W)
      (f : Fleet W) (v : IsValid f.capacity)
      → Accounts
          (min n (v.limit - v.used))
          current_active
          v
          (auto_scale_up svc candidates reserves (pos n) current_active b f)
  unfolding auto_scale_up
  auto_scale_up-Accounts candidates reserves n current_active b f v =
      let granted = min n (v.limit - v.used) in
      let reserved = record f.capacity { current = pos (v.used + granted) } in
      let start = b.placement_cursor in
      let b' = record b { placement_cursor = (start + granted) % two_64 } in
      rw (try_acquire_grants n f.capacity v) (elim (Bool-cases (eqb_ℤ (pos granted) (pos 0))) [
        | inl e ↦ rw e (record {
          created = 0;
          reported = omega arith;
          within = omega arith;
          counted = ground arith;
        })
        | inr e ↦
            let loop =
              auto_vms svc candidates start reserves granted 0 (new_batch reserved) b'
                f.view.world in
            rw e (
              finish-Accounts f v granted current_active loop.0 loop.1 loop.2 (omega arith) (
                auto_vms-IsDone svc f.capacity v granted candidates start reserves granted 0
                  (new_batch reserved) b' f.view.world (omega arith) (omega arith)
                  (record { within = omega arith; booked = ground arith })))
      ])
