-- ===== src/Bridge/System/Pool.antt =====
-- bridge/capacity.go, bridge/bridge.go: that the pool covers the active VMs of the bridges, in any
-- order of their steps.
use orchard_gh_bridge.Base.{
  ℕ, ◌+◌, ◌-◌, ◌≤◌, ◌<◌, ◌≡◌, refl, ap, subst, ◌∙◌, inl, inr, if◌then◌else◌, Text, List, [], ◌∷◌,
  length, map, lookup, length-erase-le, Option-cases, is_ok, arith,
}
use orchard_gh_bridge.Base.Int.{ℤ, pos, pos_part, two_63, add_int_pos}
use orchard_gh_bridge.Bridge.Capacity.{adopt_existing}
use orchard_gh_bridge.Bridge.Capacity.Slots.{IsValid}
use orchard_gh_bridge.Bridge.Services.{Services}
use orchard_gh_bridge.Bridge.Fleet.{Fleet, Bridge}
use orchard_gh_bridge.Bridge.Growth.{actives}
use orchard_gh_bridge.Bridge.Scaler.{
  handle_desired_runner_count, handle_job_started, handle_job_completed, hydrate_from_orchard,
  purge_active_vm,
}
use orchard_gh_bridge.Bridge.Scaler.Desired.{handle_desired_runner_count-Accounts}
use orchard_gh_bridge.Bridge.Scaler.Jobs.{handle_job_completed_lem, unknown_runner}
use orchard_gh_bridge.Bridge.Scaler.Growth.{
  handle_desired_runner_count-Covers, handle_job_completed-drops, hydrate_from_orchard-grows,
}
use orchard_gh_bridge.Bridge.System.{
  System, Handles, desires, starts, completes, hydrates, Acts, first, later, Turn, acts, reserves,
  purges, moves, Turns, still, more,
}

-- The active VMs of all bridges.
unfoldable pub total : {W : Type 0} → List (Bridge W) → ℕ
total [] = 0
total (b ∷ bs) = length b.active_vms + total bs

-- A valid pool after a step in which the active VMs grew by no more than the slots in use and the
-- adopted VMs.
record Kept {W : Type 0} (used before after adopted : ℕ) (f' : Fleet W) : Type 0 where
  pub valid : IsValid f'.capacity
  pub grown : after + used ≤ before + valid.used + adopted

module _ {W : Type 0} (f f' : Fleet W) (v : IsValid f.capacity) (before after adopted : ℕ) where
  -- The pool has other slots in use, and is as it was otherwise.
  recount-Kept :
      (counted : ℕ)
      → f'.capacity ≡ record f.capacity { current = pos counted }
      → counted < two_63
      → after + v.used ≤ before + counted + adopted
      → Kept v.used before after adopted f'
  recount-Kept counted e small h = record {
    valid = record {
      used = counted;
      limit = v.limit;
      current_eq = ap (λ c. c.current) e;
      max_eq = ap (λ c. c.max) e ∙ v.max_eq;
      used_int = small;
      limit_int = v.limit_int;
    };
    grown = h;
  }

  same-Kept :
      f'.capacity ≡ f.capacity → after ≤ before + adopted → Kept v.used before after adopted f'
  same-Kept e h = recount-Kept v.used (e ∙ ground (arith, v.current_eq)) v.used_int (omega arith)

module _ {W : Type 0} (svc : Services W) where
  desires-Kept :
      (k : ℕ) (b : Bridge W) (f : Fleet W) (v : IsValid f.capacity)
      → k < two_63
      → length b.active_vms < two_63
      → let out = handle_desired_runner_count svc (pos k) b f in
        Kept v.used (actives b) (actives out.1) 0 out.2
  desires-Kept k b f v small ints =
      let out = handle_desired_runner_count svc (pos k) b f in
      let a = handle_desired_runner_count-Accounts svc k b f v small ints in
      let covers = handle_desired_runner_count-Covers svc (pos k) b f in
      recount-Kept f out.2 v (actives b) (actives out.1) 0 (v.used + a.created) a.counted
        (omega (arith, a.within, v.limit_int, v.used_int)) (omega (arith, a.reported, covers))

  completes-Kept :
      (name : Text) (id : ℤ) (b : Bridge W) (f : Fleet W) (v : IsValid f.capacity)
      → let out = handle_job_completed svc name id b f in
        Kept v.used (actives b) (actives out.1) 0 out.2
  completes-Kept name id b f v =
      let out = handle_job_completed svc name id b f in
      elim (Option-cases (lookup name b.active_vms)) [
        | inl e ↦
            rw (unknown_runner svc name id b f e)
              (same-Kept f f v (actives b) (actives b) 0 refl (omega arith))
        | inr (vm, e) ↦
            let deleted = is_ok (svc.orchard.delete_vm vm f.view.world).0 in
            let done = handle_job_completed_lem svc name vm id b f v e in
            let less = handle_job_completed-drops svc name vm id b f e in
            recount-Kept f out.2 v (actives b) (actives out.1) 0
              (if deleted then v.used - 1 else v.used) done.slots (ground (arith, v.used_int))
              (ground (arith, less))
      ]

  Handles-Kept :
      {b : Bridge W} {f : Fleet W} {b' : Bridge W} {f' : Fleet W} {n : ℕ}
      → Handles svc b f b' f' n
      → (v : IsValid f.capacity) → Kept v.used (actives b) (actives b') n f'
  unfolding handle_job_started
  Handles-Kept (desires k b f small ints) v = desires-Kept k b f v small ints
  Handles-Kept (starts name b f) v = same-Kept f f v (actives b) (actives b) 0 refl (omega arith)
  Handles-Kept (completes name id b f) v = completes-Kept name id b f v
  Handles-Kept (hydrates b f) v =
      let out = hydrate_from_orchard svc b f in
      let (grown, same) = hydrate_from_orchard-grows svc b f in
      same-Kept f out.2 v (actives b) (actives out.1) out.0.0 same grown

  Acts-Kept :
      {bs bs' : List (Bridge W)} {f f' : Fleet W} {n : ℕ}
      → Acts svc bs f bs' f' n
      → (v : IsValid f.capacity) → Kept v.used (total bs) (total bs') n f'
  unfolding total
  Acts-Kept (first bs a) v =
      let k = Handles-Kept a v in record { valid = k.valid; grown = omega (arith, k.grown) }
  Acts-Kept (later b a) v =
      let k = Acts-Kept a v in record { valid = k.valid; grown = omega (arith, k.grown) }

-- The pool is valid, and its slots in use and those still owed cover the active VMs.
pub record IsCovered {W : Type 0} (s : System W) : Type 0 where
  pub valid : IsValid s.fleet.capacity
  pub covered : total s.bridges ≤ valid.used + s.owed

module _ {W : Type 0} where
  purges-total :
      (name : Text) (bs : List (Bridge W)) → total (map (purge_active_vm name) bs) ≤ total bs
  unfolding total purge_active_vm
  purges-total name [] = omega arith
  purges-total name (b ∷ bs) =
      omega (arith, purges-total name bs, length-erase-le name b.active_vms)

  reserves-IsCovered :
      (s : System W) (n : ℕ)
      → n ≤ s.owed
      → pos_part s.fleet.capacity.current + n < two_63
      → IsCovered s
      → IsCovered (record s {
        fleet = record s.fleet { capacity = adopt_existing (pos n) s.fleet.capacity };
        owed = s.owed - n;
      })
  unfolding adopt_existing
  reserves-IsCovered s n le small h =
      let v = h.valid in
      let fits : v.used + n < two_63 = subst (λ x. pos_part x + n < two_63) v.current_eq small in
      record {
        valid = record {
          used = v.used + n;
          limit = v.limit;
          current_eq = rw v.current_eq (add_int_pos v.used n fits);
          max_eq = v.max_eq;
          used_int = fits;
          limit_int = v.limit_int;
        };
        covered = omega (arith, h.covered);
      }

module _ {W : Type 0} (svc : Services W) where
  Turn-IsCovered : {s t : System W} → Turn svc s t → IsCovered s → IsCovered t
  Turn-IsCovered (acts c owed a) h =
      let k = Acts-Kept svc a h.valid in
      record { valid = k.valid; covered = omega (arith, k.grown, h.covered) }
  Turn-IsCovered (reserves s n le small) h = reserves-IsCovered s n le small h
  Turn-IsCovered (purges s name) h = record {
    valid = h.valid;
    covered = omega (arith, purges-total name s.bridges, h.covered);
  }
  Turn-IsCovered (moves s w) h = record { valid = h.valid; covered = h.covered }

  -- Between two sweeps, in any interleaving of the calls of the bridges, the reservations for
  -- adopted VMs and the purges, the pool stays valid, and its slots in use, with those still owed
  -- for adopted VMs, cover all active VMs of all bridges, where they did so before.
  pub Turns-IsCovered : {s t : System W} → Turns svc s t → IsCovered s → IsCovered t
  Turns-IsCovered still h = h
  Turns-IsCovered (more r u) h = Turn-IsCovered u (Turns-IsCovered r h)
