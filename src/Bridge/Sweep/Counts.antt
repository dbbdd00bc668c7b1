-- ===== src/Bridge/Sweep/Counts.antt =====
-- bridge/cleanup.go: what a sweep does to the pool of slots.
use orchard_gh_bridge.Base.{
  ℕ, ◌+◌, ◌≤◌, ◌≡◌, refl, ◌∙◌, ap, inl, inr, Bool, true, ◌||◌, ◌&&◌, not, Text, TextSet, has,
  is_empty, count_if_mono, Option, none, some, List, [], ◌∷◌, count_if, Bool-cases, Option-cases,
  arith, length,
}
use orchard_gh_bridge.Base.Int.{pos}
use orchard_gh_bridge.Base.Time.{Time}
use orchard_gh_bridge.Orchard.{Vm}
use orchard_gh_bridge.Bridge.Name.{is_managed_vm}
use orchard_gh_bridge.Bridge.Capacity.{Capacity, reconcile, set_max}
use orchard_gh_bridge.Bridge.Labels.{sum_slots}
use orchard_gh_bridge.Bridge.Services.{Services}
use orchard_gh_bridge.Bridge.Fleet.{View, Fleet}
use orchard_gh_bridge.Bridge.Cleanup.{Cleanup, should_delete}
use orchard_gh_bridge.Bridge.Cleanup.Rules.{process_vm-capacity, process_vm-due, process_vm-pending}
use orchard_gh_bridge.Bridge.Journal.{Deaths}
use orchard_gh_bridge.Bridge.Sweep.Deaths.{
  AreQuiet, pool-AreQuiet, sweep_vms-dead, settle-dead, list_vms_and_workers-dead,
}
use orchard_gh_bridge.Bridge.Prune.{name_set}
use orchard_gh_bridge.Bridge.Sweep.{
  Tally, SweepState, push_max_capacity, sweep_vm, sweep_vms, list_vms_and_workers, finish_sweep,
  settle, sweep,
}

-- A managed VM takes a slot while it waits for a worker or stands on a live one.
abbrev pub takes_slot : TextSet → Vm → Bool
takes_slot live vm = is_managed_vm vm.name && (is_empty vm.worker || has vm.worker live)

module _ {W : Type 0} where
  -- A managed VM that a sweep wants to delete.
  abbrev pub is_due : Cleanup W → TextSet → Time → Vm → Bool
  is_due c pending now vm = is_managed_vm vm.name && should_delete c pending vm now

  -- What a part of the loop has done to the counts and to the fleet.
  pub record Counted (slots due : ℕ) (t : Tally) (f : Fleet W) (t' : Tally) (f' : Fleet W)
      : Type 0 where
    pub at_most : t'.managed ≤ t.managed + slots
    pub at_least : t.managed + t.deleted + slots ≤ t'.managed + t'.deleted
    pub deletes : t'.deleted ≤ t.deleted + due
    pub pool : f'.capacity ≡ f.capacity
    pub fewer :
        (name : Text) → has name f'.pending_deletes ≡ true → has name f.pending_deletes ≡ true

  trans-Counted :
      (slots more due due' due_then : ℕ) (t t' t'' : Tally) (f f' f'' : Fleet W)
      → due_then ≤ due'
      → Counted slots due t f t' f'
      → Counted more due_then t' f' t'' f''
      → Counted (slots + more) (due + due') t f t'' f''
  trans-Counted slots more due due' due_then t t' t'' f f' f'' le a b = record {
    at_most = omega (arith, a.at_most, b.at_most);
    at_least = omega (arith, a.at_least, b.at_least);
    deletes = omega (arith, a.deletes, b.deletes);
    pool = b.pool ∙ a.pool;
    fewer = λ name. λ h. a.fewer name (b.fewer name h);
  }

  due_mono :
      (c : Cleanup W) (pending pending' : TextSet) (now : Time) (vm : Vm)
      → ((name : Text) → has name pending' ≡ true → has name pending ≡ true)
      → is_due c pending' now vm ≡ true
      → is_due c pending now vm ≡ true
  unfolding should_delete
  due_mono c pending pending' now vm fewer h = ground (arith, fewer vm.name)

module _ {W : Type 0} (svc : Services W) (c : Cleanup W) (live : TextSet) (now : Time) where
  sweep_vm-Counted :
      (vm : Vm) (t : Tally) (f : Fleet W)
      → is_managed_vm vm.name ≡ true
      → let (t', f') = sweep_vm svc c live now vm t f in
        Counted
          (count_if (takes_slot live) (vm ∷ []))
          (count_if (is_due c f.pending_deletes now) (vm ∷ []))
          t
          f
          t'
          f'
  unfolding sweep_vm
  sweep_vm-Counted vm t f m =
      let pool = process_vm-capacity svc c vm now f in
      let due = process_vm-due svc c vm now f in
      record {
        at_most = ground arith;
        at_least = ground arith;
        deletes = ground (arith, due);
        pool = ground (arith, pool);
        fewer = λ name. λ h. ground (arith, process_vm-pending svc c vm now f name);
      }

  pub sweep_vms-Counted :
      (vms : List Vm) (t : Tally) (f : Fleet W)
      → let (t', f') = sweep_vms svc c live now vms t f in
        Counted
          (count_if (takes_slot live) vms)
          (count_if (is_due c f.pending_deletes now) vms)
          t
          f
          t'
          f'
  unfolding sweep_vms
  sweep_vms-Counted [] t f = record {
    at_most = omega arith;
    at_least = omega arith;
    deletes = omega arith;
    pool = refl;
    fewer = λ name. λ h. h;
  }
  sweep_vms-Counted (vm ∷ vms) t f = elim (Bool-cases (is_managed_vm vm.name)) [
    | inl m ↦
        let (t', f') = sweep_vm svc c live now vm t f in
        let head = sweep_vm-Counted vm t f m in
        let rest = sweep_vms-Counted vms t' f' in
        let le =
          count_if_mono (is_due c f'.pending_deletes now) (is_due c f.pending_deletes now) vms
            (λ x. due_mono c f.pending_deletes f'.pending_deletes now x head.fewer) in
        let all = trans-Counted _ _ _ _ _ t t' _ f f' _ le head rest in
        rw (m, sweep_vms) (ground (arith, all))
    | inr m ↦ rw (m, sweep_vms) (ground (arith, sweep_vms-Counted vms t f))
  ]

-- The pool after a sweep that read the state.
pub record Reconciled {W : Type 0} (st : SweepState) (slots due : ℕ) (c : Capacity (View W))
    : Type 0 where
  pub counted : ℕ
  pub deleted : ℕ
  pub current_eq : c.current ≡ pos counted
  pub max_eq : c.max ≡ sum_slots (λ w. not w.scheduling_paused) (pos 0) st.live
  pub at_most : counted ≤ slots
  pub at_least : slots ≤ counted + deleted
  pub deletes : deleted ≤ due

module _ {W : Type 0} (svc : Services W) where
  settle-capacity :
      (st : SweepState) (c : Cleanup W) (t : Tally) (f : Fleet W)
      → (settle svc st c (t, f)).1.capacity ≡ record f.capacity {
        current = pos t.managed;
        max = sum_slots (λ w. not w.scheduling_paused) (pos 0) st.live;
      }
  unfolding settle finish_sweep push_max_capacity set_max reconcile
  settle-capacity st c t f = refl

-- What a sweep from the state `read` did, where `dead` is the log of the VMs that Orchard deleted.
pub Swept :
    {W : Type 0}
    → (W → List Text)
    → Option SweepState
    → Time
    → Cleanup W
    → Fleet W
    → Cleanup W × Fleet W
    → Type 0
Swept dead none now c f (c', f') =
    (c' ≡ c)
    × (f'.capacity ≡ f.capacity)
    × (f'.pending_deletes ≡ f.pending_deletes)
    × (dead f'.view.world ≡ dead f.view.world)
Swept dead (some st) now c f (c', f') =
    (r : Reconciled st (count_if (takes_slot (name_set [] st.live)) st.vms)
      (count_if (is_due c f.pending_deletes now) st.vms) f'.capacity)
    × (length (dead f'.view.world) ≡ length (dead f.view.world) + r.deleted)

module _ {W : Type 0} (svc : Services W) (dead : W → List Text) (deaths : Deaths svc dead) where
  -- With callbacks that delete no VM, a sweep that cannot read the state deletes none and leaves
  -- pool and queue alone; any other sets the slots in use to the managed VMs that take a slot,
  -- less at most the VMs that Orchard deleted during the sweep, which are at most those that were
  -- due, and the limit to the slots of the live workers that are not paused.
  pub sweep-Swept :
      (c : Cleanup W) (f : Fleet W)
      → AreQuiet dead c f
      → let (read, view) = list_vms_and_workers svc f.view in
        Swept dead read (svc.now view.world).0 c f (sweep svc c f)
  unfolding sweep Swept
  sweep-Swept c f quiet =
      let listed = list_vms_and_workers-dead svc dead deaths f.view in
      elim (Option-cases (list_vms_and_workers svc f.view).0) [
        | inl e ↦ rw (e, sweep) (refl, refl, refl, listed)
        | inr (st, e) ↦
            let view = (list_vms_and_workers svc f.view).1 in
            let (now, w) = svc.now view.world in
            let live = name_set [] st.live in
            let t0 : Tally = record { seen = []; managed = 0; deleted = 0; orphaned = 0 } in
            let f' : Fleet W = record f { view = record view { world = w } } in
            let loop = sweep_vms svc c live now st.vms t0 f' in
            let counts = sweep_vms-Counted svc c live now st.vms t0 f' in
            let logged = sweep_vms-dead svc dead deaths c quiet.cleaned live now st.vms t0 f' in
            let settled =
              settle-dead svc dead deaths st c loop.0 loop.1
                (pool-AreQuiet dead c f loop.1 counts.pool quiet) in
            let before = deaths.reads.now view.world ∙ listed in
            rw (e, sweep)
              (
                record {
                  counted = loop.0.managed;
                  deleted = loop.0.deleted;
                  current_eq = ap (λ p. p.current) (settle-capacity svc st c loop.0 loop.1);
                  max_eq = ap (λ p. p.max) (settle-capacity svc st c loop.0 loop.1);
                  at_most = omega (arith, counts.at_most);
                  at_least = omega (arith, counts.at_least);
                  deletes = omega (arith, counts.deletes);
                },
                omega (arith, ap length settled, logged, ap length before),
              )
      ]
