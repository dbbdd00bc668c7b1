-- ===== src/Bridge/Sweep/Deaths.antt =====
-- bridge/cleanup.go: that a sweep counts the VMs which Orchard deleted for it, no more and no less.
use orchard_gh_bridge.Base.{
  ◌+◌, ltb, ◌≡◌, refl, ◌∙◌, ap, inl, inr, true, false, not, if◌then◌else◌, Bool, Text, TextSet,
  List, [], ◌∷◌, length, In, Option-cases, Bool-cases, Io, ◌>>=◌, ok, arith,
}
use orchard_gh_bridge.Base.Int.{pos, eqb_ℤ}
use orchard_gh_bridge.Base.Time.{Time}
use orchard_gh_bridge.Orchard.{Vm, Worker}
use orchard_gh_bridge.Bridge.Name.{is_managed_vm}
use orchard_gh_bridge.Bridge.Capacity.{run_callbacks, set_max, reconcile}
use orchard_gh_bridge.Bridge.Labels.{sum_slots}
use orchard_gh_bridge.Bridge.Services.{Services}
use orchard_gh_bridge.Bridge.Fleet.{View, Fleet, invalidate_view}
use orchard_gh_bridge.Bridge.StateView.{get}
use orchard_gh_bridge.Bridge.Journal.{Deaths, bind-seen, get-seen}
use orchard_gh_bridge.Bridge.Cleanup.{Cleanup, process_vm, retain_pending_deletes}
use orchard_gh_bridge.Bridge.Cleanup.Deaths.{IsQuietFor, process_vm-dead}
use orchard_gh_bridge.Bridge.Prune.{name_set, prune_offline_workers}
use orchard_gh_bridge.Bridge.Prune.Kept.{prune_offline_workers-seen}
use orchard_gh_bridge.Bridge.Sweep.{
  Tally, SweepState, push_max_capacity, sweep_vm, sweep_vms, list_vms_and_workers, finish_sweep,
  settle,
}

-- The callbacks that a sweep may call leave `seen` alone.
pub record AreQuiet {W : Type 0} {A : Type 0} (seen : W → A) (c : Cleanup W) (f : Fleet W)
    : Type 0 where
  pub cleaned : IsQuietFor seen c.on_vm_cleaned
  pub swept : IsQuietFor seen c.on_sweep
  pub changed :
      (fn : List Worker → View W → View W)
      → In fn f.capacity.callbacks
      → (workers : List Worker) (v : View W) → seen (fn workers v).world ≡ seen v.world

-- For a fleet with the same pool.
pub pool-AreQuiet :
    {W A : Type 0} (seen : W → A) (c : Cleanup W) (f f' : Fleet W)
    → f'.capacity ≡ f.capacity
    → AreQuiet seen c f
    → AreQuiet seen c f'
pool-AreQuiet seen c f f' e quiet = record {
  cleaned = quiet.cleaned;
  swept = quiet.swept;
  changed = rw e quiet.changed;
}

run_callbacks-seen :
    {W A : Type 0} (seen : W → A) (fns : List (List Worker → View W → View W))
    (workers : List Worker) (v : View W)
    → ((fn : List Worker → View W → View W)
        → In fn fns
        → (ws : List Worker) (u : View W) → seen (fn ws u).world ≡ seen u.world)
    → seen (run_callbacks fns workers v).world ≡ seen v.world
unfolding run_callbacks
run_callbacks-seen seen [] workers v quiet = refl
run_callbacks-seen seen (fn ∷ fns) workers v quiet =
    run_callbacks-seen seen fns workers (fn workers v) (λ g i. quiet g (inr i))
    ∙ quiet fn (inl refl) workers v

module _ {W : Type 0} (svc : Services W) (dead : W → List Text) (deaths : Deaths svc dead)
    (c : Cleanup W) (cleaned : IsQuietFor dead c.on_vm_cleaned) (live : TextSet) (now : Time) where
  sweep_vm-dead :
      (vm : Vm) (t : Tally) (f : Fleet W)
      → let (t', f') = sweep_vm svc c live now vm t f in
        length (dead f'.view.world) + t.deleted ≡ length (dead f.view.world) + t'.deleted
  unfolding sweep_vm
  sweep_vm-dead vm t f =
      let law = process_vm-dead svc dead deaths c vm now f cleaned in
      elim (Bool-cases (process_vm svc c vm now f).0) [
        | inl e ↦ ground (arith, ap length law, e)
        | inr e ↦ ground (arith, ap length law, e)
      ]

  pub sweep_vms-dead :
      (vms : List Vm) (t : Tally) (f : Fleet W)
      → let (t', f') = sweep_vms svc c live now vms t f in
        length (dead f'.view.world) + t.deleted ≡ length (dead f.view.world) + t'.deleted
  unfolding sweep_vms
  sweep_vms-dead [] t f = refl
  sweep_vms-dead (vm ∷ vms) t f = elim (Bool-cases (is_managed_vm vm.name)) [
    | inl m ↦
        let (t', f') = sweep_vm svc c live now vm t f in
        rw (m, sweep_vms) (omega (arith, sweep_vm-dead vm t f, sweep_vms-dead vms t' f'))
    | inr m ↦ rw (m, sweep_vms) (sweep_vms-dead vms t f)
  ]

module _ {W : Type 0} (svc : Services W) (dead : W → List Text) (deaths : Deaths svc dead) where
  push_max_capacity-dead :
      (c : Cleanup W) (workers : List Worker) (f : Fleet W)
      → AreQuiet dead c f
      → dead (push_max_capacity workers f).view.world ≡ dead f.view.world
  unfolding push_max_capacity set_max reconcile
  push_max_capacity-dead c workers f quiet =
      let total = sum_slots (λ w. not w.scheduling_paused) (pos 0) workers in
      elim (Bool-cases (eqb_ℤ f.capacity.max total)) [
        | inl same ↦ rw (same, push_max_capacity, set_max) refl
        | inr other ↦
            rw (other, push_max_capacity, set_max)
              (run_callbacks-seen dead f.capacity.callbacks workers f.view quiet.changed)
      ]

  either_view-dead :
      (stale : Bool) (v : View W)
      → dead (if stale then invalidate_view v else v).world ≡ dead v.world
  either_view-dead true v = refl
  either_view-dead false v = refl

  either_prune-dead :
      (fresh : Bool) (w : W) (pruned : List Worker × Cleanup W × W) (c : Cleanup W)
      → dead pruned.2 ≡ dead w
      → dead (if fresh then pruned else ([], c, w)).2 ≡ dead w
  either_prune-dead true w pruned c h = h
  either_prune-dead false w pruned c h = refl

  finish_sweep-dead :
      (st : SweepState) (live : TextSet) (c : Cleanup W) (f : Fleet W)
      → IsQuietFor dead c.on_sweep
      → dead (finish_sweep svc st live c f).1.view.world ≡ dead f.view.world
  unfolding finish_sweep
  finish_sweep-dead st live c f quiet =
      let w = f.view.world in
      let prune = prune_offline_workers svc st.vms st.all live st.fetched_at c w in
      let pruned : List Worker × Cleanup W × W = if st.fresh then prune else ([], c, w) in
      let view : View W = record f.view { world = pruned.2 } in
      let stale = ltb 0 (length pruned.0) in
      let kept =
        either_view-dead stale view
        ∙ either_prune-dead st.fresh w prune c (
            prune_offline_workers-seen svc dead deaths.prunes st.vms st.all live st.fetched_at c
              w) in
      elim (Option-cases c.on_sweep) [
        | inl q ↦ rw (q, finish_sweep) kept
        | inr (fn, q) ↦
            rw (q, finish_sweep)
              (quiet fn q st.live (if stale then invalidate_view view else view) ∙ kept)
      ]

  pub settle-dead :
      (st : SweepState) (c : Cleanup W) (t : Tally) (f : Fleet W)
      → AreQuiet dead c f
      → dead (settle svc st c (t, f)).1.view.world ≡ dead f.view.world
  unfolding settle reconcile
  settle-dead st c t f quiet =
      let view = if ltb 0 t.deleted then invalidate_view f.view else f.view in
      let reconciled : Fleet W = record f {
        pending_deletes = retain_pending_deletes t.seen f.pending_deletes;
        view = view;
        capacity = reconcile (pos t.managed) f.capacity;
      } in
      finish_sweep-dead st (name_set [] st.live) c (push_max_capacity st.live reconciled)
        quiet.swept
      ∙ push_max_capacity-dead c st.live reconciled
          (record { cleaned = quiet.cleaned; swept = quiet.swept; changed = quiet.changed })
      ∙ either_view-dead (ltb 0 t.deleted) f.view

  read_both : List Vm → List Worker → Io W SweepState
  read_both vms workers w =
      let (now, w') = svc.now w in
      (ok (record { vms = vms; live = workers; all = workers; fetched_at = now; fresh = true }), w')

  pub list_vms_and_workers-dead :
      (v : View W) → dead (list_vms_and_workers svc v).1.world ≡ dead v.world
  unfolding list_vms_and_workers read_both
  list_vms_and_workers-dead v = elim (Option-cases v.state) [
    | inl e ↦
        rw (e, list_vms_and_workers)
          (bind-seen dead svc.orchard.list_vms (λ vms. svc.orchard.list_workers >>= read_both vms)
            v.world deaths.reads.list_vms
            (λ vms u.
              bind-seen dead svc.orchard.list_workers (read_both vms) u deaths.reads.list_workers
                (λ workers x. deaths.reads.now x)))
    | inr (s, e) ↦
        let same = get-seen svc dead deaths.reads s v.world in
        elim (Option-cases (get svc s v.world).0.0) [
          | inl q ↦ rw (e, q, list_vms_and_workers) same
          | inr (snap, q) ↦ rw (e, q, list_vms_and_workers) same
        ]
  ]
