-- ===== src/Bridge/Scaler/Jobs.antt =====
-- bridge/bridge.go: HandleJobCompleted, and its failed deletes in bridge/cleanup.go.
use orchard_gh_bridge.Base.{
  ◌-◌, ◌≡◌, refl, ◌∙◌, inl, inr, Bool, true, false, if◌then◌else◌, Text, text_eq, is_empty, lookup,
  insert, erase, lookup-erase, lookup-insert, none, some, text_eq_iff, text_eq_refl, Result-cases,
  is_ok, ok, Done, Option-cases, arith,
}
use orchard_gh_bridge.Base.Int.{ℤ, pos}
use orchard_gh_bridge.Base.Time.{Time}
use orchard_gh_bridge.Orchard.{Vm}
use orchard_gh_bridge.Bridge.Capacity.Slots.{IsValid, release_lem}
use orchard_gh_bridge.Bridge.Services.{Services}
use orchard_gh_bridge.Bridge.Fleet.{Fleet, Bridge}
use orchard_gh_bridge.Bridge.Scaler.{finish_job, handle_job_completed}
use orchard_gh_bridge.Bridge.Cleanup.{Cleanup, mark_for_deletion, should_delete}

-- What HandleJobCompleted leaves, by whether the VM was deleted: no error, the runner forgotten and
-- no other, one slot back if the VM is gone, and otherwise the VM queued for the clean-up.
pub record Completed {W : Type 0} (name vm : Text) (deleted : Bool) (b : Bridge W) (f : Fleet W)
    (v : IsValid f.capacity) (outcome : Done × Bridge W × Fleet W) : Type 0 where
  pub silent : outcome.0 ≡ ok tt
  pub forgotten : lookup name outcome.1.active_vms ≡ none
  pub others :
      (other : Text)
      → text_eq other name ≡ false
      → lookup other outcome.1.active_vms ≡ lookup other b.active_vms
  pub slots :
      outcome.2.capacity
      ≡ record f.capacity { current = pos (if deleted then v.used - 1 else v.used) }
  pub queued : outcome.2.pending_deletes ≡ (
      if deleted then f.pending_deletes else elim b.on_delete_failed [
        | none ↦ f.pending_deletes
        | some queue ↦ queue vm f.pending_deletes
      ])

module _ {W : Type 0} (svc : Services W) where
  finish_job_capacity :
      (id : ℤ) (b : Bridge W) (f : Fleet W) (v : IsValid f.capacity)
      → (finish_job svc id b f).capacity ≡ record f.capacity { current = pos (v.used - 1) }
  unfolding finish_job
  finish_job_capacity id b f v = release_lem 1 f.capacity v (omega arith)

  finish_job_pending :
      (id : ℤ) (b : Bridge W) (f : Fleet W)
      → (finish_job svc id b f).pending_deletes ≡ f.pending_deletes
  unfolding finish_job
  finish_job_pending id b f = refl

  -- For the runner of an active VM and a valid pool, HandleJobCompleted returns no error, forgets
  -- the runner and no other, and either gives one slot back (VM deleted) or keeps it and queues
  -- the VM (delete failed).
  pub handle_job_completed_lem :
      (name vm : Text) (id : ℤ) (b : Bridge W) (f : Fleet W) (v : IsValid f.capacity)
      → lookup name b.active_vms ≡ some vm
      → Completed name vm
          (is_ok (svc.orchard.delete_vm vm f.view.world).0)
          b
          f
          v
          (handle_job_completed svc name id b f)
  unfolding handle_job_completed
  handle_job_completed_lem name vm id b f v e =
      elim (Result-cases (svc.orchard.delete_vm vm f.view.world).0) [
        | inl (u, q) ↦
            rw (e, q, handle_job_completed)
              (record {
                silent = refl;
                forgotten = ground (arith, lookup-erase name name b.active_vms, text_eq_refl name);
                others = λ other. λ ne. ground (
                  arith,
                  lookup-erase name other b.active_vms,
                  text_eq_iff name other,
                  text_eq_iff other name,
                );
                slots = finish_job_capacity id _ _ v;
                queued = finish_job_pending id _ _;
              })
        | inr (x, q) ↦
            rw (e, q, handle_job_completed)
              (record {
                silent = refl;
                forgotten = ground (arith, lookup-erase name name b.active_vms, text_eq_refl name);
                others = λ other. λ ne. ground (
                  arith,
                  lookup-erase name other b.active_vms,
                  text_eq_iff name other,
                  text_eq_iff other name,
                );
                slots = ground (arith, v.current_eq);
                queued = refl;
              })
      ]

  pub unknown_runner :
      (name : Text) (id : ℤ) (b : Bridge W) (f : Fleet W)
      → lookup name b.active_vms ≡ none
      → handle_job_completed svc name id b f ≡ (ok tt, b, f)
  unfolding handle_job_completed
  unknown_runner name id b f e = rw (e, handle_job_completed) refl

  forgets :
      (name : Text) (id : ℤ) (b : Bridge W) (f : Fleet W)
      → lookup name (handle_job_completed svc name id b f).1.active_vms ≡ none
  unfolding handle_job_completed
  forgets name id b f = elim (Option-cases (lookup name b.active_vms)) [
    | inl e ↦ rw (e, handle_job_completed) e
    | inr (vm, e) ↦
        let gone : lookup name (erase name b.active_vms) ≡ none =
          ground (arith, lookup-erase name name b.active_vms, text_eq_refl name) in
        elim (Result-cases (svc.orchard.delete_vm vm f.view.world).0) [
          | inl (u, q) ↦ rw (e, q, handle_job_completed) gone
          | inr (x, q) ↦ rw (e, q, handle_job_completed) gone
        ]
  ]

  -- A second report of the completion of a job changes nothing.
  pub handle_job_completed-again :
      (name : Text) (id id' : ℤ) (b : Bridge W) (f : Fleet W)
      → let (_, b', f') = handle_job_completed svc name id b f in
        handle_job_completed svc name id' b' f' ≡ (ok tt, b', f')
  handle_job_completed-again name id id' b f =
      let (_, b', f') = handle_job_completed svc name id b f in
      unknown_runner name id' b' f' (forgets name id b f)

  -- With a valid pool and the clean-up as the handler of failed deletes, a VM whose delete failed
  -- when its job completed is due for deletion in the next sweep whatever its status.
  pub handle_job_completed-should_delete :
      (name : Text) (id : ℤ) (b : Bridge W) (f : Fleet W) (v : IsValid f.capacity) (c : Cleanup W)
      (vm : Vm) (now : Time)
      → b.on_delete_failed ≡ some mark_for_deletion
      → lookup name b.active_vms ≡ some vm.name
      → is_empty vm.name ≡ false
      → is_ok (svc.orchard.delete_vm vm.name f.view.world).0 ≡ false
      → should_delete c (handle_job_completed svc name id b f).2.pending_deletes vm now ≡ true
  unfolding should_delete mark_for_deletion
  handle_job_completed-should_delete name id b f v c vm now hook e named failed =
      let done = handle_job_completed_lem name vm.name id b f v e in
      let queue : (handle_job_completed svc name id b f).2.pending_deletes
          ≡ insert vm.name tt f.pending_deletes =
        done.queued ∙ ground (arith, failed, hook, named) in
      rw queue
        (ground (arith, lookup-insert vm.name vm.name tt f.pending_deletes, text_eq_refl vm.name))
