-- ===== src/Manager/Wiring/Deaths.antt =====
-- manager/manager.go: that the manager's own state and its callback delete no VM.
use orchard_gh_bridge.Base.{
  ◌≡◌, refl, ap, ◌∙◌, inl, inr, Text, List, none, some, Option, Option-cases, sym,
}
use orchard_gh_bridge.Bridge.Services.{Services}
use orchard_gh_bridge.Bridge.StateView.{StateView, get}
use orchard_gh_bridge.Bridge.Fleet.{View}
use orchard_gh_bridge.Bridge.Journal.{Deaths, get-seen}
use orchard_gh_bridge.Bridge.Cleanup.{Cleanup}
use orchard_gh_bridge.Bridge.Cleanup.Deaths.{IsQuietFor}
use orchard_gh_bridge.Manager.{Handle, recompute_scale_set_shares}
use orchard_gh_bridge.Manager.Wiring.{
  Managed, handles_of, lift_services, purge_all, recompute, on_vm_cleaned,
}

module _ {W : Type 0} (svc : Services W) (dead : W → List Text) (deaths : Deaths svc dead) where
  abbrev pub managed_dead : Managed W → List Text
  managed_dead m = dead m.world

  pub lift_services-Deaths : Deaths (lift_services svc) managed_dead
  lift_services-Deaths = record {
    reads = record {
      now = λ m. deaths.reads.now m.world;
      list_vms = λ m. deaths.reads.list_vms m.world;
      list_workers = λ m. deaths.reads.list_workers m.world;
    };
    deletes = λ name m. deaths.deletes name m.world;
    prunes = λ name m. deaths.prunes name m.world;
    removes = λ id m. deaths.removes id m.world;
    looks_up = λ name m. deaths.looks_up name m.world;
  }

  recompute_scale_set_shares-dead :
      (s : StateView) (handles : List Handle) (w : W)
      → dead (recompute_scale_set_shares svc s handles w).2 ≡ dead w
  unfolding recompute_scale_set_shares
  recompute_scale_set_shares-dead s handles w =
      let same = get-seen svc dead deaths.reads s w in
      elim (Option-cases (get svc s w).0.0) [
        | inl q ↦ rw (q, recompute_scale_set_shares) same
        | inr (snap, q) ↦ rw (q, recompute_scale_set_shares) same
      ]

  on_vm_cleaned-dead :
      (name : Text) (v : View (Managed W))
      → managed_dead (on_vm_cleaned svc name v).world ≡ managed_dead v.world
  unfolding on_vm_cleaned recompute
  on_vm_cleaned-dead name v = elim (Option-cases v.state) [
    | inl e ↦ rw (e, on_vm_cleaned, recompute) refl
    | inr (s, e) ↦
        rw (e, on_vm_cleaned, recompute)
          (recompute_scale_set_shares-dead s (handles_of (purge_all name v.world.members))
            v.world.world)
  ]

  pub wired-IsQuietFor :
      (c : Cleanup (Managed W))
      → c.on_vm_cleaned ≡ some (on_vm_cleaned svc)
      → IsQuietFor managed_dead c.on_vm_cleaned
  wired-IsQuietFor c wired fn e name v =
      let same : fn ≡ on_vm_cleaned svc =
        ap
          (λ (o : Option (Text → View (Managed W) → View (Managed W))). elim o [
            | none ↦ on_vm_cleaned svc
            | some g ↦ g
          ])
          (sym e ∙ wired) in
      rw same (on_vm_cleaned-dead name v)
