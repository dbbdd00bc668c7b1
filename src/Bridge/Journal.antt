-- ===== src/Bridge/Journal.antt =====
-- What Orchard has done so far, as seen from outside the program: how many VMs it created, which VMs
-- it deleted and which records of workers. The calls that the code makes change it by their answers
-- alone, and no other call does.
use orchard_gh_bridge.Bridge.Name.{vm_name}
use orchard_gh_bridge.Bridge.Script.{startup_script}
use orchard_gh_bridge.Bridge.Growth.{made}
use orchard_gh_bridge.Base.{
  Dict, Io, ◌>>=◌, wrap_err, wrapped, ℕ, ◌+◌, ◌≡◌, refl, ◌∙◌, inl, inr, Text, List, ◌∷◌, Option,
  some, Option-cases, Bool-cases, Result-cases, Result, ok, err, is_ok, if◌then◌else◌, arith,
}
use orchard_gh_bridge.Base.Int.{ℤ, ltb_ℤ}
use orchard_gh_bridge.Base.Time.{Duration, sub_time}
use orchard_gh_bridge.Orchard.{Vm, Worker}
use orchard_gh_bridge.Bridge.Services.{Services}
use orchard_gh_bridge.Bridge.StateView.{
  Snapshot, StateView, new_snapshot, refresh, lead_refresh, get,
}
use orchard_gh_bridge.Bridge.Fleet.{View, Bridge, vm_spec, create_one_vm, notify_change}

-- The reads of the shared view leave `seen` alone.
pub record AreReads {W : Type 0} {A : Type 0} (svc : Services W) (seen : W → A) : Type 0 where
  pub now : (w : W) → seen (svc.now w).1 ≡ seen w
  pub list_vms : (w : W) → seen (svc.orchard.list_vms w).1 ≡ seen w
  pub list_workers : (w : W) → seen (svc.orchard.list_workers w).1 ≡ seen w

-- How many VMs Orchard created.
pub record Births {W : Type 0} (svc : Services W) (born : W → ℕ) : Type 0 where
  pub reads : AreReads svc born
  pub creates :
      (vm : Vm) (w : W)
      → born (svc.orchard.create_vm vm w).1
        ≡ (if is_ok (svc.orchard.create_vm vm w).0 then born w + 1 else born w)
  pub uuids : (w : W) → born (svc.new_uuid w).1 ≡ born w
  pub jits : (name : Text) (id : ℤ) (w : W) → born (svc.generate_jit name id w).1 ≡ born w

-- The names of the VMs that Orchard deleted, the last one first.
pub record Deaths {W : Type 0} (svc : Services W) (dead : W → List Text) : Type 0 where
  pub reads : AreReads svc dead
  pub deletes :
      (name : Text) (w : W)
      → dead (svc.orchard.delete_vm name w).1
        ≡ (if is_ok (svc.orchard.delete_vm name w).0 then name ∷ dead w else dead w)
  pub prunes : (name : Text) (w : W) → dead (svc.orchard.delete_worker name w).1 ≡ dead w
  pub removes : (id : ℤ) (w : W) → dead (svc.remove_runner id w).1 ≡ dead w
  pub looks_up : (name : Text) (w : W) → dead (svc.get_runner_by_name name w).1 ≡ dead w

-- The names of the workers whose records Orchard deleted, the last one first.
abbrev pub Prunes : {W : Type 0} → Services W → (W → List Text) → Type 0
Prunes svc gone =
    (name : Text) (w : _)
    → gone (svc.orchard.delete_worker name w).1
      ≡ (if is_ok (svc.orchard.delete_worker name w).0 then name ∷ gone w else gone w)

-- A callback, if it is set, leaves `seen` alone.
abbrev pub IsQuiet : {W A : Type 0} → (W → A) → Option (View W → View W) → Type 0
IsQuiet seen callback =
    (fn : View _ → View _) → callback ≡ some fn → (v : View _) → seen (fn v).world ≡ seen v.world

module _ {W A B C : Type 0} (seen : W → A) (m : Io W B) (k : B → Io W C) where
  after-seen :
      (w w' : W) (r : Result B)
      → seen w' ≡ seen w
      → ((x : B) (v : W) → seen (k x v).1 ≡ seen v)
      → seen (elim r as (λ (q : Result B). Result C × W) [ ok x ↦ k x w' | err e ↦ (err e, w') ]).1
        ≡ seen w
  after-seen w w' (ok x) first rest = rest x w' ∙ first
  after-seen w w' (err e) first rest = first

  pub bind-seen :
      (w : W)
      → ((v : W) → seen (m v).1 ≡ seen v)
      → ((x : B) (v : W) → seen (k x v).1 ≡ seen v)
      → seen ((m >>= k) w).1 ≡ seen w
  bind-seen w first rest = after-seen w (m w).1 (m w).0 (first w) rest

module _ {W A B : Type 0} (seen : W → A) (msg : Text) (m : Io W B) where
  wrapped-seen :
      (w' : W) (r : Result B)
      → seen
          (elim r as (λ (q : Result B). Result B × W) [
            | ok x ↦ (ok x, w')
            | err e ↦ (err (wrapped msg e), w')
          ]).1
        ≡ seen w'
  wrapped-seen w' (ok x) = refl
  wrapped-seen w' (err e) = refl

  pub wrap_err-seen : (w : W) → seen (m w).1 ≡ seen w → seen (wrap_err msg m w).1 ≡ seen w
  wrap_err-seen w same = wrapped-seen (m w).1 (m w).0 ∙ same

module _ {W : Type 0} {A : Type 0} (svc : Services W) (seen : W → A)
    (reads : AreReads svc seen) where
  read_clock : List Vm → Duration → List Worker → Io W Snapshot
  read_clock vms stale_after workers w =
      let (at, w') = svc.now w in (ok (new_snapshot vms workers at stale_after), w')

  lead_refresh-seen : (s : StateView) (w : W) → seen (lead_refresh svc s w).2 ≡ seen w
  unfolding lead_refresh refresh read_clock
  lead_refresh-seen s w =
      bind-seen seen svc.orchard.list_vms
        (λ vms. svc.orchard.list_workers >>= read_clock vms s.stale_after) w reads.list_vms
        (λ vms v.
          bind-seen seen svc.orchard.list_workers (read_clock vms s.stale_after) v
            reads.list_workers (λ workers u. reads.now u))

  pub get-seen : (s : StateView) (w : W) → seen (get svc s w).2 ≡ seen w
  unfolding get
  get-seen s w = elim (Option-cases s.snap) [
    | inl e ↦ rw (e, get) (lead_refresh-seen s w)
    | inr (snap, e) ↦
        let (now, w') = svc.now w in
        elim (Bool-cases (ltb_ℤ (sub_time now snap.fetched_at) s.ttl)) [
          | inl young ↦ rw (e, young, get) (reads.now w)
          | inr old ↦ rw (e, old, get) (lead_refresh-seen s w' ∙ reads.now w)
        ]
  ]

module _ {W : Type 0} {A : Type 0} (seen : W → A) where
  pub notify_change-seen :
      (b : Bridge W) (v : View W)
      → IsQuiet seen b.on_vm_change
      → seen (notify_change b v).world ≡ seen v.world
  unfolding notify_change
  notify_change-seen b v quiet = elim (Option-cases b.on_vm_change) [
    | inl e ↦ rw (e, notify_change) refl
    | inr (fn, e) ↦ rw (e, notify_change) (quiet fn e v)
  ]

-- A bridge whose callback creates no VM, before and after.
module _ {W : Type 0} (svc : Services W) (born : W → ℕ) (births : Births svc born) where
  pub create_one_vm-born :
      (cpu memory : ℕ) (labels : Dict Text) (b : Bridge W) (w : W)
      → IsQuiet born b.on_vm_change
      → let (r, b', w') = create_one_vm svc cpu memory labels b w in
        IsQuiet born b'.on_vm_change × (born w' ≡ born w + made (some r))
  unfolding create_one_vm
  create_one_vm-born cpu memory labels b w quiet =
      let (uuid, w1) = svc.new_uuid w in
      let name = vm_name b.scale_set_name uuid in
      let (jit, w2) = svc.generate_jit name b.scale_set_id w1 in
      let same : born w2 ≡ born w = births.jits name b.scale_set_id w1 ∙ births.uuids w in
      elim (Result-cases jit) [
        | inr (e, q) ↦ rw (q, create_one_vm) (quiet, omega (arith, same))
        | inl (config, q) ↦
            let script = startup_script config b.vm_config.docker_port in
            let vm = vm_spec b name script cpu memory labels in
            let law = births.creates vm w2 in
            elim (Result-cases (svc.orchard.create_vm vm w2).0) [
              | inr (e, r) ↦ rw (q, r, create_one_vm) (quiet, ground (arith, law, r, same))
              | inl (done, r) ↦ rw (q, r, create_one_vm) (quiet, ground (arith, law, r, same))
            ]
      ]
