-- ===== src/Bridge/Scaler/Hydrate.antt =====
-- bridge/bridge.go: HydrateFromOrchard, which adopts the VMs of an earlier run.
use orchard_gh_bridge.Base.{
  ℕ, ◌+◌, ◌≡◌, refl, Bool, ◌||◌, ◌&&◌, not, Text, text_eq, List, [], ◌∷◌, any, Dict, insert, has,
  lookup-insert, some, arith,
}
use orchard_gh_bridge.Orchard.{Vm, is_terminal}
use orchard_gh_bridge.Bridge.Services.{Services}
use orchard_gh_bridge.Bridge.StateView.{Snapshot, StateView, get, managed_vms_for_scale_set}
use orchard_gh_bridge.Bridge.Fleet.{Fleet, Bridge, count_active_vms}
use orchard_gh_bridge.Bridge.Scaler.{adopt, hydrate_from_orchard}

-- The VM of that name runs or starts.
abbrev pub is_running : Text → Vm → Bool
is_running name vm = text_eq vm.name name && not (is_terminal vm)

pub adopt_count :
    (vms : List Vm) (active : Dict Text) (adopted : ℕ)
    → (adopt vms active adopted).1 ≡ adopted + count_active_vms vms
unfolding adopt count_active_vms
adopt_count [] active adopted = omega arith
adopt_count (vm ∷ vms) active adopted = ground (
  arith,
  adopt_count vms active adopted,
  adopt_count vms (insert vm.name vm.name active) (adopted + 1),
)

has-adopt :
    (vms : List Vm) (active : Dict Text) (adopted : ℕ) (name : Text)
    → has name (adopt vms active adopted).0 ≡ (has name active || any (is_running name) vms)
unfolding adopt
has-adopt [] active adopted name = ground arith
has-adopt (vm ∷ vms) active adopted name = ground (
  arith,
  has-adopt vms active adopted name,
  has-adopt vms (insert vm.name vm.name active) (adopted + 1) name,
  lookup-insert vm.name name vm.name active,
)

module _ {W : Type 0} (svc : Services W) where
  -- With a snapshot at hand, HydrateFromOrchard adopts exactly the VMs of the scale set that are
  -- not stopped or failed, and reports their number.
  pub hydrate_from_orchard_lem :
      (b : Bridge W) (f : Fleet W) (s : StateView) (snap : Snapshot)
      → f.view.state ≡ some s
      → (get svc s f.view.world).0.0 ≡ some snap
      → let out = hydrate_from_orchard svc b f in
        let vms = managed_vms_for_scale_set b.scale_set_name snap in
        (out.0.0 ≡ count_active_vms vms)
        × ((name : Text)
            → has name out.1.active_vms ≡ (has name b.active_vms || any (is_running name) vms))
        × (out.2.capacity ≡ f.capacity)
  unfolding hydrate_from_orchard
  hydrate_from_orchard_lem b f s snap e q =
      let vms = managed_vms_for_scale_set b.scale_set_name snap in
      rw (e, q, hydrate_from_orchard)
        (
          omega (arith, adopt_count vms b.active_vms 0),
          λ name. has-adopt vms b.active_vms 0 name,
          refl,
        )
