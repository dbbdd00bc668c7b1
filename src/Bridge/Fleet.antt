-- ===== src/Bridge/Fleet.antt =====
-- bridge/bridge.go: the state of a bridge and what it shares, and the creation of one VM.
use orchard_gh_bridge.Base.{
  ℕ, false, not, Text, codes, List, [], ◌∷◌, count_if, Dict, TextSet, insert, Option, none, some,
  wrapped, Done, ok, err,
}
use orchard_gh_bridge.Base.Int.{ℤ}
use orchard_gh_bridge.Config.{VmConfig}
use orchard_gh_bridge.Orchard.{Vm, is_terminal}
use orchard_gh_bridge.Bridge.Name.{vm_name}
use orchard_gh_bridge.Bridge.Script.{startup_script}
use orchard_gh_bridge.Bridge.Capacity.{Capacity}
use orchard_gh_bridge.Bridge.AutoSize.{pin_label_key}
use orchard_gh_bridge.Bridge.Services.{Services}
use orchard_gh_bridge.Bridge.StateView.{Snapshot, StateView, invalidate, get}

-- What the manager's callbacks may act on: the shared StateView, nil in some tests, and the world,
-- which the GitHub listeners are part of.
pub record View (W : Type 0) : Type 0 where
  pub state : Option StateView
  pub world : W

-- What the bridges share.
pub record Fleet (W : Type 0) : Type 0 where
  pub capacity : Capacity (View W)
  pub view : View W
  -- Cleanup.pendingDeletes
  pub pending_deletes : TextSet

pub record Bridge (W : Type 0) : Type 0 where
  pub scale_set_name : Text
  pub scale_set_id : ℤ
  pub vm_config : VmConfig
  -- onVMChange and onDeleteFailed, which may be nil
  pub on_vm_change : Option (View W → View W)
  pub on_delete_failed : Option {0} (Text → TextSet → TextSet)
  pub placement_cursor : ℕ
  pub active_vms : Dict Text

-- New, for the three values of its Config that it keeps for itself.
unfoldable pub new_bridge : {W : Type 0} → Text → ℤ → VmConfig → Bridge W
new_bridge name id cfg = record {
  scale_set_name = name;
  scale_set_id = id;
  vm_config = cfg;
  on_vm_change = none;
  on_delete_failed = none;
  placement_cursor = 0;
  active_vms = [];
}

-- SetOnVMChange and SetOnDeleteFailed
unfoldable pub set_on_vm_change : {W : Type 0} → (View W → View W) → Bridge W → Bridge W
set_on_vm_change fn b = record b { on_vm_change = some fn }

unfoldable pub set_on_delete_failed :
    {W : Type 0} → (Text → TextSet → TextSet) → Bridge W → Bridge W
set_on_delete_failed fn b = record b { on_delete_failed = some fn }

abbrev pub with_capacity : {W : Type 0} → Capacity (View W) → Fleet W → Fleet W
with_capacity c f = record f { capacity = c }

-- if b.state != nil { b.state.Invalidate() }
abbrev pub invalidate_view : {W : Type 0} → View W → View W
invalidate_view v = record v { state = elim v.state [ none ↦ none | some s ↦ some (invalidate s) ] }

-- b.state.Get(ctx), where the state is not nil.
abbrev pub get_snapshot : {W : Type 0} → Services W → StateView → View W → Option Snapshot × View W
get_snapshot svc s v =
    let (got, s', w) = get svc s v.world in (got.0, record { state = some s'; world = w })

module _ {W : Type 0} where
  -- notifyChange
  unfoldable pub notify_change : Bridge W → View W → View W
  notify_change b v = elim b.on_vm_change [ none ↦ v | some fn ↦ fn v ]

  -- vmSpec, with the fields that Orchard fills left at their zero values
  pub vm_spec : Bridge W → Text → Text → ℕ → ℕ → Dict Text → Vm
  vm_spec b name script cpu memory labels = record {
    name = name;
    image = b.vm_config.image;
    cpu = cpu;
    memory = memory;
    nested = false;
    disk_size = b.vm_config.disk_size;
    status = [];
    status_message = [];
    worker = [];
    startup_script = some script;
    labels = labels;
    created_at = 0;
  }

-- countActiveVMs
unfoldable pub count_active_vms : List Vm → ℕ
count_active_vms vms = count_if (λ vm. not (is_terminal vm)) vms

-- mergePinLabel: a copy of the map, with the pin label set.
pub copy_labels : Dict Text → Dict Text → Dict Text
copy_labels out [] = out
copy_labels out ((k, v) ∷ base) = copy_labels (insert k v out) base

pub merge_pin_label : Dict Text → Text → Dict Text
merge_pin_label base pin = insert pin_label_key pin (copy_labels [] base)

module _ {W : Type 0} (svc : Services W) where
  -- createOneVM, on the bridge and the world.
  unfoldable pub create_one_vm : ℕ → ℕ → Dict Text → Bridge W → W → Done × Bridge W × W
  create_one_vm cpu memory labels b w =
      let (uuid, w1) = svc.new_uuid w in
      let name = vm_name b.scale_set_name uuid in
      let (jit, w2) = svc.generate_jit name b.scale_set_id w1 in
      elim jit [
        | err e ↦ (err (wrapped (codes "generating JIT config") e), b, w2)
        | ok config ↦
            let script = startup_script config b.vm_config.docker_port in
            let (created, w3) =
              svc.orchard.create_vm (vm_spec b name script cpu memory labels) w2 in
            elim created [
              | err e ↦ (err (wrapped (codes "creating VM") e), b, w3)
              | ok _ ↦ (ok tt, record b { active_vms = insert name name b.active_vms }, w3)
            ]
      ]
