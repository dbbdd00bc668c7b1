-- ===== src/Tests/Data.antt =====
-- Test data: a controller that counts the calls that it answers, two workers and some VMs.
use orchard_gh_bridge.Base.{
  ℕ, ◌+◌, true, false, Text, codes, List, [], ◌∷◌, Dict, none, some, api_error, refl, arith, ok,
  err, Io,
}
use orchard_gh_bridge.Base.Int.{pos}
use orchard_gh_bridge.Base.Time.{Time}
use orchard_gh_bridge.Orchard.{Vm, Worker, Client, status_running, status_failed}
use orchard_gh_bridge.Bridge.AutoSize.{resource_logical_cores, resource_memory_mib, pin_label_key}
use orchard_gh_bridge.Bridge.Labels.{resource_tart_vms}
use orchard_gh_bridge.Bridge.Capacity.{Capacity}
use orchard_gh_bridge.Bridge.Capacity.Slots.{IsValid}
use orchard_gh_bridge.Bridge.Services.{Services}
use orchard_gh_bridge.Bridge.StateView.{StateView}
use orchard_gh_bridge.Bridge.Fleet.{View, Fleet, Bridge}
use orchard_gh_bridge.Bridge.Cleanup.{Cleanup, mark_for_deletion}

-- The world is the number of calls so far, which is also the time in nanoseconds.
abbrev pub blank_vm : Vm
blank_vm = record {
  name = [];
  image = codes "macos";
  cpu = 4;
  memory = 8192;
  nested = false;
  disk_size = 0;
  status = status_running;
  status_message = [];
  worker = [];
  startup_script = none;
  labels = [];
  created_at = 0;
}

abbrev pub uuid : Text
uuid = codes "0123abcd-0000"

abbrev pub ci : Text
ci = codes "ci"

-- A VM of the scale set "ci" that is on its way to the worker "a", a failed one, and one that the
-- bridge does not manage.
abbrev pub vm_ci : Vm
vm_ci = record blank_vm { name = codes "gha-orchard-ci-0123abcd"; worker = codes "a" }

abbrev pub vm_failed : Vm
vm_failed = record blank_vm { name = codes "gha-orchard-ci-ffff0000"; status = status_failed }

abbrev pub vm_other : Vm
vm_other = record blank_vm { name = codes "lab" }

abbrev pub vms : List Vm
vms = vm_ci ∷ vm_failed ∷ vm_other ∷ []

abbrev pub ci_labels : Dict Text
ci_labels = (codes "pool", ci) ∷ []

abbrev pub worker_of : Text → Time → Worker
worker_of name last_seen = record {
  name = name;
  labels = (codes "pool", ci) ∷ (pin_label_key, name) ∷ [];
  resources =
      (resource_tart_vms, 2) ∷ (resource_logical_cores, 10) ∷ (resource_memory_mib, 16384) ∷ [];
  scheduling_paused = false;
  last_seen = last_seen;
}

abbrev pub worker_a : Worker
worker_a = worker_of (codes "a") 0

abbrev pub worker_b : Worker
worker_b = worker_of (codes "b") 0

abbrev pub workers : List Worker
workers = worker_a ∷ worker_b ∷ []

abbrev pub answers : {A : Type 0} → A → Io ℕ A
answers a w = (ok a, w + 1)

abbrev pub refuses : {A : Type 0} → Io ℕ A
refuses w = (err (api_error 503), w + 1)

abbrev pub client : Client ℕ
client = record {
  create_vm = λ vm. answers vm;
  get_vm = λ name. answers vm_ci;
  list_vms = answers vms;
  delete_vm = λ name. answers tt;
  list_workers = answers workers;
  delete_worker = λ name. answers tt;
  ping = answers tt;
}

abbrev pub services_of : Client ℕ → Services ℕ
services_of c = record {
  orchard = c;
  now = λ w. (w, w + 1);
  new_uuid = λ w. (uuid, w + 1);
  generate_jit = λ name id. answers (codes "jit");
  remove_runner = λ id. answers tt;
  get_runner_by_name = λ name. answers none;
}

abbrev pub services : Services ℕ
services = services_of client

-- A controller that refuses every delete.
abbrev pub failing : Services ℕ
failing = services_of (record client { delete_vm = λ name. refuses })

abbrev pub pool : Capacity (View ℕ)
pool = record { current = pos 1; max = pos 4; callbacks = [] }

abbrev pub pool-IsValid : IsValid pool
pool-IsValid = record {
  used = 1;
  limit = 4;
  current_eq = refl;
  max_eq = refl;
  used_int = omega arith;
  limit_int = omega arith;
}

abbrev pub state : StateView
state = record {
  ttl = pos 5000000000;
  stale_after = pos 120000000000;
  snap = none;
  last_err = none;
}

abbrev pub fleet : Fleet ℕ
fleet = record {
  capacity = pool;
  view = record { state = some state; world = 7 };
  pending_deletes = (vm_ci.name, tt) ∷ [];
}

abbrev pub bridge : Bridge ℕ
bridge = record {
  scale_set_name = ci;
  scale_set_id = pos 1;
  vm_config = record {
    image = codes "macos";
    cpu = 4;
    memory = 8192;
    docker_port = pos 0;
    disk_size = 0;
    labels = ci_labels;
    auto_size = record { enabled = false; reserve_cpu = 0; reserve_memory_mib = 0 };
  };
  on_vm_change = none;
  on_delete_failed = some mark_for_deletion;
  placement_cursor = 0;
  active_vms = (vm_ci.name, vm_ci.name) ∷ [];
}

abbrev pub cleanup : Cleanup ℕ
cleanup = record {
  has_remover = true;
  on_vm_cleaned = none;
  on_sweep = none;
  max_age = pos 7200000000000;
  max_pending_age = pos 600000000000;
  prune_after = pos 1000;
  prune_skip_logged = [];
  pruned_total = 0;
}

-- Services that leave their world alone, but for the calls given, and stop the clock.
abbrev pub still_services :
    {W : Type 0} → (Vm → Io W Vm) → (Text → Io W (Unit {0})) → (Text → Io W (Unit {0})) → Services W
still_services create_vm delete_vm delete_worker = record {
  orchard = record {
    create_vm = create_vm;
    get_vm = λ name w. (ok vm_ci, w);
    list_vms = λ w. (ok vms, w);
    delete_vm = delete_vm;
    list_workers = λ w. (ok workers, w);
    delete_worker = delete_worker;
    ping = λ w. (ok tt, w);
  };
  now = λ w. (10, w);
  new_uuid = λ w. (uuid, w);
  generate_jit = λ name id w. (ok (codes "jit"), w);
  remove_runner = λ id w. (ok tt, w);
  get_runner_by_name = λ name w. (ok none, w);
}

abbrev pub keeps : {W A : Type 0} → A → Io W A
keeps x w = (ok x, w)

-- A delete that is granted, and logged.
abbrev pub logs : Text → Io (List Text) (Unit {0})
logs name log = (ok tt, name ∷ log)
