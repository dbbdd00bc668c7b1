-- ===== src/Orchard/Official.antt =====
-- orchard/client.go: officialClient over the client library of Orchard, which is a parameter
-- (`V1Client`), and the conversions between its resource types and the program's.
pub mod Laws
pub mod Dial
use orchard_gh_bridge.Base.{
  ℕ, ◌==◌, ◌≡◌, Bool, true, false, if◌then◌else◌, Text, codes, text_eq, List, [], map, Dict, Option,
  none, some, Error, api_error, plain, wrapped, panicked, Result, ok, err, Io, ◌>>=◌, pure,
  wrap_err,
}
use orchard_gh_bridge.Base.Time.{Time}
use orchard_gh_bridge.Orchard.{Vm, Worker, Client, status_creating, status_running, status_failed}

-- The fields of v1.VM that the program sets or reads. `os`, `arch`, `runtime` and
-- `restart_policy` hold the constants that toV1VM names.
pub record V1Vm : Type 0 where
  pub name : Text
  pub image : Text
  pub cpu : ℕ
  pub memory : ℕ
  pub disk_size : ℕ
  pub headless : Bool
  pub nested : Bool
  pub username : Text
  pub password : Text
  pub os : Text
  pub arch : Text
  pub runtime : Text
  pub restart_policy : Text
  pub startup_script : Option Text
  pub labels : Dict Text
  pub status : Text
  pub status_message : Text
  pub worker : Text
  pub created_at : Time

pub record V1Worker : Type 0 where
  pub name : Text
  pub labels : Dict Text
  pub resources : Dict ℕ
  pub scheduling_paused : Bool
  pub last_seen : Time

-- The constants of the resource package.
pub record V1Names : Type 0 where
  pub pending : Text
  pub running : Text
  pub failed : Text
  pub os_darwin : Text
  pub arch_arm64 : Text
  pub runtime_tart : Text
  pub restart_never : Text

-- The services of the client library that the program calls.
pub record V1Client (W : Type 0) : Type 0 where
  pub create_vm : V1Vm → Io W Unit
  pub get_vm : Text → Io W V1Vm
  pub list_vms : Io W (List V1Vm)
  pub delete_vm : Text → Io W Unit
  pub list_workers : Io W (List V1Worker)
  pub delete_worker : Text → Io W Unit
  pub check : Io W Unit

-- ErrNotFound
abbrev pub err_not_found : Error
err_not_found = plain (codes "not found")

-- errors.As finds the first API error of the chain; http.StatusNotFound is 404.
pub is_not_found : Error → Bool
is_not_found (api_error status) = status == 404
is_not_found (plain msg) = false
is_not_found (wrapped msg e) = is_not_found e
is_not_found (panicked msg) = false

module _ (v1 : V1Names) where
  pub to_v1_vm : Vm → V1Vm
  to_v1_vm vm = record {
    name = vm.name;
    image = vm.image;
    cpu = vm.cpu;
    memory = vm.memory;
    disk_size = vm.disk_size;
    headless = true;
    nested = vm.nested;
    username = codes "admin";
    password = codes "admin";
    os = v1.os_darwin;
    arch = v1.arch_arm64;
    runtime = v1.runtime_tart;
    restart_policy = v1.restart_never;
    startup_script = vm.startup_script;
    labels = vm.labels;
    status = [];
    status_message = [];
    worker = [];
    created_at = 0;
  }

  pub map_v1_status : Text → Text
  map_v1_status s =
      if text_eq s v1.pending
      then status_creating
      else if text_eq s v1.running
      then status_running
      else if text_eq s v1.failed
      then status_failed
      else s

  pub from_v1_vm : V1Vm → Vm
  from_v1_vm vm = record {
    name = vm.name;
    image = vm.image;
    cpu = vm.cpu;
    memory = vm.memory;
    nested = vm.nested;
    disk_size = vm.disk_size;
    status = map_v1_status vm.status;
    status_message = vm.status_message;
    worker = vm.worker;
    startup_script = vm.startup_script;
    labels = vm.labels;
    created_at = vm.created_at;
  }

pub from_v1_worker : V1Worker → Worker
from_v1_worker w = record {
  name = w.name;
  labels = w.labels;
  resources = w.resources;
  scheduling_paused = w.scheduling_paused;
  last_seen = w.last_seen;
}

module _ {W : Type 0} (v1 : V1Names) (inner : V1Client W) where
  -- The created VM is read back; where the read fails the request itself is answered.
  pub create_vm : Vm → Io W Vm
  create_vm vm w =
      let (r, w') = inner.create_vm (to_v1_vm v1 vm) w in
      elim r [
        | err e ↦ (err (wrapped (codes "creating VM") e), w')
        | ok _ ↦
            let (got, w'') = inner.get_vm vm.name w' in
            elim got [
              | err e ↦ (ok (from_v1_vm v1 (to_v1_vm v1 vm)), w'')
              | ok created ↦ (ok (from_v1_vm v1 created), w'')
            ]
      ]

  pub get_vm : Text → Io W Vm
  get_vm name w =
      let (r, w') = inner.get_vm name w in
      elim r [
        | ok vm ↦ (ok (from_v1_vm v1 vm), w')
        | err e ↦
            if is_not_found e
            then (err (wrapped (codes "VM") err_not_found), w')
            else (err (wrapped (codes "getting VM") e), w')
      ]

  pub list_vms : Io W (List Vm)
  list_vms = do vms ← wrap_err (codes "listing VMs") inner.list_vms; pure (map (from_v1_vm v1) vms)

  pub delete_vm : Text → Io W Unit
  delete_vm name w =
      let (r, w') = inner.delete_vm name w in
      elim r [
        | ok _ ↦ (ok tt, w')
        | err e ↦
            if is_not_found e then (ok tt, w') else (err (wrapped (codes "deleting VM") e), w')
      ]

  pub list_workers : Io W (List Worker)
  list_workers = do
    workers ← wrap_err (codes "listing workers") inner.list_workers
    pure (map from_v1_worker workers)

  pub delete_worker : Text → Io W Unit
  delete_worker name w =
      let (r, w') = inner.delete_worker name w in
      elim r [
        | ok _ ↦ (ok tt, w')
        | err e ↦
            if is_not_found e then (ok tt, w') else (err (wrapped (codes "deleting worker") e), w')
      ]

  pub ping : Io W Unit
  ping = inner.check

  -- officialClient as a Client.
  pub official_client : Client W
  official_client = record {
    create_vm = create_vm;
    get_vm = get_vm;
    list_vms = list_vms;
    delete_vm = delete_vm;
    list_workers = list_workers;
    delete_worker = delete_worker;
    ping = ping;
  }
