-- ===== src/Tests/Client.antt =====
-- The Orchard client over a controller that answers or refuses.
use orchard_gh_bridge.Base.{ℕ, ◌≡◌, codes, [], api_error, wrapped, err, arith}
use orchard_gh_bridge.Orchard.Official.{V1Names, V1Client, to_v1_vm, from_v1_vm}
use orchard_gh_bridge.Orchard.Official.Laws.{IsNames, from_v1_vm-to_v1_vm}
use orchard_gh_bridge.Tests.Data.{vm_ci, answers, refuses}

abbrev names : V1Names
names = record {
  pending = codes "pending";
  running = codes "running";
  failed = codes "failed";
  os_darwin = codes "darwin";
  arch_arm64 = codes "arm64";
  runtime_tart = codes "tart";
  restart_never = codes "Never";
}

names-IsNames : IsNames names
names-IsNames = record {
  pending_set = λ e. ground (arith, e);
  running_set = λ e. ground (arith, e);
  failed_set = λ e. ground (arith, e);
  pending-running = λ e. ground (arith, e);
  pending-failed = λ e. ground (arith, e);
  running-failed = λ e. ground (arith, e);
}

-- It accepts what is created, cannot read it back, and answers 404 to a delete.
abbrev controller : V1Client ℕ
controller = record {
  create_vm = λ vm. answers tt;
  get_vm = λ name. refuses;
  list_vms = answers [];
  delete_vm = λ name. λ w. (err (wrapped (codes "request") (api_error 404)), w);
  list_workers = answers [];
  delete_worker = λ name. refuses;
  check = answers tt;
}

from_v1_vm-to_v1_vm_example :
    from_v1_vm names (to_v1_vm names vm_ci)
    ≡ record vm_ci { status = []; status_message = []; worker = []; created_at = 0 }
from_v1_vm-to_v1_vm_example = from_v1_vm-to_v1_vm names names-IsNames vm_ci
