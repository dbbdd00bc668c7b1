-- ===== src/Orchard.antt =====
-- orchard/types.go and the Client interface of orchard/client.go.
pub mod Official
use orchard_gh_bridge.Base.{ℕ, Bool, ◌||◌, Text, codes, text_eq, List, Dict, Option, Result, Io}
use orchard_gh_bridge.Base.Time.{Time}

pub record Vm : Type 0 where
  pub name : Text
  pub image : Text
  pub cpu : ℕ
  pub memory : ℕ
  pub nested : Bool
  pub disk_size : ℕ
  pub status : Text
  pub status_message : Text
  pub worker : Text
  -- *VMScript, by its one field ScriptContent
  pub startup_script : Option Text
  pub labels : Dict Text
  pub created_at : Time

pub record Worker : Type 0 where
  pub name : Text
  pub labels : Dict Text
  pub resources : Dict ℕ
  pub scheduling_paused : Bool
  pub last_seen : Time

abbrev pub status_creating : Text
status_creating = codes "creating"

abbrev pub status_running : Text
status_running = codes "running"

abbrev pub status_stopped : Text
status_stopped = codes "stopped"

abbrev pub status_failed : Text
status_failed = codes "failed"

-- The test vm.Status == VMStatusStopped || vm.Status == VMStatusFailed that the callers repeat.
unfoldable pub is_terminal : Vm → Bool
is_terminal vm = text_eq vm.status status_stopped || text_eq vm.status status_failed

-- The interface Client.
pub record Client (W : Type 0) : Type 0 where
  pub create_vm : Vm → Io W Vm
  pub get_vm : Text → Io W Vm
  pub list_vms : Io W (List Vm)
  pub delete_vm : Text → Io W Unit
  pub list_workers : Io W (List Worker)
  pub delete_worker : Text → Io W Unit
  pub ping : Io W Unit
