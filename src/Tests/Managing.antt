-- ===== src/Tests/Managing.antt =====
-- Shares and sessions at concrete inputs.
use orchard_gh_bridge.Base.{
  length, ℕ, ◌+◌, ◌-◌, ◌≡◌, refl, ◌==◌, if◌then◌else◌, true, false, text_eq, codes, List, [], ◌∷◌,
  get_elem?, lookup, none, some, has_prefix, drop_prefix, contains_char, api_error, ok, err, arith,
}
use orchard_gh_bridge.Base.Int.{pos, add_int, to_int}
use orchard_gh_bridge.Bridge.StateView.{
  Snapshot, new_snapshot, get, finish_refresh, managed_vms_for_scale_set, belongs_to,
}
use orchard_gh_bridge.Orchard.{is_terminal}
use orchard_gh_bridge.Bridge.Name.{
  owns, vm_name_prefix, sanitize, replace_char, to_lower, trim_left, trim_right, is_label_char,
}
use orchard_gh_bridge.Bridge.Labels.{
  capacity_for_labels, sum_slots, add_slots, labels_superset, worker_matches_labels,
}
use orchard_gh_bridge.Bridge.Live.{worker_live, live_workers}
use orchard_gh_bridge.Manager.{
  Handle, worker_capacity, active_of, vm_consumes_labeled_worker, find_worker, selects_worker,
  recompute_scale_set_shares,
}
use orchard_gh_bridge.Manager.Shares.{total_active, recompute_scale_set_shares_lem}
use orchard_gh_bridge.Manager.Setup.{
  Github, create_session, opens_within, is_answered, is_open, create_session_lem,
}
use orchard_gh_bridge.Config.{ScaleSetConfig}
use orchard_gh_bridge.Manager.Run.{is_found, wait_for_workers, run_scale_set}
use orchard_gh_bridge.Manager.Run.Workers.{
  AreTold, sees_within, wait_for_workers_lem, run_scale_set-AreTold,
}
use orchard_gh_bridge.Bridge.Fleet.{count_active_vms}
use orchard_gh_bridge.Bridge.Cleanup.{mark_for_deletion}
use orchard_gh_bridge.Manager.Startup.{start_bridge, start_bridge_lem}
use orchard_gh_bridge.Tests.Data.{
  bridge, fleet, ci, vms, workers, ci_labels, services, state, answers,
}

abbrev handle : Handle
handle = record {
  scale_set_name = ci;
  vm_labels = ci_labels;
  auto_size = false;
  reserve_cpu = 0;
  reserve_memory_mib = 0;
  static_max_runners = pos 0;
  max_runners = pos 0;
}

-- The scale sets "ci" and "big" share the workers.
abbrev handles : List Handle
handles = handle ∷ record handle { scale_set_name = codes "big" } ∷ []

abbrev found : Snapshot
found = new_snapshot vms workers 9 (pos 120000000000)

recompute_scale_set_shares_lem_example :
    get_elem? (recompute_scale_set_shares services state handles 7).0 0
    ≡ some (record handle {
      max_runners =
          pos (4 - (total_active found ci_labels handles - active_of found ci_labels handle));
    })
unfolding get finish_refresh worker_capacity capacity_for_labels sum_slots add_slots new_snapshot
    live_workers worker_live worker_matches_labels labels_superset text_eq lookup active_of add_int
    to_int managed_vms_for_scale_set belongs_to owns vm_name_prefix sanitize replace_char to_lower
    trim_left trim_right is_label_char has_prefix drop_prefix contains_char is_terminal
    vm_consumes_labeled_worker find_worker selects_worker
recompute_scale_set_shares_lem_example =
    recompute_scale_set_shares_lem services state handles 7 0 handle 4 found refl refl refl
      (omega arith) (omega arith)

-- A session opens at the second attempt.
abbrev github : Github ℕ
github = record {
  get_runner_group_by_name = λ name. answers (pos 1);
  get_runner_scale_set = λ group name. answers none;
  update_runner_scale_set = λ id desired. answers id;
  create_runner_scale_set = λ desired. answers (pos 3);
  message_session = λ id w. (if w == 0 then err (api_error 409) else ok tt, w + 1);
  sleep = λ d w. (false, w);
}

create_session_lem_example :
    (is_answered (create_session github (pos 3) 0).0 ≡ true)
    × (is_open (create_session github (pos 3) 0).0 ≡ opens_within github 10 1 (pos 3) 0)
create_session_lem_example = create_session_lem github (pos 3) 0 (λ d w. refl)

abbrev config : ScaleSetConfig
config = record {
  name = ci;
  github_config_url = codes "u";
  labels = [];
  runner_group = codes "default";
  max_runners = pos 0;
  vm = bridge.vm_config;
}

wait_for_workers_lem_example :
    is_found (wait_for_workers services (pos 120000000000) github 2 config 0).0
    ≡ sees_within services (pos 120000000000) github 2 config 0
wait_for_workers_lem_example =
    wait_for_workers_lem services (pos 120000000000) github 2 config 0 (λ d w. refl)

run_scale_set-AreTold_example :
    AreTold services
      (pos 120000000000)
      config
      (run_scale_set services
        (pos 120000000000)
        (λ url. answers github)
        (λ id n. answers tt)
        2
        config
        0).0
run_scale_set-AreTold_example =
    run_scale_set-AreTold services (pos 120000000000) (λ url. answers github) (λ id n. answers tt) 2
      config 0

start_bridge_lem_example :
    let (b, f) = start_bridge services (λ v. v) ci (pos 1) bridge.vm_config fleet in
    let running = count_active_vms (managed_vms_for_scale_set ci found) in
    (length b.active_vms ≡ running)
    × (f.capacity ≡ record fleet.capacity { current = pos (1 + running) })
    × (b.on_delete_failed ≡ some mark_for_deletion)
unfolding get finish_refresh managed_vms_for_scale_set belongs_to owns vm_name_prefix sanitize
    replace_char to_lower trim_left trim_right is_label_char has_prefix drop_prefix contains_char
    is_terminal text_eq count_active_vms new_snapshot
start_bridge_lem_example =
    start_bridge_lem services (λ v. v) ci (pos 1) bridge.vm_config fleet state found 1 refl refl
      (((λ e. ground (arith, e)), tt), (tt, tt)) refl (omega arith)
