-- ===== src/Tests/Reporting.antt =====
-- Reports and metrics at concrete inputs.
use orchard_gh_bridge.Base.{
  ℕ, ◌+◌, ◌≡◌, ◌⊎◌, true, false, codes, contains_char, List, [], ◌∷◌, length, count_if, In, ◌++◌,
  some,
}
use orchard_gh_bridge.Orchard.{Worker}
use orchard_gh_bridge.Bridge.Labels.{worker_matches_labels}
use orchard_gh_bridge.Bridge.AutoSize.{auto_size_candidates, worker_count_for_labels}
use orchard_gh_bridge.Bridge.Eligibility.{AutoSizeExclusion, auto_size_exclusions}
use orchard_gh_bridge.Bridge.Eligibility.Report.{IsExcluded, auto_size_exclusions_lem}
use orchard_gh_bridge.Metrics.{Vec, escape_label_value}
use orchard_gh_bridge.Metrics.Keys.{read_quoted, read_quoted-escape_label_value}
use orchard_gh_bridge.Tests.Data.{ci_labels, worker_a, worker_b}

-- The worker "b" is paused.
abbrev fleet_workers : List Worker
fleet_workers = worker_a ∷ record worker_b { scheduling_paused = true } ∷ []

auto_size_exclusions_lem_example :
    ((w : Worker)
      → In w fleet_workers
      → worker_matches_labels w ci_labels ≡ true
      → (In w (auto_size_candidates fleet_workers ci_labels 4 4096))
        ⊎ ((ex : AutoSizeExclusion) × In ex (auto_size_exclusions fleet_workers ci_labels 4 4096)
            × IsExcluded fleet_workers ci_labels 4 4096 w ex))
    × (length (auto_size_exclusions fleet_workers ci_labels 4 4096)
          + worker_count_for_labels fleet_workers ci_labels 4 4096
        ≡ count_if (λ w. worker_matches_labels w ci_labels) fleet_workers)
auto_size_exclusions_lem_example = auto_size_exclusions_lem fleet_workers ci_labels 4 4096

abbrev gauge : Vec ℕ
gauge = record { label_names = codes "scale_set" ∷ []; series = [] }

read_quoted-escape_label_value_example :
    (read_quoted (escape_label_value (codes "a\"b") ++ b'"' ∷ codes "} 1")
      ≡ some (codes "a\"b", codes "} 1"))
    × (contains_char 10 (escape_label_value (codes "a\"b")) ≡ false)
read_quoted-escape_label_value_example = read_quoted-escape_label_value (codes "a\"b") (codes "} 1")
