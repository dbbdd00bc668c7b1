-- ===== src/Bridge/Eligibility/Gauges.antt =====
-- bridge/eligibility.go: the two gauges of the monitor, and what Observe does to them. The log lines
-- among its effects change nothing here.
pub mod Queries
pub mod Rounds
pub mod Settled
pub mod Loops
pub mod Entries
pub mod Current
pub mod Mirror
use orchard_gh_bridge.Base.{ℕ, Text, codes, List, [], ◌∷◌, Result, ok, err}
use orchard_gh_bridge.Bridge.AutoSize.{Reason}
use orchard_gh_bridge.Bridge.Eligibility.{
  AutoSizeExclusion, Effect, set_excluded, delete_excluded, set_eligible, warn_excluded,
  info_eligible_again, info_not_live,
}
use orchard_gh_bridge.Metrics.{Vec, set_gauge, delete_series}

-- The constants of autosize.go, as the label `reason`.
pub reason_text : Reason → Text
reason_text Reason.scheduling_paused = codes "scheduling_paused"
reason_text Reason.missing_pin_label = codes "missing_pin_label"
reason_text Reason.duplicate_pin_label = codes "duplicate_pin_label"
reason_text Reason.missing_resources = codes "missing_resources"
reason_text Reason.below_reserves = codes "below_reserves"

pub record Gauges : Type 0 where
  pub excluded : Vec ℕ
  pub eligible : Vec ℕ

-- NewEligibilityMonitor
abbrev pub new_gauges : Gauges
new_gauges = record {
  excluded = record {
    label_names = codes "scale_set" ∷ codes "worker" ∷ codes "pin_label" ∷ codes "reason" ∷ [];
    series = [];
  };
  eligible = record { label_names = codes "scale_set" ∷ []; series = [] };
}

-- The label values of the series of an exclusion.
abbrev pub labels_of : Text → AutoSizeExclusion → List Text
labels_of scale_set ex = scale_set ∷ ex.worker ∷ ex.pin_label ∷ reason_text ex.reason ∷ []

pub apply_effect : Text → Effect → Gauges → Result Gauges
apply_effect scale_set (set_excluded ex) g =
    elim (set_gauge 0 1 (labels_of scale_set ex) g.excluded) [
      | ok v ↦ ok (record g { excluded = v })
      | err e ↦ err e
    ]
apply_effect scale_set (delete_excluded ex) g =
    ok (record g { excluded = delete_series (labels_of scale_set ex) g.excluded })
apply_effect scale_set (set_eligible n) g = elim (set_gauge 0 n (scale_set ∷ []) g.eligible) [
  | ok v ↦ ok (record g { eligible = v })
  | err e ↦ err e
]
apply_effect scale_set (warn_excluded ex) g = ok g
apply_effect scale_set (info_eligible_again ex) g = ok g
apply_effect scale_set (info_not_live ex) g = ok g

-- The effects of Observe, in their order.
pub apply_effects : Text → List Effect → Gauges → Result Gauges
apply_effects scale_set [] g = ok g
apply_effects scale_set (x ∷ xs) g = elim (apply_effect scale_set x g) [
  | ok g' ↦ apply_effects scale_set xs g'
  | err e ↦ err e
]
