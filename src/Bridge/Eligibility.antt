-- ===== src/Bridge/Eligibility.antt =====
-- bridge/eligibility.go: the workers that an AutoSize scale set cannot use, and how changes are
-- reported. A monitor's calls on the logger and the gauges are the effects that `observe` returns,
-- in their order.
pub mod Report
pub mod Gauges
use orchard_gh_bridge.Base.{
  ℕ, ◌+◌, ◌==◌, ltb, Bool, true, false, ◌&&◌, ◌||◌, not, if◌then◌else◌, Text, text_eq, List, [],
  ◌∷◌, ◌++◌, map, keep, Dict, TextSet, lookup, insert, has, get_or, get_or, Option, none, some,
}
use orchard_gh_bridge.Base.Sorting.{insert_sorted}
use orchard_gh_bridge.Orchard.{Worker}
use orchard_gh_bridge.Bridge.Labels.{worker_matches_labels}
use orchard_gh_bridge.Bridge.AutoSize.{
  Reason, pin_identity, pin_counts, exclusion_reason, worker_count_for_labels,
}
use orchard_gh_bridge.Bridge.Prune.{name_set}

-- AutoSizeExclusion
pub record AutoSizeExclusion : Type 0 where
  pub worker : Text
  pub pin_label : Text
  pub reason : Reason
  pub shared_with : List Text

-- The place of a reason among the constants, to compare reasons by.
pub reason_place : Reason → ℕ
reason_place Reason.scheduling_paused = 0
reason_place Reason.missing_pin_label = 1
reason_place Reason.duplicate_pin_label = 2
reason_place Reason.missing_resources = 3
reason_place Reason.below_reserves = 4

-- The loop over the other workers, for a duplicate pin label.
pub shared_with_of : List Worker → Worker → List Text
shared_with_of workers w =
    map (λ other. other.name)
      (keep
        (λ other. not (text_eq other.name w.name) && text_eq (pin_identity other) (pin_identity w))
        workers)

-- One round of the loop of AutoSizeExclusions.
pub exclusion_of : List Worker → Dict ℕ → Dict Text → ℕ → ℕ → Worker → Option AutoSizeExclusion
exclusion_of workers counts labels reserve_cpu reserve_mem w =
    if worker_matches_labels w labels
    then elim (exclusion_reason w counts reserve_cpu reserve_mem) [
      | none ↦ none
      | some reason ↦ some (record {
        worker = w.name;
        pin_label = pin_identity w;
        reason = reason;
        shared_with = if reason_place reason == 2 then shared_with_of workers w else [];
      })
    ]
    else none

pub exclusions_from :
    List Worker → Dict ℕ → Dict Text → ℕ → ℕ → List Worker → List AutoSizeExclusion
exclusions_from workers counts labels reserve_cpu reserve_mem [] = []
exclusions_from workers counts labels reserve_cpu reserve_mem (w ∷ ws) =
    let rest = exclusions_from workers counts labels reserve_cpu reserve_mem ws in
    elim (exclusion_of workers counts labels reserve_cpu reserve_mem w) [
      | none ↦ rest
      | some ex ↦ ex ∷ rest
    ]

-- AutoSizeExclusions
pub auto_size_exclusions : List Worker → Dict Text → ℕ → ℕ → List AutoSizeExclusion
auto_size_exclusions workers labels reserve_cpu reserve_mem =
    exclusions_from workers (pin_counts workers) labels reserve_cpu reserve_mem workers

-- strings.Join(s, ",")
pub join_comma : List Text → Text
join_comma [] = []
join_comma (s ∷ []) = s
join_comma (s ∷ (t ∷ rest)) = s ++ b',' ∷ join_comma (t ∷ rest)

-- sameExclusion
pub same_exclusion : AutoSizeExclusion → AutoSizeExclusion → Bool
same_exclusion a b =
    reason_place a.reason == reason_place b.reason
    && (text_eq a.pin_label b.pin_label
        && text_eq (join_comma a.shared_with) (join_comma b.shared_with))

-- sortedKeys
pub sorted_keys : Dict AutoSizeExclusion → List Text
sorted_keys [] = []
sorted_keys ((k, ex) ∷ m) = insert_sorted k (sorted_keys m)

-- The map current of Observe, from the exclusions left.
pub index_exclusions : Dict AutoSizeExclusion → List AutoSizeExclusion → Dict AutoSizeExclusion
index_exclusions out [] = out
index_exclusions out (ex ∷ exs) = index_exclusions (insert ex.worker ex out) exs

pub data Effect : Type 0 where
  -- on the gauge of excluded workers
  set_excluded delete_excluded : AutoSizeExclusion → Effect
  set_eligible : ℕ → Effect
  -- on the log
  warn_excluded : AutoSizeExclusion → Effect
  info_eligible_again info_not_live : AutoSizeExclusion → Effect

-- One round of the first loop of Observe: a worker that is excluded now.
pub enter : Dict AutoSizeExclusion → Dict AutoSizeExclusion → Text → List Effect
enter current prev name = elim (lookup name current) [
  | none ↦ []
  | some ex ↦ elim (lookup name prev) [
    | none ↦ set_excluded ex ∷ warn_excluded ex ∷ []
    | some old ↦
        if same_exclusion old ex
        then []
        else delete_excluded old ∷ set_excluded ex ∷ warn_excluded ex ∷ []
  ]
]

-- One round of the second loop: a worker that was excluded before.
pub leave : Dict AutoSizeExclusion → Dict AutoSizeExclusion → TextSet → Text → List Effect
leave current prev present name = elim (lookup name prev) [
  | none ↦ []
  | some old ↦
      if has name current
      then []
      else delete_excluded old
        ∷ (if has name present then info_eligible_again old else info_not_live old)
        ∷ []
]

pub effects_of : (Text → List Effect) → List Text → List Effect
effects_of f [] = []
effects_of f (name ∷ names) = f name ++ effects_of f names

-- Observe, for the scale set's entry of `last`: the effects, and the entry that it leaves.
pub observe :
    List Worker → Dict Text → ℕ → ℕ → Dict AutoSizeExclusion → List Effect × Dict AutoSizeExclusion
observe workers labels reserve_cpu reserve_mem prev =
    let current =
      index_exclusions [] (auto_size_exclusions workers labels reserve_cpu reserve_mem) in
    (
      effects_of (enter current prev) (sorted_keys current)
          ++ (effects_of (leave current prev (name_set [] workers)) (sorted_keys prev)
              ++ set_eligible (worker_count_for_labels workers labels reserve_cpu reserve_mem)
                ∷ []),
      current,
    )

-- Observe, on the whole map last.
pub observe_scale_set :
    Text
    → List Worker
    → Dict Text
    → ℕ
    → ℕ
    → Dict (Dict AutoSizeExclusion)
    → List Effect × Dict (Dict AutoSizeExclusion)
observe_scale_set scale_set workers labels reserve_cpu reserve_mem last =
    let (effects, current) =
      observe workers labels reserve_cpu reserve_mem (get_or [] scale_set last) in
    (effects, insert scale_set current last)
