-- ===== src/Tests/Gauging.antt =====
-- The gauges and the text format at concrete inputs.
use orchard_gh_bridge.Base.{
  ℕ, ◌+◌, ◌≡◌, refl, true, text_eq_iff, insert, Text, text_eq, codes, contains_char, List, [], ◌∷◌,
  lookup, is_ok, arith,
}
use orchard_gh_bridge.Orchard.{Worker}
use orchard_gh_bridge.Bridge.AutoSize.{worker_count_for_labels, pin_identity}
use orchard_gh_bridge.Bridge.Eligibility.{observe}
use orchard_gh_bridge.Bridge.Eligibility.Gauges.{Gauges, new_gauges}
use orchard_gh_bridge.Bridge.Eligibility.Gauges.Rounds.{expected}
use orchard_gh_bridge.Bridge.Eligibility.Gauges.Current.{IsCurrent}
use orchard_gh_bridge.Bridge.Eligibility.Gauges.Mirror.{IsMirror, IsObserved, observe-IsObserved}
use orchard_gh_bridge.Metrics.{Vec, series_key, update, value_of}
use orchard_gh_bridge.Metrics.Registry.{Metric, write_text}
use orchard_gh_bridge.Metrics.Registry.Stable.{write_text-stable}
use orchard_gh_bridge.Metrics.Registry.Order.{both, text_after, write_text-update}
use orchard_gh_bridge.Metrics.Registry.Complete.{new, updated, write_text-is_ok}
use orchard_gh_bridge.Tests.Data.{ci, ci_labels, worker_a, worker_b}

-- The worker "b" is paused.
abbrev fleet_workers : List Worker
fleet_workers = worker_a ∷ record worker_b { scheduling_paused = true } ∷ []

new_gauges-IsMirror : IsMirror ci [] new_gauges
unfolding expected lookup value_of
new_gauges-IsMirror = record {
  four = refl;
  one = refl;
  entries = λ k ex e. absurd (ground (arith, e));
  shows = λ q hq mine. refl;
}

observe-IsObserved_example :
    let (effects, current) = observe fleet_workers ci_labels 4 4096 [] in
    IsCurrent fleet_workers ci_labels 4 4096 current
    × ((g : Gauges) × IsObserved ci current
          (worker_count_for_labels fleet_workers ci_labels 4 4096)
          effects
          new_gauges
          g)
unfolding contains_char pin_identity lookup text_eq
observe-IsObserved_example =
    observe-IsObserved ci refl [] new_gauges new_gauges-IsMirror fleet_workers ci_labels 4 4096
      ((refl, refl), ((refl, refl), tt))

-- A gauge by scale set.
abbrev gauge_of : Vec ℕ → Metric ℕ
gauge_of v = record {
  name = codes "eligible";
  help = codes "workers";
  kind = codes "gauge";
  vec = v;
}

abbrev one_way : Vec ℕ
one_way = record {
  label_names = codes "scale_set" ∷ [];
  series = (codes "a", (codes "a" ∷ [], 1)) ∷ (codes "b", (codes "b" ∷ [], 2)) ∷ [];
}

abbrev other_way : Vec ℕ
other_way = record {
  label_names = codes "scale_set" ∷ [];
  series = (codes "b", (codes "b" ∷ [], 2)) ∷ (codes "a", (codes "a" ∷ [], 1)) ∷ [];
}

-- A print of the numbers below ten.
abbrev digit : ℕ → Text
digit n = (b'0' + n) ∷ []

same_series : (k : Text) → lookup k one_way.series ≡ lookup k other_way.series
unfolding lookup
same_series k = ground (arith, text_eq_iff (codes "a") k, text_eq_iff (codes "b") k)

write_text-stable_example :
    write_text digit (gauge_of one_way ∷ []) ≡ write_text digit (gauge_of other_way ∷ [])
unfolding lookup text_eq
write_text-stable_example =
    write_text-stable digit (gauge_of one_way ∷ []) (gauge_of other_way ∷ []) (
      record {
        name_eq = refl;
        help_eq = refl;
        kind_eq = refl;
        labels_eq = refl;
        is_map = ((refl, (refl, tt)), (refl, (refl, tt)));
        series_eq = same_series;
      },
      tt,
    )

abbrev set_once : Vec ℕ
set_once = record {
  label_names = codes "scale_set" ∷ [];
  series = (codes "ci", (codes "ci" ∷ [], 2)) ∷ [];
}

write_text-is_ok_example : is_ok (write_text digit (gauge_of set_once ∷ [])) ≡ true
unfolding update series_key insert lookup
write_text-is_ok_example =
    write_text-is_ok digit (gauge_of set_once ∷ [])
      ((codes "scale_set" ∷ [], updated 0 (λ old. 2) (codes "ci" ∷ []) new refl), tt)

abbrev set_other : Vec ℕ
set_other = record {
  label_names = codes "scale_set" ∷ [];
  series = (codes "b", (codes "b" ∷ [], 2)) ∷ [];
}

-- The series "a" is set to 3 and "b" to 4, in both orders; "b" is there already, and "a" is not.
write_text-update_example :
    text_after digit []
      (gauge_of set_other)
      (gauge_of one_way ∷ [])
      (both (update 0 (λ old. 3) (codes "a" ∷ [])) (update 0 (λ old. 4) (codes "b" ∷ [])) set_other)
    ≡ text_after digit [] (gauge_of set_other) (gauge_of one_way ∷ []) (
        both
          (update 0 (λ old. 4) (codes "b" ∷ []))
          (update 0 (λ old. 3) (codes "a" ∷ []))
          set_other)
unfolding lookup text_eq series_key
write_text-update_example =
    write_text-update digit 0 (λ old. 3) (λ old. 4) (codes "a" ∷ []) (codes "b" ∷ []) []
      (gauge_of one_way ∷ []) (gauge_of set_other) tt ((refl, (refl, tt)), tt) (refl, tt) refl
