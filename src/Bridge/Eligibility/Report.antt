-- ===== src/Bridge/Eligibility/Report.antt =====
-- bridge/eligibility.go: no worker drops out of a pool silently, and no state is reported twice.
use orchard_gh_bridge.Base.{
  ℕ, ◌+◌, ◌≡◌, ◌⊎◌, refl, inl, inr, ◌==◌, true, if◌then◌else◌, Text, text_eq_refl, List, [], ◌∷◌,
  length, count_if, keep, In, In-keep_of, All, All-In, In-All, Dict, TextSet, lookup, has, some,
  Option-cases, Bool-cases, arith,
}
use orchard_gh_bridge.Base.Sorting.{text_leb, insert_sorted}
use orchard_gh_bridge.Orchard.{Worker}
use orchard_gh_bridge.Bridge.Labels.{worker_matches_labels}
use orchard_gh_bridge.Bridge.AutoSize.{
  pin_identity, pin_counts, exclusion_reason, is_candidate, auto_size_candidates,
  worker_count_for_labels,
}
use orchard_gh_bridge.Bridge.Prune.{name_set}
use orchard_gh_bridge.Bridge.Eligibility.{
  AutoSizeExclusion, reason_place, exclusion_of, exclusions_from, shared_with_of,
  auto_size_exclusions, same_exclusion, sorted_keys, index_exclusions, join_comma, Effect,
  set_eligible, enter, leave, effects_of, observe,
}

module _ (workers : List Worker) (labels : Dict Text) (reserve_cpu reserve_mem : ℕ) where
  abbrev counts : Dict ℕ
  counts = pin_counts workers

  exclusions-count :
      (ws : List Worker)
      → length (exclusions_from workers counts labels reserve_cpu reserve_mem ws)
          + length (keep (is_candidate counts labels reserve_cpu reserve_mem) ws)
        ≡ count_if (λ w. worker_matches_labels w labels) ws
  unfolding exclusions_from exclusion_of is_candidate
  exclusions-count [] = refl
  exclusions-count (w ∷ ws) = ground (arith, exclusions-count ws)

  -- What an exclusion says of a worker.
  pub record IsExcluded (w : Worker) (ex : AutoSizeExclusion) : Type 0 where
    pub named : ex.worker ≡ w.name
    pub because : exclusion_reason w counts reserve_cpu reserve_mem ≡ some ex.reason

  exclusions-In :
      (ws : List Worker) (w : Worker) (ex : AutoSizeExclusion)
      → exclusion_of workers counts labels reserve_cpu reserve_mem w ≡ some ex
      → In w ws
      → In ex (exclusions_from workers counts labels reserve_cpu reserve_mem ws)
  unfolding exclusions_from
  exclusions-In [] w ex e i = absurd i
  exclusions-In (v ∷ ws) w ex e (inl q) =
      let here : exclusion_of workers counts labels reserve_cpu reserve_mem v ≡ some ex =
        rw (← q) e in
      rw (here, exclusions_from) (inl refl)
  exclusions-In (v ∷ ws) w ex e (inr i) =
      let rest = exclusions-In ws w ex e i in
      elim (Option-cases (exclusion_of workers counts labels reserve_cpu reserve_mem v)) [
        | inl q ↦ rw (q, exclusions_from) rest
        | inr (x, q) ↦ rw (q, exclusions_from) (inr rest)
      ]

  reported :
      (w : Worker)
      → In w workers
      → worker_matches_labels w labels ≡ true
      → (In w (auto_size_candidates workers labels reserve_cpu reserve_mem))
        ⊎ ((ex : AutoSizeExclusion) × In ex
              (auto_size_exclusions workers labels reserve_cpu reserve_mem)
            × IsExcluded w ex)
  unfolding auto_size_exclusions auto_size_candidates exclusion_of is_candidate
  reported w i m = elim (Option-cases (exclusion_reason w counts reserve_cpu reserve_mem)) [
    | inl q ↦ inl (
        In-keep_of (is_candidate counts labels reserve_cpu reserve_mem) w workers i
          (ground (arith, m, q)))
    | inr (reason, q) ↦
        let ex : AutoSizeExclusion = record {
          worker = w.name;
          pin_label = pin_identity w;
          reason = reason;
          shared_with = if reason_place reason == 2 then shared_with_of workers w else [];
        } in
        let made : exclusion_of workers counts labels reserve_cpu reserve_mem w ≡ some ex =
          rw (m, q) refl in
        inr (ex, exclusions-In workers w ex made i, record { named = refl; because = q })
  ]

  -- Every live worker that matches the labels is a candidate or reported with the reason why not,
  -- and none is both: the two numbers add up.
  pub auto_size_exclusions_lem :
      ((w : Worker)
        → In w workers
        → worker_matches_labels w labels ≡ true
        → (In w (auto_size_candidates workers labels reserve_cpu reserve_mem))
          ⊎ ((ex : AutoSizeExclusion) × In ex
                (auto_size_exclusions workers labels reserve_cpu reserve_mem)
              × IsExcluded w ex))
      × (length (auto_size_exclusions workers labels reserve_cpu reserve_mem)
            + worker_count_for_labels workers labels reserve_cpu reserve_mem
          ≡ count_if (λ w. worker_matches_labels w labels) workers)
  unfolding auto_size_exclusions worker_count_for_labels auto_size_candidates
  auto_size_exclusions_lem = (reported, exclusions-count workers)

has-insert_sorted :
    (d : Dict AutoSizeExclusion) (s : Text) (ts : List Text)
    → has s d ≡ true
    → All (λ k. has k d ≡ true) ts
    → All (λ k. has k d ≡ true) (insert_sorted s ts)
unfolding insert_sorted
has-insert_sorted d s [] h hs = (h, tt)
has-insert_sorted d s (t ∷ ts) h (ht, hs) =
    let rest = has-insert_sorted d s ts h hs in
    elim (Bool-cases (text_leb s t)) [
      | inl e ↦ rw (e, insert_sorted) (h, (ht, hs))
      | inr e ↦ rw (e, insert_sorted) (ht, rest)
    ]

has-cons :
    (k : Text) (ex : AutoSizeExclusion) (d : Dict AutoSizeExclusion) (ks : List Text)
    → All (λ j. has j d ≡ true) ks
    → All (λ j. has j ((k, ex) ∷ d) ≡ true) ks
unfolding lookup
has-cons k ex d [] h = tt
has-cons k ex d (j ∷ ks) (h, hs) = (ground (arith, h), has-cons k ex d ks hs)

has-sorted_keys : (d : Dict AutoSizeExclusion) → All (λ k. has k d ≡ true) (sorted_keys d)
unfolding sorted_keys lookup
has-sorted_keys [] = tt
has-sorted_keys ((k, ex) ∷ d) =
    has-insert_sorted ((k, ex) ∷ d) k (sorted_keys d) (ground (arith, text_eq_refl k))
      (has-cons k ex d (sorted_keys d) (has-sorted_keys d))

same_exclusion_refl : (ex : AutoSizeExclusion) → same_exclusion ex ex ≡ true
unfolding same_exclusion
same_exclusion_refl ex =
    ground (arith, text_eq_refl ex.pin_label, text_eq_refl (join_comma ex.shared_with))

module _ (current : Dict AutoSizeExclusion) where
  enter-one : (name : Text) → enter current current name ≡ []
  unfolding enter
  enter-one name = elim (Option-cases (lookup name current)) [
    | inl e ↦ ground (arith, e)
    | inr (ex, e) ↦ ground (arith, e, same_exclusion_refl ex)
  ]

  leave-one :
      (present : TextSet) (name : Text)
      → has name current ≡ true
      → leave current current present name ≡ []
  unfolding leave
  leave-one present name h = elim (Option-cases (lookup name current)) [
    | inl e ↦ ground (arith, e)
    | inr (ex, e) ↦ ground (arith, e, h)
  ]

  effects-nil :
      (f : Text → List Effect) (names : List Text)
      → All (λ name. f name ≡ []) names
      → effects_of f names ≡ []
  unfolding effects_of
  effects-nil f [] h = refl
  effects-nil f (name ∷ names) (h, hs) = rw (h, effects_of) (effects-nil f names hs)

  enter-same : (names : List Text) → effects_of (enter current current) names ≡ []
  enter-same names = effects-nil _ names (All-In _ names (λ name i. enter-one name))

  leave-same :
      (present : TextSet) (names : List Text)
      → All (λ k. has k current ≡ true) names
      → effects_of (leave current current present) names ≡ []
  leave-same present names h =
      effects-nil _ names
        (All-In _ names (λ name i. leave-one present name (In-All _ name names i h)))

-- While the state holds, a second Observe logs nothing and touches no series of the excluded
-- workers.
pub observe-again :
    (workers : List Worker) (labels : Dict Text) (reserve_cpu reserve_mem : ℕ)
    (prev : Dict AutoSizeExclusion)
    → let (_, last) = observe workers labels reserve_cpu reserve_mem prev in
      observe workers labels reserve_cpu reserve_mem last
      ≡ (set_eligible (worker_count_for_labels workers labels reserve_cpu reserve_mem) ∷ [], last)
unfolding observe
observe-again workers labels reserve_cpu reserve_mem prev =
    let current =
      index_exclusions [] (auto_size_exclusions workers labels reserve_cpu reserve_mem) in
    rw
      (
        enter-same current (sorted_keys current),
        leave-same current (name_set [] workers) (sorted_keys current) (has-sorted_keys current),
      )
      refl
