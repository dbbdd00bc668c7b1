-- ===== src/Bridge/Eligibility/Gauges/Mirror.antt =====
-- bridge/eligibility.go: that the gauges show what Observe saw last.
use orchard_gh_bridge.Base.{
  ℕ, ◌≡◌, refl, sym, ◌∙◌, ap, inl, inr, true, false, ◌&&◌, not, Text, text_eq, text_eq_refl, List,
  [], ◌∷◌, length, In, Dict, lookup, has, some, Option-cases, ok, arith,
}
use orchard_gh_bridge.Orchard.{Worker}
use orchard_gh_bridge.Bridge.AutoSize.{worker_count_for_labels}
use orchard_gh_bridge.Bridge.Prune.{name_set}
use orchard_gh_bridge.Bridge.Eligibility.{
  AutoSizeExclusion, auto_size_exclusions, sorted_keys, index_exclusions, Effect, set_eligible,
  enter, leave, observe,
}
use orchard_gh_bridge.Bridge.Eligibility.Gauges.{Gauges, apply_effect, apply_effects}
use orchard_gh_bridge.Bridge.Eligibility.Gauges.Queries.{Query, AreTexts}
use orchard_gh_bridge.Bridge.Eligibility.Gauges.Entries.{
  AreNamed, In-sorted_keys, auto_size_exclusions-AreEntries,
}
use orchard_gh_bridge.Bridge.Eligibility.Gauges.Rounds.{expected, reading, AreEntries, HasFour}
use orchard_gh_bridge.Bridge.Eligibility.Gauges.Current.{IsCurrent, auto_size_exclusions-IsCurrent}
use orchard_gh_bridge.Bridge.Eligibility.Gauges.Settled.{expected-none}
use orchard_gh_bridge.Bridge.Eligibility.Gauges.Loops.{
  append-apply_effects, Looped, loop-Looped, enter-Round, leave-Round,
}
use orchard_gh_bridge.Metrics.{Vec, series_key, value_of}
use orchard_gh_bridge.Metrics.Series.{set_gauge-IsWritten}
use orchard_gh_bridge.Metrics.Keys.{IsPlain}

-- The gauge of excluded workers shows these exclusions of the scale set, and nothing else of it.
pub record IsMirror (scale_set : Text) (d : Dict AutoSizeExclusion) (g : Gauges) : Type 0 where
  pub four : HasFour g
  pub one : length g.eligible.label_names ≡ 1
  pub entries : AreEntries d
  pub shows :
      (q : Query) → AreTexts q → text_eq scale_set q.scale_set ≡ true → reading q g ≡ expected d q

-- What Observe has done: no panic, the two gauges up to date, other scale sets as they were.
pub record IsObserved (scale_set : Text) (current : Dict AutoSizeExclusion) (count : ℕ)
    (effects : List Effect) (g g' : Gauges) : Type 0 where
  pub done : apply_effects scale_set effects g ≡ ok g'
  pub mirror : IsMirror scale_set current g'
  pub counted : value_of (scale_set ∷ []) g'.eligible ≡ some count
  pub others :
      (q : Query) → AreTexts q → text_eq scale_set q.scale_set ≡ false → reading q g' ≡ reading q g

expected-gone :
    (prev current : Dict AutoSizeExclusion) (q : Query)
    → (In q.worker (sorted_keys current) → has q.worker current ≡ false)
    → (In q.worker (sorted_keys prev) → (has q.worker prev && not (has q.worker current)) ≡ false)
    → expected prev q ≡ expected current q
expected-gone prev current q free free' = elim (Option-cases (lookup q.worker current)) [
  | inr (ex, c) ↦
      let is_in : has q.worker current ≡ true = rw c refl in
      absurd (ground (arith, is_in, free (In-sorted_keys q.worker current is_in)))
  | inl c ↦ elim (Option-cases (lookup q.worker prev)) [
    | inr (old, p) ↦
        let was_in : has q.worker prev ≡ true = rw p refl in
        absurd (ground (arith, was_in, c, free' (In-sorted_keys q.worker prev was_in)))
    | inl p ↦
        expected-none q.worker prev q (text_eq_refl q.worker) p
        ∙ sym (expected-none q.worker current q (text_eq_refl q.worker) c)
  ]
]

module _ (scale_set : Text) (hs : IsPlain scale_set) (prev : Dict AutoSizeExclusion) (g : Gauges)
    (mirror : IsMirror scale_set prev g) where
  end-IsMirror :
      (current : Dict AutoSizeExclusion) (effects effects' : List Effect) (g1 g2 : Gauges)
      → AreEntries current
      → Looped scale_set prev current (λ n. has n current) (sorted_keys current) effects g g1
      → Looped scale_set prev current
          (λ n. has n prev && not (has n current))
          (sorted_keys prev)
          effects'
          g1
          g2
      → IsMirror scale_set current g2
  end-IsMirror current effects effects' g1 g2 hc first second = record {
    four = ap length (second.label_names ∙ first.label_names) ∙ mirror.four;
    one = ap (λ (h : Vec ℕ). length h.label_names) (second.eligible ∙ first.eligible) ∙ mirror.one;
    entries = hc;
    shows = λ q hq mine. elim (first.moves q hq mine (mirror.shows q hq mine)) [
      | inl moved ↦ second.stays q hq mine moved
      | inr (kept, free) ↦ elim (second.moves q hq mine kept) [
        | inl moved ↦ moved
        | inr (still, free') ↦ still ∙ expected-gone prev current q free free'
      ]
    ];
  }

  set_eligible-IsObserved :
      (current : Dict AutoSizeExclusion) (count : ℕ) (h : Gauges)
      → IsMirror scale_set current h
      → (h' : Gauges) × IsObserved scale_set current count (set_eligible count ∷ []) h h'
  unfolding apply_effects apply_effect
  set_eligible-IsObserved current count h m =
      let (v, set) = set_gauge-IsWritten (scale_set ∷ []) h.eligible 0 count (sym m.one) in
      (
        record h { eligible = v },
        record {
          done = rw (set.done, apply_effects) refl;
          mirror = record {
            four = m.four;
            one = ap length set.names ∙ m.one;
            entries = m.entries;
            shows = m.shows;
          };
          counted =
              set.reads (scale_set ∷ []) ∙ rw (text_eq_refl (series_key (scale_set ∷ []))) refl;
          others = λ q hq e. refl;
        },
      )

  -- Where the names and pin labels of the workers are texts, and the gauge shows the exclusions
  -- that Observe saw last, Observe never panics: afterwards the gauge shows, for the scale set,
  -- exactly an entry for each name of a worker given that matches the labels and has a reason
  -- against it, with the pin label and the reason of such a worker; the other gauge shows the
  -- number of candidates, and the series of other scale sets are as they were.
  pub observe-IsObserved :
      (workers : List Worker) (labels : Dict Text) (cpu mem : ℕ)
      → AreNamed workers
      → let (effects, current) = observe workers labels cpu mem prev in
        IsCurrent workers labels cpu mem current
        × ((g' : Gauges) × IsObserved scale_set current
              (worker_count_for_labels workers labels cpu mem)
              effects
              g
              g')
  unfolding observe
  observe-IsObserved workers labels cpu mem named =
      let exs = auto_size_exclusions workers labels cpu mem in
      let current = index_exclusions [] exs in
      let hc : AreEntries current = auto_size_exclusions-AreEntries workers labels cpu mem named in
      let hp = mirror.entries in
      let (g1, first) =
        loop-Looped scale_set prev current (λ n. has n current) (enter current prev)
          (enter-Round scale_set hs prev current hp hc) (sorted_keys current) g mirror.four in
      let (g2, second) =
        loop-Looped scale_set prev current (λ n. has n prev && not (has n current))
          (leave current prev (name_set [] workers))
          (leave-Round scale_set hs prev current hp hc (name_set [] workers)) (sorted_keys prev) g1
          (ap length first.label_names ∙ mirror.four) in
      let m = end-IsMirror current _ _ g1 g2 hc first second in
      let (g3, last) =
        set_eligible-IsObserved current (worker_count_for_labels workers labels cpu mem) g2 m in
      (
        auto_size_exclusions-IsCurrent workers labels cpu mem,
        (
          g3,
          record {
            done =
                append-apply_effects scale_set _ _ g g1 first.done
                ∙ (append-apply_effects scale_set _ _ g1 g2 second.done ∙ last.done);
            mirror = last.mirror;
            counted = last.counted;
            others = λ q hq e. last.others q hq e ∙ (second.others q hq e ∙ first.others q hq e);
          },
        ),
      )
