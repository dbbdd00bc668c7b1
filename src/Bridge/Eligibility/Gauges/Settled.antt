-- ===== src/Bridge/Eligibility/Gauges/Settled.antt =====
-- bridge/eligibility.go: that a round of a loop of Observe settles what the gauge reads.
use orchard_gh_bridge.Base.{
  ℕ, ◌≡◌, refl, subst, inl, inr, ◌==◌, Bool, true, false, ◌&&◌, if◌then◌else◌, Text, text_eq,
  text_eq_iff, Dict, lookup, Option, none, some, Bool-cases, arith,
}
use orchard_gh_bridge.Bridge.Eligibility.{AutoSizeExclusion, reason_place}
use orchard_gh_bridge.Bridge.Eligibility.Gauges.Queries.{Query, is_series}
use orchard_gh_bridge.Bridge.Eligibility.Gauges.Rounds.{expected, after_set, after_delete, Settles}

-- The pin label and the reason of a series are those of the exclusion.
abbrev pub fits : AutoSizeExclusion → Query → Bool
fits ex q = text_eq ex.pin_label q.pin_label && reason_place ex.reason == reason_place q.reason

module _ (name : Text) (d : Dict AutoSizeExclusion) (q : Query) where
  pub expected-some :
      (ex : AutoSizeExclusion)
      → text_eq name q.worker ≡ true
      → lookup name d ≡ some ex
      → expected d q ≡ (if fits ex q then some 1 else none)
  unfolding expected
  expected-some ex same e =
      let at_q : lookup q.worker d ≡ some ex =
        subst (λ k. lookup k d ≡ some ex) ((text_eq_iff name q.worker).0 same) e in
      rw (at_q, expected) refl

  pub expected-none : text_eq name q.worker ≡ true → lookup name d ≡ none → expected d q ≡ none
  unfolding expected
  expected-none same e =
      let at_q : lookup q.worker d ≡ none =
        subst (λ k. lookup k d ≡ none) ((text_eq_iff name q.worker).0 same) e in
      rw (at_q, expected) refl

module _ (scale_set name : Text) (ex : AutoSizeExclusion) (q : Query)
    (named : ex.worker ≡ name) where
  is_series-apart : text_eq name q.worker ≡ false → is_series scale_set ex q ≡ false
  unfolding is_series
  is_series-apart other = rw (named, other) (ground arith)

  is_series-here :
      text_eq scale_set q.scale_set ≡ true
      → text_eq name q.worker ≡ true
      → is_series scale_set ex q ≡ fits ex q
  unfolding is_series
  is_series-here mine same = rw (named, mine, same) refl

is_series-other :
    (scale_set : Text) (ex : AutoSizeExclusion) (q : Query)
    → text_eq scale_set q.scale_set ≡ false
    → is_series scale_set ex q ≡ false
unfolding is_series
is_series-other scale_set ex q other = rw other refl

module _ (scale_set : Text) (prev current : Dict AutoSizeExclusion) (name : Text) where
  -- To settle a round, look at its worker and at the others.
  Settles-of :
      (must : Bool) (f : Query → Option ℕ → Option ℕ)
      → ((q : Query) (v : Option ℕ) → text_eq scale_set q.scale_set ≡ false → f q v ≡ v)
      → ((q : Query) (v : Option ℕ) → text_eq name q.worker ≡ false → f q v ≡ v)
      → ((q : Query)
          → text_eq scale_set q.scale_set ≡ true
          → text_eq name q.worker ≡ true
          → (f q (expected current q) ≡ expected current q)
            × (f q (expected prev q) ≡ expected current q))
      → Settles scale_set prev current must name f
  Settles-of must f others apart here = record {
    others = others;
    stays = λ q mine. elim (Bool-cases (text_eq name q.worker)) [
      | inr other ↦ apart q (expected current q) other
      | inl same ↦ (here q mine same).0
    ];
    moves = λ q mine. elim (Bool-cases (text_eq name q.worker)) [
      | inr other ↦ inr (
        apart q (expected prev q) other,
        λ e. ground (arith, other, text_eq_iff name q.worker, e),
      )
      | inl same ↦ inl (here q mine same).1
    ];
  }

  pub Settles-set :
      (ex : AutoSizeExclusion)
      → ex.worker ≡ name
      → lookup name prev ≡ none
      → lookup name current ≡ some ex
      → Settles scale_set prev current true name (after_set scale_set ex)
  Settles-set ex named p c =
      Settles-of true (after_set scale_set ex)
        (λ q v e. ground (arith, is_series-other scale_set ex q e))
        (λ q v e. ground (arith, is_series-apart scale_set name ex q named e))
        (λ q mine same. (
          ground (
            arith,
            is_series-here scale_set name ex q named mine same,
            expected-some name current q ex same c,
          ),
          ground (
            arith,
            is_series-here scale_set name ex q named mine same,
            expected-some name current q ex same c,
            expected-none name prev q same p,
          ),
        ))

  pub Settles-replace :
      (old ex : AutoSizeExclusion)
      → old.worker ≡ name
      → ex.worker ≡ name
      → lookup name prev ≡ some old
      → lookup name current ≡ some ex
      → Settles scale_set prev current true name
          (λ q v. after_set scale_set ex q (after_delete scale_set old q v))
  Settles-replace old ex old_named named p c =
      Settles-of true (λ q v. after_set scale_set ex q (after_delete scale_set old q v))
        (λ q v e.
          ground (arith, is_series-other scale_set ex q e, is_series-other scale_set old q e))
        (λ q v e. ground (
          arith,
          is_series-apart scale_set name ex q named e,
          is_series-apart scale_set name old q old_named e,
        ))
        (λ q mine same.
          let here = is_series-here scale_set name ex q named mine same in
          let was = is_series-here scale_set name old q old_named mine same in
          let now = expected-some name current q ex same c in
          let before = expected-some name prev q old same p in
          (ground (arith, here, was, now), ground (arith, here, was, now, before)))

  pub Settles-delete :
      (old : AutoSizeExclusion)
      → old.worker ≡ name
      → lookup name prev ≡ some old
      → lookup name current ≡ none
      → Settles scale_set prev current true name (after_delete scale_set old)
  Settles-delete old named p c =
      Settles-of true (after_delete scale_set old)
        (λ q v e. ground (arith, is_series-other scale_set old q e))
        (λ q v e. ground (arith, is_series-apart scale_set name old q named e))
        (λ q mine same.
          let was = is_series-here scale_set name old q named mine same in
          let now = expected-none name current q same c in
          let before = expected-some name prev q old same p in
          (ground (arith, was, now), ground (arith, was, now, before)))
