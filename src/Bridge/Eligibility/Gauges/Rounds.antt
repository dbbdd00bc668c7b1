-- ===== src/Bridge/Eligibility/Gauges/Rounds.antt =====
-- bridge/eligibility.go: one round of each of the two loops of Observe, by what the gauge of excluded
-- workers reads after it.
use orchard_gh_bridge.Base.{
  ℕ, ◌≡◌, ◌⊎◌, refl, ◌∙◌, inl, inr, ◌==◌, Bool, true, false, ◌&&◌, if◌then◌else◌, Text, text_eq,
  text_eq_iff, List, [], ◌∷◌, length, Dict, lookup, Option, none, some, Bool-cases, ok, arith,
}
use orchard_gh_bridge.Bridge.Eligibility.{
  AutoSizeExclusion, reason_place, Effect, set_excluded, delete_excluded, warn_excluded,
}
use orchard_gh_bridge.Bridge.Eligibility.Gauges.{Gauges, labels_of, apply_effect, apply_effects}
use orchard_gh_bridge.Bridge.Eligibility.Gauges.Queries.{
  Query, AreTexts, values, is_series, IsTextual, set-IsSeries, delete_series-reads,
}
use orchard_gh_bridge.Metrics.{value_of, delete_series}
use orchard_gh_bridge.Metrics.Series.{label_names-delete_series}
use orchard_gh_bridge.Metrics.Keys.{IsPlain}

-- What a series of the scale set reads while these are its exclusions.
unfoldable pub expected : Dict AutoSizeExclusion → Query → Option ℕ
expected d q = elim (lookup q.worker d) [
  | none ↦ none
  | some ex ↦
      if text_eq ex.pin_label q.pin_label && reason_place ex.reason == reason_place q.reason
      then some 1
      else none
]

-- Each exclusion is kept by its worker's name.
abbrev pub AreEntries : Dict AutoSizeExclusion → Type 0
AreEntries d =
    (k : Text) (ex : AutoSizeExclusion) → lookup k d ≡ some ex → (ex.worker ≡ k) × IsTextual ex

abbrev pub reading : Query → Gauges → Option ℕ
reading q g = value_of (values q) g.excluded

-- What effects do to the gauges, where `f` is what they make of each reading.
pub record Ran (scale_set : Text) (effects : List Effect) (f : Query → Option ℕ → Option ℕ)
    (g g' : Gauges) : Type 0 where
  pub done : apply_effects scale_set effects g ≡ ok g'
  pub names : g'.excluded.label_names ≡ g.excluded.label_names
  pub eligible : g'.eligible ≡ g.eligible
  pub reads : (q : Query) → AreTexts q → reading q g' ≡ f q (reading q g)

abbrev pub HasFour : Gauges → Type 0
HasFour g = length g.excluded.label_names ≡ 4

module _ (scale_set : Text) where
  abbrev pub after_set : AutoSizeExclusion → Query → Option ℕ → Option ℕ
  after_set ex q v = if is_series scale_set ex q then some 1 else v

  abbrev pub after_delete : AutoSizeExclusion → Query → Option ℕ → Option ℕ
  after_delete ex q v = if is_series scale_set ex q then none else v

module _ (scale_set : Text) (hs : IsPlain scale_set) where
  pub Ran-set :
      (ex : AutoSizeExclusion) (g : Gauges)
      → IsTextual ex
      → HasFour g
      → (g' : Gauges) × Ran scale_set
          (set_excluded ex ∷ warn_excluded ex ∷ [])
          (after_set scale_set ex)
          g
          g'
  unfolding apply_effects apply_effect
  Ran-set ex g hex four =
      let (v, set) = set-IsSeries scale_set ex hs hex g.excluded four in
      (
        record g { excluded = v },
        record {
          done = rw (set.done, apply_effects) refl;
          names = set.names;
          eligible = refl;
          reads = set.reads;
        },
      )

  pub Ran-replace :
      (old ex : AutoSizeExclusion) (g : Gauges)
      → IsTextual old
      → IsTextual ex
      → HasFour g
      → (g' : Gauges) × Ran scale_set
          (delete_excluded old ∷ set_excluded ex ∷ warn_excluded ex ∷ [])
          (λ q v. after_set scale_set ex q (after_delete scale_set old q v))
          g
          g'
  unfolding apply_effects apply_effect
  Ran-replace old ex g hold hex four =
      let deleted = delete_series (labels_of scale_set old) g.excluded in
      let kept = label_names-delete_series (labels_of scale_set old) g.excluded in
      let (v, set) = set-IsSeries scale_set ex hs hex deleted (rw kept four) in
      (
        record g { excluded = v },
        record {
          done = rw (set.done, apply_effects) refl;
          names = set.names ∙ kept;
          eligible = refl;
          reads = λ q hq.
              rw (← delete_series-reads scale_set old hs hold g.excluded q hq) (set.reads q hq);
        },
      )

  pub Ran-delete :
      (old : AutoSizeExclusion) (log : Effect) (g : Gauges)
      → IsTextual old
      → ((h : Gauges) → apply_effect scale_set log h ≡ ok h)
      → (g' : Gauges) × Ran scale_set
          (delete_excluded old ∷ log ∷ [])
          (after_delete scale_set old)
          g
          g'
  unfolding apply_effects apply_effect
  Ran-delete old log g hold quiet =
      let deleted = delete_series (labels_of scale_set old) g.excluded in
      let g' : Gauges = record g { excluded = deleted } in
      (
        g',
        record {
          done = rw (quiet g', apply_effects) refl;
          names = label_names-delete_series (labels_of scale_set old) g.excluded;
          eligible = refl;
          reads = delete_series-reads scale_set old hs hold g.excluded;
        },
      )

  pub Ran-nothing : (g : Gauges) → Ran scale_set [] (λ q v. v) g g
  unfolding apply_effects
  Ran-nothing g = record { done = refl; names = refl; eligible = refl; reads = λ q hq. refl }

module _ (scale_set : Text) (prev current : Dict AutoSizeExclusion) where
  -- What a round for one worker makes of a reading: other scale sets keep theirs, and it goes, if at
  -- all, from what the last exclusions make it to what the current ones do, and surely so for the
  -- worker of the round if `must` holds.
  pub record Settles (must : Bool) (name : Text) (f : Query → Option ℕ → Option ℕ) : Type 0 where
    pub others : (q : Query) (v : Option ℕ) → text_eq scale_set q.scale_set ≡ false → f q v ≡ v
    pub stays :
        (q : Query)
        → text_eq scale_set q.scale_set ≡ true
        → f q (expected current q) ≡ expected current q
    pub moves :
        (q : Query)
        → text_eq scale_set q.scale_set ≡ true
        → (f q (expected prev q) ≡ expected current q)
          ⊎ ((f q (expected prev q) ≡ expected prev q) × (q.worker ≡ name → must ≡ false))

  -- A round: its effects run, and settle the readings.
  pub record Round (must : Bool) (name : Text) (effects : List Effect) : Type 0 where
    pub f : Query → Option ℕ → Option ℕ
    pub settles : Settles must name f
    pub runs : (g : Gauges) → HasFour g → (g' : Gauges) × Ran scale_set effects f g g'

  pub Settles-nothing :
      (must : Bool) (name : Text)
      → ((q : Query) → q.worker ≡ name → must ≡ true → expected prev q ≡ expected current q)
      → Settles must name (λ q v. v)
  Settles-nothing must name h = record {
    others = λ q v e. refl;
    stays = λ q mine. refl;
    moves = λ q mine. elim (Bool-cases must) [
      | inr no_need ↦ inr (refl, λ e. no_need)
      | inl need ↦ elim (Bool-cases (text_eq q.worker name)) [
        | inl same ↦ inl (h q ((text_eq_iff q.worker name).0 same) need)
        | inr other ↦ inr (refl, λ e. ground (arith, other, text_eq_iff q.worker name, e))
      ]
    ];
  }
