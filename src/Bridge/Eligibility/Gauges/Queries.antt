-- ===== src/Bridge/Eligibility/Gauges/Queries.antt =====
-- bridge/eligibility.go: the series of the gauge of excluded workers, told apart by their labels.
use orchard_gh_bridge.Base.{
  ℕ, ◌≡◌, ◌↔◌, refl, sym, ap, inl, inr, ◌==◌, Bool, true, ◌&&◌, if◌then◌else◌, Text, text_eq,
  text_eq_iff, contains_char, List, [], ◌∷◌, length, none, some, Bool-cases, ok, arith,
}
use orchard_gh_bridge.Bridge.AutoSize.{Reason}
use orchard_gh_bridge.Bridge.Eligibility.{AutoSizeExclusion, reason_place}
use orchard_gh_bridge.Bridge.Eligibility.Gauges.{reason_text, labels_of}
use orchard_gh_bridge.Metrics.{series_key, Vec, value_of, set_gauge, delete_series}
use orchard_gh_bridge.Metrics.Series.{set_gauge-IsWritten, value_of-delete_series}
use orchard_gh_bridge.Metrics.Keys.{IsPlain, series_key_injective}

reason_text-eq :
    (a b : Reason) → text_eq (reason_text a) (reason_text b) ≡ (reason_place a == reason_place b)
unfolding reason_text reason_place text_eq
reason_text-eq Reason.scheduling_paused Reason.scheduling_paused = refl
reason_text-eq Reason.scheduling_paused Reason.missing_pin_label = refl
reason_text-eq Reason.scheduling_paused Reason.duplicate_pin_label = refl
reason_text-eq Reason.scheduling_paused Reason.missing_resources = refl
reason_text-eq Reason.scheduling_paused Reason.below_reserves = refl
reason_text-eq Reason.missing_pin_label Reason.scheduling_paused = refl
reason_text-eq Reason.missing_pin_label Reason.missing_pin_label = refl
reason_text-eq Reason.missing_pin_label Reason.duplicate_pin_label = refl
reason_text-eq Reason.missing_pin_label Reason.missing_resources = refl
reason_text-eq Reason.missing_pin_label Reason.below_reserves = refl
reason_text-eq Reason.duplicate_pin_label Reason.scheduling_paused = refl
reason_text-eq Reason.duplicate_pin_label Reason.missing_pin_label = refl
reason_text-eq Reason.duplicate_pin_label Reason.duplicate_pin_label = refl
reason_text-eq Reason.duplicate_pin_label Reason.missing_resources = refl
reason_text-eq Reason.duplicate_pin_label Reason.below_reserves = refl
reason_text-eq Reason.missing_resources Reason.scheduling_paused = refl
reason_text-eq Reason.missing_resources Reason.missing_pin_label = refl
reason_text-eq Reason.missing_resources Reason.duplicate_pin_label = refl
reason_text-eq Reason.missing_resources Reason.missing_resources = refl
reason_text-eq Reason.missing_resources Reason.below_reserves = refl
reason_text-eq Reason.below_reserves Reason.scheduling_paused = refl
reason_text-eq Reason.below_reserves Reason.missing_pin_label = refl
reason_text-eq Reason.below_reserves Reason.duplicate_pin_label = refl
reason_text-eq Reason.below_reserves Reason.missing_resources = refl
reason_text-eq Reason.below_reserves Reason.below_reserves = refl

reason_text-IsPlain : (a : Reason) → IsPlain (reason_text a)
unfolding reason_text contains_char
reason_text-IsPlain Reason.scheduling_paused = refl
reason_text-IsPlain Reason.missing_pin_label = refl
reason_text-IsPlain Reason.duplicate_pin_label = refl
reason_text-IsPlain Reason.missing_resources = refl
reason_text-IsPlain Reason.below_reserves = refl

-- A series of the gauge: the scale set, the worker, its pin label and the reason.
pub record Query : Type 0 where
  pub scale_set : Text
  pub worker : Text
  pub pin_label : Text
  pub reason : Reason

abbrev pub AreTexts : Query → Type 0
AreTexts q = IsPlain q.scale_set × IsPlain q.worker × IsPlain q.pin_label

abbrev pub values : Query → List Text
values q = q.scale_set ∷ q.worker ∷ q.pin_label ∷ reason_text q.reason ∷ []

-- The query is for the series of that exclusion.
unfoldable pub is_series : Text → AutoSizeExclusion → Query → Bool
is_series scale_set ex q =
    text_eq scale_set q.scale_set
    && (text_eq ex.worker q.worker
        && (text_eq ex.pin_label q.pin_label && reason_place ex.reason == reason_place q.reason))

abbrev pub IsTextual : AutoSizeExclusion → Type 0
IsTextual ex = IsPlain ex.worker × IsPlain ex.pin_label

list_inv :
    (a b c d a' b' c' d' : Text)
    → a ∷ b ∷ c ∷ d ∷ [] ≡ a' ∷ b' ∷ c' ∷ d' ∷ []
    → (a ≡ a') × (b ≡ b') × (c ≡ c') × (d ≡ d')
list_inv a b c d a' b' c' d' e = ground (arith, e)

is_series_iff :
    (scale_set : Text) (ex : AutoSizeExclusion) (q : Query)
    → (is_series scale_set ex q ≡ true) ↔ (labels_of scale_set ex ≡ values q)
unfolding is_series
is_series_iff scale_set ex q = (
  λ h. ground (
    arith,
    h,
    text_eq_iff scale_set q.scale_set,
    text_eq_iff ex.worker q.worker,
    text_eq_iff ex.pin_label q.pin_label,
    text_eq_iff (reason_text ex.reason) (reason_text q.reason),
    reason_text-eq ex.reason q.reason,
  ),
  λ e. ground (
    arith,
    list_inv _ _ _ _ _ _ _ _ e,
    text_eq_iff scale_set q.scale_set,
    text_eq_iff ex.worker q.worker,
    text_eq_iff ex.pin_label q.pin_label,
    text_eq_iff (reason_text ex.reason) (reason_text q.reason),
    reason_text-eq ex.reason q.reason,
  ),
)

key-is_series :
    (scale_set : Text) (ex : AutoSizeExclusion) (q : Query)
    → IsPlain scale_set
    → IsTextual ex
    → AreTexts q
    → text_eq (series_key (labels_of scale_set ex)) (series_key (values q))
      ≡ is_series scale_set ex q
key-is_series scale_set ex q hs hex hq =
    let plain_ex = reason_text-IsPlain ex.reason in
    let plain_q = reason_text-IsPlain q.reason in
    let same =
      series_key_injective (labels_of scale_set ex) (values q)
        (hs, (hex.0, (hex.1, (plain_ex, tt)))) (hq.0, (hq.1, (hq.2, (plain_q, tt)))) refl in
    let keys = text_eq_iff (series_key (labels_of scale_set ex)) (series_key (values q)) in
    let (to, of) = is_series_iff scale_set ex q in
    elim (Bool-cases (is_series scale_set ex q)) [
      | inl h ↦ rw h (keys.1 (ap series_key (to h)))
      | inr h ↦
          elim (Bool-cases
            (text_eq (series_key (labels_of scale_set ex)) (series_key (values q)))) [
              | inl k ↦ absurd (ground (arith, h, of (same (keys.0 k))))
              | inr k ↦ rw (h, k) refl
            ]
    ]

module _ (scale_set : Text) (ex : AutoSizeExclusion) (hs : IsPlain scale_set)
    (hex : IsTextual ex) where
  -- Setting the series of an exclusion to 1, and deleting it.
  pub record IsSeries (v v' : Vec ℕ) : Type 0 where
    pub done : set_gauge 0 1 (labels_of scale_set ex) v ≡ ok v'
    pub names : v'.label_names ≡ v.label_names
    pub reads :
        (q : Query)
        → AreTexts q
        → value_of (values q) v'
          ≡ (if is_series scale_set ex q then some 1 else value_of (values q) v)

  pub set-IsSeries : (v : Vec ℕ) → length v.label_names ≡ 4 → (v' : Vec ℕ) × IsSeries v v'
  set-IsSeries v four =
      let (v', set) = set_gauge-IsWritten (labels_of scale_set ex) v 0 1 (sym four) in
      (
        v',
        record {
          done = set.done;
          names = set.names;
          reads = λ q hq. rw (← key-is_series scale_set ex q hs hex hq) (set.reads (values q));
        },
      )

  pub delete_series-reads :
      (v : Vec ℕ) (q : Query)
      → AreTexts q
      → value_of (values q) (delete_series (labels_of scale_set ex) v)
        ≡ (if is_series scale_set ex q then none else value_of (values q) v)
  delete_series-reads v q hq =
      rw (← key-is_series scale_set ex q hs hex hq)
        (value_of-delete_series (labels_of scale_set ex) v (values q))
