-- ===== src/Bridge/Eligibility/Gauges/Current.antt =====
-- bridge/eligibility.go: that the exclusions which Observe keeps are those of the workers given.
use orchard_gh_bridge.Base.{
  ℕ, ◌≡◌, ◌⊎◌, refl, inl, inr, true, Text, text_eq_iff, List, [], ◌∷◌, In, Dict, lookup, insert,
  has, lookup-insert, Option, none, some, ap, sym, ◌∙◌, Option-cases, Bool-cases, text_eq, arith,
}
use orchard_gh_bridge.Orchard.{Worker}
use orchard_gh_bridge.Bridge.Labels.{worker_matches_labels}
use orchard_gh_bridge.Bridge.AutoSize.{Reason, pin_identity, pin_counts, exclusion_reason}
use orchard_gh_bridge.Bridge.Eligibility.{
  AutoSizeExclusion, exclusion_of, exclusions_from, auto_size_exclusions, index_exclusions,
}

index_exclusions-has :
    (name : Text) (out : Dict AutoSizeExclusion) (exs : List AutoSizeExclusion)
    → has name out ≡ true
    → has name (index_exclusions out exs) ≡ true
unfolding index_exclusions
index_exclusions-has name out [] h = h
index_exclusions-has name out (ex ∷ exs) h =
    index_exclusions-has name (insert ex.worker ex out) exs
      (ground (arith, h, lookup-insert ex.worker name ex out))

index_exclusions-In :
    (ex : AutoSizeExclusion) (out : Dict AutoSizeExclusion) (exs : List AutoSizeExclusion)
    → In ex exs
    → has ex.worker (index_exclusions out exs) ≡ true
unfolding index_exclusions
index_exclusions-In ex out [] i = absurd i
index_exclusions-In ex out (x ∷ exs) (inl e) =
    index_exclusions-has ex.worker (insert x.worker x out) exs
      (rw e (ground (arith, lookup-insert x.worker x.worker x out, text_eq_iff x.worker x.worker)))
index_exclusions-In ex out (x ∷ exs) (inr i) = index_exclusions-In ex (insert x.worker x out) exs i

In-index_exclusions :
    (name : Text) (ex : AutoSizeExclusion) (out : Dict AutoSizeExclusion)
    (exs : List AutoSizeExclusion)
    → lookup name (index_exclusions out exs) ≡ some ex
    → (lookup name out ≡ some ex) ⊎ (In ex exs × (ex.worker ≡ name))
unfolding index_exclusions
In-index_exclusions name ex out [] h = inl h
In-index_exclusions name ex out (x ∷ exs) h =
    elim (In-index_exclusions name ex (insert x.worker x out) exs h) [
      | inr (i, e) ↦ inr (inr i, e)
      | inl q ↦ elim (Bool-cases (text_eq x.worker name)) [
        | inl same ↦
            let it : x ≡ ex = ground (arith, q, lookup-insert x.worker name x out, same) in
            let named : x.worker ≡ name = (text_eq_iff x.worker name).0 same in
            inr (rw (← it) (inl refl, named))
        | inr other ↦ inl (ground (arith, q, lookup-insert x.worker name x out, other))
      ]
    ]

module _ (workers : List Worker) (labels : Dict Text) (cpu mem : ℕ) where
  -- Why a worker given is excluded.
  abbrev IsReason : Worker → Reason → Type 0
  IsReason w reason =
      (worker_matches_labels w labels ≡ true)
      × (exclusion_reason w (pin_counts workers) cpu mem ≡ some reason)

  -- The exclusions by worker name: every worker that matches the labels and has a reason against it
  -- is there, and what is there says of a worker given its pin label and the reason against it.
  pub record IsCurrent (current : Dict AutoSizeExclusion) : Type 0 where
    pub complete :
        (w : Worker) (reason : Reason)
        → In w workers
        → IsReason w reason
        → has w.name current ≡ true
    pub sound :
        (name : Text) (ex : AutoSizeExclusion)
        → lookup name current ≡ some ex
        → (w : Worker) × In w workers
          × (w.name ≡ name)
          × (ex.pin_label ≡ pin_identity w)
          × IsReason w ex.reason

  exclusions_from-In :
      (w : Worker) (reason : Reason) (ws : List Worker)
      → In w ws
      → IsReason w reason
      → (ex : AutoSizeExclusion) × In ex
          (exclusions_from workers (pin_counts workers) labels cpu mem ws)
        × (ex.worker ≡ w.name)
  unfolding exclusions_from exclusion_of
  exclusions_from-In w reason [] i r = absurd i
  exclusions_from-In w reason (v ∷ ws) (inl e) (m, q) =
      rw (← e) (rw (m, q, exclusions_from, exclusion_of) (_, inl refl, refl))
  exclusions_from-In w reason (v ∷ ws) (inr i) r =
      let (ex, j, e) = exclusions_from-In w reason ws i r in
      elim (Option-cases (exclusion_of workers (pin_counts workers) labels cpu mem v)) [
        | inl q ↦ rw (q, exclusions_from) (ex, j, e)
        | inr (x, q) ↦ rw (q, exclusions_from) (ex, inr j, e)
      ]

  entry :
      (ex : AutoSizeExclusion) (o : Option AutoSizeExclusion) (rest : List AutoSizeExclusion)
      → In ex (elim o [ none ↦ rest | some x ↦ x ∷ rest ])
      → (o ≡ some ex) ⊎ In ex rest
  entry ex none rest i = inr i
  entry ex (some x) rest (inl e) = inl (ap some (sym e))
  entry ex (some x) rest (inr i) = inr i

  In-exclusions_from :
      (ex : AutoSizeExclusion) (ws : List Worker)
      → In ex (exclusions_from workers (pin_counts workers) labels cpu mem ws)
      → (w : Worker) × In w ws
        × (exclusion_of workers (pin_counts workers) labels cpu mem w ≡ some ex)
  unfolding exclusions_from
  In-exclusions_from ex [] i = absurd i
  In-exclusions_from ex (v ∷ ws) i =
      let made = exclusion_of workers (pin_counts workers) labels cpu mem v in
      let rest = exclusions_from workers (pin_counts workers) labels cpu mem ws in
      elim (entry ex made rest i) [
        | inl e ↦ (v, inl refl, e)
        | inr j ↦ let (w, k, e) = In-exclusions_from ex ws j in (w, inr k, e)
      ]

  exclusion_of-says :
      (w : Worker) (ex : AutoSizeExclusion)
      → exclusion_of workers (pin_counts workers) labels cpu mem w ≡ some ex
      → (w.name ≡ ex.worker) × (ex.pin_label ≡ pin_identity w) × IsReason w ex.reason
  unfolding exclusion_of
  exclusion_of-says w ex e = elim (Bool-cases (worker_matches_labels w labels)) [
    | inr n ↦ absurd (ground (arith, e, n))
    | inl m ↦ elim (Option-cases (exclusion_reason w (pin_counts workers) cpu mem)) [
      | inl n ↦ absurd (ground (arith, e, m, n))
      | inr (reason, r) ↦
          (ground (arith, e, m, r), ground (arith, e, m, r), (m, ground (arith, e, m, r)))
    ]
  ]

  -- Of the exclusions that Observe indexes.
  pub auto_size_exclusions-IsCurrent :
      IsCurrent (index_exclusions [] (auto_size_exclusions workers labels cpu mem))
  unfolding auto_size_exclusions lookup
  auto_size_exclusions-IsCurrent = record {
    complete = λ w reason i r.
        let (ex, j, e) = exclusions_from-In w reason workers i r in
        rw (← e) (index_exclusions-In ex [] (auto_size_exclusions workers labels cpu mem) j);
    sound = λ name ex h.
        elim (In-index_exclusions name ex [] (auto_size_exclusions workers labels cpu mem) h) [
          | inl q ↦ absurd (ground (arith, q))
          | inr (j, e) ↦
              let (w, i, made) = In-exclusions_from ex workers j in
              let (named, pin, why) = exclusion_of-says w ex made in (w, i, named ∙ e, pin, why)
        ];
  }
