-- ===== src/Bridge/Eligibility/Gauges/Loops.antt =====
-- bridge/eligibility.go: the two loops of Observe, by what the gauge of excluded workers reads after
-- them.
use orchard_gh_bridge.Base.{
  ◌≡◌, ◌⊎◌, refl, sym, subst, ◌∙◌, ap, inl, inr, Bool, true, false, ◌&&◌, not, if◌then◌else◌, Text,
  text_eq, text_eq_iff, List, [], ◌∷◌, ◌++◌, length, In, Dict, TextSet, lookup, has, some,
  Bool-cases, Option-cases, ok, err, arith,
}
use orchard_gh_bridge.Bridge.Eligibility.{
  AutoSizeExclusion, same_exclusion, Effect, info_eligible_again, info_not_live, enter, leave,
  effects_of,
}
use orchard_gh_bridge.Bridge.Eligibility.Gauges.{Gauges, apply_effect, apply_effects}
use orchard_gh_bridge.Bridge.Eligibility.Gauges.Queries.{Query, AreTexts}
use orchard_gh_bridge.Bridge.Eligibility.Gauges.Rounds.{
  expected, reading, AreEntries, HasFour, Ran-set, Ran-replace, Ran-delete, Ran-nothing, Round,
  Settles-nothing, after_set, after_delete,
}
use orchard_gh_bridge.Bridge.Eligibility.Gauges.Settled.{
  expected-some, Settles-set, Settles-replace, Settles-delete,
}
use orchard_gh_bridge.Metrics.Keys.{IsPlain}

pub append-apply_effects :
    (scale_set : Text) (xs ys : List Effect) (g g' : Gauges)
    → apply_effects scale_set xs g ≡ ok g'
    → apply_effects scale_set (xs ++ ys) g ≡ apply_effects scale_set ys g'
unfolding apply_effects
append-apply_effects scale_set [] ys g g' e = ground (arith, e)
append-apply_effects scale_set (x ∷ xs) ys g g' e =
    elim (apply_effect scale_set x g)
        as (λ r.
          elim r [ ok h ↦ apply_effects scale_set xs h | err y ↦ err y ] ≡ ok g'
          → elim r [ ok h ↦ apply_effects scale_set (xs ++ ys) h | err y ↦ err y ]
            ≡ apply_effects scale_set ys g') [
              | ok h ↦ λ q. append-apply_effects scale_set xs ys h g' q
              | err y ↦ λ q. absurd (ground (arith, q))
            ]
      e

module _ (scale_set : Text) (prev current : Dict AutoSizeExclusion) where
  -- What a loop over the names has done.
  pub record Looped (must : Text → Bool) (names : List Text) (effects : List Effect) (g g' : Gauges)
      : Type 0 where
    pub done : apply_effects scale_set effects g ≡ ok g'
    pub label_names : g'.excluded.label_names ≡ g.excluded.label_names
    pub eligible : g'.eligible ≡ g.eligible
    pub others :
        (q : Query)
        → AreTexts q
        → text_eq scale_set q.scale_set ≡ false
        → reading q g' ≡ reading q g
    pub stays :
        (q : Query)
        → AreTexts q
        → text_eq scale_set q.scale_set ≡ true
        → reading q g ≡ expected current q
        → reading q g' ≡ expected current q
    pub moves :
        (q : Query)
        → AreTexts q
        → text_eq scale_set q.scale_set ≡ true
        → reading q g ≡ expected prev q
        → (reading q g' ≡ expected current q)
          ⊎ ((reading q g' ≡ expected prev q) × (In q.worker names → must q.worker ≡ false))

  pub loop-Looped :
      (must : Text → Bool) (step : Text → List Effect)
      → ((name : Text) → Round scale_set prev current (must name) name (step name))
      → (names : List Text) (g : Gauges) → HasFour g
      → (g' : Gauges) × Looped must names (effects_of step names) g g'
  unfolding effects_of apply_effects
  loop-Looped must step rounds [] g four = (
    g,
    record {
      done = refl;
      label_names = refl;
      eligible = refl;
      others = λ q hq e. refl;
      stays = λ q hq mine e. e;
      moves = λ q hq mine e. inr (e, λ i. absurd i);
    },
  )
  loop-Looped must step rounds (name ∷ names) g four =
      let round = rounds name in
      let (g1, ran) = round.runs g four in
      let (g2, rest) = loop-Looped must step rounds names g1 (ap length ran.names ∙ four) in
      (
        g2,
        record {
          done =
              append-apply_effects scale_set (step name) (effects_of step names) g g1 ran.done
              ∙ rest.done;
          label_names = rest.label_names ∙ ran.names;
          eligible = rest.eligible ∙ ran.eligible;
          others = λ q hq e.
              rest.others q hq e ∙ (ran.reads q hq ∙ round.settles.others q (reading q g) e);
          stays = λ q hq mine e.
              rest.stays q hq mine
                (ran.reads q hq ∙ (ap (round.f q) e ∙ round.settles.stays q mine));
          moves = λ q hq mine e.
              let now = ran.reads q hq ∙ ap (round.f q) e in
              elim (round.settles.moves q mine) [
                | inl moved ↦ inl (rest.stays q hq mine (now ∙ moved))
                | inr (kept, free) ↦ elim (rest.moves q hq mine (now ∙ kept)) [
                  | inl moved ↦ inl moved
                  | inr (still, later) ↦ inr (
                    still,
                    λ i. elim i [
                      | inl same ↦ subst (λ n. must n ≡ false) (sym same) (free same)
                      | inr deeper ↦ later deeper
                    ],
                  )
                ]
              ];
        },
      )

module _ (scale_set : Text) (hs : IsPlain scale_set) (prev current : Dict AutoSizeExclusion)
    (hp : AreEntries prev) (hc : AreEntries current) where
  same_exclusion-expected :
      (name : Text) (old ex : AutoSizeExclusion) (q : Query)
      → lookup name prev ≡ some old
      → lookup name current ≡ some ex
      → same_exclusion old ex ≡ true
      → q.worker ≡ name
      → expected prev q ≡ expected current q
  unfolding same_exclusion
  same_exclusion-expected name old ex q p c same at = ground (
    arith,
    same,
    text_eq_iff old.pin_label ex.pin_label,
    expected-some name prev q old ((text_eq_iff name q.worker).1 (sym at)) p,
    expected-some name current q ex ((text_eq_iff name q.worker).1 (sym at)) c,
  )

  pub enter-Round :
      (name : Text) → Round scale_set prev current (has name current) name (enter current prev name)
  unfolding enter
  enter-Round name = elim (Option-cases (lookup name current)) [
    | inl c ↦
        rw (c, enter)
          (record {
            f = λ q v. v;
            settles = Settles-nothing scale_set prev current false name (λ q e need. cc);
            runs = λ g four. (g, Ran-nothing scale_set hs g);
          })
    | inr (ex, c) ↦ elim (Option-cases (lookup name prev)) [
      | inl p ↦
          rw (c, p, enter)
            (record {
              f = after_set scale_set ex;
              settles = Settles-set scale_set prev current name ex (hc name ex c).0 p c;
              runs = λ g four. Ran-set scale_set hs ex g (hc name ex c).1 four;
            })
      | inr (old, p) ↦ elim (Bool-cases (same_exclusion old ex)) [
        | inl same ↦
            rw (c, p, same, enter)
              (record {
                f = λ q v. v;
                settles =
                    Settles-nothing scale_set prev current true name
                      (λ q e need. same_exclusion-expected name old ex q p c same e);
                runs = λ g four. (g, Ran-nothing scale_set hs g);
              })
        | inr differ ↦
            rw (c, p, differ, enter)
              (record {
                f = λ q v. after_set scale_set ex q (after_delete scale_set old q v);
                settles =
                    Settles-replace scale_set prev current name old ex (hp name old p).0
                      (hc name ex c).0 p c;
                runs = λ g four.
                    Ran-replace scale_set hs old ex g (hp name old p).1 (hc name ex c).1 four;
              })
      ]
    ]
  ]

  pub leave-Round :
      (present : TextSet) (name : Text)
      → Round scale_set prev current
          (has name prev && not (has name current))
          name
          (leave current prev present name)
  unfolding leave apply_effect
  leave-Round present name = elim (Option-cases (lookup name prev)) [
    | inl p ↦
        rw (p, leave)
          (record {
            f = λ q v. v;
            settles = Settles-nothing scale_set prev current false name (λ q e need. cc);
            runs = λ g four. (g, Ran-nothing scale_set hs g);
          })
    | inr (old, p) ↦ elim (Option-cases (lookup name current)) [
      | inr (ex, c) ↦
          rw (p, c, leave)
            (record {
              f = λ q v. v;
              settles = Settles-nothing scale_set prev current false name (λ q e need. cc);
              runs = λ g four. (g, Ran-nothing scale_set hs g);
            })
      | inl c ↦
          let log = if has name present then info_eligible_again old else info_not_live old in
          let quiet : (h : Gauges) → apply_effect scale_set log h ≡ ok h = λ h. ground arith in
          rw (p, c, leave)
            (record {
              f = after_delete scale_set old;
              settles = Settles-delete scale_set prev current name old (hp name old p).0 p c;
              runs = λ g four. Ran-delete scale_set hs old log g (hp name old p).1 quiet;
            })
    ]
  ]
