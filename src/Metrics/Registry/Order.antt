-- ===== src/Metrics/Registry/Order.antt =====
-- metrics/metrics.go: that the order in which the series of a vec are written leaves no trace in
-- the text.
use mathlib.Core.Quot
use mathlib.Core.Quot.{Quot}
use orchard_gh_bridge.Base.{
  ◌≡◌, refl, ap, inl, inr, Text, text_eq, text_eq_iff, true, false, ◌==◌, length, List, [], ◌∷◌,
  ◌++◌, All, IsMap, lookup, insert, get_or, insert-IsMap, lookup-insert, Dict, Option, none, some,
  Result, panicked, codes, ok, err, Bool-cases, arith,
}
use orchard_gh_bridge.Metrics.{series_key, Vec, update}
use orchard_gh_bridge.Metrics.Registry.{Metric, write_text}
use orchard_gh_bridge.Metrics.Registry.Stable.{IsSame, AreSame, write_text-stable}

-- What a map holds after two keys are written from what stood there.
insert-swap :
    {A : Type 0} (j k i : Text) (f g : Option A → A) (m : Dict A)
    → text_eq k j ≡ false
    → let first = insert k (f (lookup k m)) m in
      let other = insert j (g (lookup j m)) m in
      lookup i (insert j (g (lookup j first)) first)
      ≡ lookup i (insert k (f (lookup k other)) other)
insert-swap j k i f g m apart =
    let back : text_eq j k ≡ false = ground (arith, apart, text_eq_iff j k, text_eq_iff k j) in
    let first = insert k (f (lookup k m)) m in
    let other = insert j (g (lookup j m)) m in
    let left : lookup j first ≡ lookup j m =
      ground (arith, apart, lookup-insert k j (f (lookup k m)) m) in
    let right : lookup k other ≡ lookup k m =
      ground (arith, back, lookup-insert j k (g (lookup j m)) m) in
    rw (left, right)
      (ground (
        arith,
        lookup-insert j i (g (lookup j m)) first,
        lookup-insert k i (f (lookup k m)) other,
        lookup-insert k i (f (lookup k m)) m,
        lookup-insert j i (g (lookup j m)) m,
        text_eq_iff k i,
        text_eq_iff j i,
        text_eq_iff k j,
        apart,
      ))

-- A registry, without the order of the maps in its vecs.
abbrev View : Type 0 → Type 0
View V = Quot (AreSame {V = V})

-- One write and then another, each of which may panic.
abbrev pub both :
    {V : Type 0} → (Vec V → Result (Vec V)) → (Vec V → Result (Vec V)) → Vec V → Result (Vec V)
both f g v = elim (f v) [ err e ↦ err e | ok v' ↦ g v' ]

module _ {V : Type 0} (format : V → Text) where
  text_of : View V → Result Text
  text_of = Quot.lift (hlevel) (write_text format) (write_text-stable format)

  abbrev pub IsMetric : Metric V → Type 0
  IsMetric m = IsMap m.vec.series

  -- WriteText after such writes on one vec of the registry.
  abbrev pub text_after :
      List (Metric V) → Metric V → List (Metric V) → Result (Vec V) → Result Text
  text_after before m after r = elim r [
    | err e ↦ err e
    | ok v ↦ write_text format (before ++ record m { vec = v } ∷ after)
  ]

module _ {V : Type 0} where
  IsSame-refl : (m : Metric V) → IsMap m.vec.series → IsSame m m
  IsSame-refl m h = record {
    name_eq = refl;
    help_eq = refl;
    kind_eq = refl;
    labels_eq = refl;
    is_map = (h, h);
    series_eq = λ k. refl;
  }

  AreSame-refl : (ms : List (Metric V)) → All (λ m. IsMap m.vec.series) ms → AreSame ms ms
  AreSame-refl [] h = tt
  AreSame-refl (m ∷ ms) (h, hs) = (IsSame-refl m h, AreSame-refl ms hs)

  AreSame-at :
      (before after : List (Metric V)) (m m' : Metric V)
      → All (λ m. IsMap m.vec.series) before
      → All (λ m. IsMap m.vec.series) after
      → IsSame m m'
      → AreSame (before ++ m ∷ after) (before ++ m' ∷ after)
  AreSame-at [] after m m' hb ha s = (s, AreSame-refl after ha)
  AreSame-at (b ∷ before) after m m' (h, hb) ha s =
      (IsSame-refl b h, AreSame-at before after m m' hb ha s)

  -- The vec after an update with the right number of values.
  abbrev written : V → (V → V) → List Text → Vec V → Vec V
  written fresh fn values v =
      let old = get_or (values, fresh) (series_key values) v.series in
      record v { series = insert (series_key values) (old.0, fn old.1) v.series }

  written-lookup :
      (fresh : V) (f g : V → V) (xs ys : List Text) (v : Vec V) (k : Text)
      → text_eq (series_key xs) (series_key ys) ≡ false
      → lookup k (written fresh g ys (written fresh f xs v)).series
        ≡ lookup k (written fresh f xs (written fresh g ys v)).series
  written-lookup fresh f g xs ys v k apart =
      insert-swap (series_key ys) (series_key xs) k
        (λ o.
          let old = elim o as (λ p. List Text × V) [ none ↦ (xs, fresh) | some s ↦ s ] in
          (old.0, f old.1))
        (λ o.
          let old = elim o as (λ p. List Text × V) [ none ↦ (ys, fresh) | some s ↦ s ] in
          (old.0, g old.1))
        v.series apart

  update-written :
      (fresh : V) (fn : V → V) (xs : List Text) (v : Vec V)
      → (length xs == length v.label_names) ≡ true
      → update fresh fn xs v ≡ ok (written fresh fn xs v)
  unfolding update
  update-written fresh fn xs v e = rw e refl

  update-panics :
      (fresh : V) (fn : V → V) (xs : List Text) (v : Vec V)
      → (length xs == length v.label_names) ≡ false
      → update fresh fn xs v ≡ err (panicked (codes "metrics: wrong number of label values"))
  unfolding update
  update-panics fresh fn xs v e = rw e refl

module _ {V : Type 0} (format : V → Text) (fresh : V) (f g : V → V) (xs ys : List Text)
    (before after : List (Metric V)) (m : Metric V) where
  swap-IsSame :
      IsMap m.vec.series
      → text_eq (series_key xs) (series_key ys) ≡ false
      → IsSame
          (record m { vec = written fresh g ys (written fresh f xs m.vec) })
          (record m { vec = written fresh f xs (written fresh g ys m.vec) })
  swap-IsSame h apart = record {
    name_eq = refl;
    help_eq = refl;
    kind_eq = refl;
    labels_eq = refl;
    is_map = (
      insert-IsMap _ _ _ (insert-IsMap _ _ m.vec.series h),
      insert-IsMap _ _ _ (insert-IsMap _ _ m.vec.series h),
    );
    series_eq = λ k. written-lookup fresh f g xs ys m.vec k apart;
  }

  -- In whatever order two different series of a vec are written, by Set or Inc, WriteText has the
  -- same text for the registry afterwards, or the same panic has come.
  pub write_text-update :
      All (IsMetric format) before
      → All (IsMetric format) after
      → IsMetric format m
      → text_eq (series_key xs) (series_key ys) ≡ false
      → text_after format before m after (both (update fresh f xs) (update fresh g ys) m.vec)
        ≡ text_after format before m after (both (update fresh g ys) (update fresh f xs) m.vec)
  unfolding text_of
  write_text-update hb ha h apart =
      let same = AreSame-at before after _ _ hb ha (swap-IsSame h apart) in
      let n = length m.vec.label_names in
      let v = m.vec in
      let first = written fresh f xs v in
      let other = written fresh g ys v in
      elim (Bool-cases (length xs == n)) [
        | inl x ↦
            let fx = update-written fresh f xs v x in
            let fx' = update-written fresh f xs other x in
            elim (Bool-cases (length ys == n)) [
              | inl y ↦
                  rw
                    (
                      fx,
                      update-written fresh g ys first y,
                      update-written fresh g ys v y,
                      fx',
                      both,
                      text_after,
                    )
                    (ap (text_of format) (Quot.sound same))
              | inr y ↦
                  rw
                    (
                      fx,
                      update-panics fresh g ys first y,
                      update-panics fresh g ys v y,
                      both,
                      text_after,
                    )
                    refl
            ]
        | inr x ↦
            let fx = update-panics fresh f xs v x in
            elim (Bool-cases (length ys == n)) [
              | inl y ↦
                  rw
                    (
                      fx,
                      update-written fresh g ys v y,
                      update-panics fresh f xs other x,
                      both,
                      text_after,
                    )
                    refl
              | inr y ↦ rw (fx, update-panics fresh g ys v y, both, text_after) refl
            ]
      ]
