-- ===== src/Metrics/Registry/Complete.antt =====
-- metrics/metrics.go: that WriteText never panics on what the vecs come to hold.
use orchard_gh_bridge.Base.{
  ◌≡◌, refl, subst, inl, inr, Bool, true, false, Text, List, [], ◌∷◌, length, All, All-In, IsMap,
  lookup, insert, get_or, has, lookup-insert, lookup-erase, insert-IsMap, erase-IsMap, some,
  Option-cases, ok, is_ok, arith,
}
use orchard_gh_bridge.Metrics.{series_key, Vec, update, delete_series}
use orchard_gh_bridge.Metrics.Registry.{
  Metric, series_keys, label_pairs, label_text, series_line, series_lines, write_text,
}
use orchard_gh_bridge.Metrics.Registry.Stable.{In-series_keys}

module _ {V : Type 0} where
  -- What a vec comes to hold: by updates, each of which Set or Inc makes, and by Delete.
  pub data Holds (label_names : List Text) : Vec V → Type 0 where
    new : Holds label_names (record { label_names = label_names; series = [] })
    updated :
        {v v' : Vec V} (fresh : V) (fn : V → V) (values : List Text)
        → Holds label_names v
        → update fresh fn values v ≡ ok v'
        → Holds label_names v'
    deleted :
        {v : Vec V} (values : List Text)
        → Holds label_names v
        → Holds label_names (delete_series values v)

  -- Each series has a value for each label name, and no key comes twice.
  pub record IsWell (v : Vec V) : Type 0 where
    pub is_map : IsMap v.series
    pub full :
        (k : Text) (s : List Text × V)
        → lookup k v.series ≡ some s
        → length s.0 ≡ length v.label_names

  update-IsWell :
      (fresh : V) (fn : V → V) (values : List Text) (v v' : Vec V)
      → IsWell v
      → update fresh fn values v ≡ ok v'
      → IsWell v'
  unfolding update
  update-IsWell fresh fn values v v' h e =
      let key = series_key values in
      let old = get_or (values, fresh) key v.series in
      let made : Vec V = record v { series = insert key (old.0, fn old.1) v.series } in
      let fits : length values ≡ length v.label_names = ground (arith, e) in
      let is : made ≡ v' = ground (arith, e) in
      subst IsWell is (record {
        is_map = insert-IsMap key (old.0, fn old.1) v.series h.is_map;
        full = λ k s q. elim (Option-cases (lookup key v.series)) [
          | inl fresh_one ↦ ground (
            arith,
            q,
            fresh_one,
            fits,
            lookup-insert key k (old.0, fn old.1) v.series,
            h.full k s,
          )
          | inr (was, seen) ↦ ground (
            arith,
            q,
            seen,
            lookup-insert key k (old.0, fn old.1) v.series,
            h.full k s,
            h.full key was,
          )
        ];
      })

  delete_series-IsWell :
      (values : List Text) (v : Vec V) → IsWell v → IsWell (delete_series values v)
  unfolding delete_series
  delete_series-IsWell values v h = record {
    is_map = erase-IsMap (series_key values) v.series h.is_map;
    full = λ k s q. ground (arith, q, lookup-erase (series_key values) k v.series, h.full k s);
  }

  pub Holds-IsWell : {label_names : List Text} {v : Vec V} → Holds label_names v → IsWell v
  unfolding lookup
  Holds-IsWell new = record { is_map = tt; full = λ k s e. absurd (ground (arith, e)) }
  Holds-IsWell (updated {v} {v'} fresh fn values h e) =
      update-IsWell fresh fn values v v' (Holds-IsWell h) e
  Holds-IsWell (deleted {v} values h) = delete_series-IsWell values v (Holds-IsWell h)

label_pairs-is_ok :
    (first : Bool) (names values : List Text)
    → length values ≡ length names
    → is_ok (label_pairs first names values) ≡ true
unfolding label_pairs
label_pairs-is_ok first [] values e = refl
label_pairs-is_ok first (name ∷ names) [] e = absurd (omega arith)
label_pairs-is_ok first (name ∷ names) (value ∷ values) e =
    ground (arith, label_pairs-is_ok false names values)

module _ {V : Type 0} (format : V → Text) where
  series_line-is_ok :
      (m : Metric V) (s : List Text × V)
      → length s.0 ≡ length m.vec.label_names
      → is_ok (series_line format m s) ≡ true
  unfolding series_line label_text
  series_line-is_ok m s e =
      elim m.vec.label_names
          as (λ names.
            length s.0 ≡ length names
            → is_ok (series_line format (record m { vec = record m.vec { label_names = names } }) s)
              ≡ true) [
                | [] ↦ λ q. refl
                | name ∷ names ↦ λ q. ground (arith, label_pairs-is_ok true (name ∷ names) s.0 q)
              ]
        e

  series_lines-is_ok :
      (m : Metric V) (ks : List Text)
      → IsWell m.vec
      → All (λ k. has k m.vec.series ≡ true) ks
      → is_ok (series_lines format m ks) ≡ true
  unfolding series_lines
  series_lines-is_ok m [] h ks = refl
  series_lines-is_ok m (k ∷ ks) h (here, rest) = elim (Option-cases (lookup k m.vec.series)) [
    | inl e ↦ absurd (ground (arith, e, here))
    | inr (s, e) ↦
        ground (arith, e, series_line-is_ok m s (h.full k s e), series_lines-is_ok m ks h rest)
  ]

  -- Whatever Set, Inc and Delete have done to the vecs of a registry, WriteText writes a text: no
  -- label value that it indexes is missing.
  pub write_text-is_ok :
      (ms : List (Metric V))
      → All (λ m. (names : List Text) × Holds names m.vec) ms
      → is_ok (write_text format ms) ≡ true
  unfolding write_text
  write_text-is_ok [] h = refl
  write_text-is_ok (m ∷ ms) ((names, held), h) =
      let keys = All-In _ (series_keys m.vec.series) (λ k i. (In-series_keys k m.vec.series).0 i) in
      ground (
        arith,
        series_lines-is_ok m (series_keys m.vec.series) (Holds-IsWell held) keys,
        write_text-is_ok ms h,
      )
