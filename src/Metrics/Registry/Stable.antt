-- ===== src/Metrics/Registry/Stable.antt =====
-- metrics/metrics.go: that the text format always comes out, and does not depend on map order.
use orchard_gh_bridge.Base.{
  ◌≡◌, ◌↔◌, refl, sym, ap, ◌∙◌, inl, inr, true, Text, text_eq, text_eq_iff, List, [], ◌∷◌, In, Dict,
  IsMap, lookup, has, Bool-cases, arith,
}
use orchard_gh_bridge.Base.Sorting.{
  In-insert_sorted, IsAscending, insert_sorted-IsAscending, IsAscending-eq,
}
use orchard_gh_bridge.Metrics.Registry.{
  Metric, series_keys, series_line, series_lines, header_lines, write_text,
}

module _ {A : Type 0} where
  pub In-series_keys : (k : Text) (m : Dict A) → In k (series_keys m) ↔ (has k m ≡ true)
  unfolding series_keys lookup
  In-series_keys k [] = (λ i. absurd i, λ h. absurd (ground (arith, h)))
  In-series_keys k ((j, a) ∷ m) =
      let (to, of) = In-insert_sorted k j (series_keys m) in
      let (into, out) = In-series_keys k m in
      (
        λ i. elim (to i) [
          | inl same ↦ ground (arith, text_eq_iff j k, same)
          | inr deeper ↦ ground (arith, into deeper)
        ],
        λ h. elim (Bool-cases (text_eq j k)) [
          | inl same ↦ of (inl (sym ((text_eq_iff j k).0 same)))
          | inr other ↦ of (inr (out (ground (arith, h, other))))
        ],
      )

  series_keys-IsAscending : (m : Dict A) → IsMap m → IsAscending (series_keys m)
  unfolding series_keys
  series_keys-IsAscending [] h = tt
  series_keys-IsAscending ((k, a) ∷ m) (new, h) =
      insert_sorted-IsAscending k (series_keys m)
        (λ i. ground (arith, new, (In-series_keys k m).0 i)) (series_keys-IsAscending m h)

  -- Maps that hold the same have the same sorted keys.
  series_keys-eq :
      (m m' : Dict A)
      → IsMap m
      → IsMap m'
      → ((k : Text) → lookup k m ≡ lookup k m')
      → series_keys m ≡ series_keys m'
  series_keys-eq m m' h h' same =
      IsAscending-eq (series_keys m) (series_keys m') (series_keys-IsAscending m h)
        (series_keys-IsAscending m' h')
        (λ k i. (In-series_keys k m').1 (ground (arith, same k, (In-series_keys k m).0 i)))
        (λ k i. (In-series_keys k m).1 (ground (arith, same k, (In-series_keys k m').0 i)))

module _ {V : Type 0} where
  -- The same metric, with its series in another order.
  pub record IsSame (m m' : Metric V) : Type 0 where
    pub name_eq : m.name ≡ m'.name
    pub help_eq : m.help ≡ m'.help
    pub kind_eq : m.kind ≡ m'.kind
    pub labels_eq : m.vec.label_names ≡ m'.vec.label_names
    pub is_map : IsMap m.vec.series × IsMap m'.vec.series
    pub series_eq : (k : Text) → lookup k m.vec.series ≡ lookup k m'.vec.series

  abbrev pub AreSame : List (Metric V) → List (Metric V) → Type 0
  AreSame [] [] = Unit
  AreSame [] (m ∷ ms) = ⊥
  AreSame (m ∷ ms) [] = ⊥
  AreSame (m ∷ ms) (m' ∷ ms') = IsSame m m' × AreSame ms ms'

module _ {V : Type 0} (format : V → Text) where
  series_lines-eq :
      (m m' : Metric V) (ks : List Text)
      → IsSame m m'
      → series_lines format m ks ≡ series_lines format m' ks
  unfolding series_lines series_line
  series_lines-eq m m' [] s = refl
  series_lines-eq m m' (k ∷ ks) s =
      ground (arith, s.series_eq k, s.name_eq, s.labels_eq, series_lines-eq m m' ks s)

  -- The text of the registry depends on what its vecs hold only, in whatever order a map gives its
  -- series.
  pub write_text-stable :
      (ms ms' : List (Metric V)) → AreSame ms ms' → write_text format ms ≡ write_text format ms'
  unfolding write_text header_lines
  write_text-stable [] [] s = refl
  write_text-stable [] (m ∷ ms) s = absurd s
  write_text-stable (m ∷ ms) [] s = absurd s
  write_text-stable (m ∷ ms) (m' ∷ ms') (s, ss) =
      let keys = series_keys-eq m.vec.series m'.vec.series s.is_map.0 s.is_map.1 s.series_eq in
      let lines =
        ap (series_lines format m) keys ∙ series_lines-eq m m' (series_keys m'.vec.series) s in
      ground (arith, lines, s.name_eq, s.help_eq, s.kind_eq, write_text-stable ms ms' ss)
