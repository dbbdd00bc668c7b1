-- ===== src/Metrics/Series.antt =====
-- metrics/metrics.go: what a gauge reads after Set and Delete, by the keys of the label values.
use orchard_gh_bridge.Base.{
  ◌≡◌, refl, if◌then◌else◌, Text, text_eq, List, length, insert, get_or, lookup-insert,
  lookup-erase, none, some, ok, arith,
}
use orchard_gh_bridge.Metrics.{series_key, Vec, update, value_of, set_gauge, delete_series}

module _ {V : Type 0} (xs : List Text) (v : Vec V) where
  pub record IsWritten (zero_value value : V) (v' : Vec V) : Type 0 where
    pub done : set_gauge zero_value value xs v ≡ ok v'
    pub names : v'.label_names ≡ v.label_names
    pub reads :
        (ys : List Text)
        → value_of ys v'
          ≡ (if text_eq (series_key xs) (series_key ys) then some value else value_of ys v)

  pub set_gauge-IsWritten :
      (zero_value value : V)
      → length xs ≡ length v.label_names
      → (v' : Vec V) × IsWritten zero_value value v'
  unfolding set_gauge update value_of
  set_gauge-IsWritten zero_value value n =
      let key = series_key xs in
      let old = get_or (xs, zero_value) key v.series in
      (
        record v { series = insert key (old.0, value) v.series },
        record {
          done = ground (arith, n);
          names = refl;
          reads = λ ys. ground (arith, lookup-insert key (series_key ys) (old.0, value) v.series);
        },
      )

  pub value_of-delete_series :
      (ys : List Text)
      → value_of ys (delete_series xs v)
        ≡ (if text_eq (series_key xs) (series_key ys) then none else value_of ys v)
  unfolding delete_series value_of
  value_of-delete_series ys = ground (arith, lookup-erase (series_key xs) (series_key ys) v.series)

  pub label_names-delete_series : (delete_series xs v).label_names ≡ v.label_names
  unfolding delete_series
  label_names-delete_series = refl
