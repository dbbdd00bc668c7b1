-- ===== src/Metrics.antt =====
-- metrics/metrics.go: gauges and counters by their label values, and the escapes of the text format.
-- A nil registry, the HTTP handler and the print of a float64 are left out; `V` is the values.
pub mod Keys
pub mod Series
pub mod Registry
use orchard_gh_bridge.Base.{
  ℕ, ◌+◌, ◌==◌, Bool, true, false, if◌then◌else◌, Text, codes, List, [], ◌∷◌, ◌++◌, length, Dict,
  lookup, insert, get_or, erase, Option, none, some, Error, Result, ok, err, panicked,
}

-- The byte 0xff, which is no character of a text: here a number above all code points.
abbrev pub separator : ℕ
separator = 0x110000

-- seriesKey: strings.Join(labelValues, "\xff")
unfoldable pub series_key : List Text → Text
series_key [] = []
series_key (s ∷ []) = s
series_key (s ∷ (t ∷ rest)) = s ++ separator ∷ series_key (t ∷ rest)

-- vec, by its label names and its series.
pub record Vec (V : Type 0) : Type 0 where
  pub label_names : List Text
  pub series : Dict (List Text × V)

module _ {V : Type 0} where
  -- vec.update, where `fresh` is the value of a new series; a wrong number of values panics.
  unfoldable pub update : V → (V → V) → List Text → Vec V → Result (Vec V)
  update fresh fn values v =
      if length values == length v.label_names
      then (let key = series_key values in
          let old = get_or (values, fresh) key v.series in
          ok (record v { series = insert key (old.0, fn old.1) v.series }))
      else err (panicked (codes "metrics: wrong number of label values"))

  -- vec.get, with a missing series as `none`.
  unfoldable pub value_of : List Text → Vec V → Option V
  value_of values v = elim (lookup (series_key values) v.series) [ none ↦ none | some s ↦ some s.1 ]

  -- GaugeVec.Set
  pub set_gauge : V → V → List Text → Vec V → Result (Vec V)
  set_gauge zero_value value values v = update zero_value (λ old. value) values v

  -- GaugeVec.Delete
  pub delete_series : List Text → Vec V → Vec V
  delete_series values v = record v { series = erase (series_key values) v.series }

-- CounterVec.Inc
pub inc : List Text → Vec ℕ → Result (Vec ℕ)
inc values v = update 0 (λ old. old + 1) values v

-- escapeLabelValue and escapeHelp: a replacement at each character.
pub escape_label_value : Text → Text
escape_label_value [] = []
escape_label_value (c ∷ s) =
    let rest = escape_label_value s in
    if c == b'\\'
    then b'\\' ∷ b'\\' ∷ rest
    else if c == 10
    then b'\\' ∷ b'n' ∷ rest
    else if c == b'"'
    then b'\\' ∷ b'"' ∷ rest
    else c ∷ rest

pub escape_help : Text → Text
escape_help [] = []
escape_help (c ∷ s) =
    let rest = escape_help s in
    if c == b'\\' then b'\\' ∷ b'\\' ∷ rest else if c == 10 then b'\\' ∷ b'n' ∷ rest else c ∷ rest
